-- ===== src/Feed.antt =====
-- crates/feed/src/lib.rs: the envelope of a raw message and `subjects`. A text is UTF-8, so a character
-- is a byte that is no continuation, and the continuations behind it.
pub mod Subjects
pub mod Wire
pub mod Headers
use openseafeed.Base.{
  ℕ, List, [], ◌∷◌, ◌++◌, length, Bytes, codes, Bool, ◌==◌, ◌&&◌, ◌||◌, leb, ltb, if◌then◌else◌,
}

pub record RawEnvelope : Type 0 where
  pub sentences : List Bytes
  pub payload : Bytes
  pub fill_bits : ℕ
  pub channel : Bytes
  pub station_id : Bytes
  pub source : Bytes
  pub received_at_ms : ℕ

unfoldable pub is_continuation : ℕ → Bool
is_continuation c = leb 128 c && ltb c 192

-- `char::is_ascii_alphanumeric`
unfoldable pub is_ascii_alphanumeric : ℕ → Bool
is_ascii_alphanumeric c =
    leb b'0' c && leb c b'9' || leb b'A' c && leb c b'Z' || leb b'a' c && leb c b'z'

unfoldable pub is_token_char : ℕ → Bool
is_token_char c = is_ascii_alphanumeric c || c == b'-' || c == b'_'

-- The `map` over the characters.
unfoldable pub token_chars : Bytes → Bytes
token_chars [] = []
token_chars (c ∷ s) =
    let rest = token_chars s in
    if is_continuation c then rest else if is_token_char c then c ∷ rest else b'_' ∷ rest

unfoldable pub sanitize_token : Bytes → Bytes
sanitize_token text = elim (token_chars text) [ [] ↦ b'_' ∷ [] | c ∷ s ↦ c ∷ s ]

unfoldable pub raw : Bytes → Bytes
raw station_id = codes "ais.raw." ++ sanitize_token station_id

abbrev pub no_position : Bytes
no_position = codes "ais.decoded.none"

-- The loop that puts a dot before each character.
unfoldable pub dotted : Bytes → Bytes
dotted [] = []
dotted (c ∷ s) = if is_continuation c then c ∷ dotted s else b'.' ∷ c ∷ dotted s

unfoldable pub decoded : Bytes → Bytes
decoded [] = no_position
decoded (c ∷ s) = codes "ais.decoded" ++ dotted (c ∷ s)

unfoldable pub decoded_pattern : Bytes → Bytes
decoded_pattern [] = codes "ais.decoded.>"
decoded_pattern (c ∷ s) =
    codes "ais.decoded" ++ (dotted (c ∷ s) ++ (if ltb (length (c ∷ s)) 4 then codes ".>" else []))
