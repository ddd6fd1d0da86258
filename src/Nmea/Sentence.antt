-- ===== src/Nmea/Sentence.antt =====
-- crates/nmea/src/lib.rs: `parse`. A text is its UTF-8 bytes. The slice `&line[star + 1..star + 3]` may
-- end inside a character, where Rust panics: that is the outcome `panic`. All other slices end at an
-- ASCII byte or at the text's end.
pub mod Pieces
pub mod Parse
use openseafeed.Base.{
  ℕ, zero, suc, ◌+◌, ◌-◌, ◌^◌, List, [], ◌∷◌, ◌++◌, length, get_or, take, drop, Bytes, codes,
  bytes_eq, Bool, true, false, ◌==◌, ◌||◌, ◌&&◌, not, leb, ltb, if◌then◌else◌, Option, none, some,
  bit_xor, any,
}
use openseafeed.Base.Trim.{trim, is_char_boundary}
use openseafeed.Nmea.Number.{parse_u8}

pub data ParseError : Type 0 where
  not_ais : ParseError
  bad_checksum : (have want : ℕ) → ParseError
  malformed bad_fragment payload_chars : ParseError

pub data Outcome (A : Type 0) : Type 0 where
  ok : A → Outcome A
  err : ParseError → Outcome A
  panic : Outcome A

infixl 5 ◌>>=◌ ◌>>◌
abbrev pub ◌>>=◌ : {A B : Type 0} → Outcome A → (A → Outcome B) → Outcome B
ok a >>= f = f a
err e >>= f = err e
panic >>= f = panic

abbrev pub ◌>>◌ : {B : Type 0} → Outcome (Unit {0}) → Outcome B → Outcome B
m >> k = m >>= λ _. k

-- `if test { return Err(e) }`
abbrev pub fail_if : Bool → ParseError → Outcome (Unit {0})
fail_if true e = err e
fail_if false e = ok tt

-- `ok_or(e)?`
abbrev pub ok_or : {A : Type 0} → Option A → ParseError → Outcome A
ok_or none e = err e
ok_or (some a) e = ok a

pub record Sentence : Type 0 where
  pub raw : Bytes
  pub tag_block : Option Bytes
  pub talker : Bytes
  pub kind : Bytes
  pub fragments : ℕ
  pub fragment : ℕ
  pub seq_id : Bytes
  pub channel : Bytes
  pub payload : Bytes
  pub fill_bits : ℕ

-- `find` of a byte: what stands before it, and behind it.
unfoldable pub split_at : ℕ → Bytes → Option (Bytes × Bytes)
split_at c [] = none
split_at c (a ∷ s) =
    if a == c
    then some ([], s)
    else elim (split_at c s) [ none ↦ none | some (before, after) ↦ some (a ∷ before, after) ]

-- `rfind` of a byte.
unfoldable pub rfind : ℕ → Bytes → Option ℕ
rfind c [] = none
rfind c (a ∷ s) = elim (rfind c s) [
  | some i ↦ some (suc i)
  | none ↦ if a == c then some 0 else none
]

unfoldable pub split : ℕ → Bytes → List Bytes
split c [] = [] ∷ []
split c (a ∷ s) =
    let rest = split c s in
    if a == c then [] ∷ rest else elim rest [ [] ↦ (a ∷ []) ∷ [] | p ∷ ps ↦ (a ∷ p) ∷ ps ]

unfoldable pub xor_fold : ℕ → Bytes → ℕ
xor_fold acc [] = acc
xor_fold acc (b ∷ s) = xor_fold (bit_xor acc b) s

unfoldable pub ends_with : Bytes → Bytes → Bool
ends_with s t = leb (length t) (length s) && bytes_eq (drop (length s - length t) s) t

abbrev pub backslash : ℕ
backslash = b'\\'

-- The TAG block, if there is one, and the line behind it.
unfoldable pub strip_tag_block : Bytes → Outcome (Option Bytes × Bytes)
strip_tag_block [] = ok (none, [])
strip_tag_block (a ∷ s) =
    if a == backslash
    then (do (tag, line) ← ok_or (split_at backslash s) malformed; ok (some tag, line))
    else ok (none, a ∷ s)

-- The two characters behind the last `*`.
unfoldable pub checksum_field : Bytes → ℕ → Outcome Bytes
checksum_field line star =
    if ltb (length line) (star + 3)
    then err malformed
    else if is_char_boundary line (star + 3)
    then ok (take 2 (drop (star + 1) line))
    else panic

-- The text between the first character and the last `*`, when the checksum is right.
unfoldable pub checked_body : Bytes → Outcome Bytes
checked_body line = do
  fail_if (ltb (length line) 10 || not (get_or line 0 0 == b'!') && not (get_or line 0 0 == b'$'))
      not_ais
  star ← ok_or (rfind b'*' line) malformed
  hex ← checksum_field line star
  want ← ok_or (parse_u8 16 hex) malformed
  let body = take (star - 1) (drop 1 line)
  let have = xor_fold 0 body
  fail_if (not (have == want)) (bad_checksum have want)
  ok body

-- `parse` of the fill bits; an empty field is 0.
unfoldable pub parse_fill : Bytes → Outcome ℕ
parse_fill [] = ok 0
parse_fill (c ∷ s) = ok_or (parse_u8 10 (c ∷ s)) malformed

unfoldable pub is_bad_char : ℕ → Bool
is_bad_char c = not (leb 48 c && leb c 119) || leb 88 c && leb c 95

unfoldable pub parse_fields : Bytes → Option Bytes → List Bytes → Outcome Sentence
parse_fields line tag (head ∷ f1 ∷ f2 ∷ f3 ∷ f4 ∷ f5 ∷ f6 ∷ []) = do
  fail_if
      (not (length head == 5) || not (ends_with head (codes "VDM") || ends_with head (codes "VDO")))
      not_ais
  fragments ← ok_or (parse_u8 10 f1) bad_fragment
  fragment ← ok_or (parse_u8 10 f2) bad_fragment
  fail_if (ltb fragments 1 || ltb fragment 1 || ltb fragments fragment) bad_fragment
  fill_bits ← parse_fill f6
  fail_if (ltb 5 fill_bits) malformed
  fail_if (any is_bad_char f5) payload_chars
  ok (record {
    raw = line;
    tag_block = tag;
    talker = take 2 head;
    kind = drop 2 head;
    fragments = fragments;
    fragment = fragment;
    seq_id = f3;
    channel = f4;
    payload = f5;
    fill_bits = fill_bits;
  })
parse_fields line tag _ = err malformed

unfoldable pub parse : Bytes → Outcome Sentence
parse text = do
  (tag, line) ← strip_tag_block (trim text)
  body ← checked_body line
  parse_fields line tag (split b',' body)
