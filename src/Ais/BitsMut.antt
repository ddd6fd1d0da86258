-- ===== src/Ais/BitsMut.antt =====
-- crates/ais/src/encode.rs, `BitsMut`: the bit accumulator that armors into an AIVDM payload.
pub mod Pushes
use openseafeed.Base.{
  ℕ, zero, suc, ◌+◌, ◌-◌, ◌*◌, ◌/◌, ◌%◌, ◌^◌, List, [], ◌∷◌, ◌++◌, get_or, Bytes, Bool, true, false,
  ◌&&◌, ltb, leb, ◌==◌, if◌then◌else◌,
}
use openseafeed.Base.Int.{ℤ, pos, negsuc}
use openseafeed.Ais.Bits.{bit_at, set_at}

pub record BitsMut : Type 0 where
  pub b : List ℕ
  pub n : ℕ

abbrev pub new : BitsMut
new = record { b = []; n = 0 }

-- A new byte, when the last one is full.
unfoldable pub grow : BitsMut → List ℕ
grow m = if m.n % 8 == 0 then m.b ++ 0 ∷ [] else m.b

-- One round of `push_uint`.
unfoldable pub push_bit : BitsMut → Bool → BitsMut
push_bit m bit = record { b = if bit then set_at (grow m) m.n else grow m; n = m.n + 1 }

-- `for i in (0..len).rev()`; `(v >> i) & 1` is `v / 2 ^ i % 2`.
unfoldable pub push_uint : BitsMut → (v len : ℕ) → BitsMut
push_uint m v zero = m
push_uint m v (suc i) = push_uint (push_bit m (v / 2 ^ i % 2 == 1)) v i

-- `v as u64`
unfoldable pub as_u64 : ℤ → ℕ
as_u64 (pos n) = n % 2 ^ 64
as_u64 (negsuc n) = 2 ^ 64 - 1 - n % 2 ^ 64

-- `& ((1 << len) - 1)` is `% 2 ^ len`.
unfoldable pub push_int : BitsMut → ℤ → ℕ → BitsMut
push_int m v len = push_uint m (as_u64 v % 2 ^ len) len

unfoldable pub push_bool : BitsMut → Bool → BitsMut
push_bool m v = push_uint m (if v then 1 else 0) 1

unfoldable pub to_ascii_uppercase : ℕ → ℕ
to_ascii_uppercase c = if leb b'a' c && leb c b'z' then c - 32 else c

-- The six bits of a character.
unfoldable pub six_bit : ℕ → ℕ
six_bit byte =
    let c = to_ascii_uppercase byte in
    let d = if leb 64 c then c - 64 else c in if ltb 63 d then 0 else d

-- `for i in 0..chars`, the text past index `i` in hand.
unfoldable pub push_chars : BitsMut → Bytes → ℕ → BitsMut
push_chars m s zero = m
push_chars m [] (suc left) = push_chars (push_uint m 0 6) [] left
push_chars m (c ∷ s) (suc left) = push_chars (push_uint m (six_bit c) 6) s left

unfoldable pub push_str : BitsMut → Bytes → ℕ → BitsMut
push_str m s len = push_chars m s (len / 6)

unfoldable pub armor : ℕ → ℕ
armor v = if ltb v 40 then v + 48 else v + 56

-- The inner loop of `to_payload` at `pos`, on a `u8`.
unfoldable pub gather : (left pos : ℕ) → BitsMut → ℕ → ℕ
gather zero p m v = v
gather (suc left) p m v =
    gather left (suc p) m (v * 2 % 2 ^ 8 + (if ltb p m.n && bit_at m.b p then 1 else 0))

-- The outer loop: `left` characters from bit `i` on.
unfoldable pub armor_from : (left i : ℕ) → BitsMut → Bytes
armor_from zero i m = []
armor_from (suc left) i m = armor (gather 6 i m 0) ∷ armor_from left (i + 6) m

abbrev pub fill_of : ℕ → ℕ
fill_of n = (6 - n % 6) % 6

unfoldable pub to_payload : BitsMut → Bytes × ℕ
to_payload m = let fill = fill_of m.n in (armor_from ((m.n + fill) / 6) 0 m, fill)
