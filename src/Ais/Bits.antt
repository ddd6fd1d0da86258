-- ===== src/Ais/Bits.antt =====
-- crates/ais/src/bits.rs: the bitstream of a de-armored AIVDM payload. The byte vector is a list of
-- numbers below 256; `b[i / 8] |= 1 << (7 - i % 8)` is `set_at`, and the read is `bit_at`.
pub mod Reads
use openseafeed.Base.{
  ℕ, zero, suc, ◌+◌, ◌-◌, ◌*◌, ◌/◌, ◌%◌, ◌^◌, List, [], ◌∷◌, length, get_or, set, replicate, Bytes,
  Bool, true, false, ◌||◌, ◌&&◌, not, ltb, leb, ◌==◌, if◌then◌else◌, Option, none, some,
}
use openseafeed.Base.Octet.{test_bit, set_bit}
use openseafeed.Base.Int.{ℤ, pos, negsuc}
use openseafeed.Base.Result.{Result, ok, err, ◌>>=◌}

pub data DecodeError : Type 0 where
  armoring : DecodeError
  too_short : (bits need : ℕ) → DecodeError

pub record Bits : Type 0 where
  pub b : List ℕ
  pub n : ℕ

-- The value of one armored character; `none` is the armoring error. Below 48 the difference is
-- negative, and no range holds it.
unfoldable pub dearmor : ℕ → Option ℕ
dearmor c =
    let v = if ltb 40 (c - 48) then c - 48 - 8 else c - 48 in
    if ltb c 48 then none else if leb v 63 then some v else none

unfoldable pub bit_at : List ℕ → ℕ → Bool
bit_at b i = test_bit (get_or b (i / 8) 0) (7 - i % 8)

unfoldable pub set_at : List ℕ → ℕ → List ℕ
set_at b i = set b (i / 8) (set_bit (get_or b (i / 8) 0) (7 - i % 8))

-- `for j in 0..6`, with `left` rounds left.
unfoldable pub write_char : (left j : ℕ) → ℕ → ℕ → List ℕ → List ℕ
write_char zero j off v b = b
write_char (suc left) j off v b =
    write_char left (suc j) off v (if test_bit v (5 - j) then set_at b (off + j) else b)

-- The loop over the payload's characters, at index `i`.
unfoldable pub write_chars : Bytes → ℕ → List ℕ → Result DecodeError (List ℕ)
write_chars [] i b = ok b
write_chars (c ∷ cs) i b = elim (dearmor c) [
  | none ↦ err armoring
  | some v ↦ write_chars cs (suc i) (write_char 6 0 (i * 6) v b)
]

unfoldable pub from_payload : Bytes → ℕ → Result DecodeError Bits
from_payload payload fill_bits =
    let total = length payload * 6 in
    if ltb 5 fill_bits then err armoring else do
      b ← write_chars payload 0 (replicate ((total + 7) / 8) 0)
      if ltb total fill_bits then err armoring else ok (record { b = b; n = total - fill_bits })

unfoldable pub len : Bits → ℕ
len bs = bs.n

unfoldable pub is_empty : Bits → Bool
is_empty bs = bs.n == 0

-- The loop of `uint`, with `left` bits left. After the shift the low bit is clear, so `v |= 1` adds 1.
unfoldable pub uint_loop : (left i : ℕ) → List ℕ → ℕ → ℕ
uint_loop zero i b v = v
uint_loop (suc left) i b v =
    uint_loop left (suc i) b (v * 2 % 2 ^ 64 + (if bit_at b i then 1 else 0))

unfoldable pub uint : Bits → (start length : ℕ) → ℕ
uint bs start length =
    if length == 0 || ltb 64 length || ltb bs.n (start + length)
    then 0
    else uint_loop length start bs.b 0

-- `v as i64`
unfoldable pub as_i64 : ℕ → ℤ
as_i64 v = if ltb v (2 ^ 63) then pos v else negsuc (2 ^ 64 - 1 - v)

-- `v` has `length` bits, so `v | (u64::MAX << length)` is a sum.
unfoldable pub int : Bits → (start length : ℕ) → ℤ
int bs start length =
    let v = uint bs start length in
    if ltb 0 length && ltb length 64 && v / 2 ^ (length - 1) % 2 == 1
    then as_i64 (v + (2 ^ 64 - 2 ^ length))
    else as_i64 v

unfoldable pub bit : Bits → ℕ → Bool
bit bs p = uint bs p 1 == 1

-- `trim_end_matches(' ')`
unfoldable pub trim_end : Bytes → Bytes
trim_end [] = []
trim_end (c ∷ s) = elim (trim_end s) [ [] ↦ if c == b' ' then [] else c ∷ [] | d ∷ t ↦ c ∷ d ∷ t ]

-- The loop of `string`: it stops at `stop`, at a zero character, or when `fuel` rounds are done.
unfoldable pub string_loop : ℕ → Bits → (off stop : ℕ) → Bytes
string_loop zero bs off stop = []
string_loop (suc fuel) bs off stop =
    let c = uint bs off 6 in
    let rest = string_loop fuel bs (off + 6) stop in
    if leb (off + 6) stop
    then (if c == 0 then [] else (if ltb c 32 then c + 64 else c) ∷ rest)
    else []

-- A round takes six bits, so `length / 6` rounds are enough.
unfoldable pub string : Bits → (start length : ℕ) → Bytes
string bs start length =
    let fit = if ltb bs.n (start + length) then bs.n - start else length in
    if leb bs.n start then [] else trim_end (string_loop (fit / 6 + 1) bs start (start + fit))
