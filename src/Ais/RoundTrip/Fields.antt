-- ===== src/Ais/RoundTrip/Fields.antt =====
-- The reads of `decode_bits` at the fields of a stream that carries a message.
use openseafeed.Base.{
  ℕ, ◌+◌, ◌-◌, ◌*◌, ◌/◌, ◌%◌, ◌^◌, ◌≤◌, ◌<◌, ◌≡◌, refl, ap, ◌∙◌, arith, List, Bool, ◌==◌, ◌&&◌, ltb,
  some, get_elem?, if◌then◌else◌,
}
use openseafeed.Base.Int.{ℤ, pos, negsuc}
use openseafeed.Ais.Bits.{Bits, uint, int, bit, as_i64}
use openseafeed.Ais.BitsMut.{as_u64}
use openseafeed.Ais.Encode.Segments.{Seg, number, Carries, offset, uint_field}
use native.Mathlib.Nat.{mod-eq_of_lt, mul-add-mod_self_left, div-eq_of_lt-le, div-eq_of_lt, mod-mod}
use native.Mathlib.Decide.{dec_lt}

-- `v` is a signed number of two's complement below `half`, the weight of the sign bit.
abbrev pub IsSigned : ℕ → ℤ → Type 0
IsSigned half (pos n) = n < half
IsSigned half (negsuc n) = n < half

abbrev pub flag : Bool → ℕ
flag v = if v then 1 else 0

pub sign_extended : ℕ → ℕ → ℤ
sign_extended w r =
    if ltb 0 w && ltb w 64 && r / 2 ^ (w - 1) % 2 == 1
    then as_i64 (r + (2 ^ 64 - 2 ^ w))
    else as_i64 r

-- `q` counts how often the field's `2 * h` values fit into 64 bits.
module _ (h q : ℕ) (whole : 2 * h * q ≡ 2 ^ 64) where
  q_positive : 0 < q
  q_positive = elim (dec_lt 0 q) [
    | yes p ↦ p
    | no p ↦
        let nought : q ≡ 0 = omega arith in
        absurd (omega (arith, whole, ap (λ (t : ℕ). 2 * h * t) nought))
  ]

  h-le : h ≤ 2 ^ 63
  h-le =
      let q' = q - 1 in
      let e : q ≡ q' + 1 = omega (arith, q_positive) in
      omega (arith, whole, ap (λ (t : ℕ). 2 * h * t) e)

  residue_negative : (n : ℕ) → n < h → (2 ^ 64 - 1 - n) % (2 * h) ≡ 2 * h - 1 - n
  residue_negative n small =
      let q' = q - 1 in
      let e : q ≡ q' + 1 = omega (arith, q_positive) in
      let split : 2 ^ 64 - 1 - n ≡ 2 * h * q' + (2 * h - 1 - n) =
        omega (arith, whole, ap (λ (t : ℕ). 2 * h * t) e) in
      rw (split, mul-add-mod_self_left (2 * h) q' (2 * h - 1 - n)) (mod-eq_of_lt (omega arith))

  as_i64-pos : (n : ℕ) → n < h → as_i64 n ≡ pos n
  unfolding as_i64
  as_i64-pos n small = ground (arith, h-le)

  as_i64-negsuc : (n : ℕ) → n < h → as_i64 (2 * h - 1 - n + (2 ^ 64 - 2 * h)) ≡ negsuc n
  unfolding as_i64
  as_i64-negsuc n small = ground (arith, h-le)

  sign_bit_clear : (n : ℕ) → n < h → n / h % 2 ≡ 0
  sign_bit_clear n small = rw (div-eq_of_lt small)

  sign_bit_set : (n : ℕ) → n < h → (2 * h - 1 - n) / h % 2 ≡ 1
  sign_bit_set n small =
      rw (div-eq_of_lt-le {k = 1} h {m = 2 * h - 1 - n} (omega arith) (omega arith))

  -- Reading a signed number of `w` bits gives it back.
  pub sign_extended_back :
      (w : ℕ) (v : ℤ)
      → 0 < w
      → w < 64
      → 2 ^ (w - 1) ≡ h
      → 2 ^ w ≡ 2 * h
      → IsSigned h v
      → sign_extended w (as_u64 v % 2 ^ w) ≡ v
  unfolding sign_extended as_u64
  sign_extended_back w (pos n) some_bits narrow half full small =
      let as_is : n % 2 ^ 64 ≡ n = mod-eq_of_lt (omega (arith, h-le)) in
      let low : n % (2 * h) ≡ n = mod-eq_of_lt (omega arith) in
      rw (half, full, as_is, low, sign_bit_clear n small) (ground (arith, as_i64-pos n small))
  sign_extended_back w (negsuc n) some_bits narrow half full small =
      let as_is : n % 2 ^ 64 ≡ n = mod-eq_of_lt (omega (arith, h-le)) in
      rw (half, full, as_is, residue_negative n small, sign_bit_set n small)
        (ground (arith, as_i64-negsuc n small))

module _ (bs : Bits) (ss : List Seg) (c : Carries bs ss) where
  pub nat_field :
      (k w v : ℕ)
      → get_elem? ss k ≡ some (number w v)
      → 0 < w
      → w ≤ 64
      → v < 2 ^ w
      → uint bs (offset k ss) w ≡ v
  nat_field k w v e some_bits narrow small =
      uint_field bs ss c k w v e some_bits narrow ∙ mod-eq_of_lt small

  -- A field that is cast to a type of `m` values.
  pub cast_field :
      (k w v m : ℕ)
      → get_elem? ss k ≡ some (number w v)
      → v < 2 ^ w
      → (0 < w) × (w ≤ 64) × (2 ^ w ≤ m)
      → uint bs (offset k ss) w % m ≡ v
  cast_field k w v m e small (some_bits, narrow, wide) =
      rw (nat_field k w v e some_bits narrow small) (mod-eq_of_lt (omega arith))

  pub bit_field :
      (k : ℕ) (v : Bool) → get_elem? ss k ≡ some (number 1 (flag v)) → bit bs (offset k ss) ≡ v
  unfolding bit
  bit_field k v e =
      rw (uint_field bs ss c k 1 (flag v) e (omega arith) (omega arith)) (ground arith)

  int_field :
      (k w : ℕ) (v : ℤ) (h q : ℕ)
      → get_elem? ss k ≡ some (number w (as_u64 v % 2 ^ w))
      → 0 < w
      → w < 64
      → 2 * h * q ≡ 2 ^ 64
      → 2 ^ (w - 1) ≡ h
      → 2 ^ w ≡ 2 * h
      → IsSigned h v
      → int bs (offset k ss) w ≡ v
  unfolding int sign_extended
  int_field k w v h q e some_bits narrow whole half full small =
      rw
        (
          uint_field bs ss c k w (as_u64 v % 2 ^ w) e some_bits (omega arith),
          mod-mod (as_u64 v) (2 ^ w),
        )
        (sign_extended_back h q whole w v some_bits narrow half full small)

  pub int_28 :
      (k : ℕ) (v : ℤ)
      → get_elem? ss k ≡ some (number 28 (as_u64 v % 2 ^ 28))
      → IsSigned (2 ^ 27) v
      → int bs (offset k ss) 28 ≡ v
  int_28 k v e = int_field k 28 v (2 ^ 27) (2 ^ 36) e (omega arith) (omega arith) refl refl refl

  pub int_27 :
      (k : ℕ) (v : ℤ)
      → get_elem? ss k ≡ some (number 27 (as_u64 v % 2 ^ 27))
      → IsSigned (2 ^ 26) v
      → int bs (offset k ss) 27 ≡ v
  int_27 k v e = int_field k 27 v (2 ^ 26) (2 ^ 37) e (omega arith) (omega arith) refl refl refl

  pub int_18 :
      (k : ℕ) (v : ℤ)
      → get_elem? ss k ≡ some (number 18 (as_u64 v % 2 ^ 18))
      → IsSigned (2 ^ 17) v
      → int bs (offset k ss) 18 ≡ v
  int_18 k v e = int_field k 18 v (2 ^ 17) (2 ^ 46) e (omega arith) (omega arith) refl refl refl

  pub int_17 :
      (k : ℕ) (v : ℤ)
      → get_elem? ss k ≡ some (number 17 (as_u64 v % 2 ^ 17))
      → IsSigned (2 ^ 16) v
      → int bs (offset k ss) 17 ≡ v
  int_17 k v e = int_field k 17 v (2 ^ 16) (2 ^ 47) e (omega arith) (omega arith) refl refl refl

  pub int_8 :
      (k : ℕ) (v : ℤ)
      → get_elem? ss k ≡ some (number 8 (as_u64 v % 2 ^ 8))
      → IsSigned (2 ^ 7) v
      → int bs (offset k ss) 8 ≡ v
  int_8 k v e = int_field k 8 v (2 ^ 7) (2 ^ 56) e (omega arith) (omega arith) refl refl refl
