-- ===== src/Ais/BitList.antt =====
-- A bit field as the list of its bits, most significant first: what the byte vectors of `Bits` and
-- `BitsMut` stand for.
use openseafeed.Base.{
  ℕ, zero, suc, ◌+◌, ◌*◌, ◌/◌, ◌%◌, ◌^◌, ◌≤◌, ◌<◌, ◌≡◌, refl, ap, ap₂, ◌∙◌, arith, List, [], ◌∷◌,
  length, Bool, ◌==◌, if◌then◌else◌,
}
use native.Mathlib.Nat.{pow-suc, div-add-mod, div-div-eq-div-mul, div-eq_of_lt-le, add-zero}

abbrev pub bit_value : Bool → ℕ
bit_value b = if b then 1 else 0

-- The number that the bits spell behind `v`.
unfoldable pub value : ℕ → List Bool → ℕ
value v [] = v
value v (x ∷ l) = value (v * 2 + bit_value x) l

-- The `width` low bits of `v`.
unfoldable pub to_bits : (width v : ℕ) → List Bool
to_bits zero v = []
to_bits (suc i) v = (v / 2 ^ i % 2 == 1) ∷ to_bits i v

pub length-to_bits : (width v : ℕ) → length (to_bits width v) ≡ width
unfolding to_bits
length-to_bits zero v = refl
length-to_bits (suc i) v = ap suc (length-to_bits i v)

-- The top bit of `k + 1` bits, and the rest.
mod_split : (v m : ℕ) → v % (m * 2) ≡ v / m % 2 * m + v % m
mod_split v m =
    let halves : v / m ≡ 2 * (v / m / 2) + v / m % 2 = omega arith in
    omega (
      arith,
      div-add-mod v m,
      div-add-mod v (m * 2),
      ap (λ (t : ℕ). t * m) halves,
      ap (λ (t : ℕ). m * t) (div-div-eq-div-mul v m 2),
    )

bit_value-parity : (p : ℕ) → bit_value (p % 2 == 1) ≡ p % 2
bit_value-parity p = ground arith

-- Reading back what was written gives the low bits, behind the number in hand.
pub value-to_bits : (k v a : ℕ) → value a (to_bits k v) ≡ a * 2 ^ k + v % 2 ^ k
unfolding value to_bits
value-to_bits zero v a = omega arith
value-to_bits (suc k) v a = omega (
  arith,
  value-to_bits k v (a * 2 + bit_value (v / 2 ^ k % 2 == 1)),
  ap (λ (t : ℕ). (a * 2 + t) * 2 ^ k) (bit_value-parity (v / 2 ^ k)),
  ap (λ (t : ℕ). a * t) (pow-suc 2 k),
  ap (λ (t : ℕ). v % t) (pow-suc 2 k),
  mod_split v (2 ^ k),
)

pub pow-suc_two : (k : ℕ) → 2 ^ suc k ≡ 2 * 2 ^ k
pow-suc_two k = omega (arith, pow-suc 2 k)

bit_value-le : (x : Bool) → bit_value x ≤ 1
bit_value-le x = ground arith

pub double-lt : (k v : ℕ) (x : Bool) → v < 2 ^ k → v * 2 + bit_value x < 2 ^ suc k
double-lt k v x h = omega (arith, pow-suc_two k, bit_value-le x)

pub value-lt : (l : List Bool) (k v : ℕ) → v < 2 ^ k → value v l < 2 ^ (k + length l)
unfolding value
value-lt [] k v h = rw add-zero h
value-lt (x ∷ l) k v h =
    let shift : suc k + length l ≡ k + suc (length l) = omega arith in
    rw (← shift) (value-lt l (suc k) (v * 2 + bit_value x) (double-lt k v x h))

pub to_bits_mod : (k v : ℕ) → value 0 (to_bits k v) ≡ v % 2 ^ k
to_bits_mod k v = omega (arith, value-to_bits k v 0)

pub value-split : (l : List Bool) (a : ℕ) → value a l ≡ a * 2 ^ length l + value 0 l
unfolding value
value-split [] a = omega arith
value-split (x ∷ l) a =
    let ahead : value (a * 2 + bit_value x) l ≡ (a * 2 + bit_value x) * 2 ^ length l + value 0 l =
      value-split l (a * 2 + bit_value x) in
    let alone : value (0 * 2 + bit_value x) l ≡ (0 * 2 + bit_value x) * 2 ^ length l + value 0 l =
      value-split l (0 * 2 + bit_value x) in
    ahead ∙ omega (arith, alone, ap (λ (t : ℕ). a * t) (pow-suc_two (length l)))

pub value-lt_pow : (l : List Bool) → value 0 l < 2 ^ length l
value-lt_pow l =
    let e : 0 + length l ≡ length l = omega arith in rw e at (value-lt l 0 0 (omega arith))

top_digit : (a m r : ℕ) → r < m → (a * m + r) / m ≡ a
top_digit a m r h = div-eq_of_lt-le m (omega arith) (omega arith)

bit_value-odd : (a : ℕ) (x : Bool) → ((a * 2 + bit_value x) % 2 == 1) ≡ x
bit_value-odd a x = ground arith

-- Writing the number that some bits spell gives the bits back.
pub to_bits-value : (l : List Bool) (a : ℕ) → to_bits (length l) (value a l) ≡ l
unfolding to_bits value
to_bits-value [] a = refl
to_bits-value (x ∷ l) a =
    let k = length l in
    let top : value (a * 2 + bit_value x) l / 2 ^ k ≡ a * 2 + bit_value x =
      rw (value-split l (a * 2 + bit_value x)) (top_digit _ _ _ (value-lt_pow l)) in
    ap₂ ◌∷◌ (rw top (bit_value-odd a x)) (to_bits-value l (a * 2 + bit_value x))
