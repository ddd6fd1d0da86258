-- ===== src/Base/Octet.antt =====
-- Single bits of a byte: `x & (1 << k) != 0` and `x |= 1 << k`, with their law, checked over every
-- byte and every pair of positions.
use Prim.Native.Nat.{ℕ, zero, suc, ◌^◌, ◌<◌, bit_and, bit_or}
use mathlib.Core.Path.{◌≡◌, refl}
use mathlib.Core.Bool.{Bool, true, false, not, ◌&&◌, ◌||◌}
use native.Mathlib.Omega.{arith}
use openseafeed.Base.Tests.{◌==◌, ltb}

-- A test that a computation runs on every number below a limit.
unfoldable pub every_below : ℕ → (ℕ → Bool) → Bool
every_below (suc top) test = every_below top test && test top
every_below zero test = true

-- Each of those numbers passes, once the computation says so.
pub every_below_at :
    (limit : ℕ) (test : ℕ → Bool) (i : ℕ)
    → every_below limit test ≡ true
    → i < limit
    → test i ≡ true
unfolding every_below
every_below_at (suc top) test i passed inside = ground (arith, every_below_at top test i)
every_below_at zero test i passed inside = absurd (omega arith)

abbrev pub same : Bool → Bool → Bool
same true b = b
same false b = not b

pub same→eq : (a b : Bool) → same a b ≡ true → a ≡ b
same→eq a b h = ground arith

-- `x & (1 << k) != 0`
unfoldable pub test_bit : ℕ → ℕ → Bool
test_bit x k = not (bit_and x (2 ^ k) == 0)

-- `x |= 1 << k`
unfoldable pub set_bit : ℕ → ℕ → ℕ
set_bit x k = bit_or x (2 ^ k)

abbrev law : ℕ → ℕ → ℕ → Bool
law x k j = same (test_bit (set_bit x k) j) (k == j || test_bit x j) && ltb (set_bit x k) 256

law_table : every_below 256 (λ x. every_below 8 (λ k. every_below 8 (λ j. law x k j))) ≡ true
unfolding every_below test_bit set_bit
law_table = refl

law_lem : (x k j : ℕ) → x < 256 → k < 8 → j < 8 → law x k j ≡ true
law_lem x k j hx hk hj =
    every_below_at 8 (λ j. law x k j) j
      (every_below_at 8 (λ k. every_below 8 (λ j. law x k j)) k
        (every_below_at 256 (λ x. every_below 8 (λ k. every_below 8 (λ j. law x k j))) x law_table
          hx)
        hk)
      hj

pub test_bit-set_bit :
    (x k j : ℕ) → x < 256 → k < 8 → j < 8 → test_bit (set_bit x k) j ≡ (k == j || test_bit x j)
test_bit-set_bit x k j hx hk hj = same→eq _ _ (ground (arith, law_lem x k j hx hk hj))

pub set_bit-lt : (x k : ℕ) → x < 256 → k < 8 → set_bit x k < 256
set_bit-lt x k hx hk = ground (arith, law_lem x k 0 hx hk (omega arith))

zero_table : every_below 8 (λ j. not (test_bit 0 j)) ≡ true
unfolding every_below test_bit
zero_table = refl

pub test_bit-zero : (j : ℕ) → j < 8 → test_bit 0 j ≡ false
test_bit-zero j h = ground (arith, every_below_at 8 (λ j. not (test_bit 0 j)) j zero_table h)
