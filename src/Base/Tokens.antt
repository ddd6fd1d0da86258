-- ===== src/Base/Tokens.antt =====
-- The comparison of two byte strings that looks at every byte: `|` and `^` of bytes.
use Prim.Native.Nat.{ℕ, ◌<◌, bit_or, bit_xor}
use mathlib.Core.Path.{◌≡◌, refl}
use mathlib.Core.Bool.{Bool, true, ◌&&◌}
use native.Mathlib.Omega.{arith}
use openseafeed.Base.Tests.{◌==◌, ltb}
use openseafeed.Base.Octet.{same, same→eq, every_below, every_below_at}

abbrev or_test : ℕ → ℕ → Bool
or_test x y = same (bit_or x y == 0) (x == 0 && y == 0) && ltb (bit_or x y) 256

abbrev xor_test : ℕ → ℕ → Bool
xor_test x y = same (bit_xor x y == 0) (x == y) && ltb (bit_xor x y) 256

or_table : every_below 256 (λ x. every_below 256 (λ y. or_test x y)) ≡ true
unfolding every_below
or_table = refl

xor_table : every_below 256 (λ x. every_below 256 (λ y. xor_test x y)) ≡ true
unfolding every_below
xor_table = refl

or_lem : (x y : ℕ) → x < 256 → y < 256 → or_test x y ≡ true
or_lem x y hx hy =
    every_below_at 256 (λ y. or_test x y) y
      (every_below_at 256 (λ x. every_below 256 (λ y. or_test x y)) x or_table hx) hy

xor_lem : (x y : ℕ) → x < 256 → y < 256 → xor_test x y ≡ true
xor_lem x y hx hy =
    every_below_at 256 (λ y. xor_test x y) y
      (every_below_at 256 (λ x. every_below 256 (λ y. xor_test x y)) x xor_table hx) hy

pub bit_or-eq_zero : (x y : ℕ) → x < 256 → y < 256 → (bit_or x y == 0) ≡ (x == 0 && y == 0)
bit_or-eq_zero x y hx hy = same→eq _ _ (ground (arith, or_lem x y hx hy))

pub bit_or-lt : (x y : ℕ) → x < 256 → y < 256 → bit_or x y < 256
bit_or-lt x y hx hy = ground (arith, or_lem x y hx hy)

pub bit_xor-eq_zero : (x y : ℕ) → x < 256 → y < 256 → (bit_xor x y == 0) ≡ (x == y)
bit_xor-eq_zero x y hx hy = same→eq _ _ (ground (arith, xor_lem x y hx hy))

pub bit_xor-lt : (x y : ℕ) → x < 256 → y < 256 → bit_xor x y < 256
bit_xor-lt x y hx hy = ground (arith, xor_lem x y hx hy)
