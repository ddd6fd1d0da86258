-- ===== src/Tests/Fixed.antt =====
-- Millionths in the place of `f64`: a concrete choice that the order of the degrees holds for.
use openseafeed.Base.{
  ℕ, ◌+◌, ◌-◌, ◌*◌, ◌/◌, ◌≡◌, refl, arith, Bool, true, false, ◌==◌, ◌&&◌, leb, if◌then◌else◌,
}
use openseafeed.Base.Int.{ℤ, pos, negsuc}
use openseafeed.Ais.Float.{Floats}
use openseafeed.Geo.{mid}
use openseafeed.Geo.Order.{IsDegree, IsOrdered}

abbrev size : ℤ → ℕ
size (pos n) = n
size (negsuc n) = n + 1

abbrev negated : ℤ → ℤ
negated (pos n) = if n == 0 then pos 0 else negsuc (n - 1)
negated (negsuc n) = pos (n + 1)

-- A size, below zero when the signs differ.
abbrev signed : ℤ → ℤ → ℕ → ℤ
signed (pos a) (pos b) n = pos n
signed (pos a) (negsuc b) n = negated (pos n)
signed (negsuc a) (pos b) n = negated (pos n)
signed (negsuc a) (negsuc b) n = pos n

abbrev add : ℤ → ℤ → ℤ
add (pos a) (pos b) = pos (a + b)
add (pos a) (negsuc b) = if leb a b then negsuc (b - a) else pos (a - b - 1)
add (negsuc a) (pos b) = if leb b a then negsuc (a - b) else pos (b - a - 1)
add (negsuc a) (negsuc b) = negsuc (a + b + 1)

abbrev le : ℤ → ℤ → Bool
le (pos a) (pos b) = leb a b
le (pos a) (negsuc b) = false
le (negsuc a) (pos b) = true
le (negsuc a) (negsuc b) = leb b a

abbrev of_int : ℤ → ℤ
of_int (pos n) = pos (n * 1_000_000)
of_int (negsuc n) = negsuc (n * 1_000_000 + 999_999)

abbrev pub fixed : Floats
fixed = record {
  F = ℤ;
  of_int = of_int;
  add = add;
  sub = λ x y. add x (negated y);
  mul = λ x y. signed x y (size x * size y / 1_000_000);
  div = λ x y. signed x y (size x * 1_000_000 / size y);
  round = λ x. signed x (pos 0) ((size x + 500_000) / 1_000_000 * 1_000_000);
  to_u64 = λ x. elim x [ pos n ↦ n / 1_000_000 | negsuc n ↦ 0 ];
  to_i64 = λ x. signed x (pos 0) (size x / 1_000_000);
  eqb = λ x y. le x y && le y x;
  leb = le;
}

trans : (x y z : ℤ) → le x y ≡ true → le y z ≡ true → le x z ≡ true
trans (pos x) (pos y) (pos z) h k = ground arith
trans (pos x) (pos y) (negsuc z) h k = k
trans (pos x) (negsuc y) z h k = absurd (ground arith)
trans (negsuc x) (pos y) (pos z) h k = refl
trans (negsuc x) (pos y) (negsuc z) h k = absurd (ground arith)
trans (negsuc x) (negsuc y) (pos z) h k = refl
trans (negsuc x) (negsuc y) (negsuc z) h k = ground arith

total : (x y : ℤ) → le x y ≡ false → le y x ≡ true
total (pos x) (pos y) h = ground arith
total (pos x) (negsuc y) h = refl
total (negsuc x) (pos y) h = absurd (ground arith)
total (negsuc x) (negsuc y) h = ground arith

mid-IsDegree : (x y : ℤ) → IsDegree fixed x → IsDegree fixed y → IsDegree fixed (mid fixed x y)
unfolding mid
mid-IsDegree (pos x) (pos y) hx hy = ground arith
mid-IsDegree (pos x) (negsuc y) hx hy = ground arith
mid-IsDegree (negsuc x) (pos y) hx hy = ground arith
mid-IsDegree (negsuc x) (negsuc y) hx hy = ground arith

pub fixed-IsOrdered : IsOrdered fixed
fixed-IsOrdered = record {
  trans = λ {x} {y} {z} h k. trans x y z h k;
  total = λ {x} {y} hx hy h. total x y h;
  mid-IsDegree = λ {x} {y} hx hy. mid-IsDegree x y hx hy;
  least = (refl, refl);
  south = (refl, refl);
  north = (refl, refl);
  most = (refl, refl);
}
