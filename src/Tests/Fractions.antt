-- ===== src/Tests/Fractions.antt =====
-- Exact fractions in the place of `f64`: a concrete choice that the laws of the round trips hold for.
use openseafeed.Base.{
  ℕ, ◌+◌, ◌-◌, ◌*◌, ◌/◌, ◌^◌, ◌<◌, ◌≡◌, ap, arith, Bool, true, false, not, ◌==◌, ◌&&◌, leb,
  if◌then◌else◌,
}
use openseafeed.Base.Int.{ℤ, pos, negsuc}
use openseafeed.Ais.Float.{Floats, tenths}
use openseafeed.Ais.Fields.{minutes_to_deg}
use openseafeed.Ais.Encode.{deg_to_minutes, to_tenths}
use openseafeed.Ais.RoundTrip.Fields.{IsSigned}
use openseafeed.Ais.RoundTrip.Laws.{IsExact}

-- A sign, a numerator and a denominator.
pub record Fraction : Type 0 where
  pub negative : Bool
  pub num : ℕ
  pub den : ℕ

abbrev xor : Bool → Bool → Bool
xor true true = false
xor true false = true
xor false b = b

abbrev of_int : ℤ → Fraction
of_int (pos n) = record { negative = false; num = n; den = 1 }
of_int (negsuc n) = record { negative = true; num = n + 1; den = 1 }

-- A sum of a numerator and a signed one over a common denominator.
abbrev signed_sum : Bool → ℕ → Bool → ℕ → ℕ → Fraction
signed_sum s m t n d =
    if xor s t
    then (if leb n m
        then record { negative = s; num = m - n; den = d }
        else record { negative = t; num = n - m; den = d })
    else record { negative = s; num = m + n; den = d }

abbrev add : Fraction → Fraction → Fraction
add x y = signed_sum x.negative (x.num * y.den) y.negative (y.num * x.den) (x.den * y.den)

abbrev sub : Fraction → Fraction → Fraction
sub x y = signed_sum x.negative (x.num * y.den) (not y.negative) (y.num * x.den) (x.den * y.den)

abbrev mul : Fraction → Fraction → Fraction
mul x y = record { negative = xor x.negative y.negative; num = x.num * y.num; den = x.den * y.den }

abbrev div : Fraction → Fraction → Fraction
div x y = record { negative = xor x.negative y.negative; num = x.num * y.den; den = x.den * y.num }

-- To the nearest whole number, a half away from zero.
abbrev round : Fraction → Fraction
round x = record { negative = x.negative; num = (2 * x.num + x.den) / (2 * x.den); den = 1 }

abbrev to_u64 : Fraction → ℕ
to_u64 x = if x.negative then 0 else x.num / x.den

abbrev to_i64 : Fraction → ℤ
to_i64 x = let n = x.num / x.den in if x.negative && leb 1 n then negsuc (n - 1) else pos n

abbrev le : Fraction → Fraction → Bool
le x y = elim x.negative [
  | true ↦ elim y.negative [ true ↦ leb (y.num * x.den) (x.num * y.den) | false ↦ true ]
  | false ↦ elim y.negative [
    | true ↦ (x.num == 0) && (y.num == 0)
    | false ↦ leb (x.num * y.den) (y.num * x.den)
  ]
]

abbrev pub fractions : Floats
fractions = record {
  F = Fraction;
  of_int = of_int;
  add = add;
  sub = sub;
  mul = mul;
  div = div;
  round = round;
  to_u64 = to_u64;
  to_i64 = to_i64;
  eqb = λ x y. le x y && le y x;
  leb = le;
}

tenths_back : (n : ℕ) → n < 2 ^ 12 → to_tenths fractions (tenths fractions n) ≡ n
unfolding to_tenths tenths
tenths_back n h = omega arith

fine_back :
    (v : ℤ)
    → IsSigned (2 ^ 27) v
    → deg_to_minutes fractions (minutes_to_deg fractions v 10_000) 10_000 ≡ v
unfolding deg_to_minutes minutes_to_deg
fine_back (pos n) h = ap pos (omega arith)
fine_back (negsuc n) h = ground arith

coarse_back :
    (v : ℤ) → IsSigned (2 ^ 17) v → deg_to_minutes fractions (minutes_to_deg fractions v 10) 10 ≡ v
unfolding deg_to_minutes minutes_to_deg
coarse_back (pos n) h = ap pos (omega arith)
coarse_back (negsuc n) h = ground arith

pub fractions-IsExact : IsExact fractions
fractions-IsExact = record {
  tenths_back = tenths_back;
  fine_back = fine_back;
  coarse_back = coarse_back;
  whole_back = λ n h. omega arith;
}
