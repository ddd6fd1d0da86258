-- ===== src/Ais/Float.antt =====
-- `f64` as far as the program uses it. The development computes with no floating-point number: the type
-- and its operations are a parameter, and the laws that a theorem needs are its hypotheses.
use openseafeed.Base.{ℕ, Bool, not, ◌&&◌, if◌then◌else◌}
use openseafeed.Base.Int.{ℤ, pos}

pub record Floats : Type 1 where
  pub F : Type 0
  -- `n as f64`; on a whole number that a literal writes, the literal.
  pub of_int : ℤ → F
  pub add : F → F → F
  pub sub : F → F → F
  pub mul : F → F → F
  pub div : F → F → F
  pub round : F → F
  -- `x as u64` and `x as i64`
  pub to_u64 : F → ℕ
  pub to_i64 : F → ℤ
  -- `x == y` and `x <= y`
  pub eqb : F → F → Bool
  pub leb : F → F → Bool

module _ (fl : Floats) where
  open fl use {F, of_int, div}

  abbrev pub of_nat : ℕ → F
  of_nat n = of_int (pos n)

  -- `raw as f64 / 10.0`
  unfoldable pub tenths : ℕ → F
  tenths n = div (of_int (pos n)) (of_int (pos 10))

  -- `x < y`; neither holds of a number that is none.
  abbrev pub lt : F → F → Bool
  lt x y = fl.leb x y && not (fl.leb y x)

  -- `x.min(y)` and `x.max(y)`
  unfoldable pub min : F → F → F
  min x y = if fl.leb x y then x else if fl.leb y y then y else x

  unfoldable pub max : F → F → F
  max x y = if fl.leb y x then x else if fl.leb y y then y else x

  -- `x.clamp(low, high)`
  unfoldable pub clamp : F → F → F → F
  clamp x low high =
      let raised = if lt x low then low else x in if lt high raised then high else raised
