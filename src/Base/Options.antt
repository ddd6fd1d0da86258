-- ===== src/Base/Options.antt =====
-- `Option::filter`, `unwrap_or`, `is_some` and `is_none`.
use mathlib.Core.Bool.{Bool, true, false}
use mathlib.Core.Option.{Option, none, some}
use mathlib.Core.Path.{◌≡◌, refl}
use mathlib.Core.Logic.{◌≢◌}
use openseafeed.Base.Tests.{if◌then◌else◌}

module _ {ℓ} {A : Type ℓ} where
  abbrev pub filtered : (A → Bool) → Option A → Option A
  filtered good none = none
  filtered good (some a) = if good a then some a else none

  abbrev pub or_default : Option A → A → A
  or_default none other = other
  or_default (some a) other = a

  abbrev pub is_some : Option A → Bool
  is_some none = false
  is_some (some a) = true

  abbrev pub is_none : Option A → Bool
  is_none none = true
  is_none (some a) = false

  pub is_none→eq : (o : Option A) → is_none o ≡ true → o ≡ none
  is_none→eq none h = refl
  is_none→eq (some a) h = cc

  pub is_some_not→eq : (o : Option A) → is_some o ≡ false → o ≡ none
  is_some_not→eq none h = refl
  is_some_not→eq (some a) h = cc

  pub is_some→eq : (o : Option A) → is_some o ≡ true → (a : A) × (o ≡ some a)
  is_some→eq none h = cc
  is_some→eq (some a) h = (a, refl)

  pub some_inj : {a b : A} → some a ≡ some b → a ≡ b
  some_inj e = cc

  pub none-ne-some : {a : A} → none ≢ some a
  none-ne-some e = cc
