-- ===== src/Base/Map.antt =====
-- `HashMap` as an association list: the operations that the program calls, with their laws in terms of
-- `get`. A key is compared by a Boolean equality that decides the path equality.
use Prim.Native.Nat.{ℕ}
use mathlib.Core.Path.{◌≡◌, refl, sym, ◌∙◌}
use mathlib.Core.Logic.{◌↔◌, inl, inr}
use mathlib.Core.Bool.{Bool, true}
use mathlib.Core.Option.{Option, none, some}
use mathlib.Core.List.{List, [], ◌∷◌}
use native.Mathlib.Omega.{arith}
use openseafeed.Base.Tests.{if◌then◌else◌, ◌==◌ as nat_beq, ==_iff, Bool-cases}
use openseafeed.Base.Text.{Bytes, bytes_eq, bytes_eq_iff}

pub record Eq (K : Type 0) : Type 0 where
  pub beq : K → K → Bool
  pub beq_iff : (a b : K) → (beq a b ≡ true) ↔ (a ≡ b)

instance abbrev pub nat_eq : Eq ℕ
nat_eq = record { beq = nat_beq; beq_iff = ==_iff }

instance abbrev pub text_eq : Eq Bytes
text_eq = record { beq = bytes_eq; beq_iff = bytes_eq_iff }

abbrev pub Map : Type 0 → Type 0 → Type 0
Map K V = List (K × V)

module _ {K : Type 0} ⦃e : Eq K⦄ where
  pub beq_refl : (k : K) → e.beq k k ≡ true
  beq_refl k = (e.beq_iff k k).1 refl

  beq_same : (j k l : K) → e.beq j k ≡ true → e.beq j l ≡ e.beq k l
  beq_same j k l h = rw ((e.beq_iff j k).0 h)

  beq_sym : (j k : K) → e.beq j k ≡ e.beq k j
  beq_sym j k = elim (Bool-cases (e.beq j k)) [
    | inl h ↦ h ∙ sym (rw ((e.beq_iff j k).0 h) (beq_refl k))
    | inr h ↦ elim (Bool-cases (e.beq k j)) [
      | inl h' ↦ rw ((e.beq_iff k j).0 h')
      | inr h' ↦ h ∙ sym h'
    ]
  ]

module _ {K V : Type 0} ⦃e : Eq K⦄ where
  unfoldable pub get : K → Map K V → Option V
  get k [] = none
  get k ((j, v) ∷ m) = if e.beq k j then some v else get k m

  unfoldable pub insert : K → V → Map K V → Map K V
  insert k v [] = (k, v) ∷ []
  insert k v ((j, w) ∷ m) = if e.beq k j then (k, v) ∷ m else (j, w) ∷ insert k v m

  unfoldable pub remove : K → Map K V → Map K V
  remove k [] = []
  remove k ((j, w) ∷ m) = if e.beq k j then remove k m else (j, w) ∷ remove k m

  unfoldable pub retain : (K → V → Bool) → Map K V → Map K V
  retain p [] = []
  retain p ((j, w) ∷ m) = if p j w then (j, w) ∷ retain p m else retain p m

  -- No key stands twice.
  abbrev pub IsDistinct : Map K V → Type 0
  IsDistinct [] = Unit
  IsDistinct ((k, v) ∷ m) = (get k m ≡ none) × IsDistinct m

  pub get-insert :
      (j k : K) (v : V) (m : Map K V)
      → get j (insert k v m) ≡ (if e.beq j k then some v else get j m)
  unfolding get insert
  get-insert j k v [] = refl
  get-insert j k v ((i, w) ∷ m) =
      ground (arith, get-insert j k v m, beq_same k i j, beq_same j k i, beq_sym j k, beq_sym j i)

  pub get-insert_self : (k : K) (v : V) (m : Map K V) → get k (insert k v m) ≡ some v
  get-insert_self k v m = rw (get-insert, beq_refl k)

  pub get-remove :
      (j k : K) (m : Map K V) → get j (remove k m) ≡ (if e.beq j k then none else get j m)
  unfolding get remove
  get-remove j k [] = ground arith
  get-remove j k ((i, w) ∷ m) =
      ground (arith, get-remove j k m, beq_same k i j, beq_same j k i, beq_sym j k, beq_sym j i)

  abbrev pub kept : (K → V → Bool) → K → Option V → Option V
  kept p k none = none
  kept p k (some v) = if p k v then some v else none

  pub get-retain :
      (p : K → V → Bool) (k : K) (m : Map K V)
      → IsDistinct m
      → get k (retain p m) ≡ kept p k (get k m)
  unfolding get retain
  get-retain p k [] h = refl
  get-retain p k ((j, w) ∷ m) (new, h) = elim (Bool-cases (e.beq k j)) [
    | inl same ↦
        let eq : k ≡ j = (e.beq_iff k j).0 same in
        let absent : get k m ≡ none = rw eq new in
        ground (arith, same, get-retain p k m h, absent, eq)
    | inr other ↦ ground (arith, other, get-retain p k m h)
  ]

  pub insert-IsDistinct : (k : K) (v : V) (m : Map K V) → IsDistinct m → IsDistinct (insert k v m)
  unfolding insert
  insert-IsDistinct k v [] h = (unfold get in refl, tt)
  insert-IsDistinct k v ((j, w) ∷ m) (new, h) = elim (Bool-cases (e.beq k j)) [
    | inl same ↦ let eq : k ≡ j = (e.beq_iff k j).0 same in rw same (rw eq new, h)
    | inr other ↦
        rw other (get-insert j k v m ∙ ground (arith, beq_sym j k), insert-IsDistinct k v m h)
  ]

  pub remove-IsDistinct : (k : K) (m : Map K V) → IsDistinct m → IsDistinct (remove k m)
  unfolding remove
  remove-IsDistinct k [] h = tt
  remove-IsDistinct k ((j, w) ∷ m) (new, h) = elim (Bool-cases (e.beq k j)) [
    | inl same ↦ rw same (remove-IsDistinct k m h)
    | inr other ↦ rw other (get-remove j k m ∙ ground (arith, new), remove-IsDistinct k m h)
  ]

  pub retain-IsDistinct : (p : K → V → Bool) (m : Map K V) → IsDistinct m → IsDistinct (retain p m)
  unfolding retain
  retain-IsDistinct p [] h = tt
  retain-IsDistinct p ((j, w) ∷ m) (new, h) = elim (Bool-cases (p j w)) [
    | inl keep ↦ rw keep (get-retain p j m h ∙ rw new, retain-IsDistinct p m h)
    | inr out ↦ rw out (retain-IsDistinct p m h)
  ]
