-- ===== src/Control/Tables/Rows.antt =====
-- The rows that a query finds.
use openseafeed.Base.{
  Holds, Option-cases, ◌≡◌, refl, subst, arith, List, [], ◌∷◌, ◌++◌, All, Bool, true, false, Option,
  none, some, Bool-cases, inl, inr, if◌then◌else◌,
}
use openseafeed.Control.Tables.{find, update_where}

abbrev pub updated : {A : Type 0} → (q : A → Bool) (f : A → A) → Option A → Option A
updated q f none = none
updated q f (some a) = some (if q a then f a else a)

module _ {A : Type 0} (p : A → Bool) where
  pub find-append_some : (xs ys : List A) (a : A) → find p xs ≡ some a → find p (xs ++ ys) ≡ some a
  unfolding find
  find-append_some [] ys a h = cc
  find-append_some (x ∷ xs) ys a h = ground (arith, find-append_some xs ys a)

  pub find-append_none : (xs ys : List A) → find p xs ≡ none → find p (xs ++ ys) ≡ find p ys
  unfolding find
  find-append_none [] ys h = refl
  find-append_none (x ∷ xs) ys h = ground (arith, find-append_none xs ys)

  pub find_sound : (xs : List A) (a : A) → find p xs ≡ some a → p a ≡ true
  unfolding find
  find_sound [] a h = cc
  find_sound (x ∷ xs) a h = ground (arith, find_sound xs a)

  pub find-All : (xs : List A) → find p xs ≡ none → All (λ a. p a ≡ false) xs
  unfolding find
  find-All [] h = tt
  find-All (x ∷ xs) h = ground (arith, find-All xs)

  pub All-find : (P : A → Type 0) (xs : List A) (a : A) → All P xs → find p xs ≡ some a → P a
  unfolding find
  All-find P [] a hs h = cc
  All-find P (x ∷ xs) a (hx, hs) h = elim (Bool-cases (p x)) [
    | inl here ↦ subst P (ground (arith, here)) hx
    | inr later ↦ All-find P xs a hs (ground (arith, later))
  ]

  pub find-Holds : (P : A → Type 0) (xs : List A) → All P xs → Holds P (find p xs)
  find-Holds P xs h = elim (Option-cases (find p xs)) [
    | inl missing ↦ rw missing tt
    | inr (a, found) ↦ rw found (All-find P xs a h found)
  ]

  -- An update that leaves the columns of the query alone changes what is found, and finds no other row.
  pub find-update_where :
      (q : A → Bool) (f : A → A) (xs : List A)
      → ((a : A) → p (f a) ≡ p a)
      → find p (update_where q f xs) ≡ updated q f (find p xs)
  unfolding find update_where
  find-update_where q f [] same = refl
  find-update_where q f (x ∷ xs) same = ground (arith, same x, find-update_where q f xs same)

module _ {A : Type 0} (P : A → Type 0) (q : A → Bool) (f : A → A) where
  pub update_where-All :
      (xs : List A) → ((a : A) → P a → P (f a)) → All P xs → All P (update_where q f xs)
  unfolding update_where
  update_where-All [] keep h = tt
  update_where-All (x ∷ xs) keep (hx, h) = elim (Bool-cases (q x)) [
    | inl here ↦ rw (here, update_where) (keep x hx, update_where-All xs keep h)
    | inr other ↦ rw (other, update_where) (hx, update_where-All xs keep h)
  ]
