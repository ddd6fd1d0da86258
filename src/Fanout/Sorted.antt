-- ===== src/Fanout/Sorted.antt =====
-- The order of texts, and what `sort` and `dedup` keep.
use mathlib.Core.List.{Memᴰ}
use mathlib.Core.List.Memᴰ.{head, tail}
use openseafeed.Base.{
  ℕ, ◌≡◌, refl, ap₂, sym, ◌∙◌, arith, true, false, ◌==◌, ==_iff, All, Pairwise, List, [], ◌∷◌, ◌++◌,
  Bytes, bytes_eq, bytes_eq→eq, Bool-cases, ◌⊎◌, inl, inr,
}
use openseafeed.Keys.{strip_prefix}
use openseafeed.Fanout.{starts_with, text_le, sorted_insert, sort, dedup_after, dedup}

starts_cons :
    (p c : ℕ) (s prefix : Bytes)
    → (p == c) ≡ true
    → starts_with (c ∷ s) (p ∷ prefix) ≡ starts_with s prefix
unfolding starts_with strip_prefix
starts_cons p c s prefix h = rw (h, starts_with) refl

pub starts_with_split :
    (s prefix : Bytes) → starts_with s prefix ≡ true → (rest : Bytes) × (s ≡ prefix ++ rest)
unfolding starts_with strip_prefix
starts_with_split s [] h = (s, refl)
starts_with_split [] (p ∷ prefix) h = absurd (ground arith)
starts_with_split (c ∷ s) (p ∷ prefix) h = elim (Bool-cases (p == c)) [
  | inl eq ↦
      let (rest, same) = starts_with_split s prefix (sym (starts_cons p c s prefix eq) ∙ h) in
      (rest, ap₂ (◌∷◌) (sym ((==_iff p c).0 eq)) same)
  | inr ne ↦ absurd (ground (arith, ne))
]

pub starts_with-append : (prefix rest : Bytes) → starts_with (prefix ++ rest) prefix ≡ true
unfolding starts_with strip_prefix
starts_with-append [] rest = refl
starts_with-append (p ∷ prefix) rest =
    starts_cons p p (prefix ++ rest) prefix ((==_iff p p).1 refl) ∙ starts_with-append prefix rest

text_le_refl : (s : Bytes) → text_le s s ≡ true
unfolding text_le
text_le_refl [] = refl
text_le_refl (a ∷ s) = ground (arith, text_le_refl s)

pub text_le_prefix : (s rest : Bytes) → text_le s (s ++ rest) ≡ true
unfolding text_le
text_le_prefix [] rest = refl
text_le_prefix (a ∷ s) rest = ground (arith, text_le_prefix s rest)

text_le_total : (s t : Bytes) → text_le s t ≡ false → text_le t s ≡ true
unfolding text_le
text_le_total [] t h = absurd (ground arith)
text_le_total (a ∷ s) [] h = refl
text_le_total (a ∷ s) (b ∷ t) h = ground (arith, text_le_total s t)

text_le_trans : (s t u : Bytes) → text_le s t ≡ true → text_le t u ≡ true → text_le s u ≡ true
unfolding text_le
text_le_trans [] t u h h' = refl
text_le_trans (a ∷ s) [] u h h' = absurd (ground arith)
text_le_trans (a ∷ s) (b ∷ t) [] h h' = absurd (ground arith)
text_le_trans (a ∷ s) (b ∷ t) (c ∷ u) h h' = ground (arith, text_le_trans s t u)

pub text_le_antisym : (s t : Bytes) → text_le s t ≡ true → text_le t s ≡ true → s ≡ t
unfolding text_le
text_le_antisym [] [] h h' = refl
text_le_antisym [] (b ∷ t) h h' = absurd (ground arith)
text_le_antisym (a ∷ s) [] h h' = absurd (ground arith)
text_le_antisym (a ∷ s) (b ∷ t) h h' = ground (arith, text_le_antisym s t)

abbrev pub IsLe : Bytes → Bytes → Type 0
IsLe s t = text_le s t ≡ true

abbrev pub IsSorted : List Bytes → Type 0
IsSorted list = Pairwise IsLe list

module _ (P : Bytes → Type 0) where
  insert-All : (p : Bytes) (list : List Bytes) → P p → All P list → All P (sorted_insert p list)
  unfolding sorted_insert
  insert-All p [] hp h = (hp, tt)
  insert-All p (q ∷ list) hp (hq, h) = elim (Bool-cases (text_le p q)) [
    | inl low ↦ rw low (hp, (hq, h))
    | inr high ↦ rw high (hq, insert-All p list hp h)
  ]

  dedup_after-All : (last : Bytes) (list : List Bytes) → All P list → All P (dedup_after last list)
  unfolding dedup_after
  dedup_after-All last [] h = tt
  dedup_after-All last (p ∷ list) (hp, h) = elim (Bool-cases (bytes_eq p last)) [
    | inl same ↦ rw same (dedup_after-All last list h)
    | inr new ↦ rw new (hp, dedup_after-All p list h)
  ]

le-All : (p q : Bytes) (list : List Bytes) → IsLe p q → All (IsLe q) list → All (IsLe p) list
le-All p q [] h hs = tt
le-All p q (r ∷ list) h (hr, hs) = (text_le_trans p q r h hr, le-All p q list h hs)

insert-IsSorted : (p : Bytes) (list : List Bytes) → IsSorted list → IsSorted (sorted_insert p list)
unfolding sorted_insert
insert-IsSorted p [] h = (tt, tt)
insert-IsSorted p (q ∷ list) (first, h) = elim (Bool-cases (text_le p q)) [
  | inl low ↦ rw low ((low, le-All p q list low first), (first, h))
  | inr high ↦
      rw high (insert-All (IsLe q) p list (text_le_total p q high) first, insert-IsSorted p list h)
]

pub sort-IsSorted : (list : List Bytes) → IsSorted (sort list)
unfolding sort
sort-IsSorted [] = tt
sort-IsSorted (p ∷ list) = insert-IsSorted p (sort list) (sort-IsSorted list)

dedup_after-IsSorted :
    (last : Bytes) (list : List Bytes) → IsSorted list → IsSorted (dedup_after last list)
unfolding dedup_after
dedup_after-IsSorted last [] h = tt
dedup_after-IsSorted last (p ∷ list) (first, h) = elim (Bool-cases (bytes_eq p last)) [
  | inl same ↦ rw same (dedup_after-IsSorted last list h)
  | inr new ↦ rw new (dedup_after-All (IsLe p) p list first, dedup_after-IsSorted p list h)
]

pub dedup-IsSorted : (list : List Bytes) → IsSorted list → IsSorted (dedup list)
unfolding dedup
dedup-IsSorted [] h = tt
dedup-IsSorted (p ∷ list) (first, h) =
    (dedup_after-All (IsLe p) p list first, dedup_after-IsSorted p list h)

insert-Mem : (p : Bytes) (list : List Bytes) → Memᴰ p (sorted_insert p list)
unfolding sorted_insert
insert-Mem p [] = head refl
insert-Mem p (q ∷ list) = elim (Bool-cases (text_le p q)) [
  | inl low ↦ rw low (head refl)
  | inr high ↦ rw high (tail (insert-Mem p list))
]

insert-Mem_old : (p q : Bytes) (list : List Bytes) → Memᴰ q list → Memᴰ q (sorted_insert p list)
unfolding sorted_insert
insert-Mem_old p q (r ∷ list) (head e) = elim (Bool-cases (text_le p r)) [
  | inl low ↦ rw low (tail (head e))
  | inr high ↦ rw high (head e)
]
insert-Mem_old p q (r ∷ list) (tail m) = elim (Bool-cases (text_le p r)) [
  | inl low ↦ rw low (tail (tail m))
  | inr high ↦ rw high (tail (insert-Mem_old p q list m))
]
insert-Mem_old p q [] m = elim m [ ]

pub sort-Mem : (q : Bytes) (list : List Bytes) → Memᴰ q list → Memᴰ q (sort list)
unfolding sort
sort-Mem q (p ∷ list) (head e) = rw e (insert-Mem p (sort list))
sort-Mem q (p ∷ list) (tail m) = insert-Mem_old p q (sort list) (sort-Mem q list m)
sort-Mem q [] m = elim m [ ]

dedup_after-Mem :
    (last q : Bytes) (list : List Bytes) → Memᴰ q list → (q ≡ last) ⊎ Memᴰ q (dedup_after last list)
unfolding dedup_after
dedup_after-Mem last q (p ∷ list) (head e) = elim (Bool-cases (bytes_eq p last)) [
  | inl same ↦ inl (e ∙ bytes_eq→eq p last same)
  | inr new ↦ inr (rw new (head e))
]
dedup_after-Mem last q (p ∷ list) (tail m) = elim (Bool-cases (bytes_eq p last)) [
  | inl same ↦ rw same (dedup_after-Mem last q list m)
  | inr new ↦
      rw new
        (elim (dedup_after-Mem p q list m) [ inl e ↦ inr (head e) | inr later ↦ inr (tail later) ])
]
dedup_after-Mem last q [] m = elim m [ ]

pub dedup-Mem : (q : Bytes) (list : List Bytes) → Memᴰ q list → Memᴰ q (dedup list)
unfolding dedup
dedup-Mem q (p ∷ list) (head e) = head e
dedup-Mem q (p ∷ list) (tail m) = elim (dedup_after-Mem p q list m) [
  | inl e ↦ head e
  | inr later ↦ tail later
]
dedup-Mem q [] m = elim m [ ]
