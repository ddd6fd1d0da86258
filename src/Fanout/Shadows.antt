-- ===== src/Fanout/Shadows.antt =====
-- The prefixes that a client subscribes to: each cell of a box is under one of them, and none is under
-- another.
use mathlib.Core.List.{Memᴰ}
use mathlib.Core.List.Memᴰ.{head, tail, append_left, append_right}
use openseafeed.Base.{
  ◌≡◌, refl, sym, ◌∙◌, subst, arith, true, false, any, All, All-append, Pairwise, List, [], ◌∷◌,
  ◌++◌, Bytes, Bool-cases, ◌⊎◌, inl, inr, append-nil,
}
use openseafeed.Ais.Float.{Floats}
use openseafeed.Geo.{BBox}
use openseafeed.Geo.Cover.{cover}
use openseafeed.Fanout.{
  starts_with, sort, dedup, drop_shadowed, ClientFilter, all_covers, filter_cover, cover_precision,
  max_cells_per_client,
}
use openseafeed.Fanout.Sorted.{
  starts_with_split, starts_with-append, IsLe, IsSorted, text_le_prefix, text_le_antisym, sort-Mem,
  dedup-Mem, sort-IsSorted, dedup-IsSorted,
}

-- Neither of two prefixes begins the other.
abbrev pub IsApart : Bytes → Bytes → Type 0
IsApart p q = (starts_with q p ≡ false) × (starts_with p q ≡ false)

any-false :
    (p : Bytes) (out : List Bytes)
    → any (λ q. starts_with p q) out ≡ false
    → All (λ q. starts_with p q ≡ false) out
any-false p [] h = tt
any-false p (q ∷ out) h = (ground arith, any-false p out (ground arith))

any-true :
    (p : Bytes) (out : List Bytes)
    → any (λ q. starts_with p q) out ≡ true
    → (q rest : Bytes) × Memᴰ q out × (p ≡ q ++ rest)
any-true p [] h = absurd (ground arith)
any-true p (q ∷ out) h = elim (Bool-cases (starts_with p q)) [
  | inl under ↦ let (rest, same) = starts_with_split p q under in (q, rest, head refl, same)
  | inr apart ↦ let (r, rest, m, same) = any-true p out (ground arith) in (r, rest, tail m, same)
]

-- A prefix below those of the list that none of them begins begins none of them.
IsApart-of_le :
    (p : Bytes) (out : List Bytes)
    → All (λ q. IsLe q p) out
    → All (λ q. starts_with p q ≡ false) out
    → All (λ q. IsApart q p) out
IsApart-of_le p [] hs fs = tt
IsApart-of_le p (q ∷ out) (h, hs) (f, fs) =
    ((f, begins (Bool-cases (starts_with q p))), IsApart-of_le p out hs fs)
  where
    begins : (starts_with q p ≡ true) ⊎ (starts_with q p ≡ false) → starts_with q p ≡ false
    begins (inr apart) = apart
    begins (inl under) =
        let (rest, same) = starts_with_split q p under in
        let le : IsLe p q = subst (IsLe p) (sym same) (text_le_prefix p rest) in
        let eq : q ≡ p = text_le_antisym q p h le in
        let apart : starts_with p p ≡ false = subst (λ r. starts_with p r ≡ false) eq f in
        let begun : starts_with p p ≡ true =
          subst (λ r. starts_with r p ≡ true) (append-nil p) (starts_with-append p []) in
        absurd (cc)

Pairwise-snoc :
    (out : List Bytes) (p : Bytes)
    → Pairwise IsApart out
    → All (λ q. IsApart q p) out
    → Pairwise IsApart (out ++ p ∷ [])
Pairwise-snoc [] p hs h = (tt, tt)
Pairwise-snoc (q ∷ out) p (first, hs) (a, h) =
    (All-append (IsApart q) out (p ∷ []) first (a, tt), Pairwise-snoc out p hs h)

-- Every element of the one list is below every one of the other.
abbrev Below : List Bytes → List Bytes → Type 0
Below out list = All (λ p. All (λ q. IsLe q p) out) list

Below-more :
    (p : Bytes) (out list : List Bytes)
    → Below out list
    → All (IsLe p) list
    → Below (out ++ p ∷ []) list
Below-more p out [] h hs = tt
Below-more p out (r ∷ list) (b, h) (le, hs) =
    (All-append (λ q. IsLe q r) out (p ∷ []) b (le, tt), Below-more p out list h hs)

drop_shadowed-IsApart :
    (list out : List Bytes)
    → IsSorted list
    → Below out list
    → Pairwise IsApart out
    → Pairwise IsApart (drop_shadowed list out)
unfolding drop_shadowed
drop_shadowed-IsApart [] out sorted low h = h
drop_shadowed-IsApart (p ∷ list) out (first, sorted) (at, low) h =
    elim (Bool-cases (any (λ q. starts_with p q) out)) [
      | inl under ↦ rw under (drop_shadowed-IsApart list out sorted low h)
      | inr new ↦ rw new (
          drop_shadowed-IsApart list (out ++ p ∷ []) sorted (Below-more p out list low first)
            (Pairwise-snoc out p h (IsApart-of_le p out at (any-false p out new))))
    ]

-- What is out stays; what is in the list comes under something that is out.
drop_shadowed-Mem :
    (q : Bytes) (list out : List Bytes) → Memᴰ q out → Memᴰ q (drop_shadowed list out)
unfolding drop_shadowed
drop_shadowed-Mem q [] out m = m
drop_shadowed-Mem q (p ∷ list) out m = elim (Bool-cases (any (λ q. starts_with p q) out)) [
  | inl under ↦ rw under (drop_shadowed-Mem q list out m)
  | inr new ↦ rw new (drop_shadowed-Mem q list (out ++ p ∷ []) (append_left (p ∷ []) m))
]

abbrev pub IsUnder : Bytes → List Bytes → Type 0
IsUnder p list = (q rest : Bytes) × Memᴰ q list × (p ≡ q ++ rest)

drop_shadowed-IsUnder :
    (p : Bytes) (list out : List Bytes) → Memᴰ p list → IsUnder p (drop_shadowed list out)
unfolding drop_shadowed
drop_shadowed-IsUnder p (r ∷ list) out (head e) =
    elim (Bool-cases (any (λ q. starts_with r q) out)) [
      | inl under ↦
          let (q, rest, m, same) = any-true r out under in
          rw under (q, rest, drop_shadowed-Mem q list out m, e ∙ same)
      | inr new ↦ rw new (
        p,
        [],
        drop_shadowed-Mem p list (out ++ r ∷ []) (append_right out (head e)),
        sym (append-nil p),
      )
    ]
drop_shadowed-IsUnder p (r ∷ list) out (tail m) =
    elim (Bool-cases (any (λ q. starts_with r q) out)) [
      | inl under ↦ rw under (drop_shadowed-IsUnder p list out m)
      | inr new ↦ rw new (drop_shadowed-IsUnder p list (out ++ r ∷ []) m)
    ]
drop_shadowed-IsUnder p [] out m = elim m [ ]

module _ (fl : Floats) (filter : ClientFilter fl.F) where
  covers-Mem :
      (b : BBox fl.F) (p : Bytes) (boxes : List (BBox fl.F))
      → Memᴰ b boxes
      → Memᴰ p (cover fl b cover_precision max_cells_per_client)
      → Memᴰ p (all_covers fl boxes)
  unfolding all_covers
  covers-Mem b p (c ∷ boxes) (head e) m =
      append_left (all_covers fl boxes)
        (subst (λ b. Memᴰ p (cover fl b cover_precision max_cells_per_client)) e m)
  covers-Mem b p (c ∷ boxes) (tail n) m =
      append_right (cover fl c cover_precision max_cells_per_client) (covers-Mem b p boxes n m)
  covers-Mem b p [] n m = elim n [ ]

  -- Each prefix of the cover of each box is under one that the client subscribes to, and of two that it
  -- subscribes to neither begins the other.
  pub filter_cover-IsUnder :
      ((b : BBox fl.F) (p : Bytes)
        → Memᴰ b filter.boxes
        → Memᴰ p (cover fl b cover_precision max_cells_per_client)
        → (q rest : Bytes) × Memᴰ q (filter_cover fl filter) × (p ≡ q ++ rest))
      × Pairwise IsApart (filter_cover fl filter)
  unfolding filter_cover
  filter_cover-IsUnder =
      let cells = all_covers fl filter.boxes in
      let sorted = dedup-IsSorted (sort cells) (sort-IsSorted cells) in
      (
        λ b p n m.
            drop_shadowed-IsUnder p _ []
              (dedup-Mem p (sort cells) (sort-Mem p cells (covers-Mem b p filter.boxes n m))),
        drop_shadowed-IsApart _ [] sorted (nothing (dedup (sort cells))) tt,
      )
    where
      nothing : (list : List Bytes) → Below [] list
      nothing [] = tt
      nothing (p ∷ list) = (tt, nothing list)
