-- ===== src/Geo/Covered.antt =====
-- `cover` against `encode`: the cells of the cover hold the positions of the box.
use mathlib.Core.List.{Memᴰ}
use mathlib.Core.List.Memᴰ.{head, tail, append_left, append_right, cast, map as Mem-map}
use openseafeed.Base.{
  ℕ, zero, suc, ◌+◌, ◌-◌, ◌≤◌, ◌<◌, max, ◌≡◌, refl, ap, sym, ◌∙◌, subst, arith, Bool, true, false,
  not, ltb, inl, inr, Bool-cases, List, [], ◌∷◌, ◌++◌, length, length-map, get_or, all, Bytes,
}
use openseafeed.Base.Octet.{test_bit}
use openseafeed.Ais.Float.{Floats}
use openseafeed.Geo.{base32, BBox, world, encode, contains, intersects, inside}
use openseafeed.Geo.Cover.{
  Cell, halvings, child, children_from, children, selected, refine, cover_loop, cover,
}
use openseafeed.Geo.Encode.{
  index, index_bits, index-lt, upper, narrowed, even_at, bounds_at, hash_at, encode-hash_at,
  hash_at-append,
}
use openseafeed.Geo.Order.{IsOrdered}
use openseafeed.Geo.Around.{bounds_at-IsAround, around-intersects}

module _ (fl : Floats) (o : IsOrdered fl) (lat lon : fl.F) where
  open fl use {F}

  -- The cell of the first `n` characters.
  abbrev cell_at : ℕ → Bool → Cell F
  cell_at n done = record {
    prefix = hash_at fl lat lon n;
    bounds = bounds_at fl lat lon n;
    even = even_at fl lat lon n;
    done = done;
  }

  halvings-narrowed :
      (i : ℕ) (even : Bool) (b : BBox F)
      → test_bit i 4 ≡ upper fl lat lon 0 even b
      → test_bit i 3 ≡ upper fl lat lon 1 even b
      → test_bit i 2 ≡ upper fl lat lon 2 even b
      → test_bit i 1 ≡ upper fl lat lon 3 even b
      → test_bit i 0 ≡ upper fl lat lon 4 even b
      → halvings fl 5 i even b ≡ (not (not (not (not (not even)))), narrowed fl lat lon 5 even b)
  unfolding halvings
  halvings-narrowed i even b h₄ h₃ h₂ h₁ h₀ = rw (h₄, h₃, h₂, h₁, h₀) refl

  abbrev index_at : ℕ → ℕ
  index_at n =
      let even = even_at fl lat lon n in
      let b = bounds_at fl lat lon n in
      index (upper fl lat lon 0 even b) (upper fl lat lon 1 even b) (upper fl lat lon 2 even b)
        (upper fl lat lon 3 even b) (upper fl lat lon 4 even b)

  child-cell_at :
      (n : ℕ) (done : Bool)
      → child fl (cell_at n done) (index_at n) (get_or base32 (index_at n) 0)
        ≡ cell_at (suc n) false
  unfolding child
  child-cell_at n done =
      let even = even_at fl lat lon n in
      let b = bounds_at fl lat lon n in
      let (b₄, b₃, b₂, b₁, b₀) =
        index_bits (upper fl lat lon 0 even b) (upper fl lat lon 1 even b)
          (upper fl lat lon 2 even b) (upper fl lat lon 3 even b) (upper fl lat lon 4 even b) in
      rw (halvings-narrowed (index_at n) even b b₄ b₃ b₂ b₁ b₀) refl

  child-Mem :
      (cell : Cell F) (i k : ℕ) (chars : Bytes)
      → k < length chars
      → Memᴰ (child fl cell (i + k) (get_or chars k 0)) (children_from fl cell i chars)
  unfolding children_from
  child-Mem cell i k [] h = absurd (omega arith)
  child-Mem cell i zero (c ∷ s) h =
      let same : i + 0 ≡ i = omega arith in head (ap (λ j. child fl cell j c) same)
  child-Mem cell i (suc k) (c ∷ s) h =
      let next : i + suc k ≡ i + 1 + k = omega arith in
      rw next (tail (child-Mem cell (i + 1) k s (omega arith)))

  selected-Mem :
      (bbox : BBox F) (cell : Cell F) (cells : List (Cell F))
      → Memᴰ cell cells
      → intersects fl cell.bounds bbox ≡ true
      → Memᴰ (record cell { done = inside fl cell.bounds bbox }) (selected fl bbox cells)
  unfolding selected
  selected-Mem bbox cell (x ∷ cells) (head e) h = rw (← e, h) (head refl)
  selected-Mem bbox cell (x ∷ cells) (tail m) h = elim (Bool-cases (intersects fl x.bounds bbox)) [
    | inl good ↦ rw good (tail (selected-Mem bbox cell cells m h))
    | inr bad ↦ rw bad (selected-Mem bbox cell cells m h)
  ]
  selected-Mem bbox cell [] m h = elim m [ ]

  -- A cell of the list is one of those of the position, of `limit` characters at most.
  abbrev Holds : ℕ → List (Cell F) → Type 0
  Holds limit cells = (n : ℕ) × (done : Bool) × (n ≤ limit) × Memᴰ (cell_at n done) cells

  children-Holds :
      (bbox : BBox F) (n : ℕ) (done : Bool)
      → contains fl (world fl) lat lon ≡ true
      → contains fl bbox lat lon ≡ true
      → Holds (suc n) (selected fl bbox (children fl (cell_at n done)))
  unfolding children
  children-Holds bbox n done known h =
      let even = even_at fl lat lon n in
      let b = bounds_at fl lat lon n in
      let child : Memᴰ (cell_at (suc n) false) (children_from fl (cell_at n done) 0 base32) =
        cast
          (sym (child-cell_at n done)
            ∙ ap (λ i. child fl (cell_at n done) i (get_or base32 (index_at n) 0)) (omega arith))
          (child-Mem (cell_at n done) 0 (index_at n) base32 (
            index-lt (upper fl lat lon 0 even b) (upper fl lat lon 1 even b)
              (upper fl lat lon 2 even b) (upper fl lat lon 3 even b)
              (upper fl lat lon 4 even b))) in
      (
        suc n,
        inside fl (bounds_at fl lat lon (suc n)) bbox,
        omega arith,
        selected-Mem bbox (cell_at (suc n) false) _ child (
            around-intersects fl o lat lon (bounds_at fl lat lon (suc n)) bbox
              (bounds_at-IsAround fl o lat lon known (suc n)) h),
      )

  refine_kept :
      (bbox : BBox F) (x : Cell F) (cells : List (Cell F))
      → x.done ≡ true
      → refine fl bbox (x ∷ cells) ≡ x ∷ refine fl bbox cells
  unfolding refine
  refine_kept bbox x cells h = rw h refl

  refine_split :
      (bbox : BBox F) (x : Cell F) (cells : List (Cell F))
      → x.done ≡ false
      → refine fl bbox (x ∷ cells) ≡ selected fl bbox (children fl x) ++ refine fl bbox cells
  unfolding refine
  refine_split bbox x cells h = rw h refl

  refine-Holds :
      (bbox : BBox F) (n : ℕ) (done : Bool) (cells : List (Cell F))
      → contains fl (world fl) lat lon ≡ true
      → contains fl bbox lat lon ≡ true
      → Memᴰ (cell_at n done) cells
      → Holds (suc n) (refine fl bbox cells)
  refine-Holds bbox n true (x ∷ cells) known h (head e) =
      rw (← e, refine_kept bbox (cell_at n true) cells refl) (n, true, omega arith, head refl)
  refine-Holds bbox n false (x ∷ cells) known h (head e) =
      let (k, done, few, m) = children-Holds bbox n false known h in
      rw (← e, refine_split bbox (cell_at n false) cells refl)
        (k, done, few, append_left (refine fl bbox cells) m)
  refine-Holds bbox n done (x ∷ cells) known h (tail m) =
      let (k, later, few, m) = refine-Holds bbox n done cells known h m in
      elim (Bool-cases x.done) [
        | inl kept ↦
            subst (Holds (suc n)) (sym (refine_kept bbox x cells kept)) (k, later, few, tail m)
        | inr split ↦
            subst (Holds (suc n)) (sym (refine_split bbox x cells split))
              (k, later, few, append_right (selected fl bbox (children fl x)) m)
      ]
  refine-Holds bbox n done [] known h m = elim m [ ]

  loop-Holds :
      (rounds max_cells : ℕ) (bbox : BBox F) (n : ℕ) (done : Bool) (cells : List (Cell F))
      → contains fl (world fl) lat lon ≡ true
      → contains fl bbox lat lon ≡ true
      → Memᴰ (cell_at n done) cells
      → Holds (n + rounds) (cover_loop fl rounds bbox max_cells cells)
  unfolding cover_loop
  loop-Holds zero max_cells bbox n done cells known h m = (n, done, omega arith, m)
  loop-Holds (suc rounds) max_cells bbox n done cells known h m =
      elim (Bool-cases (all (λ c. c.done) cells)) [
        | inl over ↦ rw (over, cover_loop) (n, done, omega arith, m)
        | inr coarse ↦ elim (Bool-cases (ltb max_cells (length (refine fl bbox cells)))) [
          | inl big ↦ rw (coarse, big, cover_loop) (n, done, omega arith, m)
          | inr small ↦
              let (k, done, few, m) = refine-Holds bbox n done cells known h m in
              let (j, done, fewer, m) =
                loop-Holds rounds max_cells bbox k done (refine fl bbox cells) known h m in
              rw (coarse, small, cover_loop) (j, done, omega arith, m)
        ]
      ]

  -- A position of the globe that the box contains is in a cell of the cover: its geohash begins with
  -- a prefix of the list, whatever budget of cells there is.
  pub cover-encode :
      (bbox : BBox F) (max_precision max_cells precision : ℕ)
      → contains fl (world fl) lat lon ≡ true
      → contains fl bbox lat lon ≡ true
      → max_precision ≤ precision
      → (prefix rest : Bytes) × Memᴰ prefix (cover fl bbox max_precision max_cells)
        × (encode fl lat lon precision ≡ prefix ++ rest)
  unfolding cover
  cover-encode bbox max_precision max_cells precision known h fine =
      let (n, done, few, m) =
        loop-Holds max_precision max_cells bbox 0 (inside fl (world fl) bbox) _ known h
          (head refl) in
      let (rest, same, _) = hash_at-append fl lat lon (precision - n) n in
      let whole : precision - n + n ≡ precision = omega arith in
      (
        hash_at fl lat lon n,
        rest,
        Mem-map (λ c. c.prefix) m,
        encode-hash_at fl lat lon precision ∙ ap (hash_at fl lat lon) (sym whole) ∙ same,
      )

module _ (fl : Floats) where
  open fl use {F}

  loop-length :
      (rounds max_cells : ℕ) (bbox : BBox F) (cells : List (Cell F))
      → length (cover_loop fl rounds bbox max_cells cells) ≤ max max_cells (length cells)
  unfolding cover_loop
  loop-length zero max_cells bbox cells = omega arith
  loop-length (suc rounds) max_cells bbox cells = elim (Bool-cases (all (λ c. c.done) cells)) [
    | inl over ↦ rw (over, cover_loop) (omega arith)
    | inr coarse ↦ elim (Bool-cases (ltb max_cells (length (refine fl bbox cells)))) [
      | inl big ↦ rw (coarse, big, cover_loop) (omega arith)
      | inr small ↦
          let rest = loop-length rounds max_cells bbox (refine fl bbox cells) in
          rw (coarse, small, cover_loop) (ground (arith, rest))
    ]
  ]

  -- The cover has no more prefixes than the budget, or one when the budget is nothing.
  pub length-cover :
      (bbox : BBox F) (max_precision max_cells : ℕ)
      → length (cover fl bbox max_precision max_cells) ≤ max max_cells 1
  unfolding cover
  length-cover bbox max_precision max_cells =
      rw (length-map) (loop-length max_precision max_cells bbox _)
