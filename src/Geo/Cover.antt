-- ===== src/Geo/Cover.antt =====
-- crates/geo/src/lib.rs: `Cell` and `cover`.
use openseafeed.Base.{
  ℕ, zero, suc, ◌+◌, List, [], ◌∷◌, ◌++◌, length, all, map, Bytes, Bool, true, false, not, ltb,
  if◌then◌else◌,
}
use openseafeed.Base.Octet.{test_bit}
use openseafeed.Ais.Float.{Floats}
use openseafeed.Geo.{BBox, base32, world, halve, intersects, inside}

pub record Cell (F : Type 0) : Type 0 where
  pub prefix : Bytes
  pub bounds : BBox F
  pub even : Bool
  pub done : Bool

module _ (fl : Floats) where
  open fl use {F}

  abbrev pub world_cell : Cell F
  world_cell = record { prefix = []; bounds = world fl; even = true; done = false }

  -- The loop over the bits, from bit `count - 1` of `i` down to bit 0.
  unfoldable pub halvings : ℕ → ℕ → Bool → BBox F → Bool × BBox F
  halvings zero i even b = (even, b)
  halvings (suc bit) i even b = halvings bit i (not even) (halve fl even (test_bit i bit) b)

  unfoldable pub child : Cell F → ℕ → ℕ → Cell F
  child cell i c =
      let (even, bounds) = halvings 5 i cell.even cell.bounds in
      record { prefix = cell.prefix ++ c ∷ []; bounds = bounds; even = even; done = false }

  unfoldable pub children_from : Cell F → ℕ → Bytes → List (Cell F)
  children_from cell i [] = []
  children_from cell i (c ∷ s) = child cell i c ∷ children_from cell (i + 1) s

  unfoldable pub children : Cell F → List (Cell F)
  children cell = children_from cell 0 base32

  -- The children that intersect the box, each with its mark.
  unfoldable pub selected : BBox F → List (Cell F) → List (Cell F)
  selected bbox [] = []
  selected bbox (child ∷ cells) =
      if intersects fl child.bounds bbox
      then record child { done = inside fl child.bounds bbox } ∷ selected bbox cells
      else selected bbox cells

  -- The cells of the next round.
  unfoldable pub refine : BBox F → List (Cell F) → List (Cell F)
  refine bbox [] = []
  refine bbox (cell ∷ cells) =
      if cell.done
      then cell ∷ refine bbox cells
      else selected bbox (children cell) ++ refine bbox cells

  unfoldable pub cover_loop : ℕ → BBox F → ℕ → List (Cell F) → List (Cell F)
  cover_loop zero bbox max_cells cells = cells
  cover_loop (suc rounds) bbox max_cells cells = elim (all (λ c. c.done) cells) [
    | true ↦ cells
    | false ↦
        let next = refine bbox cells in
        elim (ltb max_cells (length next)) [
          | true ↦ cells
          | false ↦ cover_loop rounds bbox max_cells next
        ]
  ]

  unfoldable pub cover : BBox F → ℕ → ℕ → List Bytes
  cover bbox max_precision max_cells =
      let root = record world_cell { done = inside fl (world fl) bbox } in
      map (λ c. c.prefix) (cover_loop max_precision bbox max_cells (root ∷ []))
