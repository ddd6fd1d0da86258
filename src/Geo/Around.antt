-- ===== src/Geo/Around.antt =====
-- The bounds on the way to the cell of a position hold the position.
use openseafeed.Base.{ℕ, zero, suc, ◌≡◌, refl, arith, Bool, true, false, not, inl, inr, Bool-cases}
use openseafeed.Ais.Float.{Floats}
use openseafeed.Geo.{BBox, world, mid, halve, is_upper, contains, intersects}
use openseafeed.Geo.Encode.{narrow, narrowed, even_at, bounds_at}
use openseafeed.Geo.Order.{IsLe, IsDegree, IsOrdered}

module _ (fl : Floats) (o : IsOrdered fl) (lat lon : fl.F) where
  open fl use {F}

  -- Bounds on the globe that hold the position.
  abbrev pub IsAround : BBox F → Type 0
  IsAround b =
      (IsDegree fl b.min_lat
        × IsDegree fl b.max_lat
        × IsDegree fl b.min_lon
        × IsDegree fl b.max_lon)
      × (IsLe fl b.min_lat lat × IsLe fl lat b.max_lat)
      × (IsLe fl b.min_lon lon × IsLe fl lon b.max_lon)

  contains-IsLe :
      (b : BBox F)
      → contains fl b lat lon ≡ true
      → (IsLe fl b.min_lat lat × IsLe fl lat b.max_lat)
        × (IsLe fl b.min_lon lon × IsLe fl lon b.max_lon)
  unfolding contains
  contains-IsLe b h = ground arith

  world-IsAround : contains fl (world fl) lat lon ≡ true → IsAround (world fl)
  world-IsAround h =
      let (high, wide) = contains-IsLe (world fl) h in
      ((o.south, o.north, o.least, o.most), high, wide)

  narrow-IsAround :
      IsDegree fl lat
      → IsDegree fl lon
      → (even : Bool) (b : BBox F) → IsAround b
      → IsAround (narrow fl lat lon even b)
  unfolding halve is_upper
  narrow-IsAround at along true b ((s, n, w, e), (above, below), (left, right)) =
      let m = o.mid-IsDegree w e in
      elim (Bool-cases (fl.leb (mid fl b.min_lon b.max_lon) lon)) [
        | inl high ↦ rw high ((s, n, m, e), (above, below), (high, right))
        | inr low ↦ rw low ((s, n, w, m), (above, below), (left, o.total m along low))
      ]
  narrow-IsAround at along false b ((s, n, w, e), (above, below), (left, right)) =
      let m = o.mid-IsDegree s n in
      elim (Bool-cases (fl.leb (mid fl b.min_lat b.max_lat) lat)) [
        | inl high ↦ rw high ((m, n, w, e), (high, below), (left, right))
        | inr low ↦ rw low ((s, m, w, e), (above, o.total m at low), (left, right))
      ]

  narrowed-IsAround :
      IsDegree fl lat
      → IsDegree fl lon
      → (n : ℕ) (even : Bool) (b : BBox F) → IsAround b
      → IsAround (narrowed fl lat lon n even b)
  narrowed-IsAround at along zero even b h = h
  narrowed-IsAround at along (suc n) even b h =
      narrowed-IsAround at along n (not even) (narrow fl lat lon even b)
        (narrow-IsAround at along even b h)

  pub bounds_at-IsAround :
      contains fl (world fl) lat lon ≡ true → (n : ℕ) → IsAround (bounds_at fl lat lon n)
  bounds_at-IsAround h zero = world-IsAround h
  bounds_at-IsAround h (suc n) =
      let (_, (above, below), (left, right)) = world-IsAround h in
      let at : IsDegree fl lat = (o.trans (o.south.0) above, o.trans below (o.north.1)) in
      narrowed-IsAround at (left, right) 5 (even_at fl lat lon n) (bounds_at fl lat lon n)
        (bounds_at-IsAround h n)

  pub around-intersects :
      (b bbox : BBox F) → IsAround b → contains fl bbox lat lon ≡ true → intersects fl b bbox ≡ true
  unfolding intersects
  around-intersects b bbox (_, (above, below), (left, right)) h =
      let ((north, south), (west, east)) = contains-IsLe bbox h in
      rw (o.trans above south, o.trans north below, o.trans left east, o.trans west right) refl
