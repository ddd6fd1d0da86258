-- ===== src/Snapshotter/Warmed.antt =====
-- The warm start keeps the vessels of the snapshotter as they should be.
use openseafeed.Base.{
  ℕ, ◌+◌, ◌%◌, ◌^◌, ◌≡◌, List, [], ◌∷◌, Holds, true, ◌&&◌, ltb, leb, if◌then◌else◌, Option, none,
  some, Bool-cases, inl, inr,
}
use openseafeed.Base.Map.{Map, get, nat_eq}
use openseafeed.Ais.Float.{Floats, of_nat, lt}
use openseafeed.Snapshotter.{Vessel, entry, on_globe}
use openseafeed.Snapshotter.Warm.{
  WarmPos, WarmStatic, is_none, with_answer, with_facts, warm_vessel, warm_position, warm_positions,
  warm_facts, warm_static, warm_statics, warm_from_history,
}
use openseafeed.Snapshotter.Fleet.{
  AllGood, filtered-AllGood, fill-AllGood, IsVessel, IsFleet, insert-IsFleet, get-IsVessel,
  entry-IsVessel,
}

module _ (fl : Floats) where
  open fl use {F}

  module _ (V : Type 0) where
    warm_vessel-IsVessel :
        (w : WarmPos F) (v : Vessel F V)
        → on_globe fl w.lat w.lon ≡ true
        → IsVessel fl v
        → IsVessel fl (warm_vessel fl V w v)
    unfolding warm_vessel
    warm_vessel-IsVessel w v known h = elim (Bool-cases (leb w.ts v.ts)) [
      | inl old ↦ rw (old, warm_vessel) h
      | inr new ↦
          let (_, _, _, _, draught, len) = h in
          rw (new, warm_vessel)
            (
              known,
              filtered-AllGood _ w.sog,
              filtered-AllGood _ w.cog,
              filtered-AllGood _ w.hdg,
              draught,
              len,
            )
    ]

    warm_facts-IsVessel :
        (w : WarmStatic F) (v : Vessel F V) → IsVessel fl v → IsVessel fl (warm_facts fl V w v)
    unfolding warm_facts
    warm_facts-IsVessel w v (place, sog, cog, hdg, draught, len) = (
      place,
      sog,
      cog,
      hdg,
      fill-AllGood (λ x. lt fl (of_nat fl 0) x) v.draught w.draught draught,
      sized v.len len (w.a + w.b),
    )
      where
        sized :
            (old : Option ℕ)
            → AllGood (λ n. ltb 0 n) old
            → (sum : ℕ)
            → AllGood
                (λ n. ltb 0 n)
                (if is_none old && ltb 0 (sum % 2 ^ 16) then some (sum % 2 ^ 16) else old)
        sized (some n) h sum = h
        sized none h sum = elim (Bool-cases (ltb 0 (sum % 2 ^ 16))) [
          | inl long ↦ rw long long
          | inr short ↦ rw short tt
        ]

    abbrev pub IsSound : Map ℕ (Vessel F V) → Type 0
    IsSound m = IsFleet fl V m

    warm_position-IsSound :
        (o : Option (WarmPos F)) (m : Map ℕ (Vessel F V))
        → IsSound m
        → IsSound (warm_position fl V o m)
    unfolding warm_position
    warm_position-IsSound none m h = h
    warm_position-IsSound (some w) m h = elim (Bool-cases (on_globe fl w.lat w.lon)) [
      | inl known ↦
          rw (known, warm_position)
            (insert-IsFleet fl V w.mmsi _ m
              (warm_vessel-IsVessel w (entry (get w.mmsi m)) known
                (entry-IsVessel fl V (get w.mmsi m) (get-IsVessel fl V w.mmsi m h)))
              h)
      | inr off ↦ rw (off, warm_position) h
    ]

    warm_positions-IsSound :
        (lines : List (Option (WarmPos F))) (m : Map ℕ (Vessel F V))
        → IsSound m
        → IsSound (warm_positions fl V lines m)
    unfolding warm_positions
    warm_positions-IsSound [] m h = h
    warm_positions-IsSound (o ∷ lines) m h =
        warm_positions-IsSound lines _ (warm_position-IsSound o m h)

    with_facts-IsSound :
        (w : WarmStatic F) (m : Map ℕ (Vessel F V)) (o : Option (Vessel F V))
        → Holds (IsVessel fl) o
        → IsSound m
        → IsSound (with_facts fl V w m o)
    with_facts-IsSound w m none ho h = h
    with_facts-IsSound w m (some v) ho h =
        insert-IsFleet fl V w.mmsi _ m (warm_facts-IsVessel w v ho) h

    warm_statics-IsSound :
        (lines : List (Option (WarmStatic F))) (m : Map ℕ (Vessel F V))
        → IsSound m
        → IsSound (warm_statics fl V lines m)
    unfolding warm_statics warm_static
    warm_statics-IsSound [] m h = h
    warm_statics-IsSound (none ∷ lines) m h = warm_statics-IsSound lines m h
    warm_statics-IsSound (some w ∷ lines) m h =
        warm_statics-IsSound lines _
          (with_facts-IsSound w m (get w.mmsi m) (get-IsVessel fl V w.mmsi m h) h)

    with_answer-IsSound :
        {A : Type 0} (f : A → Map ℕ (Vessel F V) → Map ℕ (Vessel F V)) (o : Option A)
        (m : Map ℕ (Vessel F V))
        → ((a : A) → IsSound m → IsSound (f a m))
        → IsSound m
        → IsSound (with_answer f o m)
    with_answer-IsSound f none m step h = h
    with_answer-IsSound f (some a) m step h = step a h

    pub warm_from_history-IsSound :
        (positions : Option (List (Option (WarmPos F))))
        (statics : Option (List (Option (WarmStatic F)))) (m : Map ℕ (Vessel F V))
        → IsSound m
        → IsSound (warm_from_history fl V positions statics m)
    unfolding warm_from_history
    warm_from_history-IsSound positions statics m h =
        with_answer-IsSound (warm_statics fl V) statics _ (λ lines. warm_statics-IsSound lines _)
          (with_answer-IsSound (warm_positions fl V) positions m
            (λ lines. warm_positions-IsSound lines m) h)
