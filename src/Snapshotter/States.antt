-- ===== src/Snapshotter/States.antt =====
-- The state of the snapshotter as a step relation: what the messages, the history and the clock do to it.
use openseafeed.Base.{
  ℕ, ◌-◌, ◌≤◌, ◌≡◌, refl, sym, subst, arith, List, [], ◌∷◌, ◌++◌, length, length-drop, ltb, Option,
  none, some, Option-cases, Bool-cases, inl, inr,
}
use openseafeed.Base.Map.{Map, get, retain, nat_eq}
use openseafeed.Ais.Float.{Floats}
use openseafeed.Feed.Wire.{StreamMessage, Json}
use openseafeed.Snapshotter.{Vessel, consume}
use openseafeed.Snapshotter.Warm.{WarmPos, WarmStatic, warm_from_history}
use openseafeed.Snapshotter.Serve.{
  SharedState, Snapshot, Packer, snapshot_ring, is_live, body_of, push_snapshot, snapshot_round,
}
use openseafeed.Snapshotter.Fleet.{
  insert-IsFleet, get-IsVessel, entry-IsVessel, update_vessel-IsVessel,
}
use openseafeed.Snapshotter.Warmed.{IsSound, warm_from_history-IsSound}

module _ (fl : Floats) where
  open fl use {F}

  module _ (V : Type 0) where
    retain-IsSound :
        (now : ℕ) (m : Map ℕ (Vessel F V))
        → IsSound fl V m
        → IsSound fl V (retain (λ k v. is_live now v) m)
    unfolding retain
    retain-IsSound now [] h = tt
    retain-IsSound now ((k, v) ∷ m) (one, h) = elim (Bool-cases (is_live now v)) [
      | inl live ↦ rw live (one, retain-IsSound now m h)
      | inr old ↦ rw old (retain-IsSound now m h)
    ]

    push_snapshot-length :
        (s : Snapshot) (snapshots : List Snapshot)
        → length (push_snapshot s snapshots) ≤ snapshot_ring
    unfolding push_snapshot
    push_snapshot-length s snapshots = elim (Bool-cases (ltb 15 (length (snapshots ++ s ∷ [])))) [
      | inl over ↦
          rw (over, push_snapshot)
            (ground (arith, length-drop (length (snapshots ++ s ∷ []) - 15) (snapshots ++ s ∷ [])))
      | inr fits ↦ rw (fits, push_snapshot) (ground arith)
    ]

    snapshot_round-vessels :
        (packer : Packer F V) (now : ℕ) (st : SharedState F V)
        → (snapshot_round packer now st).vessels ≡ retain (λ k v. is_live now v) st.vessels
    unfolding snapshot_round
    snapshot_round-vessels packer now st =
        elim (Option-cases
          (packer.to_vec (body_of now (retain (λ k v. is_live now v) st.vessels)))) [
            | inl bad ↦ rw (bad, snapshot_round) refl
            | inr (json, good) ↦ rw (good, snapshot_round) refl
          ]

    snapshot_round-length :
        (packer : Packer F V) (now : ℕ) (st : SharedState F V)
        → length st.snapshots ≤ snapshot_ring
        → length (snapshot_round packer now st).snapshots ≤ snapshot_ring
    unfolding snapshot_round
    snapshot_round-length packer now st h =
        elim (Option-cases
          (packer.to_vec (body_of now (retain (λ k v. is_live now v) st.vessels)))) [
            | inl bad ↦ rw (bad, snapshot_round) h
            | inr (json, good) ↦ rw (good, snapshot_round) (push_snapshot-length _ st.snapshots)
          ]

  -- What the tasks of the service do to the state that they share, each under its lock.
  pub data Step (json : Json F) (packer : Packer F json.Value)
      : SharedState F json.Value → SharedState F json.Value → Type 0 where
    heard :
        (now : ℕ) (sm : Option (StreamMessage F json.Value)) (st : SharedState F json.Value)
        → Step json packer st (record st { vessels = consume fl json now sm st.vessels })
    warmed :
        (positions : Option (List (Option (WarmPos F))))
        (statics : Option (List (Option (WarmStatic F)))) (st : SharedState F json.Value)
        → Step json packer st
            (record st { vessels = warm_from_history fl json.Value positions statics st.vessels })
    ticked :
        (now : ℕ) (st : SharedState F json.Value)
        → Step json packer st (snapshot_round packer now st)

  -- The states of a service that has started without vessels and snapshots.
  pub data Reach (json : Json F) (packer : Packer F json.Value)
      : SharedState F json.Value → Type 0 where
    start : Reach json packer (record { vessels = []; snapshots = [] })
    next :
        {st after : SharedState F json.Value}
        → Reach json packer st
        → Step json packer st after
        → Reach json packer after

  module _ (json : Json F) (packer : Packer F json.Value) where
    consume-IsSound :
        (now : ℕ) (sm : Option (StreamMessage F json.Value)) (m : Map ℕ (Vessel F json.Value))
        → IsSound fl json.Value m
        → IsSound fl json.Value (consume fl json now sm m)
    unfolding consume
    consume-IsSound now none m h = h
    consume-IsSound now (some sm) m h =
        insert-IsFleet fl json.Value sm.metadata.mmsi _ m
          (update_vessel-IsVessel fl json now sm _ (
            entry-IsVessel fl json.Value (get sm.metadata.mmsi m)
              (get-IsVessel fl json.Value sm.metadata.mmsi m h)))
          h

    -- In every state that the service reaches, however its tasks interleave, a vessel has a position of the
    -- globe or none; its speed, where it has one, is below 102.3, its course below 360, its heading below 511, and its draught and
    -- its length are above 0; and there are no more than 15 snapshots.
    pub Reach-IsSound :
        (st : SharedState F json.Value)
        → Reach json packer st
        → IsSound fl json.Value st.vessels × (length st.snapshots ≤ snapshot_ring)
    Reach-IsSound _ start = (tt, omega arith)
    Reach-IsSound _ (next before (heard now sm st)) =
        let (h, few) = Reach-IsSound st before in (consume-IsSound now sm st.vessels h, few)
    Reach-IsSound _ (next before (warmed positions statics st)) =
        let (h, few) = Reach-IsSound st before in
        (warm_from_history-IsSound fl json.Value positions statics st.vessels h, few)
    Reach-IsSound _ (next before (ticked now st)) =
        let (h, few) = Reach-IsSound st before in
        (
          subst (IsSound fl json.Value) (sym (snapshot_round-vessels json.Value packer now st))
              (retain-IsSound json.Value now st.vessels h),
          snapshot_round-length json.Value packer now st few,
        )
