-- ===== src/Snapshotter/Fleet.antt =====
-- What holds of each vessel of the snapshotter, and its state as a step relation.
use openseafeed.Base.{
  filtered, ℕ, ◌+◌, ◌%◌, ◌^◌, ◌≡◌, [], ◌∷◌, All, Holds, Bool, true, ◌==◌, ltb, Option, none, some,
  Option-cases, Bool-cases, inl, inr, Bytes, codes,
}
use openseafeed.Base.Map.{Map, get, insert, nat_eq}
use openseafeed.Ais.Float.{Floats, of_nat, tenths, lt}
use openseafeed.Feed.Wire.{StreamMessage, Json}
use openseafeed.Snapshotter.{
  Vessel, entry, update, on_globe, number, whole, set_place, update_position, set_dimension,
  update_static, is_position_type, side, is_static_type, flattened, update_from_packet,
  update_from_metadata, update_vessel,
}
use openseafeed.Snapshotter.Warm.{fill}

module _ {A : Type 0} (good : A → Bool) where
  abbrev pub AllGood : Option A → Type 0
  AllGood o = Holds (λ a. good a ≡ true) o

  update-AllGood : (new old : Option A) → AllGood old → AllGood (update good new old)
  update-AllGood none old h = h
  update-AllGood (some a) old h = elim (Bool-cases (good a)) [
    | inl fine ↦ rw fine fine
    | inr bad ↦ rw bad h
  ]

  pub filtered-AllGood : (o : Option A) → AllGood (filtered good o)
  filtered-AllGood none = tt
  filtered-AllGood (some a) = elim (Bool-cases (good a)) [
    | inl fine ↦ rw fine fine
    | inr bad ↦ rw bad tt
  ]

  pub fill-AllGood : (old : Option A) (new : A) → AllGood old → AllGood (fill old (good new) new)
  fill-AllGood (some a) new h = h
  fill-AllGood none new h = elim (Bool-cases (good new)) [
    | inl fine ↦ rw fine fine
    | inr bad ↦ rw bad tt
  ]

module _ (fl : Floats) where
  open fl use {F}

  abbrev pub IsPlace : Option F → Option F → Type 0
  IsPlace none none = Unit
  IsPlace (some lat) (some lon) = on_globe fl lat lon ≡ true
  IsPlace none (some lon) = ⊥
  IsPlace (some lat) none = ⊥

  -- A position of the globe or none, and values in their ranges.
  abbrev pub IsVessel : {V : Type 0} → Vessel F V → Type 0
  IsVessel v =
      IsPlace v.lat v.lon
      × AllGood (λ x. lt fl x (tenths fl 1_023)) v.sog
      × AllGood (λ x. lt fl x (of_nat fl 360)) v.cog
      × AllGood (λ h. ltb h 511) v.hdg
      × AllGood (λ x. lt fl (of_nat fl 0) x) v.draught
      × AllGood (λ n. ltb 0 n) v.len

  module _ (json : Json F) where
    open json use {Value}

    set_place-IsVessel :
        (lat lon : Option F) (v : Vessel F Value)
        → IsVessel v
        → IsVessel (set_place fl json lat lon v)
    unfolding set_place
    set_place-IsVessel (some lat) (some lon) v h = elim (Bool-cases (on_globe fl lat lon)) [
      | inl fine ↦ let (_, sog, cog, hdg, dr, len) = h in rw fine (fine, sog, cog, hdg, dr, len)
      | inr bad ↦ rw bad h
    ]
    set_place-IsVessel none lon v h = h
    set_place-IsVessel (some lat) none v h = h

    update_position-IsVessel :
        (p : Value) (v : Vessel F Value) → IsVessel v → IsVessel (update_position fl json p v)
    unfolding update_position
    update_position-IsVessel p v h =
        let (place, sog, cog, hdg, draught, len) =
          set_place-IsVessel (number fl json p (codes "Latitude"))
            (number fl json p (codes "Longitude")) v h in
        (
          place,
          update-AllGood _ _ _ sog,
          update-AllGood _ _ _ cog,
          update-AllGood _ (whole fl json p (codes "TrueHeading")) _ hdg,
          draught,
          len,
        )

    set_dimension-IsVessel :
        (dim : Option Value) (v : Vessel F Value)
        → IsVessel v
        → IsVessel (set_dimension fl json dim v)
    unfolding set_dimension
    set_dimension-IsVessel none v h = h
    set_dimension-IsVessel (some dim) v h =
        let (place, sog, cog, hdg, draught, len) = h in
        elim (Bool-cases
          (ltb 0 ((side fl json dim (codes "A") + side fl json dim (codes "B")) % 2 ^ 16))) [
            | inl long ↦ rw (long, set_dimension) (place, sog, cog, hdg, draught, long)
            | inr short ↦ rw (short, set_dimension) h
          ]

    update_static-IsVessel :
        (p : Value) (v : Vessel F Value) → IsVessel v → IsVessel (update_static fl json p v)
    unfolding update_static
    update_static-IsVessel p v h =
        let (_, _, _, _, draught, _) = h in
        let (place, sog, cog, hdg, _, len) =
          set_dimension-IsVessel (json.get p (codes "Dimension")) v h in
        (place, sog, cog, hdg, update-AllGood _ _ _ draught, len)

    update_from_packet-IsVessel :
        (message_type : Bytes) (packet : Value) (v : Vessel F Value)
        → IsVessel v
        → IsVessel (update_from_packet fl json message_type packet v)
    unfolding update_from_packet
    update_from_packet-IsVessel message_type packet v h =
        elim (Bool-cases (is_position_type fl json message_type)) [
          | inl placed ↦
              rw (placed, update_from_packet)
                (update_position-IsVessel (flattened fl json packet) v h)
          | inr other ↦ elim (Bool-cases (is_static_type fl json message_type)) [
            | inl static ↦
                rw (other, static, update_from_packet)
                  (update_static-IsVessel (flattened fl json packet) v h)
            | inr none_of_them ↦ rw (other, none_of_them, update_from_packet) h
          ]
        ]

    pub update_vessel-IsVessel :
        (now : ℕ) (sm : StreamMessage F Value) (v : Vessel F Value)
        → IsVessel v
        → IsVessel (update_vessel fl json now sm v)
    unfolding update_vessel update_from_metadata
    update_vessel-IsVessel now sm v h = elim (Option-cases (json.get sm.message sm.message_type)) [
      | inl bare ↦ rw (bare, update_vessel) h
      | inr (packet, full) ↦
          rw (full, update_vessel)
            (update_from_packet-IsVessel sm.message_type packet
              (update_from_metadata fl json now sm v) h)
    ]

  module _ (V : Type 0) where
    abbrev pub IsFleet : Map ℕ (Vessel F V) → Type 0
    IsFleet m = All (λ e. IsVessel e.1) m

    pub insert-IsFleet :
        (k : ℕ) (v : Vessel F V) (m : Map ℕ (Vessel F V))
        → IsVessel v
        → IsFleet m
        → IsFleet (insert k v m)
    unfolding insert
    insert-IsFleet k v [] new h = (new, tt)
    insert-IsFleet k v ((j, old) ∷ m) new (one, h) = elim (Bool-cases (k == j)) [
      | inl same ↦ rw same (new, h)
      | inr other ↦ rw other (one, insert-IsFleet k v m new h)
    ]

    pub get-IsVessel : (k : ℕ) (m : Map ℕ (Vessel F V)) → IsFleet m → Holds IsVessel (get k m)
    unfolding get
    get-IsVessel k [] h = tt
    get-IsVessel k ((j, v) ∷ m) (one, h) = elim (Bool-cases (k == j)) [
      | inl same ↦ rw same one
      | inr other ↦ rw other (get-IsVessel k m h)
    ]

    pub entry-IsVessel : (o : Option (Vessel F V)) → Holds IsVessel o → IsVessel (entry o)
    entry-IsVessel none h = (tt, tt, tt, tt, tt, tt)
    entry-IsVessel (some v) h = h
