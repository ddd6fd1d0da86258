-- ===== src/Snapshotter.antt =====
-- services/snapshotter/src/main.rs: the vessels, and what a message of the stream changes of them. Sums of two
-- `u16` wrap, as in a release build.
pub mod Warm
pub mod Serve
pub mod Fleet
pub mod Warmed
pub mod States
pub mod Tokens
pub mod Fresh
use openseafeed.Base.{
  ℕ, ◌+◌, ◌%◌, ◌^◌, [], ◌∷◌, length, any, Bytes, codes, bytes_eq, Bool, true, false, ◌==◌, ◌&&◌,
  ltb, leb, if◌then◌else◌, Option, none, some, ◌>>=◌,
}
use openseafeed.Base.Int.{pos, negsuc}
use openseafeed.Base.Map.{Map, get, insert, nat_eq}
use openseafeed.Ais.Float.{Floats, of_nat, tenths, lt}
use openseafeed.Feed.Wire.{StreamMessage, Json, flatten_static_report}

pub record Vessel (F V : Type 0) : Type 0 where
  pub mmsi : ℕ
  pub lat : Option F
  pub lon : Option F
  pub sog : Option F
  pub cog : Option F
  pub hdg : Option ℕ
  pub nav : Option ℕ
  pub name : Bytes
  pub ship_type : Option ℕ
  pub imo : Option ℕ
  pub callsign : Bytes
  pub dest : Bytes
  pub draught : Option F
  pub len : Option ℕ
  pub beam : Option ℕ
  pub eta : Option V
  pub ts : ℕ

abbrev pub default_vessel : {F V : Type 0} → Vessel F V
default_vessel = record {
  mmsi = 0;
  lat = none;
  lon = none;
  sog = none;
  cog = none;
  hdg = none;
  nav = none;
  name = [];
  ship_type = none;
  imo = none;
  callsign = [];
  dest = [];
  draught = none;
  len = none;
  beam = none;
  eta = none;
  ts = 0;
}

-- The value of a key, or the default of `or_default`.
abbrev pub entry : {F V : Type 0} → Option (Vessel F V) → Vessel F V
entry none = default_vessel
entry (some v) = v

abbrev pub or_else {ℓ} : {A : Type ℓ} → Option A → Option A → Option A
or_else none other = other
or_else (some a) other = some a

-- A new value where there is one that is good, and else the old.
abbrev pub update : {A : Type 0} → (A → Bool) → Option A → Option A → Option A
update good none old = old
update good (some a) old = if good a then some a else old

-- A new text where there is one that is not empty.
abbrev pub update_text : Option Bytes → Bytes → Bytes
update_text none old = old
update_text (some text) old = if length text == 0 then old else text

module _ (fl : Floats) where
  open fl use {F}

  -- `(-90.0..=90.0).contains(&lat) && (-180.0..=180.0).contains(&lon)`
  unfoldable pub on_globe : F → F → Bool
  on_globe lat lon =
      (fl.leb (fl.of_int (negsuc 89)) lat && fl.leb lat (of_nat fl 90))
      && (fl.leb (fl.of_int (negsuc 179)) lon && fl.leb lon (of_nat fl 180))

  module _ (json : Json F) where
    open json use {Value}

    unfoldable pub number : Value → Bytes → Option F
    number p k = do x ← json.get p k; json.as_f64 x

    unfoldable pub whole : Value → Bytes → Option ℕ
    whole p k = do x ← json.get p k; json.as_u64 x

    unfoldable pub text_of : Value → Bytes → Option Bytes
    text_of p k = do x ← json.get p k; json.as_str x

    unfoldable pub set_place : Option F → Option F → Vessel F Value → Vessel F Value
    set_place (some lat) (some lon) v =
        if on_globe lat lon then record v { lat = some lat; lon = some lon } else v
    set_place none lon v = v
    set_place (some lat) none v = v

    abbrev pub as_byte : Option ℕ → Option ℕ
    as_byte none = none
    as_byte (some n) = some (n % 2 ^ 8)

    -- The arm of the reports of a position.
    unfoldable pub update_position : Value → Vessel F Value → Vessel F Value
    update_position p v =
        let placed = set_place (number p (codes "Latitude")) (number p (codes "Longitude")) v in
        record placed {
          sog = update (λ x. lt fl x (tenths fl 1_023)) (number p (codes "Sog")) placed.sog;
          cog = update (λ x. lt fl x (of_nat fl 360)) (number p (codes "Cog")) placed.cog;
          hdg = update (λ h. ltb h 511) (whole p (codes "TrueHeading")) placed.hdg;
          nav = or_else (as_byte (whole p (codes "NavigationalStatus"))) placed.nav;
        }

    abbrev pub side : Value → Bytes → ℕ
    side dim k = elim (whole dim k) [ none ↦ 0 | some n ↦ n % 2 ^ 16 ]

    unfoldable pub set_dimension : Option Value → Vessel F Value → Vessel F Value
    set_dimension none v = v
    set_dimension (some dim) v =
        let len = (side dim (codes "A") + side dim (codes "B")) % 2 ^ 16 in
        let beam = (side dim (codes "C") + side dim (codes "D")) % 2 ^ 16 in
        if ltb 0 len then record v { len = some len; beam = some beam } else v

    abbrev pub has_month : Value → Bool
    has_month eta = elim (whole eta (codes "Month")) [ none ↦ false | some n ↦ ltb 0 n ]

    -- The arm of the static reports.
    unfoldable pub update_static : Value → Vessel F Value → Vessel F Value
    update_static p v =
        let ship_type = or_else (whole p (codes "Type")) (whole p (codes "ShipType")) in
        let sized = set_dimension (json.get p (codes "Dimension")) v in
        record sized {
          name = update_text (text_of p (codes "Name")) v.name;
          ship_type = elim ship_type [
            | none ↦ v.ship_type
            | some t ↦ if ltb 0 t then some (t % 2 ^ 8) else v.ship_type
          ];
          callsign = update_text (text_of p (codes "CallSign")) v.callsign;
          dest = update_text (text_of p (codes "Destination")) v.dest;
          draught =
              update (λ x. lt fl (of_nat fl 0) x) (number p (codes "MaximumStaticDraught"))
                v.draught;
          eta = update has_month (json.get p (codes "Eta")) v.eta;
        }

    unfoldable pub is_position_type : Bytes → Bool
    is_position_type t =
        any (λ name. bytes_eq t name)
          (codes "PositionReport"
            ∷ codes "StandardClassBPositionReport"
            ∷ codes "ExtendedClassBPositionReport"
            ∷ codes "LongRangeAisBroadcastMessage"
            ∷ codes "StandardSearchAndRescueAircraftReport"
            ∷ codes "AidsToNavigationReport"
            ∷ codes "BaseStationReport"
            ∷ [])

    unfoldable pub is_static_type : Bytes → Bool
    is_static_type t =
        any (λ name. bytes_eq t name) (codes "ShipStaticData" ∷ codes "StaticDataReport" ∷ [])

    unfoldable pub flattened : Value → Value
    flattened packet = elim (flatten_static_report json packet) [ none ↦ packet | some p ↦ p ]

    unfoldable pub update_from_packet : Bytes → Value → Vessel F Value → Vessel F Value
    update_from_packet message_type packet v =
        if is_position_type message_type
        then update_position (flattened packet) v
        else if is_static_type message_type
        then update_static (flattened packet) v
        else v

    -- What the metadata of a message say of its vessel.
    unfoldable pub update_from_metadata :
        ℕ → StreamMessage F Value → Vessel F Value → Vessel F Value
    update_from_metadata now sm v = record v {
      mmsi = sm.metadata.mmsi;
      ts = now;
      name = if length sm.metadata.ship_name == 0 then v.name else sm.metadata.ship_name;
      ship_type = or_else sm.metadata.ship_type v.ship_type;
      imo = or_else sm.metadata.imo v.imo;
    }

    unfoldable pub update_vessel : ℕ → StreamMessage F Value → Vessel F Value → Vessel F Value
    update_vessel now sm v =
        let known = update_from_metadata now sm v in
        elim (json.get sm.message sm.message_type) [
          | none ↦ known
          | some packet ↦ update_from_packet sm.message_type packet known
        ]

    -- A round of `consume`, at the time `now`; a text that is no message is passed over.
    unfoldable pub consume :
        ℕ → Option (StreamMessage F Value) → Map ℕ (Vessel F Value) → Map ℕ (Vessel F Value)
    consume now none vessels = vessels
    consume now (some sm) vessels =
        insert sm.metadata.mmsi (update_vessel now sm (entry (get sm.metadata.mmsi vessels)))
          vessels
