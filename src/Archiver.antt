-- ===== src/Archiver.antt =====
-- services/archiver/src/main.rs: the rows of a message, the buffer and its flushes. What ClickHouse says to an
-- insert is part of an event, and so are the texts that `chrono` makes of the times.
pub mod Balance
pub mod Books
use openseafeed.Base.{
  filtered, or_default, ℕ, zero, suc, ◌+◌, ◌-◌, ◌%◌, ◌^◌, List, [], ◌∷◌, ◌++◌, length, drop, min,
  Bytes, codes, Bool, true, false, ◌&&◌, leb, ltb, if◌then◌else◌, Option, none, some, ◌>>=◌,
}
use openseafeed.Ais.Float.{Floats, of_nat, tenths, lt}
use openseafeed.Feed.Wire.{StreamMessage, Json}
use openseafeed.Snapshotter.{
  on_globe, number, whole, text_of, flattened, is_position_type, is_static_type, or_else,
}

abbrev pub flush_rows : ℕ
flush_rows = 5_000

abbrev pub max_buffer : ℕ
max_buffer = 200_000

pub record PositionRow (F : Type 0) : Type 0 where
  pub ts : Bytes
  pub mmsi : ℕ
  pub msg_type : Bytes
  pub lat : F
  pub lon : F
  pub sog : Option F
  pub cog : Option F
  pub heading : Option ℕ
  pub nav_status : Option ℕ
  pub station : Bytes

pub record StaticRow (F : Type 0) : Type 0 where
  pub ts : Bytes
  pub mmsi : ℕ
  pub name : Bytes
  pub call_sign : Bytes
  pub imo : ℕ
  pub ship_type : ℕ
  pub destination : Bytes
  pub draught : F
  pub dim_a : ℕ
  pub dim_b : ℕ
  pub dim_c : ℕ
  pub dim_d : ℕ

-- The variables of the loop of `main`.
pub record Archive (F : Type 0) : Type 0 where
  pub positions : List (PositionRow F)
  pub statics : List (StaticRow F)
  pub written : ℕ
  pub dropped : ℕ

abbrev pub truncated : ℕ → Option ℕ → Option ℕ
truncated width none = none
truncated width (some n) = some (n % 2 ^ width)

abbrev pub cast : {F : Type 0} → (F → F) → Option F → Option F
cast f none = none
cast f (some x) = some (f x)

-- What `insert` says of the two tables in one try.
pub record Answer : Type 0 where
  pub positions_ok : Bool
  pub statics_ok : Bool

unfoldable pub buffered : {F : Type 0} → Archive F → ℕ
buffered a = length a.positions + length a.statics

-- The rows above the cap go, the oldest positions first.
unfoldable pub capped : {F : Type 0} → Archive F → Archive F
capped a =
    if ltb max_buffer (buffered a)
    then (let excess = buffered a - max_buffer in
        let cut = min excess (length a.positions) in
        record a {
          positions = drop cut a.positions;
          statics = drop (min (excess - cut) (length a.statics)) a.statics;
          dropped = a.dropped + excess;
        })
    else a

abbrev pub saved : {F : Type 0} → Archive F → Archive F
saved a = record a { positions = []; statics = []; written = a.written + buffered a }

-- The tries that are left, with the answers of ClickHouse to them.
unfoldable pub tries : {F : Type 0} → List Answer → Archive F → Archive F
tries [] a = capped a
tries (answer ∷ answers) a =
    if answer.positions_ok && answer.statics_ok then saved a else tries answers a

unfoldable pub flush : {F : Type 0} → Answer × Answer → Archive F → Archive F
flush (first, second) a = tries (first ∷ second ∷ []) a

-- What a round of the loop is about: a message, a text that is none, or the tick; with the answers of
-- ClickHouse should the buffer be flushed.
pub data Event (F V : Type 0) : Type 0 where
  message : (ts station : Bytes) → StreamMessage F V → Answer × Answer → Event F V
  no_message : Event F V
  tick : Answer × Answer → Event F V

unfoldable pub flush_full : {F : Type 0} → Answer × Answer → Archive F → Archive F
flush_full answers a = if leb flush_rows (buffered a) then flush answers a else a

module _ (fl : Floats) (json : Json fl.F) where
  open fl use {F}
  open json use {Value}

  -- The position of a report, when it has one of the globe.
  unfoldable pub place_of : Option Value → Option (F × F)
  place_of p = do
    v ← p
    lat ← number fl json v (codes "Latitude")
    lon ← number fl json v (codes "Longitude")
    if on_globe fl lat lon then some (lat, lon) else none

  -- `flattened.as_ref().or(raw)`
  unfoldable pub packet_of : StreamMessage F Value → Option Value
  packet_of sm = do raw ← json.get sm.message sm.message_type; some (flattened fl json raw)

module _ (fl : Floats) (to_f32 : fl.F → fl.F) (json : Json fl.F) where
  open fl use {F}
  open json use {Value}

  unfoldable pub position_row :
      (ts station : Bytes) → StreamMessage F Value → Option Value → F → F → PositionRow F
  position_row ts station sm p lat lon =
      let f : Bytes → Option F = λ k. p >>= (λ v. number fl json v k) in
      let u : Bytes → Option ℕ = λ k. p >>= (λ v. whole fl json v k) in
      record {
        ts = ts;
        mmsi = sm.metadata.mmsi;
        msg_type = sm.message_type;
        lat = lat;
        lon = lon;
        sog = cast to_f32 (filtered (λ x. lt fl x (tenths fl 1_023)) (f (codes "Sog")));
        cog = cast to_f32 (filtered (λ x. lt fl x (of_nat fl 360)) (f (codes "Cog")));
        heading = truncated 16 (filtered (λ h. ltb h 511) (u (codes "TrueHeading")));
        nav_status = truncated 8 (u (codes "NavigationalStatus"));
        station = station;
      }

  unfoldable pub static_row : (ts : Bytes) → StreamMessage F Value → Option Value → StaticRow F
  static_row ts sm p =
      let u : Bytes → Option ℕ = λ k. p >>= (λ v. whole fl json v k) in
      let s : Bytes → Bytes = λ k. or_default (p >>= (λ v. text_of fl json v k)) [] in
      let dim = p >>= (λ v. json.get v (codes "Dimension")) in
      let d : Bytes → ℕ = λ k. or_default (dim >>= (λ v. whole fl json v k)) 0 in
      let draught = p >>= (λ v. number fl json v (codes "MaximumStaticDraught")) in
      record {
        ts = ts;
        mmsi = sm.metadata.mmsi;
        name = s (codes "Name");
        call_sign = s (codes "CallSign");
        imo = or_default (u (codes "ImoNumber")) 0 % 2 ^ 32;
        ship_type = or_default (or_else (u (codes "Type")) (u (codes "ShipType"))) 0 % 2 ^ 8;
        destination = s (codes "Destination");
        draught = to_f32 (or_default draught (of_nat fl 0));
        dim_a = d (codes "A") % 2 ^ 16;
        dim_b = d (codes "B") % 2 ^ 16;
        dim_c = d (codes "C") % 2 ^ 8;
        dim_d = d (codes "D") % 2 ^ 8;
      }

  unfoldable pub push_position :
      (ts station : Bytes)
      → StreamMessage F Value
      → Option Value
      → Option (F × F)
      → Archive F
      → Archive F
  push_position ts station sm p none a = a
  push_position ts station sm p (some (lat, lon)) a = record a {
    positions = a.positions ++ position_row ts station sm p lat lon ∷ [];
  }

  unfoldable pub collect : (ts station : Bytes) → StreamMessage F Value → Archive F → Archive F
  collect ts station sm a =
      if is_position_type fl json sm.message_type
      then push_position ts station sm (packet_of fl json sm)
          (place_of fl json (packet_of fl json sm)) a
      else if is_static_type fl json sm.message_type
      then record a { statics = a.statics ++ static_row ts sm (packet_of fl json sm) ∷ [] }
      else a

  unfoldable pub archive_round : Event F Value → Archive F → Archive F
  archive_round (message ts station sm answers) a = flush_full answers (collect ts station sm a)
  archive_round no_message a = a
  archive_round (tick answers) a = flush answers a

  -- The loop, and the flush behind it.
  unfoldable pub archive : List (Event F Value) → Answer × Answer → Archive F → Archive F
  archive [] last a = flush last a
  archive (event ∷ events) last a = archive events last (archive_round event a)
