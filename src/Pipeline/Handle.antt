-- ===== src/Pipeline/Handle.antt =====
-- services/pipeline/src/main.rs: `handle` and the loop of `main` over the messages. The JSON
-- library, the calendar, the format of a coordinate and the hasher are parameters; what the clock, the
-- stores and the bus do is part of an event.

pub mod Balance
pub mod Routes
use openseafeed.Base.{
  or_default, ℕ, suc, ◌+◌, List, [], ◌∷◌, length, Bytes, codes, Bool, true, false, ◌==◌, ltb,
  if◌then◌else◌, Option, none, some, ◌>>=◌,
}
use openseafeed.Base.Int.{pos}
use openseafeed.Base.Map.{Map, Eq, get, insert, nat_eq, text_eq}
use openseafeed.Base.Result.{Result, ok, err}
use openseafeed.Ais.Float.{Floats, of_nat}
use openseafeed.Ais.Types.{Packet, Message, type_name}
use openseafeed.Ais.Decode.{decode}
use openseafeed.Geo.{encode}
use openseafeed.Nmea.Number.{decimal}
use openseafeed.Feed.{RawEnvelope, decoded, no_position}
use openseafeed.Feed.Wire.{MetaData, StreamMessage}
use openseafeed.Feed.Headers
use openseafeed.Pipeline.Dedupe.{Window, seen}
use openseafeed.Pipeline.Enrichment.{Enrichment, Writes, trim, Place, enriched}

pub record Stats : Type 0 where
  pub received : ℕ
  pub decoded : ℕ
  pub duplicates : ℕ
  pub decode_errors : ℕ
  pub published : ℕ

pub record Pipeline (F : Type 0) : Type 0 where
  pub window : Window
  pub enrich : Enrichment F
  pub stats : Stats

pub record Publication : Type 0 where
  pub subject : Bytes
  pub headers : Map Bytes Bytes
  pub payload : Bytes

-- The code around the pipeline: the readers and writers of JSON, `format!("{lat:.6}")`, the time of a
-- number of milliseconds (or of now, when it has none), and the hasher of the window.
pub record Platform (F : Type 0) : Type 1 where
  pub Value : Type 0
  pub from_slice : Bytes → Option RawEnvelope
  pub to_value : Packet F → Option Value
  pub to_vec : StreamMessage F Value → Option Bytes
  pub format6 : F → Bytes
  pub time_utc : ℕ → Bytes
  pub hash : Bytes → ℕ

-- A message of the bus, the time of its handling, and whether the bus takes what is published.
pub record Event : Type 0 where
  pub payload : Bytes
  pub now : ℕ
  pub accepted : Bool

-- What `handle` leaves: the state, the writes, what went out, and whether it returned `Ok`.
pub record Handled (F : Type 0) : Type 0 where
  pub state : Pipeline F
  pub writes : Writes
  pub publication : Option Publication
  pub is_ok : Bool

abbrev pub no_writes : Writes
no_writes = record { names_kv = []; types_kv = []; imos_kv = [] }

module _ (fl : Floats) (platform : Platform fl.F) where
  open fl use {F}

  unfoldable pub coordinates : Option (Place fl) → F × F
  coordinates none = (of_nat fl 0, of_nat fl 0)
  coordinates (some (cell, lat, lon)) = (lat, lon)

  unfoldable pub metadata_of :
      RawEnvelope → Message F → Enrichment F → Option (Place fl) → MetaData F
  metadata_of raw msg e place = record {
    mmsi = msg.mmsi;
    mmsi_string = msg.mmsi;
    ship_name = or_default (get msg.mmsi e.names) [];
    ship_type = get msg.mmsi e.types;
    imo = get msg.mmsi e.imos;
    latitude = (coordinates place).0;
    longitude = (coordinates place).1;
    time_utc = platform.time_utc raw.received_at_ms;
  }

  unfoldable pub subject_of : Option (Place fl) → Bytes
  subject_of none = no_position
  subject_of (some (cell, lat, lon)) = decoded cell

  unfoldable pub place_headers : Option (Place fl) → Map Bytes Bytes → Map Bytes Bytes
  place_headers none hdrs = hdrs
  place_headers (some (cell, lat, lon)) hdrs =
      insert Headers.lon (platform.format6 lon) (insert Headers.lat (platform.format6 lat) hdrs)

  unfoldable pub headers_of : RawEnvelope → Message F → Option (Place fl) → Map Bytes Bytes
  headers_of raw msg place = place_headers place (
      insert Headers.station raw.station_id (
        insert Headers.msg_type (type_name msg.packet) (insert Headers.mmsi (decimal msg.mmsi) [])))

  unfoldable pub fail : Pipeline F → Writes → Handled F
  fail p writes = record { state = p; writes = writes; publication = none; is_ok = false }

  -- The end of `handle`: `publish_with_headers` and the counter behind it.
  unfoldable pub publish : Bool → Pipeline F → Writes → Option Publication → Handled F
  publish accepted p writes none = fail p writes
  publish false p writes (some publication) = fail p writes
  publish true p writes (some publication) = record {
    state = record p { stats = record p.stats { published = p.stats.published + 1 } };
    writes = writes;
    publication = some publication;
    is_ok = true;
  }

  -- What goes out, unless the JSON library fails.
  unfoldable pub publication_of :
      RawEnvelope → Message F → Enrichment F → Option (Place fl) → Option Publication
  publication_of raw msg e place = do
    value ← platform.to_value msg.packet
    payload ← platform.to_vec (record {
      message = value;
      message_type = type_name msg.packet;
      metadata = metadata_of raw msg e place;
    })
    some (record {
      subject = subject_of place;
      headers = headers_of raw msg place;
      payload = payload;
    })

  -- The part of `handle` behind the checks of the decoded message.
  unfoldable pub handle_message : Bool → RawEnvelope → Message F → Pipeline F → Handled F
  handle_message accepted raw msg p =
      let (enrich, writes, place) = enriched fl msg p.enrich in
      let after : Pipeline F = record p {
        enrich = enrich;
        stats = record p.stats { decoded = p.stats.decoded + 1 };
      } in
      publish accepted after writes (publication_of raw msg enrich place)

  unfoldable pub handle_decoded :
      {E : Type 0} → Bool → RawEnvelope → Pipeline F → Result E (Message F) → Handled F
  handle_decoded accepted raw p (err e) = fail p no_writes
  handle_decoded accepted raw p (ok msg) =
      if msg.mmsi == 0 then fail p no_writes else handle_message accepted raw msg p

  unfoldable pub handle_raw : Event → Pipeline F → Option RawEnvelope → Handled F
  handle_raw event p none = fail p no_writes
  handle_raw event p (some raw) =
      let (window, again) = seen platform.hash p.window raw.payload event.now in
      let p : Pipeline F = record p { window = window } in
      if again
      then record {
        state = record p { stats = record p.stats { duplicates = p.stats.duplicates + 1 } };
        writes = no_writes;
        publication = none;
        is_ok = true;
      }
      else handle_decoded event.accepted raw p (decode fl raw.payload raw.fill_bits)

  unfoldable pub handle : Event → Pipeline F → Handled F
  handle event p = handle_raw event p (platform.from_slice event.payload)

  -- `if let Err(e)` around `handle`.
  unfoldable pub counted : Handled F → Handled F
  counted h = if h.is_ok then h else record h {
    state = record h.state {
      stats = record h.state.stats { decode_errors = h.state.stats.decode_errors + 1 };
    };
  }

  -- A round of the loop of `main`.
  unfoldable pub round : Event → Pipeline F → Handled F
  round event p =
      counted
        (handle event (record p { stats = record p.stats { received = p.stats.received + 1 } }))

  unfoldable pub trimmed : Bool → Pipeline F → Pipeline F
  trimmed due p = if due then record p { enrich = trim p.enrich } else p

  abbrev pub with_publication : Option Publication → List Publication → List Publication
  with_publication none more = more
  with_publication (some publication) more = publication ∷ more

  -- The loop, with the trim of the half minute where one comes: what went out, in order.
  unfoldable pub rounds : List (Event × Bool) → Pipeline F → Pipeline F × List Publication
  rounds [] p = (p, [])
  rounds ((event, trims) ∷ events) p =
      let h = round event p in
      let (last, more) = rounds events (trimmed trims h.state) in
      (last, with_publication h.publication more)
