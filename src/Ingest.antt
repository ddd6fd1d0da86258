-- ===== src/Ingest.antt =====
-- services/ingest/src/main.rs: `handle_line` and `producer_auth`. What is published is a result; a failure
-- to publish is logged only. The clocks are arguments.
pub mod Lines
use openseafeed.Base.{ℕ, ◌+◌, List, [], ◌∷◌, ◌++◌, Bytes, codes, Option, none, some}
use openseafeed.Base.Trim.{trim}
use openseafeed.Nmea.Sentence.{Sentence, Outcome, ok, err, panic, parse}
use openseafeed.Nmea.Assembler.{Group, Assembler, add}
use openseafeed.Feed.{RawEnvelope, raw}
use openseafeed.Keys.{Kind, live, station, feed, as_str, KeyInfo}

pub record Counters : Type 0 where
  pub lines : ℕ
  pub invalid : ℕ
  pub groups : ℕ
  pub auth_failures : ℕ

-- The counters, and the assembler of the connection.
pub record Intake : Type 0 where
  pub counters : Counters
  pub asm : Assembler

abbrev pub Published : Type 0
Published = Option (Bytes × RawEnvelope)

unfoldable pub envelope : Group → (station_id source : Bytes) → ℕ → RawEnvelope
envelope g station_id source now_ms = record {
  sentences = g.sentences;
  payload = g.payload;
  fill_bits = g.fill_bits;
  channel = g.channel;
  station_id = station_id;
  source = source;
  received_at_ms = now_ms;
}

-- Behind the assembler: a message is counted and published.
unfoldable pub publish :
    Intake → (station_id source : Bytes) → ℕ → Option Group → Intake × Published
publish s station_id source now_ms none = (s, none)
publish s station_id source now_ms (some g) =
    let c = s.counters in
    (
      record s { counters = record c { groups = c.groups + 1 } },
      some (raw station_id, envelope g station_id source now_ms),
    )

-- Behind `parse`: an error is counted, a panic ends the task.
unfoldable pub take_sentence :
    Intake
    → (station_id source : Bytes) → (now now_ms : ℕ) → Outcome Sentence
    → Outcome (Intake × Published)
take_sentence s station_id source now now_ms (ok sentence) =
    let (asm, out) = add s.asm sentence now in
    ok (publish (record s { asm = asm }) station_id source now_ms out)
take_sentence s station_id source now now_ms (err e) =
    let c = s.counters in ok (record s { counters = record c { invalid = c.invalid + 1 } }, none)
take_sentence s station_id source now now_ms panic = panic

unfoldable pub count_line : Intake → Intake
count_line s = let c = s.counters in record s { counters = record c { lines = c.lines + 1 } }

unfoldable pub handle_line :
    Intake → Bytes → (station_id source : Bytes) → (now now_ms : ℕ) → Outcome (Intake × Published)
handle_line s line station_id source now now_ms = elim (trim line) [
  | [] ↦ ok (s, none)
  | c ∷ rest ↦ take_sentence (count_line s) station_id source now now_ms (parse (c ∷ rest))
]

abbrev station_of : KeyInfo → Bytes
station_of info = elim info.station_id [
  | some id ↦ id
  | none ↦ as_str info.kind ++ (b'-' ∷ info.owner_id)
]

-- `producer_auth`, behind the validator: the station and the source.
unfoldable pub producer_auth : Option KeyInfo → Option (Bytes × Bytes)
producer_auth none = none
producer_auth (some info) = elim info.kind [
  | live ↦ none
  | station ↦ some (station_of info, codes "rf")
  | feed ↦ some (station_of info, codes "partner")
]
