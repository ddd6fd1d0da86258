-- ===== src/Tests/Stream.antt =====
-- The pipeline on a few messages, and the snapshotter on what comes of them.
use openseafeed.Base.{
  ℕ, ◌+◌, ◌≤◌, ◌≡◌, List, [], ◌∷◌, length, All, Bytes, codes, bytes_eq, Bool, true, false, ◌==◌,
  if◌then◌else◌, Option, none, some, arith,
}
use openseafeed.Base.Int.{ℤ, pos, negsuc}
use openseafeed.Base.Map.{Map, nat_eq, text_eq}
use openseafeed.Base.Result.{Succeeds}
use openseafeed.Ais.Types.{Packet, Message}
use openseafeed.Ais.Decode.{decode}
use openseafeed.Ais.Decode.Placed.{IsPlaced, decode-IsPlaced}
use openseafeed.Feed.Wire.{Json, StreamMessage}
use openseafeed.Pipeline.Dedupe.{new}
use openseafeed.Pipeline.Handle.{Pipeline, Platform, Event, rounds}
use openseafeed.Pipeline.Handle.Balance.{IsBalanced, rounds-IsBalanced}
use openseafeed.Pipeline.Handle.Routes.{IsCells, IsRoute, rounds-IsRoute}
use openseafeed.Snapshotter.{consume}
use openseafeed.Snapshotter.Serve.{
  SharedState, Packer, snapshot_ring, snapshot_round, internal_token_ok,
}
use openseafeed.Snapshotter.States.{heard, ticked, start, next, Reach-IsSound}
use openseafeed.Snapshotter.Warmed.{IsSound}
use openseafeed.Snapshotter.Tokens.{internal_token_ok-bytes_eq}
use openseafeed.Archiver.{
  Archive, Answer, Event as Arrival, tick, message, no_message, archive, buffered,
}
use openseafeed.Archiver.Balance.{IsKept, total, archive-IsKept}
use openseafeed.Archiver.Books.{all_rows, all_booked, books_of}
use openseafeed.Tests.Fixed.{fixed}

abbrev pub armored : Bytes
armored = codes "177KQJ5000G?tO`K>RA1wUbN0TKH"

decode-IsPlaced_example :
    Succeeds (λ (m : Message ℤ). IsPlaced fixed m.position) (decode fixed armored 0)
decode-IsPlaced_example = decode-IsPlaced fixed armored 0

-- The payload of an event stands for its JSON.
abbrev pub platform : Platform ℤ
platform = record {
  Value = Packet ℤ;
  from_slice = λ payload.
      if length payload == 0
      then none
      else some (record {
        sentences = [];
        payload = payload;
        fill_bits = 0;
        channel = [];
        station_id = codes "stn";
        source = [];
        received_at_ms = 0;
      });
  to_value = λ packet. some packet;
  to_vec = λ sm. some sm.message_type;
  format6 = λ x. elim x [ pos n ↦ n ∷ [] | negsuc n ↦ b'-' ∷ n ∷ [] ];
  time_utc = λ ms. codes "2026-07-24T00:00:00Z";
  hash = length;
}

abbrev pub idle : Pipeline ℤ
idle = record {
  window = new 10 0;
  enrich = record { names = []; types = []; imos = []; last_pos = [] };
  stats = record { received = 0; decoded = 0; duplicates = 0; decode_errors = 0; published = 0 };
}

abbrev at : ℕ → Bytes → Event × Bool
at now payload = (record { payload = payload; now = now; accepted = true }, false)

abbrev traffic : List (Event × Bool)
traffic = at 1 armored ∷ at 2 armored ∷ at 3 [] ∷ at 4 (codes "1") ∷ []

rounds-IsBalanced_example :
    IsBalanced (rounds fixed platform traffic idle).0.stats
    × ((rounds fixed platform traffic idle).0.stats.published
        ≡ 0 + length (rounds fixed platform traffic idle).1)
rounds-IsBalanced_example =
    rounds-IsBalanced fixed platform traffic idle (omega arith, omega arith, omega arith)

rounds-IsRoute_example :
    IsCells fixed (rounds fixed platform traffic idle).0.enrich.last_pos
    × All (IsRoute fixed platform) (rounds fixed platform traffic idle).1
rounds-IsRoute_example = rounds-IsRoute fixed platform traffic idle tt

-- A small JSON: a chain of members, or a number, a whole number, a text or a truth value.
data Value : Type 0 where
  float : ℤ → Value
  whole : ℕ → Value
  string : Bytes → Value
  flag : Bool → Value
  empty : Value
  member : Bytes → Value → Value → Value

abbrev get_member : Value → Bytes → Option Value
get_member (member k v rest) key = if bytes_eq k key then some v else get_member rest key
get_member (float x) key = none
get_member (whole n) key = none
get_member (string t) key = none
get_member (flag b) key = none
get_member empty key = none

abbrev members : Value → Map Bytes Value
members (member k v rest) = (k, v) ∷ members rest
members (float x) = []
members (whole n) = []
members (string t) = []
members (flag b) = []
members empty = []

abbrev chain : Map Bytes Value → Value
chain [] = empty
chain ((k, v) ∷ m) = member k v (chain m)

abbrev json : Json ℤ
json = record {
  Value = Value;
  get = get_member;
  as_f64 = λ v. elim v [ float x ↦ some x | _ ↦ none ];
  as_u64 = λ v. elim v [ whole n ↦ some n | _ ↦ none ];
  as_str = λ v. elim v [ string t ↦ some t | _ ↦ none ];
  as_bool = λ v. elim v [ flag b ↦ some b | _ ↦ none ];
  as_object = λ v. some (members v);
  object = chain;
}

abbrev report : StreamMessage ℤ Value
report = record {
  message =
      member (codes "PositionReport")
        (member (codes "Latitude") (float (pos 51_950_000)) (
          member (codes "Longitude") (float (pos 4_100_000))
            (member (codes "TrueHeading") (whole 511) empty)))
        empty;
  message_type = codes "PositionReport";
  metadata = record {
    mmsi = 244_660_000;
    mmsi_string = 244_660_000;
    ship_name = codes "FERRY";
    ship_type = some 60;
    imo = none;
    latitude = pos 51_950_000;
    longitude = pos 4_100_000;
    time_utc = [];
  };
}

abbrev packer : Packer ℤ Value
packer = record { to_vec = λ body. some (codes "json"); gzip = λ bytes. some bytes }

abbrev born : SharedState ℤ Value
born = record { vessels = []; snapshots = [] }

abbrev after_report : SharedState ℤ Value
after_report = record born { vessels = consume fixed json 1000 (some report) [] }

Reach-IsSound_example :
    IsSound fixed Value (snapshot_round packer 2000 after_report).vessels
    × (length (snapshot_round packer 2000 after_report).snapshots ≤ snapshot_ring)
Reach-IsSound_example =
    Reach-IsSound fixed json packer (snapshot_round packer 2000 after_report)
      (next (next start (heard 1000 (some report) born)) (ticked 2000 after_report))

internal_token_ok-bytes_eq_example :
    internal_token_ok (codes "dev") (some (codes "dew")) ≡ bytes_eq (codes "dew") (codes "dev")
internal_token_ok-bytes_eq_example =
    internal_token_ok-bytes_eq (codes "dev") (some (codes "dew"))
      (omega arith, (omega arith, (omega arith, tt)))
      (omega arith, (omega arith, (omega arith, tt)))

abbrev busy : Archive ℤ
busy = record { positions = []; statics = []; written = 0; dropped = 0 }

abbrev refused : Answer × Answer
refused = (
  record { positions_ok = true; statics_ok = false },
  record { positions_ok = false; statics_ok = true },
)

abbrev arrivals : List (Arrival ℤ Value)
arrivals =
    message (codes "2026-07-24 00:00:00.000") (codes "stn") report refused
    ∷ no_message
    ∷ tick refused
    ∷ []

-- The second try is taken.
abbrev late : Answer × Answer
late = (
  record { positions_ok = true; statics_ok = false },
  record { positions_ok = true; statics_ok = true },
)

archive-IsKept_example :
    IsKept
      (total busy + all_rows fixed json arrivals)
      (archive fixed (λ x. x) json arrivals late busy)
    × (books_of (archive fixed (λ x. x) json arrivals late busy)
        ≡ all_booked fixed json arrivals late (books_of busy))
unfolding buffered
archive-IsKept_example = archive-IsKept fixed (λ x. x) json arrivals late busy (omega arith)
