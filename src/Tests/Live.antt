-- ===== src/Tests/Live.antt =====
-- A report of a vessel off Seattle, and a client that asks for it.
use mathlib.Core.List.{Memᴰ}
use openseafeed.Base.{◌≡◌, refl, [], ◌∷◌, map, Bytes, codes, true, none, some}
use openseafeed.Base.Octet.{test_bit, set_bit}
use openseafeed.Base.Int.{ℤ, pos, negsuc}
use openseafeed.Base.Map.{get, text_eq}
use openseafeed.Base.Result.{Result, ok, err}
use openseafeed.Ais.Types.{Message, unknown}
use openseafeed.Ais.Bits.{
  dearmor, bit_at, set_at, write_char, write_chars, from_payload, len, uint_loop, uint, as_i64, int,
}
use openseafeed.Ais.Fields.{need, decode_header, minutes_to_deg, in_range, valid_position}
use openseafeed.Ais.Reports.{decode_position_report}
use openseafeed.Ais.Decode.{position_arm, decode_body, decode_bits, decode}
use openseafeed.Feed.{decoded_pattern, RawEnvelope}
use openseafeed.Feed.Headers
use openseafeed.Pipeline.Dedupe.{seen, sweep, is_recent, new}
use openseafeed.Pipeline.Handle.{Publication, round}
use openseafeed.Geo.{contains}
use openseafeed.Fanout.{ClientFilter, in_boxes, filter_cover}
use openseafeed.Fanout.Heard.{IsMatch}
use openseafeed.Live.{round-IsHeard}
use openseafeed.Tests.Fixed.{fixed, fixed-IsOrdered}
use openseafeed.Tests.Stream.{armored, platform, idle}

abbrev seattle_filter : ClientFilter ℤ
seattle_filter = record {
  boxes =
      record {
        min_lat = pos 47_000_000;
        max_lat = pos 48_000_000;
        min_lon = negsuc 122_999_999;
        max_lon = negsuc 121_999_999;
      }
      ∷ [];
  mmsi = [];
  types = [];
}

abbrev raw : RawEnvelope
raw = record {
  sentences = [];
  payload = armored;
  fill_bits = 0;
  channel = [];
  station_id = codes "stn";
  source = [];
  received_at_ms = 0;
}

abbrev nothing : Message ℤ
nothing = record {
  id = 0;
  mmsi = 0;
  packet = unknown (record {
    header = record { message_id = 0; repeat_indicator = 0; user_id = 0; valid = true };
    num_bits = 0;
  });
  position = none;
  name = none;
  ship_type = none;
  imo = none;
}

abbrev message_of : {E : Type 0} → Result E (Message ℤ) → Message ℤ
message_of (ok msg) = msg
message_of (err e) = nothing

abbrev report : Message ℤ
report = message_of (decode fixed armored 0)

report_decoded : decode fixed armored 0 ≡ ok report
unfolding decode decode_bits decode_body decode_header need from_payload write_chars write_char
    dearmor set_at bit_at test_bit set_bit uint uint_loop len
report_decoded = refl

report_position : report.position ≡ some (pos 47_582_833, negsuc 122_345_832)
unfolding decode decode_bits decode_body decode_header need from_payload write_chars write_char
    dearmor set_at bit_at test_bit set_bit uint uint_loop len position_arm decode_position_report
    valid_position in_range minutes_to_deg int as_i64
report_position = refl

round-IsHeard_example :
    (q : Publication) × ((round fixed platform
        (record { payload = armored; now = 1; accepted = true })
        idle).publication
      ≡ some q)
    × (get Headers.lat q.headers ≡ some (platform.format6 (pos 47_582_833)))
    × (get Headers.lon q.headers ≡ some (platform.format6 (negsuc 122_345_832)))
    × ((pattern : Bytes) × Memᴰ pattern (map decoded_pattern (filter_cover fixed seattle_filter))
        × IsMatch pattern q.subject)
unfolding decode_body decode_bits decode_header uint uint_loop bit_at test_bit from_payload
    write_chars write_char dearmor set_at set_bit decode need len seen sweep is_recent new get
    in_boxes position_arm valid_position decode_position_report minutes_to_deg int as_i64 in_range
    contains
round-IsHeard_example =
    round-IsHeard fixed platform fixed-IsOrdered seattle_filter (λ sm. sm.message_type) armored 1
      idle raw report report.packet (pos 47_582_833) (negsuc 122_345_832) (λ sm. refl) refl tt refl
      refl report_decoded refl report_position refl
