-- ===== src/Tests/Gateway.antt =====
-- The ingest gateway and the keys on concrete inputs.
use openseafeed.Base.{ℕ, ◌≡◌, refl, [], ◌∷◌, arith, Bytes, codes, some, none, true}
use openseafeed.Base.Trim.{
  trim, is_char_boundary, trim_end_loop, trim_start_loop, space_width, wide_space, last_space,
}
use openseafeed.Base.Map.{get}
use openseafeed.Nmea.Number.{digits_u8, parse_u8, to_digit}
use openseafeed.Nmea.Sentence.{
  ok, parse, strip_tag_block, checked_body, checksum_field, rfind, split, xor_fold, parse_fill,
  is_bad_char, parse_fields, ends_with,
}
use openseafeed.Nmea.Assembler.{new as new_assembler, add}
use openseafeed.Nmea.Assembler.Fragments.{new-IsAssembler}
use openseafeed.Feed.{
  is_continuation, is_ascii_alphanumeric, is_token_char, sanitize_token, token_chars, raw, dotted,
  decoded_pattern,
}
use openseafeed.Keys.{station, ValidateResponse, kind_of, split_kind, strip_prefix, validate, fetch}
use openseafeed.Keys.Cache.{asking, validate-cached}
use openseafeed.Ingest.{
  Intake, Published, Counters, envelope, publish, take_sentence, count_line, handle_line,
}
use openseafeed.Ingest.Lines.{IsIntake, IsFrom, handle_line-IsIntake}

abbrev text : Bytes
text = codes "!AIVDM,1,1,,A,177KQJ5000G?tO`K>RA1wUbN0TKH,0*5F"

abbrev counters : ℕ → ℕ → Counters
counters lines groups = record { lines = lines; invalid = 2; groups = groups; auth_failures = 0 }

abbrev before : Intake
before = record { counters = counters 7 4; asm = new_assembler 30 }

abbrev after : Intake
after = record { counters = counters 8 5; asm = new_assembler 30 }

abbrev published : Published
published = some (
  raw (codes "stn-1"),
  record {
    sentences = text ∷ [];
    payload = codes "177KQJ5000G?tO`K>RA1wUbN0TKH";
    fill_bits = 0;
    channel = codes "A";
    station_id = codes "stn-1";
    source = codes "rf";
    received_at_ms = 1_700_000_000_000;
  },
)

line_is_handled :
    handle_line before text (codes "stn-1") (codes "rf") 100 1_700_000_000_000
    ≡ ok (after, published)
unfolding handle_line take_sentence count_line publish envelope add parse strip_tag_block trim
    trim_end_loop trim_start_loop space_width wide_space last_space checked_body rfind
    checksum_field is_char_boundary parse_u8 digits_u8 to_digit xor_fold parse_fields split
    ends_with is_bad_char parse_fill
line_is_handled = refl

handle_line-IsIntake_example : IsIntake after × IsFrom (codes "stn-1") (codes "rf") published
handle_line-IsIntake_example =
    handle_line-IsIntake before text (codes "stn-1") (codes "rf") 100 1_700_000_000_000 after
      published (record { pending = new-IsAssembler 30; counted = omega arith }) line_is_handled

abbrev key : Bytes
key = codes "osf_stn_0123abcd"

abbrev response : ValidateResponse
response = record {
  valid = true;
  kind = codes "station";
  tier = [];
  owner_id = codes "u1";
  station_id = some (codes "stn-1");
}

key_is_well_formed : kind_of key ≡ some station
unfolding kind_of split_kind strip_prefix is_ascii_alphanumeric
key_is_well_formed = refl

validate-cached_example :
    ((validate (some response) 100 101 (asking [] 60) key).1 ≡ fetch (some response) key)
    × (validate none 150 151 (validate (some response) 100 101 (asking [] 60) key).0 key
        ≡ validate (some response) 100 101 (asking [] 60) key)
validate-cached_example =
    validate-cached (some response) none 100 101 150 151 60 [] station key key_is_well_formed
      (unfold get in refl) (omega arith)

weird_station : sanitize_token (codes "weird station!") ≡ codes "weird_station_"
unfolding sanitize_token token_chars is_continuation is_token_char is_ascii_alphanumeric
weird_station = refl

pattern_of_prefix : decoded_pattern (codes "u1") ≡ codes "ais.decoded.u.1.>"
unfolding decoded_pattern dotted is_continuation
pattern_of_prefix = refl
