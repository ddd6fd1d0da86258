-- ===== src/Tests/Wire.antt =====
-- Payloads, sentences and messages on the wire.
use openseafeed.Base.{
  ◌==◌, ◌-◌, ◌≢◌, leb, if◌then◌else◌, ap, get_or, ℕ, ◌≡◌, ◌↔◌, refl, inr, [], ◌∷◌, ◌++◌, arith,
  Bytes, codes, length, All, Option, some, none,
}
use openseafeed.Base.Trim.{
  trim, is_char_boundary, trim_end_loop, trim_start_loop, space_width, wide_space, last_space,
}
use openseafeed.Base.Map.{get, kept, text_eq}
use openseafeed.Base.Result.{ok as done}
use openseafeed.Ais.Bits.{Bits, from_payload}
use openseafeed.Ais.Bits.Reads.{Holds}
use openseafeed.Ais.BitList.{to_bits}
use openseafeed.Ais.BitsMut.{new, push_uint, to_payload}
use openseafeed.Ais.BitsMut.Pushes.{new-IsBits, push_uint-IsBits}
use openseafeed.Ais.Armor.{payload_bits, from_payload_accepts}
use openseafeed.Ais.Armor.Back.{from_payload-to_payload}
use openseafeed.Ais.Encode.{encode_position_report, encode_ship_static_data}
use openseafeed.Ais.RoundTrip.Parts.{message}
use openseafeed.Ais.RoundTrip.Position
use openseafeed.Ais.RoundTrip.ShipStatic
use openseafeed.Nmea.Number.{digits_u8, parse_u8, to_digit}
use openseafeed.Nmea.Sentence.{
  Sentence, ok, panic, parse, strip_tag_block, checked_body, checksum_field, rfind, split, xor_fold,
  parse_fill, is_bad_char, parse_fields, ends_with,
}
use openseafeed.Nmea.Sentence.Parse.{
  IsPayloadChar, IsWellFormed, SplitsCharacter, parse-IsWellFormed, parse-panic_iff,
}
use openseafeed.Nmea.Encode.{sentence, sentence_body, to_sentences}
use openseafeed.Nmea.Encode.Line.{IsField}
use openseafeed.Nmea.Encode.RoundTrip.{parsed, parse-sentence}
use openseafeed.Nmea.Assembler.{Group, Assembler, new as new_assembler, add, key_of}
use openseafeed.Nmea.Assembler.Fragments.{IsAssembler, new-IsAssembler, add-IsAssembler}
use openseafeed.Nmea.Assembler.Others.{get-add_other}
use openseafeed.Nmea.Assembler.InOrder.{Delivers, add_all-in_order}
use openseafeed.Nmea.Delivery.{receive, receive-to_sentences}
use openseafeed.Radio.{IsReady, IsHeard, position_report-IsHeard, ship_static_data-IsHeard}
use openseafeed.Tests.Fractions.{fractions, fractions-IsExact}
use openseafeed.Tests.Samples.{
  position_report_sample, position_report_sample-Fits, ship_static_data_sample,
  ship_static_data_sample-Fits,
}

abbrev payload : Bytes
payload = codes "177KQJ5000G?tO`K>RA1wUbN0TKH"

from_payload_accepts_example :
    (bs : Bits) × (from_payload payload 0 ≡ done bs)
    × (bs.n ≡ 168)
    × Holds bs.b (payload_bits payload)
from_payload_accepts_example =
    from_payload_accepts payload 0 (ground arith) (omega arith) (omega arith)

from_payload-to_payload_example :
    (bs : Bits) × (from_payload
        (to_payload (push_uint new 5 7)).0
        (to_payload (push_uint new 5 7)).1
      ≡ done bs)
    × (bs.n ≡ (push_uint new 5 7).n)
    × Holds bs.b (to_bits 7 5)
from_payload-to_payload_example =
    from_payload-to_payload (push_uint new 5 7) (to_bits 7 5)
      (push_uint-IsBits new [] 5 7 new-IsBits)

-- The second of two sentences of a message.
abbrev second : Bytes
second = codes "!AIVDM,2,2,3,B,1@0000000000000,2*55"

abbrev second_sentence : Sentence
second_sentence = record {
  raw = second;
  tag_block = none;
  talker = codes "AI";
  kind = codes "VDM";
  fragments = 2;
  fragment = 2;
  seq_id = codes "3";
  channel = codes "B";
  payload = codes "1@0000000000000";
  fill_bits = 2;
}

second_is_parsed : parse second ≡ ok second_sentence
unfolding parse strip_tag_block trim trim_end_loop trim_start_loop space_width wide_space last_space
    checked_body rfind checksum_field is_char_boundary parse_u8 digits_u8 to_digit xor_fold
    parse_fields split ends_with is_bad_char parse_fill
second_is_parsed = refl

parse-IsWellFormed_example : IsWellFormed second_sentence
parse-IsWellFormed_example = parse-IsWellFormed second second_sentence second_is_parsed

-- A euro sign stands where the second checksum digit should be.
abbrev torn : Bytes
torn = codes "!AAAAAAAA*a" ++ 226 ∷ 130 ∷ 172 ∷ []

torn_panics : parse torn ≡ panic
unfolding parse strip_tag_block trim trim_end_loop trim_start_loop space_width wide_space last_space
    checked_body rfind checksum_field is_char_boundary
torn_panics = refl

parse-panic_iff_example : (parse torn ≡ panic) ↔ (
    (tag : Option Bytes) × (line : Bytes) × (strip_tag_block (trim torn) ≡ ok (tag, line))
    × SplitsCharacter line)
parse-panic_iff_example = parse-panic_iff torn

abbrev channel_a : Bytes
channel_a = codes "A"

channel_a-IsField : IsField channel_a
channel_a-IsField = record { bytes = omega arith; plain = omega arith }

payload_chars : All IsPayloadChar payload
unfolding is_bad_char
payload_chars = ground arith

parse-sentence_example :
    parse (sentence (sentence_body 2 1 (codes "7") channel_a payload 0))
    ≡ ok (parsed 2 1 0 (codes "7") channel_a payload)
parse-sentence_example =
    parse-sentence 2 1 0 (codes "7") channel_a payload (omega arith) (omega arith) (omega arith)
      (omega arith) (record { bytes = omega arith; plain = omega arith }) channel_a-IsField
      payload_chars

abbrev empty : Assembler
empty = record { ttl = 30; pending = [] }

-- A receiver whose clock stands still.
abbrev still : ℕ → ℕ
still j = 100

add-IsAssembler_example :
    IsAssembler (add (new_assembler 30) second_sentence 100).0
    × ((g : Group)
        → (add (new_assembler 30) second_sentence 100).1 ≡ some g
        → length g.sentences ≡ 2)
add-IsAssembler_example =
    add-IsAssembler (new_assembler 30) second_sentence 100 (new-IsAssembler 30)
      (record { first = omega arith; last = omega arith })

abbrev first_sentence : Sentence
first_sentence = record second_sentence { fragment = 1; payload = payload; fill_bits = 0 }

add_all-in_order_example :
    Delivers empty
      (key_of first_sentence)
      ((first_sentence, 100) ∷ (second_sentence, 120) ∷ [])
      (first_sentence ∷ second_sentence ∷ [])
add_all-in_order_example =
    add_all-in_order empty first_sentence 100 ((second_sentence, 120) ∷ []) tt (unfold get in refl)
      (refl, refl, refl, omega arith, (unfold key_of in refl, refl, refl, omega arith, tt)) refl

receive-to_sentences_example :
    (g : Group) × (receive empty still (to_sentences payload 0 channel_a 3) ≡ ok (g ∷ []))
    × (g.payload ≡ payload)
    × (g.fill_bits ≡ 0)
    × (g.channel ≡ channel_a)
receive-to_sentences_example =
    receive-to_sentences payload channel_a 0 3 empty still payload_chars (omega arith) (omega arith)
      channel_a-IsField tt (unfold get in refl) (λ j. omega arith)

empty-IsReady : (text : Bytes) → IsReady empty still text channel_a 3
empty-IsReady text = record { distinct = tt; absent = unfold get in refl; young = λ j. omega arith }

position_report-IsHeard_example :
    IsHeard channel_a 3 empty still channel_a-IsField fractions
      (encode_position_report fractions position_report_sample)
      (message fractions position_report_sample.header
        (Position.body fractions position_report_sample))
position_report-IsHeard_example =
    position_report-IsHeard fractions channel_a 3 empty still channel_a-IsField fractions-IsExact
      position_report_sample (inr (inr refl)) position_report_sample-Fits (empty-IsReady _)

ship_static_data-IsHeard_example :
    IsHeard channel_a 3 empty still channel_a-IsField fractions
      (encode_ship_static_data fractions ship_static_data_sample)
      (message fractions ship_static_data_sample.header
        (ShipStatic.body fractions ship_static_data_sample))
ship_static_data-IsHeard_example =
    ship_static_data-IsHeard fractions channel_a 3 empty still channel_a-IsField fractions-IsExact
      ship_static_data_sample refl ship_static_data_sample-Fits (empty-IsReady _)

-- A pending message of another key, nine old.
abbrev busy : Assembler
busy = record {
  ttl = 30;
  pending = (codes "AI|A|7", record { parts = none ∷ none ∷ []; have = 0; first_seen = 91 }) ∷ [];
}

third_differs : codes "AI|A|7" ≢ codes "AI|B|3"
third_differs h = let e : ◌≡◌ {A = ℕ} 65 66 = ap (λ s. get_or s 3 0) h in absurd (omega (arith, e))

other_message : codes "AI|A|7" ≢ key_of second_sentence
unfolding key_of
other_message h = absurd (third_differs h)

get-add_other_example : get (codes "AI|A|7") (add busy second_sentence 100).0.pending ≡ (
    if second_sentence.fragments == 1
    then get (codes "AI|A|7") busy.pending
    else kept
        (λ k p. leb (100 - p.first_seen) 30)
        (codes "AI|A|7")
        (get (codes "AI|A|7") busy.pending))
get-add_other_example =
    get-add_other busy second_sentence 100 (codes "AI|A|7") (unfold get in refl, tt) other_message
