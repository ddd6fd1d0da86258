-- ===== src/Tests/Messages.antt =====
-- `decode` on a short stream, and on what `encode` makes of a sample.
use openseafeed.Base.{ℕ, Bytes, some, replicate, ◌≡◌, refl}
use openseafeed.Base.Octet.{test_bit}
use openseafeed.Base.Result.{ok}
use openseafeed.Ais.Bits.{Bits, uint, uint_loop, bit_at}
use openseafeed.Ais.Fields.{u8, decode_header}
use openseafeed.Ais.Decode.Lengths.{Needs, required, decode_bits-Needs}
use openseafeed.Ais.Decode.{decode, decode_bits}
use openseafeed.Ais.Encode.{encode}
use openseafeed.Ais.Types.{extended_class_b_position_report}
use openseafeed.Ais.RoundTrip.Packets.{header_of, body_of, decode-encode}
use openseafeed.Ais.RoundTrip.Parts.{message}
use openseafeed.Tests.Fractions.{fractions, fractions-IsExact}
use openseafeed.Tests.Samples.{extended_class_b_sample, extended_class_b_sample-Fits}

-- A stream of a type 1 message, long enough.
abbrev stream : Bits
stream = record { b = replicate 21 4; n = 168 }

decode_bits-Needs_example :
    Needs stream
      (required (decode_header stream).message_id (u8 (uint stream 38 2)))
      (decode_bits fractions stream)
decode_bits-Needs_example = decode_bits-Needs fractions stream

stream_needs_168 : required (decode_header stream).message_id (u8 (uint stream 38 2)) ≡ 168
unfolding required decode_header uint uint_loop bit_at test_bit
stream_needs_168 = refl

decode-encode_example :
    (payload : Bytes) × (fill_bits : ℕ) × (encode fractions
        (extended_class_b_position_report extended_class_b_sample)
      ≡ some (payload, fill_bits))
    × (decode fractions payload fill_bits
        ≡ ok (
            message fractions
              (header_of fractions (extended_class_b_position_report extended_class_b_sample))
              (body_of fractions (extended_class_b_position_report extended_class_b_sample))))
decode-encode_example =
    decode-encode fractions fractions-IsExact
      (extended_class_b_position_report extended_class_b_sample)
      (refl, extended_class_b_sample-Fits)
