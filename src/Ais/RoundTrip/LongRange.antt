-- ===== src/Ais/RoundTrip/LongRange.antt =====
-- A long-range broadcast (type 27) through `encode_long_range` and `decode`.
use openseafeed.Base.{ℕ, ◌%◌, ◌^◌, ◌≤◌, ◌<◌, ◌≡◌, refl, ap, ◌∙◌, arith, List, [], ◌∷◌}
use openseafeed.Base.Result.{ok}
use openseafeed.Ais.Bits.{Bits}
use openseafeed.Ais.BitsMut.{as_u64, new, push_int, push_bool, to_payload}
use openseafeed.Ais.Float.{Floats}
use openseafeed.Ais.Types.{Header, LongRangeAisBroadcastMessage, long_range_ais_broadcast_message}
use openseafeed.Ais.Fields.{valid_position}
use openseafeed.Ais.Reports.{decode_long_range}
use openseafeed.Ais.Decode.{Body, no_facts, decode, decode_body, long_range_arm}
use openseafeed.Ais.Encode.{push_header, deg_to_minutes, encode_long_range}
use openseafeed.Ais.Encode.Segments.{Seg, number, Carries, push_all}
use openseafeed.Ais.RoundTrip.Fields.{flag, cast_field, bit_field}
use openseafeed.Ais.RoundTrip.Laws.{IsExact}
use openseafeed.Ais.RoundTrip.Parts.{
  FitsHeader, header_segs, IsDegrees, IsWhole, whole_field, coarse_longitude_field,
  coarse_latitude_field, message, need_met, decode-transfer,
}

module _ (fl : Floats) where
  open fl use {F}

  abbrev long_range_segs : LongRangeAisBroadcastMessage F → List Seg
  long_range_segs p = header_segs p.header (
      number 1 (flag p.position_accuracy)
      ∷ number 1 (flag p.raim)
      ∷ number 4 p.navigational_status
      ∷ number 18 (as_u64 (deg_to_minutes fl p.longitude 10) % 2 ^ 18)
      ∷ number 17 (as_u64 (deg_to_minutes fl p.latitude 10) % 2 ^ 17)
      ∷ number 6 (fl.to_u64 (fl.round p.sog))
      ∷ number 9 (fl.to_u64 (fl.round p.cog))
      ∷ number 1 (flag p.position_latency)
      ∷ number 1 (flag p.spare)
      ∷ [])

  encode-segs :
      (p : LongRangeAisBroadcastMessage F)
      → encode_long_range fl p ≡ to_payload (push_all new (long_range_segs p))
  unfolding encode_long_range push_header push_int push_bool
  encode-segs p = refl

  -- Every field fits its bits, and a scaled field is a number of its scale.
  pub record Fits (p : LongRangeAisBroadcastMessage F) : Type 0 where
    pub header : FitsHeader p.header
    pub navigational_status : p.navigational_status < 2 ^ 4
    pub longitude : IsDegrees fl (2 ^ 17) 10 p.longitude
    pub latitude : IsDegrees fl (2 ^ 16) 10 p.latitude
    pub sog : IsWhole fl 6 p.sog
    pub cog : IsWhole fl 9 p.cog

  module _ (exact : IsExact fl) (bs : Bits) (p : LongRangeAisBroadcastMessage F)
      (c : Carries bs (long_range_segs p)) (fits : Fits p) where
    fields_back : decode_long_range fl bs p.header ≡ p
    unfolding decode_long_range
    fields_back =
        let ss = long_range_segs p in
        λ i. record {
          header = p.header;
          position_accuracy = bit_field bs ss c 3 p.position_accuracy refl i;
          raim = bit_field bs ss c 4 p.raim refl i;
          navigational_status =
              cast_field bs ss c 5 4 p.navigational_status (2 ^ 8) refl fits.navigational_status
                (omega arith) i;
          longitude = coarse_longitude_field fl exact bs ss c 6 p.longitude refl fits.longitude i;
          latitude = coarse_latitude_field fl exact bs ss c 7 p.latitude refl fits.latitude i;
          sog = whole_field fl exact bs ss c 8 6 p.sog refl fits.sog (omega arith) i;
          cog = whole_field fl exact bs ss c 9 9 p.cog refl fits.cog (omega arith) i;
          position_latency = bit_field bs ss c 10 p.position_latency refl i;
          spare = bit_field bs ss c 11 p.spare refl i;
        }

  dispatch :
      (id : ℕ) (h : Header) (bs : Bits)
      → id ≡ 27
      → 96 ≤ bs.n
      → decode_body fl id bs h ≡ ok (long_range_arm fl bs h)
  unfolding decode_body
  dispatch id h bs e room = rw e (need_met fl bs 96 _ room)

  -- The body that the message's own fields make.
  abbrev pub body : LongRangeAisBroadcastMessage F → Body fl
  body p = record (no_facts fl (long_range_ais_broadcast_message p)) {
    position = valid_position fl p.latitude p.longitude;
  }

  -- A long-range report whose id is 27 and whose
  -- fields fit is decoded to itself after encoding, with the facts that its fields give.
  pub decode-encode_long_range :
      IsExact fl
      → (p : LongRangeAisBroadcastMessage F) → p.header.message_id ≡ 27
      → Fits p
      → decode fl (encode_long_range fl p).0 (encode_long_range fl p).1
        ≡ ok (message fl p.header (body p))
  unfolding long_range_arm
  decode-encode_long_range exact p id fits = rw (encode-segs p) (
      decode-transfer fl p.header _ (body p) fits.header (λ bs c.
        dispatch p.header.message_id p.header bs id (omega (arith, c.n))
        ∙ ap (λ q. ok (body q)) (fields_back exact bs p c fits)))
