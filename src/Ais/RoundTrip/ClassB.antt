-- ===== src/Ais/RoundTrip/ClassB.antt =====
-- A standard class B position report (type 18) through `encode_standard_class_b` and `decode`.
use openseafeed.Base.{ℕ, ◌%◌, ◌^◌, ◌≤◌, ◌<◌, ◌≡◌, refl, ap, ◌∙◌, arith, List, [], ◌∷◌}
use openseafeed.Base.Result.{ok}
use openseafeed.Ais.Bits.{Bits}
use openseafeed.Ais.BitsMut.{as_u64, new, push_int, push_bool, to_payload}
use openseafeed.Ais.Float.{Floats}
use openseafeed.Ais.Types.{Header, StandardClassBPositionReport, standard_class_b_position_report}
use openseafeed.Ais.Fields.{valid_position}
use openseafeed.Ais.Reports.{decode_standard_class_b}
use openseafeed.Ais.Decode.{Body, no_facts, decode, decode_body, class_b_arm}
use openseafeed.Ais.Encode.{push_header, to_tenths, deg_to_minutes, encode_standard_class_b}
use openseafeed.Ais.Encode.Segments.{Seg, number, Carries, push_all}
use openseafeed.Ais.RoundTrip.Fields.{flag, cast_field, bit_field}
use openseafeed.Ais.RoundTrip.Laws.{IsExact}
use openseafeed.Ais.RoundTrip.Parts.{
  FitsHeader, header_segs, IsTenths, IsDegrees, tenths_field, longitude_field, latitude_field,
  message, need_met, decode-transfer,
}

module _ (fl : Floats) where
  open fl use {F}

  abbrev class_b_segs : StandardClassBPositionReport F → List Seg
  class_b_segs p = header_segs p.header (
      number 8 0
      ∷ number 10 (to_tenths fl p.sog)
      ∷ number 1 (flag p.position_accuracy)
      ∷ number 28 (as_u64 (deg_to_minutes fl p.longitude 10_000) % 2 ^ 28)
      ∷ number 27 (as_u64 (deg_to_minutes fl p.latitude 10_000) % 2 ^ 27)
      ∷ number 12 (to_tenths fl p.cog)
      ∷ number 9 p.true_heading
      ∷ number 6 p.timestamp
      ∷ number 2 0
      ∷ number 1 (flag p.class_b_unit)
      ∷ number 1 (flag p.class_b_display)
      ∷ number 1 (flag p.class_b_dsc)
      ∷ number 1 (flag p.class_b_band)
      ∷ number 1 (flag p.class_b_msg22)
      ∷ number 1 (flag p.assigned_mode)
      ∷ number 1 (flag p.raim)
      ∷ number 1 (flag p.communication_state_is_itdma)
      ∷ number 19 p.communication_state
      ∷ [])

  encode-segs :
      (p : StandardClassBPositionReport F)
      → encode_standard_class_b fl p ≡ to_payload (push_all new (class_b_segs p))
  unfolding encode_standard_class_b push_header push_int push_bool
  encode-segs p = refl

  -- Every field fits its bits, and a scaled field is a number of its scale.
  pub record Fits (p : StandardClassBPositionReport F) : Type 0 where
    pub header : FitsHeader p.header
    pub sog : IsTenths fl 10 p.sog
    pub longitude : IsDegrees fl (2 ^ 27) 10_000 p.longitude
    pub latitude : IsDegrees fl (2 ^ 26) 10_000 p.latitude
    pub cog : IsTenths fl 12 p.cog
    pub true_heading : p.true_heading < 2 ^ 9
    pub timestamp : p.timestamp < 2 ^ 6
    pub communication_state : p.communication_state < 2 ^ 19

  module _ (exact : IsExact fl) (bs : Bits) (p : StandardClassBPositionReport F)
      (c : Carries bs (class_b_segs p)) (fits : Fits p) where
    fields_back : decode_standard_class_b fl bs p.header ≡ p
    unfolding decode_standard_class_b
    fields_back =
        let ss = class_b_segs p in
        λ i. record {
          header = p.header;
          sog = tenths_field fl exact bs ss c 4 10 p.sog refl fits.sog (omega arith) i;
          position_accuracy = bit_field bs ss c 5 p.position_accuracy refl i;
          longitude = longitude_field fl exact bs ss c 6 p.longitude refl fits.longitude i;
          latitude = latitude_field fl exact bs ss c 7 p.latitude refl fits.latitude i;
          cog = tenths_field fl exact bs ss c 8 12 p.cog refl fits.cog (omega arith) i;
          true_heading =
              cast_field bs ss c 9 9 p.true_heading (2 ^ 16) refl fits.true_heading (omega arith) i;
          timestamp =
              cast_field bs ss c 10 6 p.timestamp (2 ^ 8) refl fits.timestamp (omega arith) i;
          class_b_unit = bit_field bs ss c 12 p.class_b_unit refl i;
          class_b_display = bit_field bs ss c 13 p.class_b_display refl i;
          class_b_dsc = bit_field bs ss c 14 p.class_b_dsc refl i;
          class_b_band = bit_field bs ss c 15 p.class_b_band refl i;
          class_b_msg22 = bit_field bs ss c 16 p.class_b_msg22 refl i;
          assigned_mode = bit_field bs ss c 17 p.assigned_mode refl i;
          raim = bit_field bs ss c 18 p.raim refl i;
          communication_state_is_itdma = bit_field bs ss c 19 p.communication_state_is_itdma refl i;
          communication_state =
              cast_field bs ss c 20 19 p.communication_state (2 ^ 32) refl fits.communication_state
                (omega arith) i;
        }

  dispatch :
      (id : ℕ) (h : Header) (bs : Bits)
      → id ≡ 18
      → 168 ≤ bs.n
      → decode_body fl id bs h ≡ ok (class_b_arm fl bs h)
  unfolding decode_body
  dispatch id h bs e room = rw e (need_met fl bs 168 _ room)

  -- The body that the message's own fields make.
  abbrev pub body : StandardClassBPositionReport F → Body fl
  body p = record (no_facts fl (standard_class_b_position_report p)) {
    position = valid_position fl p.latitude p.longitude;
  }

  -- A class B report whose id is 18 and whose
  -- fields fit is decoded to itself after encoding, with the facts that its fields give.
  pub decode-encode_standard_class_b :
      IsExact fl
      → (p : StandardClassBPositionReport F) → p.header.message_id ≡ 18
      → Fits p
      → decode fl (encode_standard_class_b fl p).0 (encode_standard_class_b fl p).1
        ≡ ok (message fl p.header (body p))
  unfolding class_b_arm
  decode-encode_standard_class_b exact p id fits = rw (encode-segs p) (
      decode-transfer fl p.header _ (body p) fits.header (λ bs c.
        dispatch p.header.message_id p.header bs id (omega (arith, c.n))
        ∙ ap (λ q. ok (body q)) (fields_back exact bs p c fits)))
