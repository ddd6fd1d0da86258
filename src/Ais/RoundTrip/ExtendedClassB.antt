-- ===== src/Ais/RoundTrip/ExtendedClassB.antt =====
-- An extended class B position report (type 19) through `encode_extended_class_b` and `decode`.
use openseafeed.Base.{some, ℕ, ◌%◌, ◌^◌, ◌≤◌, ◌<◌, ◌≡◌, refl, ap, ◌∙◌, arith, List, [], ◌∷◌}
use openseafeed.Base.Result.{ok}
use openseafeed.Ais.Bits.{Bits}
use openseafeed.Ais.BitsMut.{as_u64, new, push_int, push_bool, push_str, to_payload}
use openseafeed.Ais.Float.{Floats}
use openseafeed.Ais.Types.{Header, ExtendedClassBPositionReport, extended_class_b_position_report}
use openseafeed.Ais.Fields.{dimension, valid_position, non_empty}
use openseafeed.Ais.Reports.{decode_extended_class_b}
use openseafeed.Ais.Decode.{Body, no_facts, decode, decode_body, extended_class_b_arm}
use openseafeed.Ais.Encode.{
  push_header, push_dimension, to_tenths, deg_to_minutes, encode_extended_class_b,
}
use openseafeed.Ais.Encode.Segments.{Seg, number, text, Carries, push_all}
use openseafeed.Ais.RoundTrip.Fields.{flag, cast_field, bit_field}
use openseafeed.Ais.RoundTrip.Laws.{IsExact}
use openseafeed.Ais.RoundTrip.Parts.{
  FitsHeader, FitsDimension, FitsText, header_segs, fitting_text, IsTenths, IsDegrees, tenths_field,
  longitude_field, latitude_field, message, need_met, decode-transfer,
}

module _ (fl : Floats) where
  open fl use {F}

  abbrev extended_class_b_segs : ExtendedClassBPositionReport F → List Seg
  extended_class_b_segs p = header_segs p.header (
      number 8 0
      ∷ number 10 (to_tenths fl p.sog)
      ∷ number 1 (flag p.position_accuracy)
      ∷ number 28 (as_u64 (deg_to_minutes fl p.longitude 10_000) % 2 ^ 28)
      ∷ number 27 (as_u64 (deg_to_minutes fl p.latitude 10_000) % 2 ^ 27)
      ∷ number 12 (to_tenths fl p.cog)
      ∷ number 9 p.true_heading
      ∷ number 6 p.timestamp
      ∷ number 4 0
      ∷ text 20 p.name
      ∷ number 8 p.ship_type
      ∷ number 9 p.dimension.a
      ∷ number 9 p.dimension.b
      ∷ number 6 p.dimension.c
      ∷ number 6 p.dimension.d
      ∷ number 4 p.fix_type
      ∷ number 1 (flag p.raim)
      ∷ number 1 (flag p.dte)
      ∷ number 1 (flag p.assigned_mode)
      ∷ number 4 0
      ∷ [])

  encode-segs :
      (p : ExtendedClassBPositionReport F)
      → encode_extended_class_b fl p ≡ to_payload (push_all new (extended_class_b_segs p))
  unfolding encode_extended_class_b push_header push_int push_bool push_str push_dimension
  encode-segs p = refl

  -- Every field fits its bits, and a scaled field is a number of its scale.
  pub record Fits (p : ExtendedClassBPositionReport F) : Type 0 where
    pub header : FitsHeader p.header
    pub sog : IsTenths fl 10 p.sog
    pub longitude : IsDegrees fl (2 ^ 27) 10_000 p.longitude
    pub latitude : IsDegrees fl (2 ^ 26) 10_000 p.latitude
    pub cog : IsTenths fl 12 p.cog
    pub true_heading : p.true_heading < 2 ^ 9
    pub timestamp : p.timestamp < 2 ^ 6
    pub name : FitsText 20 p.name
    pub ship_type : p.ship_type < 2 ^ 8
    pub dimension : FitsDimension p.dimension
    pub fix_type : p.fix_type < 2 ^ 4

  module _ (exact : IsExact fl) (bs : Bits) (p : ExtendedClassBPositionReport F)
      (c : Carries bs (extended_class_b_segs p)) (fits : Fits p) where
    fields_back : decode_extended_class_b fl bs p.header ≡ p
    unfolding decode_extended_class_b dimension
    fields_back =
        let ss = extended_class_b_segs p in
        λ i. record {
          header = p.header;
          sog = tenths_field fl exact bs ss c 4 10 p.sog refl fits.sog (omega arith) i;
          position_accuracy = bit_field bs ss c 5 p.position_accuracy refl i;
          longitude = longitude_field fl exact bs ss c 6 p.longitude refl fits.longitude i;
          latitude = latitude_field fl exact bs ss c 7 p.latitude refl fits.latitude i;
          cog = tenths_field fl exact bs ss c 8 12 p.cog refl fits.cog (omega arith) i;
          true_heading =
              cast_field bs ss c 9 9 p.true_heading (2 ^ 16) refl fits.true_heading (omega arith) i;
          timestamp =
              cast_field bs ss c 10 6 p.timestamp (2 ^ 8) refl fits.timestamp (omega arith) i;
          name = fitting_text bs ss c 12 20 p.name refl fits.name (omega arith) i;
          ship_type =
              cast_field bs ss c 13 8 p.ship_type (2 ^ 8) refl fits.ship_type (omega arith) i;
          dimension = record {
            a =
                cast_field bs ss c 14 9 p.dimension.a (2 ^ 16) refl fits.dimension.a (omega arith)
                  i;
            b =
                cast_field bs ss c 15 9 p.dimension.b (2 ^ 16) refl fits.dimension.b (omega arith)
                  i;
            c = cast_field bs ss c 16 6 p.dimension.c (2 ^ 8) refl fits.dimension.c (omega arith) i;
            d = cast_field bs ss c 17 6 p.dimension.d (2 ^ 8) refl fits.dimension.d (omega arith) i;
          };
          fix_type = cast_field bs ss c 18 4 p.fix_type (2 ^ 8) refl fits.fix_type (omega arith) i;
          raim = bit_field bs ss c 19 p.raim refl i;
          dte = bit_field bs ss c 20 p.dte refl i;
          assigned_mode = bit_field bs ss c 21 p.assigned_mode refl i;
        }

  dispatch :
      (id : ℕ) (h : Header) (bs : Bits)
      → id ≡ 19
      → 312 ≤ bs.n
      → decode_body fl id bs h ≡ ok (extended_class_b_arm fl bs h)
  unfolding decode_body
  dispatch id h bs e room = rw e (need_met fl bs 312 _ room)

  -- The body that the message's own fields make.
  abbrev pub body : ExtendedClassBPositionReport F → Body fl
  body p = record (no_facts fl (extended_class_b_position_report p)) {
    position = valid_position fl p.latitude p.longitude;
    name = non_empty p.name;
    ship_type = some p.ship_type;
  }

  -- An extended class B report whose id is 19 and whose
  -- fields fit is decoded to itself after encoding, with the facts that its fields give.
  pub decode-encode_extended_class_b :
      IsExact fl
      → (p : ExtendedClassBPositionReport F) → p.header.message_id ≡ 19
      → Fits p
      → decode fl (encode_extended_class_b fl p).0 (encode_extended_class_b fl p).1
        ≡ ok (message fl p.header (body p))
  unfolding extended_class_b_arm
  decode-encode_extended_class_b exact p id fits = rw (encode-segs p) (
      decode-transfer fl p.header _ (body p) fits.header (λ bs c.
        dispatch p.header.message_id p.header bs id (omega (arith, c.n))
        ∙ ap (λ q. ok (body q)) (fields_back exact bs p c fits)))
