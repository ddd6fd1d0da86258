-- ===== src/Ais/RoundTrip/Position.antt =====
-- A class A position report (types 1, 2 and 3) through `encode_position_report` and `decode`.
use openseafeed.Base.{
  ℕ, ◌%◌, ◌^◌, ◌≤◌, ◌<◌, ◌≡◌, ◌⊎◌, inl, inr, refl, ap, ◌∙◌, arith, List, [], ◌∷◌,
}
use openseafeed.Base.Result.{ok}
use openseafeed.Ais.Bits.{Bits}
use openseafeed.Ais.BitsMut.{as_u64, new, push_int, push_bool, to_payload}
use openseafeed.Ais.Float.{Floats}
use openseafeed.Ais.Types.{Header, PositionReport, position_report}
use openseafeed.Ais.Fields.{as_i16, valid_position}
use openseafeed.Ais.Reports.{decode_position_report}
use openseafeed.Ais.Decode.{Body, no_facts, decode, decode_body, position_arm}
use openseafeed.Ais.Encode.{push_header, to_tenths, deg_to_minutes, encode_position_report}
use openseafeed.Ais.Encode.Segments.{Seg, number, Carries, push_all}
use openseafeed.Ais.RoundTrip.Fields.{IsSigned, flag, cast_field, bit_field, int_8}
use openseafeed.Ais.RoundTrip.Laws.{IsExact}
use openseafeed.Ais.RoundTrip.Parts.{
  FitsHeader, header_segs, as_i16_back, IsTenths, IsDegrees, tenths_field, longitude_field,
  latitude_field, message, need_met, decode-transfer,
}

module _ (fl : Floats) where
  open fl use {F}

  abbrev pub position_segs : PositionReport F → List Seg
  position_segs p = header_segs p.header (
      number 4 p.navigational_status
      ∷ number 8 (as_u64 p.rate_of_turn % 2 ^ 8)
      ∷ number 10 (to_tenths fl p.sog)
      ∷ number 1 (flag p.position_accuracy)
      ∷ number 28 (as_u64 (deg_to_minutes fl p.longitude 10_000) % 2 ^ 28)
      ∷ number 27 (as_u64 (deg_to_minutes fl p.latitude 10_000) % 2 ^ 27)
      ∷ number 12 (to_tenths fl p.cog)
      ∷ number 9 p.true_heading
      ∷ number 6 p.timestamp
      ∷ number 2 p.special_manoeuvre_indicator
      ∷ number 3 p.spare
      ∷ number 1 (flag p.raim)
      ∷ number 19 p.communication_state
      ∷ [])

  pub encode-segs :
      (p : PositionReport F)
      → encode_position_report fl p ≡ to_payload (push_all new (position_segs p))
  unfolding encode_position_report push_header push_int push_bool
  encode-segs p = refl

  -- Every field fits its bits, and a scaled field is a number of its scale.
  pub record Fits (p : PositionReport F) : Type 0 where
    pub header : FitsHeader p.header
    pub navigational_status : p.navigational_status < 2 ^ 4
    pub rate_of_turn : IsSigned (2 ^ 7) p.rate_of_turn
    pub sog : IsTenths fl 10 p.sog
    pub longitude : IsDegrees fl (2 ^ 27) 10_000 p.longitude
    pub latitude : IsDegrees fl (2 ^ 26) 10_000 p.latitude
    pub cog : IsTenths fl 12 p.cog
    pub true_heading : p.true_heading < 2 ^ 9
    pub timestamp : p.timestamp < 2 ^ 6
    pub special_manoeuvre_indicator : p.special_manoeuvre_indicator < 2 ^ 2
    pub spare : p.spare < 2 ^ 3
    pub communication_state : p.communication_state < 2 ^ 19

  module _ (exact : IsExact fl) (bs : Bits) (p : PositionReport F)
      (c : Carries bs (position_segs p)) (fits : Fits p) where
    fields_back : decode_position_report fl bs p.header ≡ p
    unfolding decode_position_report
    fields_back =
        let ss = position_segs p in
        λ i. record {
          header = p.header;
          navigational_status =
              cast_field bs ss c 3 4 p.navigational_status (2 ^ 8) refl fits.navigational_status
                (omega arith) i;
          rate_of_turn =
              (ap as_i16 (int_8 bs ss c 4 p.rate_of_turn refl fits.rate_of_turn)
                  ∙ as_i16_back p.rate_of_turn fits.rate_of_turn)
                i;
          sog = tenths_field fl exact bs ss c 5 10 p.sog refl fits.sog (omega arith) i;
          position_accuracy = bit_field bs ss c 6 p.position_accuracy refl i;
          longitude = longitude_field fl exact bs ss c 7 p.longitude refl fits.longitude i;
          latitude = latitude_field fl exact bs ss c 8 p.latitude refl fits.latitude i;
          cog = tenths_field fl exact bs ss c 9 12 p.cog refl fits.cog (omega arith) i;
          true_heading =
              cast_field bs ss c 10 9 p.true_heading (2 ^ 16) refl fits.true_heading (omega arith)
                i;
          timestamp =
              cast_field bs ss c 11 6 p.timestamp (2 ^ 8) refl fits.timestamp (omega arith) i;
          special_manoeuvre_indicator =
              cast_field bs ss c 12 2 p.special_manoeuvre_indicator (2 ^ 8) refl
                fits.special_manoeuvre_indicator (omega arith) i;
          spare = cast_field bs ss c 13 3 p.spare (2 ^ 8) refl fits.spare (omega arith) i;
          raim = bit_field bs ss c 14 p.raim refl i;
          communication_state =
              cast_field bs ss c 15 19 p.communication_state (2 ^ 32) refl fits.communication_state
                (omega arith) i;
        }

  dispatch :
      (id : ℕ) (h : Header) (bs : Bits)
      → (id ≡ 1) ⊎ (id ≡ 2) ⊎ (id ≡ 3)
      → 168 ≤ bs.n
      → decode_body fl id bs h ≡ ok (position_arm fl bs h)
  unfolding decode_body
  dispatch id h bs (inl e) room = rw e (need_met fl bs 168 _ room)
  dispatch id h bs (inr (inl e)) room = rw e (need_met fl bs 168 _ room)
  dispatch id h bs (inr (inr e)) room = rw e (need_met fl bs 168 _ room)

  -- The body that the message's own fields make.
  abbrev pub body : PositionReport F → Body fl
  body p = record (no_facts fl (position_report p)) {
    position = valid_position fl p.latitude p.longitude;
  }

  -- A class A position report whose id is 1, 2 or 3 and whose
  -- fields fit is decoded to itself after encoding, with the facts that its fields give.
  pub decode-encode_position_report :
      IsExact fl
      → (p : PositionReport F)
      → (p.header.message_id ≡ 1) ⊎ (p.header.message_id ≡ 2) ⊎ (p.header.message_id ≡ 3)
      → Fits p
      → decode fl (encode_position_report fl p).0 (encode_position_report fl p).1
        ≡ ok (message fl p.header (body p))
  unfolding position_arm
  decode-encode_position_report exact p id fits = rw (encode-segs p) (
      decode-transfer fl p.header _ (body p) fits.header (λ bs c.
        dispatch p.header.message_id p.header bs id (omega (arith, c.n))
        ∙ ap (λ q. ok (body q)) (fields_back exact bs p c fits)))
