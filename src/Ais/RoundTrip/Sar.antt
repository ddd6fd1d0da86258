-- ===== src/Ais/RoundTrip/Sar.antt =====
-- A search and rescue aircraft report (type 9) through `encode_sar_aircraft` and `decode`.
use openseafeed.Base.{ℕ, ◌%◌, ◌^◌, ◌≤◌, ◌<◌, ◌≡◌, refl, ap, ◌∙◌, arith, List, [], ◌∷◌}
use openseafeed.Base.Result.{ok}
use openseafeed.Ais.Bits.{Bits}
use openseafeed.Ais.BitsMut.{as_u64, new, push_int, push_bool, to_payload}
use openseafeed.Ais.Float.{Floats}
use openseafeed.Ais.Types.{
  Header, SarAircraftPositionReport, standard_search_and_rescue_aircraft_report,
}
use openseafeed.Ais.Fields.{valid_position}
use openseafeed.Ais.Reports.{decode_sar_aircraft}
use openseafeed.Ais.Decode.{Body, no_facts, decode, decode_body, sar_arm}
use openseafeed.Ais.Encode.{push_header, to_tenths, deg_to_minutes, encode_sar_aircraft}
use openseafeed.Ais.Encode.Segments.{Seg, number, Carries, push_all}
use openseafeed.Ais.RoundTrip.Fields.{flag, cast_field, bit_field}
use openseafeed.Ais.RoundTrip.Laws.{IsExact}
use openseafeed.Ais.RoundTrip.Parts.{
  FitsHeader, header_segs, IsTenths, IsDegrees, tenths_field, longitude_field, latitude_field,
  message, need_met, decode-transfer,
}

module _ (fl : Floats) where
  open fl use {F}

  abbrev sar_segs : SarAircraftPositionReport F → List Seg
  sar_segs p = header_segs p.header (
      number 12 p.altitude
      ∷ number 10 p.sog
      ∷ number 1 (flag p.position_accuracy)
      ∷ number 28 (as_u64 (deg_to_minutes fl p.longitude 10_000) % 2 ^ 28)
      ∷ number 27 (as_u64 (deg_to_minutes fl p.latitude 10_000) % 2 ^ 27)
      ∷ number 12 (to_tenths fl p.cog)
      ∷ number 6 p.timestamp
      ∷ number 1 (flag p.alt_from_baro)
      ∷ number 7 0
      ∷ number 1 (flag p.dte)
      ∷ number 3 0
      ∷ number 1 (flag p.assigned_mode)
      ∷ number 1 (flag p.raim)
      ∷ number 20 p.communication_state
      ∷ [])

  encode-segs :
      (p : SarAircraftPositionReport F)
      → encode_sar_aircraft fl p ≡ to_payload (push_all new (sar_segs p))
  unfolding encode_sar_aircraft push_header push_int push_bool
  encode-segs p = refl

  -- Every field fits its bits, and a scaled field is a number of its scale.
  pub record Fits (p : SarAircraftPositionReport F) : Type 0 where
    pub header : FitsHeader p.header
    pub altitude : p.altitude < 2 ^ 12
    pub sog : p.sog < 2 ^ 10
    pub longitude : IsDegrees fl (2 ^ 27) 10_000 p.longitude
    pub latitude : IsDegrees fl (2 ^ 26) 10_000 p.latitude
    pub cog : IsTenths fl 12 p.cog
    pub timestamp : p.timestamp < 2 ^ 6
    pub communication_state : p.communication_state < 2 ^ 20

  module _ (exact : IsExact fl) (bs : Bits) (p : SarAircraftPositionReport F)
      (c : Carries bs (sar_segs p)) (fits : Fits p) where
    fields_back : decode_sar_aircraft fl bs p.header ≡ p
    unfolding decode_sar_aircraft
    fields_back =
        let ss = sar_segs p in
        λ i. record {
          header = p.header;
          altitude = cast_field bs ss c 3 12 p.altitude (2 ^ 16) refl fits.altitude (omega arith) i;
          sog = cast_field bs ss c 4 10 p.sog (2 ^ 16) refl fits.sog (omega arith) i;
          position_accuracy = bit_field bs ss c 5 p.position_accuracy refl i;
          longitude = longitude_field fl exact bs ss c 6 p.longitude refl fits.longitude i;
          latitude = latitude_field fl exact bs ss c 7 p.latitude refl fits.latitude i;
          cog = tenths_field fl exact bs ss c 8 12 p.cog refl fits.cog (omega arith) i;
          timestamp =
              cast_field bs ss c 9 6 p.timestamp (2 ^ 8) refl fits.timestamp (omega arith) i;
          alt_from_baro = bit_field bs ss c 10 p.alt_from_baro refl i;
          dte = bit_field bs ss c 12 p.dte refl i;
          assigned_mode = bit_field bs ss c 14 p.assigned_mode refl i;
          raim = bit_field bs ss c 15 p.raim refl i;
          communication_state =
              cast_field bs ss c 16 20 p.communication_state (2 ^ 32) refl fits.communication_state
                (omega arith) i;
        }

  dispatch :
      (id : ℕ) (h : Header) (bs : Bits)
      → id ≡ 9
      → 168 ≤ bs.n
      → decode_body fl id bs h ≡ ok (sar_arm fl bs h)
  unfolding decode_body
  dispatch id h bs e room = rw e (need_met fl bs 168 _ room)

  -- The body that the message's own fields make.
  abbrev pub body : SarAircraftPositionReport F → Body fl
  body p = record (no_facts fl (standard_search_and_rescue_aircraft_report p)) {
    position = valid_position fl p.latitude p.longitude;
  }

  -- A search and rescue report whose id is 9 and whose
  -- fields fit is decoded to itself after encoding, with the facts that its fields give.
  pub decode-encode_sar_aircraft :
      IsExact fl
      → (p : SarAircraftPositionReport F) → p.header.message_id ≡ 9
      → Fits p
      → decode fl (encode_sar_aircraft fl p).0 (encode_sar_aircraft fl p).1
        ≡ ok (message fl p.header (body p))
  unfolding sar_arm
  decode-encode_sar_aircraft exact p id fits = rw (encode-segs p) (
      decode-transfer fl p.header _ (body p) fits.header (λ bs c.
        dispatch p.header.message_id p.header bs id (omega (arith, c.n))
        ∙ ap (λ q. ok (body q)) (fields_back exact bs p c fits)))
