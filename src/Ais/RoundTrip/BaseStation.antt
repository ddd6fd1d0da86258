-- ===== src/Ais/RoundTrip/BaseStation.antt =====
-- A base station report (types 4 and 11) through `encode_base_station_report` and `decode`.
use openseafeed.Base.{
  ℕ, ◌%◌, ◌^◌, ◌≤◌, ◌<◌, ◌≡◌, ◌⊎◌, inl, inr, refl, ap, ◌∙◌, arith, List, [], ◌∷◌,
}
use openseafeed.Base.Result.{ok}
use openseafeed.Ais.Bits.{Bits}
use openseafeed.Ais.BitsMut.{as_u64, new, push_int, push_bool, to_payload}
use openseafeed.Ais.Float.{Floats}
use openseafeed.Ais.Types.{Header, BaseStationReport, base_station_report}
use openseafeed.Ais.Fields.{valid_position}
use openseafeed.Ais.Reports.{decode_base_station_report}
use openseafeed.Ais.Decode.{Body, no_facts, decode, decode_body, base_station_arm}
use openseafeed.Ais.Encode.{push_header, deg_to_minutes, encode_base_station_report}
use openseafeed.Ais.Encode.Segments.{Seg, number, Carries, push_all}
use openseafeed.Ais.RoundTrip.Fields.{flag, cast_field, bit_field}
use openseafeed.Ais.RoundTrip.Laws.{IsExact}
use openseafeed.Ais.RoundTrip.Parts.{
  FitsHeader, header_segs, IsDegrees, longitude_field, latitude_field, message, need_met,
  decode-transfer,
}

module _ (fl : Floats) where
  open fl use {F}

  abbrev base_station_segs : BaseStationReport F → List Seg
  base_station_segs p = header_segs p.header (
      number 14 p.utc_year
      ∷ number 4 p.utc_month
      ∷ number 5 p.utc_day
      ∷ number 5 p.utc_hour
      ∷ number 6 p.utc_minute
      ∷ number 6 p.utc_second
      ∷ number 1 (flag p.position_accuracy)
      ∷ number 28 (as_u64 (deg_to_minutes fl p.longitude 10_000) % 2 ^ 28)
      ∷ number 27 (as_u64 (deg_to_minutes fl p.latitude 10_000) % 2 ^ 27)
      ∷ number 4 p.fix_type
      ∷ number 10 p.spare
      ∷ number 1 (flag p.raim)
      ∷ number 19 p.communication_state
      ∷ [])

  encode-segs :
      (p : BaseStationReport F)
      → encode_base_station_report fl p ≡ to_payload (push_all new (base_station_segs p))
  unfolding encode_base_station_report push_header push_int push_bool
  encode-segs p = refl

  -- Every field fits its bits, and a scaled field is a number of its scale.
  pub record Fits (p : BaseStationReport F) : Type 0 where
    pub header : FitsHeader p.header
    pub utc_year : p.utc_year < 2 ^ 14
    pub utc_month : p.utc_month < 2 ^ 4
    pub utc_day : p.utc_day < 2 ^ 5
    pub utc_hour : p.utc_hour < 2 ^ 5
    pub utc_minute : p.utc_minute < 2 ^ 6
    pub utc_second : p.utc_second < 2 ^ 6
    pub longitude : IsDegrees fl (2 ^ 27) 10_000 p.longitude
    pub latitude : IsDegrees fl (2 ^ 26) 10_000 p.latitude
    pub fix_type : p.fix_type < 2 ^ 4
    pub spare : p.spare < 2 ^ 10
    pub communication_state : p.communication_state < 2 ^ 19

  module _ (exact : IsExact fl) (bs : Bits) (p : BaseStationReport F)
      (c : Carries bs (base_station_segs p)) (fits : Fits p) where
    fields_back : decode_base_station_report fl bs p.header ≡ p
    unfolding decode_base_station_report
    fields_back =
        let ss = base_station_segs p in
        λ i. record {
          header = p.header;
          utc_year = cast_field bs ss c 3 14 p.utc_year (2 ^ 16) refl fits.utc_year (omega arith) i;
          utc_month =
              cast_field bs ss c 4 4 p.utc_month (2 ^ 8) refl fits.utc_month (omega arith) i;
          utc_day = cast_field bs ss c 5 5 p.utc_day (2 ^ 8) refl fits.utc_day (omega arith) i;
          utc_hour = cast_field bs ss c 6 5 p.utc_hour (2 ^ 8) refl fits.utc_hour (omega arith) i;
          utc_minute =
              cast_field bs ss c 7 6 p.utc_minute (2 ^ 8) refl fits.utc_minute (omega arith) i;
          utc_second =
              cast_field bs ss c 8 6 p.utc_second (2 ^ 8) refl fits.utc_second (omega arith) i;
          position_accuracy = bit_field bs ss c 9 p.position_accuracy refl i;
          longitude = longitude_field fl exact bs ss c 10 p.longitude refl fits.longitude i;
          latitude = latitude_field fl exact bs ss c 11 p.latitude refl fits.latitude i;
          fix_type = cast_field bs ss c 12 4 p.fix_type (2 ^ 8) refl fits.fix_type (omega arith) i;
          spare = cast_field bs ss c 13 10 p.spare (2 ^ 16) refl fits.spare (omega arith) i;
          raim = bit_field bs ss c 14 p.raim refl i;
          communication_state =
              cast_field bs ss c 15 19 p.communication_state (2 ^ 32) refl fits.communication_state
                (omega arith) i;
        }

  dispatch :
      (id : ℕ) (h : Header) (bs : Bits)
      → (id ≡ 4) ⊎ (id ≡ 11)
      → 168 ≤ bs.n
      → decode_body fl id bs h ≡ ok (base_station_arm fl bs h)
  unfolding decode_body
  dispatch id h bs (inl e) room = rw e (need_met fl bs 168 _ room)
  dispatch id h bs (inr e) room = rw e (need_met fl bs 168 _ room)

  -- The body that the message's own fields make.
  abbrev pub body : BaseStationReport F → Body fl
  body p = record (no_facts fl (base_station_report p)) {
    position = valid_position fl p.latitude p.longitude;
  }

  -- A base station report whose id is 4 or 11 and whose
  -- fields fit is decoded to itself after encoding, with the facts that its fields give.
  pub decode-encode_base_station_report :
      IsExact fl
      → (p : BaseStationReport F) → (p.header.message_id ≡ 4) ⊎ (p.header.message_id ≡ 11)
      → Fits p
      → decode fl (encode_base_station_report fl p).0 (encode_base_station_report fl p).1
        ≡ ok (message fl p.header (body p))
  unfolding base_station_arm
  decode-encode_base_station_report exact p id fits = rw (encode-segs p) (
      decode-transfer fl p.header _ (body p) fits.header (λ bs c.
        dispatch p.header.message_id p.header bs id (omega (arith, c.n))
        ∙ ap (λ q. ok (body q)) (fields_back exact bs p c fits)))
