-- ===== src/Ais/RoundTrip/AidsToNavigation.antt =====
-- An aids-to-navigation report (type 21) through `encode_aids_to_navigation` and `decode`.
use openseafeed.Base.{ℕ, ◌%◌, ◌^◌, ◌≤◌, ◌<◌, ◌≡◌, refl, sym, ap, ◌∙◌, arith, List, [], ◌∷◌}
use openseafeed.Base.Result.{ok}
use openseafeed.Ais.Bits.{Bits, len}
use openseafeed.Ais.BitsMut.{as_u64, new, push_int, push_bool, push_str, to_payload}
use openseafeed.Ais.Float.{Floats}
use openseafeed.Ais.Types.{Header, AidsToNavigationReport, aids_to_navigation_report}
use openseafeed.Ais.Fields.{dimension, valid_position, non_empty}
use openseafeed.Ais.Reports.{decode_aids_to_navigation}
use openseafeed.Ais.Decode.{Body, no_facts, decode, decode_body, aids_arm}
use openseafeed.Ais.Encode.{push_header, push_dimension, deg_to_minutes, encode_aids_to_navigation}
use openseafeed.Ais.Encode.Segments.{Seg, number, text, Carries, push_all}
use openseafeed.Ais.RoundTrip.Fields.{flag, cast_field, bit_field}
use openseafeed.Ais.RoundTrip.Laws.{IsExact}
use openseafeed.Ais.RoundTrip.Parts.{
  FitsHeader, FitsDimension, FitsText, header_segs, fitting_text, IsDegrees, longitude_field,
  latitude_field, message, need_met, decode-transfer,
}

module _ (fl : Floats) where
  open fl use {F}

  abbrev aids_segs : AidsToNavigationReport F → List Seg
  aids_segs p = header_segs p.header (
      number 5 p.aid_type
      ∷ text 20 p.name
      ∷ number 1 (flag p.position_accuracy)
      ∷ number 28 (as_u64 (deg_to_minutes fl p.longitude 10_000) % 2 ^ 28)
      ∷ number 27 (as_u64 (deg_to_minutes fl p.latitude 10_000) % 2 ^ 27)
      ∷ number 9 p.dimension.a
      ∷ number 9 p.dimension.b
      ∷ number 6 p.dimension.c
      ∷ number 6 p.dimension.d
      ∷ number 4 p.fix_type
      ∷ number 6 p.timestamp
      ∷ number 1 (flag p.off_position)
      ∷ number 8 p.aton_status
      ∷ number 1 (flag p.raim)
      ∷ number 1 (flag p.virtual_aton)
      ∷ number 1 (flag p.assigned_mode)
      ∷ number 1 0
      ∷ [])

  encode-segs :
      (p : AidsToNavigationReport F)
      → encode_aids_to_navigation fl p ≡ to_payload (push_all new (aids_segs p))
  unfolding encode_aids_to_navigation push_header push_int push_bool push_str push_dimension
  encode-segs p = refl

  -- Every field fits its bits, and a scaled field is a number of its scale.
  pub record Fits (p : AidsToNavigationReport F) : Type 0 where
    pub header : FitsHeader p.header
    pub aid_type : p.aid_type < 2 ^ 5
    pub name : FitsText 20 p.name
    pub longitude : IsDegrees fl (2 ^ 27) 10_000 p.longitude
    pub latitude : IsDegrees fl (2 ^ 26) 10_000 p.latitude
    pub dimension : FitsDimension p.dimension
    pub fix_type : p.fix_type < 2 ^ 4
    pub timestamp : p.timestamp < 2 ^ 6
    pub aton_status : p.aton_status < 2 ^ 8
    pub name_extension : p.name_extension ≡ []

  module _ (exact : IsExact fl) (bs : Bits) (p : AidsToNavigationReport F)
      (c : Carries bs (aids_segs p)) (fits : Fits p) where
    no_extension : (decode_aids_to_navigation fl bs p.header).name_extension ≡ p.name_extension
    unfolding decode_aids_to_navigation len
    no_extension = rw c.n (sym fits.name_extension)

    fields_back : decode_aids_to_navigation fl bs p.header ≡ p
    unfolding decode_aids_to_navigation dimension len
    fields_back =
        let ss = aids_segs p in
        λ i. record {
          header = p.header;
          aid_type = cast_field bs ss c 3 5 p.aid_type (2 ^ 8) refl fits.aid_type (omega arith) i;
          name = fitting_text bs ss c 4 20 p.name refl fits.name (omega arith) i;
          position_accuracy = bit_field bs ss c 5 p.position_accuracy refl i;
          longitude = longitude_field fl exact bs ss c 6 p.longitude refl fits.longitude i;
          latitude = latitude_field fl exact bs ss c 7 p.latitude refl fits.latitude i;
          dimension = record {
            a = cast_field bs ss c 8 9 p.dimension.a (2 ^ 16) refl fits.dimension.a (omega arith) i;
            b = cast_field bs ss c 9 9 p.dimension.b (2 ^ 16) refl fits.dimension.b (omega arith) i;
            c = cast_field bs ss c 10 6 p.dimension.c (2 ^ 8) refl fits.dimension.c (omega arith) i;
            d = cast_field bs ss c 11 6 p.dimension.d (2 ^ 8) refl fits.dimension.d (omega arith) i;
          };
          fix_type = cast_field bs ss c 12 4 p.fix_type (2 ^ 8) refl fits.fix_type (omega arith) i;
          timestamp =
              cast_field bs ss c 13 6 p.timestamp (2 ^ 8) refl fits.timestamp (omega arith) i;
          off_position = bit_field bs ss c 14 p.off_position refl i;
          aton_status =
              cast_field bs ss c 15 8 p.aton_status (2 ^ 8) refl fits.aton_status (omega arith) i;
          raim = bit_field bs ss c 16 p.raim refl i;
          virtual_aton = bit_field bs ss c 17 p.virtual_aton refl i;
          assigned_mode = bit_field bs ss c 18 p.assigned_mode refl i;
          name_extension = no_extension i;
        }

  dispatch :
      (id : ℕ) (h : Header) (bs : Bits)
      → id ≡ 21
      → 272 ≤ bs.n
      → decode_body fl id bs h ≡ ok (aids_arm fl bs h)
  unfolding decode_body
  dispatch id h bs e room = rw e (need_met fl bs 272 _ room)

  -- The body that the message's own fields make.
  abbrev pub body : AidsToNavigationReport F → Body fl
  body p = record (no_facts fl (aids_to_navigation_report p)) {
    position = valid_position fl p.latitude p.longitude;
    name = non_empty p.name;
  }

  -- An aids-to-navigation report whose id is 21, with no name extension, and whose
  -- fields fit is decoded to itself after encoding, with the facts that its fields give.
  pub decode-encode_aids_to_navigation :
      IsExact fl
      → (p : AidsToNavigationReport F) → p.header.message_id ≡ 21
      → Fits p
      → decode fl (encode_aids_to_navigation fl p).0 (encode_aids_to_navigation fl p).1
        ≡ ok (message fl p.header (body p))
  unfolding aids_arm
  decode-encode_aids_to_navigation exact p id fits = rw (encode-segs p) (
      decode-transfer fl p.header _ (body p) fits.header (λ bs c.
        dispatch p.header.message_id p.header bs id (omega (arith, c.n))
        ∙ ap (λ q. ok (body q)) (fields_back exact bs p c fits)))
