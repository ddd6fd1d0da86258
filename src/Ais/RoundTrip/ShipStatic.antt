-- ===== src/Ais/RoundTrip/ShipStatic.antt =====
-- Class A static and voyage data (type 5) through `encode_ship_static_data` and `decode`.
use openseafeed.Base.{
  some, none, if◌then◌else◌, ◌==◌, ℕ, ◌^◌, ◌≤◌, ◌<◌, ◌≡◌, refl, ap, ◌∙◌, arith, List, [], ◌∷◌,
}
use openseafeed.Base.Result.{ok}
use openseafeed.Ais.Bits.{Bits}
use openseafeed.Ais.BitsMut.{new, push_int, push_bool, push_str, to_payload}
use openseafeed.Ais.Float.{Floats}
use openseafeed.Ais.Types.{Header, ShipStaticData, ship_static_data}
use openseafeed.Ais.Fields.{dimension, non_empty}
use openseafeed.Ais.Reports.{decode_ship_static_data}
use openseafeed.Ais.Decode.{Body, no_facts, decode, decode_body, static_arm}
use openseafeed.Ais.Encode.{push_header, push_dimension, to_tenths, encode_ship_static_data}
use openseafeed.Ais.Encode.Segments.{Seg, number, text, Carries, push_all}
use openseafeed.Ais.RoundTrip.Fields.{flag, cast_field, bit_field}
use openseafeed.Ais.RoundTrip.Laws.{IsExact}
use openseafeed.Ais.RoundTrip.Parts.{
  FitsHeader, FitsDimension, FitsText, header_segs, fitting_text, IsTenths, tenths_field, message,
  need_met, decode-transfer,
}

module _ (fl : Floats) where
  open fl use {F}

  abbrev pub ship_static_segs : ShipStaticData F → List Seg
  ship_static_segs p = header_segs p.header (
      number 2 p.ais_version
      ∷ number 30 p.imo_number
      ∷ text 7 p.call_sign
      ∷ text 20 p.name
      ∷ number 8 p.ship_type
      ∷ number 9 p.dimension.a
      ∷ number 9 p.dimension.b
      ∷ number 6 p.dimension.c
      ∷ number 6 p.dimension.d
      ∷ number 4 p.fix_type
      ∷ number 4 p.eta.month
      ∷ number 5 p.eta.day
      ∷ number 5 p.eta.hour
      ∷ number 6 p.eta.minute
      ∷ number 8 (to_tenths fl p.maximum_static_draught)
      ∷ text 20 p.destination
      ∷ number 1 (flag p.dte)
      ∷ number 1 (flag p.spare)
      ∷ [])

  pub encode-segs :
      (p : ShipStaticData F)
      → encode_ship_static_data fl p ≡ to_payload (push_all new (ship_static_segs p))
  unfolding encode_ship_static_data push_header push_int push_bool push_str push_dimension
  encode-segs p = refl

  -- Every field fits its bits, and a scaled field is a number of its scale.
  pub record Fits (p : ShipStaticData F) : Type 0 where
    pub header : FitsHeader p.header
    pub ais_version : p.ais_version < 2 ^ 2
    pub imo_number : p.imo_number < 2 ^ 30
    pub call_sign : FitsText 7 p.call_sign
    pub name : FitsText 20 p.name
    pub ship_type : p.ship_type < 2 ^ 8
    pub dimension : FitsDimension p.dimension
    pub fix_type : p.fix_type < 2 ^ 4
    pub month : p.eta.month < 2 ^ 4
    pub day : p.eta.day < 2 ^ 5
    pub hour : p.eta.hour < 2 ^ 5
    pub minute : p.eta.minute < 2 ^ 6
    pub maximum_static_draught : IsTenths fl 8 p.maximum_static_draught
    pub destination : FitsText 20 p.destination

  module _ (exact : IsExact fl) (bs : Bits) (p : ShipStaticData F)
      (c : Carries bs (ship_static_segs p)) (fits : Fits p) where
    fields_back : decode_ship_static_data fl bs p.header ≡ p
    unfolding decode_ship_static_data dimension
    fields_back =
        let ss = ship_static_segs p in
        λ i. record {
          header = p.header;
          ais_version =
              cast_field bs ss c 3 2 p.ais_version (2 ^ 8) refl fits.ais_version (omega arith) i;
          imo_number =
              cast_field bs ss c 4 30 p.imo_number (2 ^ 32) refl fits.imo_number (omega arith) i;
          call_sign = fitting_text bs ss c 5 7 p.call_sign refl fits.call_sign (omega arith) i;
          name = fitting_text bs ss c 6 20 p.name refl fits.name (omega arith) i;
          ship_type =
              cast_field bs ss c 7 8 p.ship_type (2 ^ 8) refl fits.ship_type (omega arith) i;
          dimension = record {
            a = cast_field bs ss c 8 9 p.dimension.a (2 ^ 16) refl fits.dimension.a (omega arith) i;
            b = cast_field bs ss c 9 9 p.dimension.b (2 ^ 16) refl fits.dimension.b (omega arith) i;
            c = cast_field bs ss c 10 6 p.dimension.c (2 ^ 8) refl fits.dimension.c (omega arith) i;
            d = cast_field bs ss c 11 6 p.dimension.d (2 ^ 8) refl fits.dimension.d (omega arith) i;
          };
          fix_type = cast_field bs ss c 12 4 p.fix_type (2 ^ 8) refl fits.fix_type (omega arith) i;
          eta = record {
            month = cast_field bs ss c 13 4 p.eta.month (2 ^ 8) refl fits.month (omega arith) i;
            day = cast_field bs ss c 14 5 p.eta.day (2 ^ 8) refl fits.day (omega arith) i;
            hour = cast_field bs ss c 15 5 p.eta.hour (2 ^ 8) refl fits.hour (omega arith) i;
            minute = cast_field bs ss c 16 6 p.eta.minute (2 ^ 8) refl fits.minute (omega arith) i;
          };
          maximum_static_draught =
              tenths_field fl exact bs ss c 17 8 p.maximum_static_draught refl
                fits.maximum_static_draught (omega arith) i;
          destination =
              fitting_text bs ss c 18 20 p.destination refl fits.destination (omega arith) i;
          dte = bit_field bs ss c 19 p.dte refl i;
          spare = bit_field bs ss c 20 p.spare refl i;
        }

  dispatch :
      (id : ℕ) (h : Header) (bs : Bits)
      → id ≡ 5
      → 420 ≤ bs.n
      → decode_body fl id bs h ≡ ok (static_arm fl bs h)
  unfolding decode_body
  dispatch id h bs e room = rw e (need_met fl bs 420 _ room)

  -- The body that the message's own fields make.
  abbrev pub body : ShipStaticData F → Body fl
  body p = record (no_facts fl (ship_static_data p)) {
    name = non_empty p.name;
    ship_type = some p.ship_type;
    imo = if p.imo_number == 0 then none else some p.imo_number;
  }

  -- A static report whose id is 5 and whose
  -- fields fit is decoded to itself after encoding, with the facts that its fields give.
  pub decode-encode_ship_static_data :
      IsExact fl
      → (p : ShipStaticData F) → p.header.message_id ≡ 5
      → Fits p
      → decode fl (encode_ship_static_data fl p).0 (encode_ship_static_data fl p).1
        ≡ ok (message fl p.header (body p))
  unfolding static_arm
  decode-encode_ship_static_data exact p id fits = rw (encode-segs p) (
      decode-transfer fl p.header _ (body p) fits.header (λ bs c.
        dispatch p.header.message_id p.header bs id (omega (arith, c.n))
        ∙ ap (λ q. ok (body q)) (fields_back exact bs p c fits)))
