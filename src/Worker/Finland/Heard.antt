-- ===== src/Worker/Finland/Heard.antt =====
-- The records of Digitraffic, as the receivers of their sentences decode them.
use openseafeed.Base.{ℕ, ◌^◌, ◌<◌, ◌≡◌, refl, inl, arith, [], ◌∷◌, codes}
use openseafeed.Base.Int.{ℤ, pos, negsuc}
use openseafeed.Base.Result.{ok}
use openseafeed.Ais.Float.{Floats, tenths}
use openseafeed.Ais.Decode.{decode}
use openseafeed.Ais.Encode.{encode_position_report, encode_ship_static_data}
use openseafeed.Ais.RoundTrip.Fields.{IsSigned}
use openseafeed.Ais.RoundTrip.Laws.{IsExact}
use openseafeed.Ais.RoundTrip.Parts.{message, IsTenths, IsDegrees, FitsText}
use openseafeed.Ais.RoundTrip.Position.{Fits as FitsPosition, body as position_body}
use openseafeed.Ais.RoundTrip.ShipStatic.{Fits as FitsStatic, body as static_body}
use openseafeed.Nmea.Sentence.{ok as received}
use openseafeed.Nmea.Encode.Line.{IsField}
use openseafeed.Nmea.Assembler.{Group, Assembler}
use openseafeed.Nmea.Delivery.{receive}
use openseafeed.Radio.{IsReady, position_report-IsHeard, ship_static_data-IsHeard}
use openseafeed.Worker.Finland.{
  Location, Metadata, unpack_eta, clamp_rot, second_of, location_report, location_to_sentences,
  metadata_report, metadata_to_sentences,
}

clamp_rot-IsSigned : (rot : ℤ) → IsSigned (2 ^ 7) (clamp_rot rot)
unfolding clamp_rot
clamp_rot-IsSigned (pos n) = ground arith
clamp_rot-IsSigned (negsuc n) = ground arith

second_of-lt : (time : ℤ) → second_of time < 2 ^ 6
unfolding second_of
second_of-lt (pos n) = omega arith
second_of-lt (negsuc n) = omega arith

channel_a-IsField : IsField (codes "A")
channel_a-IsField = record { bytes = omega arith; plain = omega arith }

module _ (fl : Floats) where
  open fl use {F}

  -- What a record must fit; the rate of turn, the time and the arrival need not.
  pub record FitsLocation (mmsi : ℕ) (loc : Location F) : Type 0 where
    pub mmsi_bits : mmsi < 2 ^ 30
    pub nav_stat : loc.nav_stat < 2 ^ 4
    pub sog : IsTenths fl 10 loc.sog
    pub lon : IsDegrees fl (2 ^ 27) 10_000 loc.lon
    pub lat : IsDegrees fl (2 ^ 26) 10_000 loc.lat
    pub cog : IsTenths fl 12 loc.cog
    pub heading : loc.heading < 2 ^ 9

  pub record FitsMetadata (mmsi : ℕ) (md : Metadata) : Type 0 where
    pub mmsi_bits : mmsi < 2 ^ 30
    pub imo : md.imo < 2 ^ 30
    pub call_sign : FitsText 7 md.call_sign
    pub name : FitsText 20 md.name
    pub destination : FitsText 20 md.destination
    pub ship_type : md.ship_type < 2 ^ 8
    pub pos_type : md.pos_type < 2 ^ 4
    pub ref_a : md.ref_a < 2 ^ 9
    pub ref_b : md.ref_b < 2 ^ 9
    pub ref_c : md.ref_c < 2 ^ 6
    pub ref_d : md.ref_d < 2 ^ 6
    pub draught : (n : ℕ) × (n < 2 ^ 8) × (md.draught ≡ pos n)

  location_report-Fits :
      (mmsi : ℕ) (loc : Location F)
      → FitsLocation mmsi loc
      → FitsPosition fl (location_report fl mmsi loc)
  unfolding location_report
  location_report-Fits mmsi loc fits = record {
    header = record {
      message_id = omega arith;
      repeat_indicator = omega arith;
      user_id = fits.mmsi_bits;
      valid = refl;
    };
    navigational_status = fits.nav_stat;
    rate_of_turn = clamp_rot-IsSigned loc.rot;
    sog = fits.sog;
    longitude = fits.lon;
    latitude = fits.lat;
    cog = fits.cog;
    true_heading = fits.heading;
    timestamp = second_of-lt loc.time;
    special_manoeuvre_indicator = omega arith;
    spare = omega arith;
    communication_state = omega arith;
  }

  metadata_report-Fits :
      (mmsi : ℕ) (md : Metadata) → FitsMetadata mmsi md → FitsStatic fl (metadata_report fl mmsi md)
  unfolding metadata_report unpack_eta tenths
  metadata_report-Fits mmsi md fits =
      let (n, small, whole) = fits.draught in
      record {
        header = record {
          message_id = omega arith;
          repeat_indicator = omega arith;
          user_id = fits.mmsi_bits;
          valid = refl;
        };
        ais_version = omega arith;
        imo_number = fits.imo;
        call_sign = fits.call_sign;
        name = fits.name;
        ship_type = fits.ship_type;
        dimension = record { a = fits.ref_a; b = fits.ref_b; c = fits.ref_c; d = fits.ref_d };
        fix_type = fits.pos_type;
        month = omega arith;
        day = omega arith;
        hour = omega arith;
        minute = omega arith;
        maximum_static_draught = (n, small, rw whole refl);
        destination = fits.destination;
      }

  -- A location that fits, sent to an assembler that is ready for its sentences, is one message, which is
  -- decoded to the report of the location; any rate of turn and any time will do.
  pub receive-location_to_sentences :
      IsExact fl
      → (mmsi seq : ℕ) (loc : Location F) (a : Assembler) (clock : ℕ → ℕ) → FitsLocation mmsi loc
      → IsReady a clock (encode_position_report fl (location_report fl mmsi loc)).0 (codes "A") seq
      → (g : Group) × (receive a clock (location_to_sentences fl mmsi loc seq) ≡ received (g ∷ []))
        × (decode fl g.payload g.fill_bits
            ≡ ok (
                message fl
                  (location_report fl mmsi loc).header
                  (position_body fl (location_report fl mmsi loc))))
  unfolding location_to_sentences
  receive-location_to_sentences exact mmsi seq loc a clock fits ready =
      position_report-IsHeard fl (codes "A") seq a clock channel_a-IsField exact
        (location_report fl mmsi loc) (inl (unfold location_report in refl))
        (location_report-Fits mmsi loc fits) ready

  -- Metadata that fit, sent to an assembler that is ready for their sentences, are one message, which is
  -- decoded to the report of the metadata, whatever the packed time of arrival.
  pub receive-metadata_to_sentences :
      IsExact fl
      → (mmsi seq : ℕ) (md : Metadata) (a : Assembler) (clock : ℕ → ℕ) → FitsMetadata mmsi md
      → IsReady a clock (encode_ship_static_data fl (metadata_report fl mmsi md)).0 (codes "A") seq
      → (g : Group) × (receive a clock (metadata_to_sentences fl mmsi md seq) ≡ received (g ∷ []))
        × (decode fl g.payload g.fill_bits
            ≡ ok (
                message fl
                  (metadata_report fl mmsi md).header
                  (static_body fl (metadata_report fl mmsi md))))
  unfolding metadata_to_sentences
  receive-metadata_to_sentences exact mmsi seq md a clock fits ready =
      ship_static_data-IsHeard fl (codes "A") seq a clock channel_a-IsField exact
        (metadata_report fl mmsi md) (unfold metadata_report in refl)
        (metadata_report-Fits mmsi md fits) ready
