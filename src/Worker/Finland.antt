-- ===== src/Worker/Finland.antt =====
-- worker/src/finland.rs: the reports made of the records of Digitraffic.
pub mod Heard
use openseafeed.Base.{
  ℕ, ◌-◌, ◌/◌, ◌%◌, ◌^◌, List, Bytes, codes, Bool, true, false, ltb, if◌then◌else◌,
}
use openseafeed.Base.Int.{ℤ, pos, negsuc}
use openseafeed.Ais.Float.{Floats}
use openseafeed.Ais.Types.{Eta, PositionReport, ShipStaticData}
use openseafeed.Ais.Encode.{encode_position_report, encode_ship_static_data}
use openseafeed.Nmea.Encode.{to_sentences}

pub record Location (F : Type 0) : Type 0 where
  pub time : ℤ
  pub sog : F
  pub cog : F
  pub nav_stat : ℕ
  pub rot : ℤ
  pub pos_acc : Bool
  pub raim : Bool
  pub heading : ℕ
  pub lon : F
  pub lat : F

pub record Metadata : Type 0 where
  pub name : Bytes
  pub destination : Bytes
  pub draught : ℤ
  pub eta : ℕ
  pub pos_type : ℕ
  pub ref_a : ℕ
  pub ref_b : ℕ
  pub ref_c : ℕ
  pub ref_d : ℕ
  pub call_sign : Bytes
  pub imo : ℕ
  pub ship_type : ℕ

unfoldable pub unpack_eta : ℕ → Eta
unpack_eta raw = record {
  month = raw / 2 ^ 16 % 2 ^ 4;
  day = raw / 2 ^ 11 % 2 ^ 5;
  hour = raw / 2 ^ 6 % 2 ^ 5;
  minute = raw % 2 ^ 6;
}

-- `clamp(-128, 127)`
unfoldable pub clamp_rot : ℤ → ℤ
clamp_rot (pos n) = if ltb 127 n then pos 127 else pos n
clamp_rot (negsuc n) = if ltb 127 n then negsuc 127 else negsuc n

-- `rem_euclid(60)`
unfoldable pub second_of : ℤ → ℕ
second_of (pos n) = n % 60
second_of (negsuc n) = 59 - n % 60

module _ (fl : Floats) where
  open fl use {F, of_int, div}

  unfoldable pub location_report : ℕ → Location F → PositionReport F
  location_report mmsi loc = record {
    header = record { message_id = 1; repeat_indicator = 0; user_id = mmsi; valid = true };
    navigational_status = loc.nav_stat;
    rate_of_turn = clamp_rot loc.rot;
    sog = loc.sog;
    position_accuracy = loc.pos_acc;
    longitude = loc.lon;
    latitude = loc.lat;
    cog = loc.cog;
    true_heading = loc.heading;
    timestamp = second_of loc.time;
    special_manoeuvre_indicator = 0;
    spare = 0;
    raim = loc.raim;
    communication_state = 0;
  }

  unfoldable pub location_to_sentences : ℕ → Location F → ℕ → List Bytes
  location_to_sentences mmsi loc seq =
      let sent = encode_position_report fl (location_report mmsi loc) in
      to_sentences sent.0 sent.1 (codes "A") seq

  unfoldable pub metadata_report : ℕ → Metadata → ShipStaticData F
  metadata_report mmsi md = record {
    header = record { message_id = 5; repeat_indicator = 0; user_id = mmsi; valid = true };
    ais_version = 0;
    imo_number = md.imo;
    call_sign = md.call_sign;
    name = md.name;
    ship_type = md.ship_type;
    dimension = record { a = md.ref_a; b = md.ref_b; c = md.ref_c; d = md.ref_d };
    fix_type = md.pos_type;
    eta = unpack_eta md.eta;
    maximum_static_draught = div (of_int md.draught) (of_int (pos 10));
    destination = md.destination;
    dte = false;
    spare = false;
  }

  unfoldable pub metadata_to_sentences : ℕ → Metadata → ℕ → List Bytes
  metadata_to_sentences mmsi md seq =
      let sent = encode_ship_static_data fl (metadata_report mmsi md) in
      to_sentences sent.0 sent.1 (codes "A") seq
