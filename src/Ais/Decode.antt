-- ===== src/Ais/Decode.antt =====
-- crates/ais/src/decode.rs: `decode` and `decode_bits`. Each arm of the `match` on the message id is a
-- function of its own.
pub mod Lengths
pub mod Placed
use openseafeed.Base.{ℕ, true, ◌==◌, ◌||◌, if◌then◌else◌, Bytes, Option, none, some}
use openseafeed.Base.Result.{Result, ok, ◌>>=◌}
use openseafeed.Ais.Bits.{Bits, DecodeError, from_payload, len, uint, string}
use openseafeed.Ais.Float.{Floats}
use openseafeed.Ais.Fields.{u8, u32, need, dimension, non_empty, decode_header, valid_position}
use openseafeed.Ais.Reports.{
  decode_position_report, decode_base_station_report, decode_ship_static_data, decode_sar_aircraft,
  decode_standard_class_b, decode_extended_class_b, decode_aids_to_navigation, decode_long_range,
}
use openseafeed.Ais.Types.{
  Header, StaticDataReport, Packet, position_report, base_station_report, ship_static_data,
  standard_search_and_rescue_aircraft_report, standard_class_b_position_report,
  extended_class_b_position_report, aids_to_navigation_report, static_data_report,
  long_range_ais_broadcast_message, unknown, Message, default_a, default_b,
}

module _ (fl : Floats) where
  open fl use {F}

  -- The locals that the arms of the `match` fill in.
  pub record Body : Type 0 where
    pub packet : Packet F
    pub position : Option (F × F)
    pub name : Option Bytes
    pub ship_type : Option ℕ
    pub imo : Option ℕ

  abbrev pub no_facts : Packet F → Body
  no_facts p = record { packet = p; position = none; name = none; ship_type = none; imo = none }

  -- The arms 1 to 3, 4 and 11, 5, 9, 18, 19, 21, 24 and 27.
  unfoldable pub position_arm : Bits → Header → Body
  position_arm bs h =
      let p = decode_position_report fl bs h in
      record (no_facts (position_report p)) { position = valid_position fl p.latitude p.longitude }

  unfoldable pub base_station_arm : Bits → Header → Body
  base_station_arm bs h =
      let p = decode_base_station_report fl bs h in
      record (no_facts (base_station_report p)) {
        position = valid_position fl p.latitude p.longitude;
      }

  unfoldable pub static_arm : Bits → Header → Body
  static_arm bs h =
      let p = decode_ship_static_data fl bs h in
      record (no_facts (ship_static_data p)) {
        name = non_empty p.name;
        ship_type = some p.ship_type;
        imo = if p.imo_number == 0 then none else some p.imo_number;
      }

  unfoldable pub sar_arm : Bits → Header → Body
  sar_arm bs h =
      let p = decode_sar_aircraft fl bs h in
      record (no_facts (standard_search_and_rescue_aircraft_report p)) {
        position = valid_position fl p.latitude p.longitude;
      }

  unfoldable pub class_b_arm : Bits → Header → Body
  class_b_arm bs h =
      let p = decode_standard_class_b fl bs h in
      record (no_facts (standard_class_b_position_report p)) {
        position = valid_position fl p.latitude p.longitude;
      }

  unfoldable pub extended_class_b_arm : Bits → Header → Body
  extended_class_b_arm bs h =
      let p = decode_extended_class_b fl bs h in
      record (no_facts (extended_class_b_position_report p)) {
        position = valid_position fl p.latitude p.longitude;
        name = non_empty p.name;
        ship_type = some p.ship_type;
      }

  unfoldable pub aids_arm : Bits → Header → Body
  aids_arm bs h =
      let p = decode_aids_to_navigation fl bs h in
      record (no_facts (aids_to_navigation_report p)) {
        position = valid_position fl p.latitude p.longitude;
        name = non_empty p.name;
      }

  unfoldable pub static_report_arm : Bits → Header → Result DecodeError Body
  static_report_arm bs h =
      let part_number = u8 (uint bs 38 2) in
      let p : StaticDataReport = record {
        header = h;
        part_number = part_number == 1;
        reserved = 0;
        report_a = default_a;
        report_b = default_b;
      } in
      let name_a = string bs 40 120 in
      let type_b = u8 (uint bs 40 8) in
      if part_number == 0
      then ok
          (record (no_facts
            (static_data_report (record p { report_a = record { valid = true; name = name_a } }))) {
              name = non_empty name_a;
            })
      else if part_number == 1
      then need bs 168 (
          ok
            (record (no_facts (
              static_data_report (record p {
                report_b = record default_b {
                  valid = true;
                  ship_type = type_b;
                  vendor_id_name = string bs 48 18;
                  vender_id_model = u8 (uint bs 66 4);
                  vender_id_serial = u32 (uint bs 70 20);
                  call_sign = string bs 90 42;
                  dimension = dimension bs 132;
                  spare = u8 (uint bs 162 6);
                };
              }))) { ship_type = some type_b }))
      else ok (no_facts (static_data_report p))

  unfoldable pub long_range_arm : Bits → Header → Body
  long_range_arm bs h =
      let p = decode_long_range fl bs h in
      record (no_facts (long_range_ais_broadcast_message p)) {
        position = valid_position fl p.latitude p.longitude;
      }

  -- `match id`
  unfoldable pub decode_body : ℕ → Bits → Header → Result DecodeError Body
  decode_body id bs h =
      if id == 1 || id == 2 || id == 3
      then need bs 168 (ok (position_arm bs h))
      else if id == 4 || id == 11
      then need bs 168 (ok (base_station_arm bs h))
      else if id == 5
      then need bs 420 (ok (static_arm bs h))
      else if id == 9
      then need bs 168 (ok (sar_arm bs h))
      else if id == 18
      then need bs 168 (ok (class_b_arm bs h))
      else if id == 19
      then need bs 312 (ok (extended_class_b_arm bs h))
      else if id == 21
      then need bs 272 (ok (aids_arm bs h))
      else if id == 24
      then need bs 160 (static_report_arm bs h)
      else if id == 27
      then need bs 96 (ok (long_range_arm bs h))
      else ok (no_facts (unknown (record { header = h; num_bits = len bs })))

  unfoldable pub decode_bits : Bits → Result DecodeError (Message F)
  decode_bits bs =
      let header = decode_header bs in
      need bs 38 (do
        body ← decode_body header.message_id bs header
        ok (record {
          id = header.message_id;
          mmsi = header.user_id;
          packet = body.packet;
          position = body.position;
          name = body.name;
          ship_type = body.ship_type;
          imo = body.imo;
        }))

  unfoldable pub decode : Bytes → ℕ → Result DecodeError (Message F)
  decode payload fill_bits = do bs ← from_payload payload fill_bits; decode_bits bs
