-- ===== src/Ais/Encode.antt =====
-- crates/ais/src/encode.rs: the encoders of the messages, the inverse of `decode`.
pub mod Segments
use openseafeed.Base.{ℕ, Bool, true, false, ◌*◌, if◌then◌else◌, Bytes, Option, none, some}
use openseafeed.Base.Int.{ℤ, pos}
use openseafeed.Ais.BitsMut.{BitsMut, new, push_uint, push_int, push_bool, push_str, to_payload}
use openseafeed.Ais.Float.{Floats}
use openseafeed.Ais.Types.{
  Header, Dimension, PositionReport, BaseStationReport, ShipStaticData, SarAircraftPositionReport,
  StandardClassBPositionReport, ExtendedClassBPositionReport, AidsToNavigationReport,
  StaticDataReport, LongRangeAisBroadcastMessage, Packet, position_report, base_station_report,
  ship_static_data, standard_search_and_rescue_aircraft_report, standard_class_b_position_report,
  extended_class_b_position_report, aids_to_navigation_report, static_data_report,
  long_range_ais_broadcast_message, unknown,
}

unfoldable pub push_header : BitsMut → Header → BitsMut
push_header bits h =
    push_uint (push_uint (push_uint bits h.message_id 6) h.repeat_indicator 2) h.user_id 30

unfoldable pub push_dimension : BitsMut → Dimension → BitsMut
push_dimension b d = push_uint (push_uint (push_uint (push_uint b d.a 9) d.b 9) d.c 6) d.d 6

unfoldable pub encode_static_data_report : StaticDataReport → Bytes × ℕ
encode_static_data_report p =
    let b0 = push_uint (push_header new p.header) (if p.part_number then 1 else 0) 2 in
    let part_b =
      (let r = p.report_b in
        let b1 = push_uint b0 r.ship_type 8 in
        let b2 = push_str b1 r.vendor_id_name 18 in
        let b3 = push_uint b2 r.vender_id_model 4 in
        let b4 = push_uint b3 r.vender_id_serial 20 in
        let b5 = push_str b4 r.call_sign 42 in
        let b6 = push_dimension b5 r.dimension in push_uint b6 r.spare 6) in
    let part_a = push_str b0 p.report_a.name 120 in
    to_payload (if p.part_number then part_b else part_a)

module _ (fl : Floats) where
  open fl use {F, of_int, mul, round, to_u64, to_i64}

  unfoldable pub deg_to_minutes : F → ℕ → ℤ
  deg_to_minutes deg scale = to_i64 (round (mul (mul deg (of_int (pos 60))) (of_int (pos scale))))

  -- `(x * 10.0).round() as u64`
  unfoldable pub to_tenths : F → ℕ
  to_tenths x = to_u64 (round (mul x (of_int (pos 10))))

  unfoldable pub encode_position_report : PositionReport F → Bytes × ℕ
  encode_position_report p =
      let b0 = push_header new p.header in
      let b1 = push_uint b0 p.navigational_status 4 in
      let b2 = push_int b1 p.rate_of_turn 8 in
      let b3 = push_uint b2 (to_tenths p.sog) 10 in
      let b4 = push_bool b3 p.position_accuracy in
      let b5 = push_int b4 (deg_to_minutes p.longitude 10_000) 28 in
      let b6 = push_int b5 (deg_to_minutes p.latitude 10_000) 27 in
      let b7 = push_uint b6 (to_tenths p.cog) 12 in
      let b8 = push_uint b7 p.true_heading 9 in
      let b9 = push_uint b8 p.timestamp 6 in
      let b10 = push_uint b9 p.special_manoeuvre_indicator 2 in
      let b11 = push_uint b10 p.spare 3 in
      let b12 = push_bool b11 p.raim in to_payload (push_uint b12 p.communication_state 19)

  unfoldable pub encode_ship_static_data : ShipStaticData F → Bytes × ℕ
  encode_ship_static_data p =
      let b0 = push_header new p.header in
      let b1 = push_uint b0 p.ais_version 2 in
      let b2 = push_uint b1 p.imo_number 30 in
      let b3 = push_str b2 p.call_sign 42 in
      let b4 = push_str b3 p.name 120 in
      let b5 = push_uint b4 p.ship_type 8 in
      let b6 = push_uint b5 p.dimension.a 9 in
      let b7 = push_uint b6 p.dimension.b 9 in
      let b8 = push_uint b7 p.dimension.c 6 in
      let b9 = push_uint b8 p.dimension.d 6 in
      let b10 = push_uint b9 p.fix_type 4 in
      let b11 = push_uint b10 p.eta.month 4 in
      let b12 = push_uint b11 p.eta.day 5 in
      let b13 = push_uint b12 p.eta.hour 5 in
      let b14 = push_uint b13 p.eta.minute 6 in
      let b15 = push_uint b14 (to_tenths p.maximum_static_draught) 8 in
      let b16 = push_str b15 p.destination 120 in
      let b17 = push_bool b16 p.dte in to_payload (push_bool b17 p.spare)

  unfoldable pub encode_standard_class_b : StandardClassBPositionReport F → Bytes × ℕ
  encode_standard_class_b p =
      let b0 = push_header new p.header in
      let b1 = push_uint b0 0 8 in
      let b2 = push_uint b1 (to_tenths p.sog) 10 in
      let b3 = push_bool b2 p.position_accuracy in
      let b4 = push_int b3 (deg_to_minutes p.longitude 10_000) 28 in
      let b5 = push_int b4 (deg_to_minutes p.latitude 10_000) 27 in
      let b6 = push_uint b5 (to_tenths p.cog) 12 in
      let b7 = push_uint b6 p.true_heading 9 in
      let b8 = push_uint b7 p.timestamp 6 in
      let b9 = push_uint b8 0 2 in
      let b10 = push_bool b9 p.class_b_unit in
      let b11 = push_bool b10 p.class_b_display in
      let b12 = push_bool b11 p.class_b_dsc in
      let b13 = push_bool b12 p.class_b_band in
      let b14 = push_bool b13 p.class_b_msg22 in
      let b15 = push_bool b14 p.assigned_mode in
      let b16 = push_bool b15 p.raim in
      let b17 = push_bool b16 p.communication_state_is_itdma in
      to_payload (push_uint b17 p.communication_state 19)

  unfoldable pub encode_base_station_report : BaseStationReport F → Bytes × ℕ
  encode_base_station_report p =
      let b0 = push_header new p.header in
      let b1 = push_uint b0 p.utc_year 14 in
      let b2 = push_uint b1 p.utc_month 4 in
      let b3 = push_uint b2 p.utc_day 5 in
      let b4 = push_uint b3 p.utc_hour 5 in
      let b5 = push_uint b4 p.utc_minute 6 in
      let b6 = push_uint b5 p.utc_second 6 in
      let b7 = push_bool b6 p.position_accuracy in
      let b8 = push_int b7 (deg_to_minutes p.longitude 10_000) 28 in
      let b9 = push_int b8 (deg_to_minutes p.latitude 10_000) 27 in
      let b10 = push_uint b9 p.fix_type 4 in
      let b11 = push_uint b10 p.spare 10 in
      let b12 = push_bool b11 p.raim in to_payload (push_uint b12 p.communication_state 19)

  unfoldable pub encode_sar_aircraft : SarAircraftPositionReport F → Bytes × ℕ
  encode_sar_aircraft p =
      let b0 = push_header new p.header in
      let b1 = push_uint b0 p.altitude 12 in
      let b2 = push_uint b1 p.sog 10 in
      let b3 = push_bool b2 p.position_accuracy in
      let b4 = push_int b3 (deg_to_minutes p.longitude 10_000) 28 in
      let b5 = push_int b4 (deg_to_minutes p.latitude 10_000) 27 in
      let b6 = push_uint b5 (to_tenths p.cog) 12 in
      let b7 = push_uint b6 p.timestamp 6 in
      let b8 = push_bool b7 p.alt_from_baro in
      let b9 = push_uint b8 0 7 in
      let b10 = push_bool b9 p.dte in
      let b11 = push_uint b10 0 3 in
      let b12 = push_bool b11 p.assigned_mode in
      let b13 = push_bool b12 p.raim in to_payload (push_uint b13 p.communication_state 20)

  unfoldable pub encode_extended_class_b : ExtendedClassBPositionReport F → Bytes × ℕ
  encode_extended_class_b p =
      let b0 = push_header new p.header in
      let b1 = push_uint b0 0 8 in
      let b2 = push_uint b1 (to_tenths p.sog) 10 in
      let b3 = push_bool b2 p.position_accuracy in
      let b4 = push_int b3 (deg_to_minutes p.longitude 10_000) 28 in
      let b5 = push_int b4 (deg_to_minutes p.latitude 10_000) 27 in
      let b6 = push_uint b5 (to_tenths p.cog) 12 in
      let b7 = push_uint b6 p.true_heading 9 in
      let b8 = push_uint b7 p.timestamp 6 in
      let b9 = push_uint b8 0 4 in
      let b10 = push_str b9 p.name 120 in
      let b11 = push_uint b10 p.ship_type 8 in
      let b12 = push_dimension b11 p.dimension in
      let b13 = push_uint b12 p.fix_type 4 in
      let b14 = push_bool b13 p.raim in
      let b15 = push_bool b14 p.dte in
      let b16 = push_bool b15 p.assigned_mode in to_payload (push_uint b16 0 4)

  unfoldable pub encode_aids_to_navigation : AidsToNavigationReport F → Bytes × ℕ
  encode_aids_to_navigation p =
      let b0 = push_header new p.header in
      let b1 = push_uint b0 p.aid_type 5 in
      let b2 = push_str b1 p.name 120 in
      let b3 = push_bool b2 p.position_accuracy in
      let b4 = push_int b3 (deg_to_minutes p.longitude 10_000) 28 in
      let b5 = push_int b4 (deg_to_minutes p.latitude 10_000) 27 in
      let b6 = push_dimension b5 p.dimension in
      let b7 = push_uint b6 p.fix_type 4 in
      let b8 = push_uint b7 p.timestamp 6 in
      let b9 = push_bool b8 p.off_position in
      let b10 = push_uint b9 p.aton_status 8 in
      let b11 = push_bool b10 p.raim in
      let b12 = push_bool b11 p.virtual_aton in
      let b13 = push_bool b12 p.assigned_mode in to_payload (push_bool b13 false)

  unfoldable pub encode_long_range : LongRangeAisBroadcastMessage F → Bytes × ℕ
  encode_long_range p =
      let b0 = push_header new p.header in
      let b1 = push_bool b0 p.position_accuracy in
      let b2 = push_bool b1 p.raim in
      let b3 = push_uint b2 p.navigational_status 4 in
      let b4 = push_int b3 (deg_to_minutes p.longitude 10) 18 in
      let b5 = push_int b4 (deg_to_minutes p.latitude 10) 17 in
      let b6 = push_uint b5 (to_u64 (round p.sog)) 6 in
      let b7 = push_uint b6 (to_u64 (round p.cog)) 9 in
      let b8 = push_bool b7 p.position_latency in to_payload (push_bool b8 p.spare)

  unfoldable pub encode : Packet F → Option (Bytes × ℕ)
  encode (position_report p) = some (encode_position_report p)
  encode (base_station_report p) = some (encode_base_station_report p)
  encode (ship_static_data p) = some (encode_ship_static_data p)
  encode (standard_search_and_rescue_aircraft_report p) = some (encode_sar_aircraft p)
  encode (standard_class_b_position_report p) = some (encode_standard_class_b p)
  encode (extended_class_b_position_report p) = some (encode_extended_class_b p)
  encode (aids_to_navigation_report p) = some (encode_aids_to_navigation p)
  encode (static_data_report p) = some (encode_static_data_report p)
  encode (long_range_ais_broadcast_message p) = some (encode_long_range p)
  encode (unknown _) = none
