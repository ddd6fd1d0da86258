-- ===== src/Ais/Reports.antt =====
-- crates/ais/src/decode.rs: the fields of each message at their bit positions.
use openseafeed.Base.{◌-◌, ltb, if◌then◌else◌, []}
use openseafeed.Ais.Bits.{Bits, len, uint, int, bit, string}
use openseafeed.Ais.Float.{Floats, tenths, of_nat}
use openseafeed.Ais.Fields.{u8, u16, u32, as_i16, dimension, minutes_to_deg}
use openseafeed.Ais.Types.{
  Header, PositionReport, BaseStationReport, ShipStaticData, SarAircraftPositionReport,
  StandardClassBPositionReport, ExtendedClassBPositionReport, AidsToNavigationReport,
  LongRangeAisBroadcastMessage,
}

module _ (fl : Floats) where
  open fl use {F}

  unfoldable pub decode_position_report : Bits → Header → PositionReport F
  decode_position_report bs header = record {
    header = header;
    navigational_status = u8 (uint bs 38 4);
    rate_of_turn = as_i16 (int bs 42 8);
    sog = tenths fl (uint bs 50 10);
    position_accuracy = bit bs 60;
    longitude = minutes_to_deg fl (int bs 61 28) 10_000;
    latitude = minutes_to_deg fl (int bs 89 27) 10_000;
    cog = tenths fl (uint bs 116 12);
    true_heading = u16 (uint bs 128 9);
    timestamp = u8 (uint bs 137 6);
    special_manoeuvre_indicator = u8 (uint bs 143 2);
    spare = u8 (uint bs 145 3);
    raim = bit bs 148;
    communication_state = u32 (uint bs 149 19);
  }

  unfoldable pub decode_base_station_report : Bits → Header → BaseStationReport F
  decode_base_station_report bs header = record {
    header = header;
    utc_year = u16 (uint bs 38 14);
    utc_month = u8 (uint bs 52 4);
    utc_day = u8 (uint bs 56 5);
    utc_hour = u8 (uint bs 61 5);
    utc_minute = u8 (uint bs 66 6);
    utc_second = u8 (uint bs 72 6);
    position_accuracy = bit bs 78;
    longitude = minutes_to_deg fl (int bs 79 28) 10_000;
    latitude = minutes_to_deg fl (int bs 107 27) 10_000;
    fix_type = u8 (uint bs 134 4);
    spare = u16 (uint bs 138 10);
    raim = bit bs 148;
    communication_state = u32 (uint bs 149 19);
  }

  unfoldable pub decode_ship_static_data : Bits → Header → ShipStaticData F
  decode_ship_static_data bs header = record {
    header = header;
    ais_version = u8 (uint bs 38 2);
    imo_number = u32 (uint bs 40 30);
    call_sign = string bs 70 42;
    name = string bs 112 120;
    ship_type = u8 (uint bs 232 8);
    dimension = dimension bs 240;
    fix_type = u8 (uint bs 270 4);
    eta = record {
      month = u8 (uint bs 274 4);
      day = u8 (uint bs 278 5);
      hour = u8 (uint bs 283 5);
      minute = u8 (uint bs 288 6);
    };
    maximum_static_draught = tenths fl (uint bs 294 8);
    destination = string bs 302 120;
    dte = bit bs 422;
    spare = bit bs 423;
  }

  unfoldable pub decode_sar_aircraft : Bits → Header → SarAircraftPositionReport F
  decode_sar_aircraft bs header = record {
    header = header;
    altitude = u16 (uint bs 38 12);
    sog = u16 (uint bs 50 10);
    position_accuracy = bit bs 60;
    longitude = minutes_to_deg fl (int bs 61 28) 10_000;
    latitude = minutes_to_deg fl (int bs 89 27) 10_000;
    cog = tenths fl (uint bs 116 12);
    timestamp = u8 (uint bs 128 6);
    alt_from_baro = bit bs 134;
    dte = bit bs 142;
    assigned_mode = bit bs 146;
    raim = bit bs 147;
    communication_state = u32 (uint bs 148 20);
  }

  unfoldable pub decode_standard_class_b : Bits → Header → StandardClassBPositionReport F
  decode_standard_class_b bs header = record {
    header = header;
    sog = tenths fl (uint bs 46 10);
    position_accuracy = bit bs 56;
    longitude = minutes_to_deg fl (int bs 57 28) 10_000;
    latitude = minutes_to_deg fl (int bs 85 27) 10_000;
    cog = tenths fl (uint bs 112 12);
    true_heading = u16 (uint bs 124 9);
    timestamp = u8 (uint bs 133 6);
    class_b_unit = bit bs 141;
    class_b_display = bit bs 142;
    class_b_dsc = bit bs 143;
    class_b_band = bit bs 144;
    class_b_msg22 = bit bs 145;
    assigned_mode = bit bs 146;
    raim = bit bs 147;
    communication_state_is_itdma = bit bs 148;
    communication_state = u32 (uint bs 149 19);
  }

  unfoldable pub decode_extended_class_b : Bits → Header → ExtendedClassBPositionReport F
  decode_extended_class_b bs header = record {
    header = header;
    sog = tenths fl (uint bs 46 10);
    position_accuracy = bit bs 56;
    longitude = minutes_to_deg fl (int bs 57 28) 10_000;
    latitude = minutes_to_deg fl (int bs 85 27) 10_000;
    cog = tenths fl (uint bs 112 12);
    true_heading = u16 (uint bs 124 9);
    timestamp = u8 (uint bs 133 6);
    name = string bs 143 120;
    ship_type = u8 (uint bs 263 8);
    dimension = dimension bs 271;
    fix_type = u8 (uint bs 301 4);
    raim = bit bs 305;
    dte = bit bs 306;
    assigned_mode = bit bs 307;
  }

  unfoldable pub decode_aids_to_navigation : Bits → Header → AidsToNavigationReport F
  decode_aids_to_navigation bs header = record {
    header = header;
    aid_type = u8 (uint bs 38 5);
    name = string bs 43 120;
    position_accuracy = bit bs 163;
    longitude = minutes_to_deg fl (int bs 164 28) 10_000;
    latitude = minutes_to_deg fl (int bs 192 27) 10_000;
    dimension = dimension bs 219;
    fix_type = u8 (uint bs 249 4);
    timestamp = u8 (uint bs 253 6);
    off_position = bit bs 259;
    aton_status = u8 (uint bs 260 8);
    raim = bit bs 268;
    virtual_aton = bit bs 269;
    assigned_mode = bit bs 270;
    name_extension = if ltb 272 (len bs) then string bs 272 (len bs - 272) else [];
  }

  unfoldable pub decode_long_range : Bits → Header → LongRangeAisBroadcastMessage F
  decode_long_range bs header = record {
    header = header;
    position_accuracy = bit bs 38;
    raim = bit bs 39;
    navigational_status = u8 (uint bs 40 4);
    longitude = minutes_to_deg fl (int bs 44 18) 10;
    latitude = minutes_to_deg fl (int bs 62 17) 10;
    sog = of_nat fl (uint bs 79 6);
    cog = of_nat fl (uint bs 85 9);
    position_latency = bit bs 94;
    spare = bit bs 95;
  }
