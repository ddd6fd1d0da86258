-- ===== src/Tests/Samples.antt =====
-- Messages whose fields fit.
use openseafeed.Base.{refl, [], true, false, codes, arith}
use openseafeed.Base.Int.{pos, negsuc}
use openseafeed.Ais.Bits.{trim_end}
use openseafeed.Ais.Float.{tenths, of_nat}
use openseafeed.Ais.Fields.{minutes_to_deg}
use openseafeed.Ais.Types.{
  PositionReport, BaseStationReport, ShipStaticData, SarAircraftPositionReport,
  StandardClassBPositionReport, ExtendedClassBPositionReport, AidsToNavigationReport,
  LongRangeAisBroadcastMessage,
}
use openseafeed.Ais.RoundTrip.Position
use openseafeed.Ais.RoundTrip.BaseStation
use openseafeed.Ais.RoundTrip.ShipStatic
use openseafeed.Ais.RoundTrip.Sar
use openseafeed.Ais.RoundTrip.ClassB
use openseafeed.Ais.RoundTrip.ExtendedClassB
use openseafeed.Ais.RoundTrip.AidsToNavigation
use openseafeed.Ais.RoundTrip.LongRange
use openseafeed.Tests.Fractions.{Fraction, fractions}

abbrev pub position_report_sample : PositionReport Fraction
position_report_sample = record {
  header = record { message_id = 3; repeat_indicator = 0; user_id = 367_533_950; valid = true };
  navigational_status = 5;
  rate_of_turn = negsuc 127;
  sog = tenths fractions 102;
  position_accuracy = true;
  longitude = minutes_to_deg fractions (negsuc 73_424_279) 10_000;
  latitude = minutes_to_deg fractions (pos 22_648_000) 10_000;
  cog = tenths fractions 3456;
  true_heading = 511;
  timestamp = 59;
  special_manoeuvre_indicator = 1;
  spare = 0;
  raim = true;
  communication_state = 49_205;
}

pub position_report_sample-Fits : Position.Fits fractions position_report_sample
position_report_sample-Fits = record {
  header = record {
    message_id = omega arith;
    repeat_indicator = omega arith;
    user_id = omega arith;
    valid = refl;
  };
  navigational_status = omega arith;
  rate_of_turn = omega arith;
  sog = (102, omega arith, refl);
  longitude = (negsuc 73_424_279, omega arith, refl);
  latitude = (pos 22_648_000, omega arith, refl);
  cog = (3456, omega arith, refl);
  true_heading = omega arith;
  timestamp = omega arith;
  special_manoeuvre_indicator = omega arith;
  spare = omega arith;
  communication_state = omega arith;
}

abbrev pub base_station_report_sample : BaseStationReport Fraction
base_station_report_sample = record {
  header = record { message_id = 4; repeat_indicator = 0; user_id = 367_533_950; valid = true };
  utc_year = 2026;
  utc_month = 7;
  utc_day = 4;
  utc_hour = 23;
  utc_minute = 59;
  utc_second = 58;
  position_accuracy = true;
  longitude = minutes_to_deg fractions (negsuc 73_424_279) 10_000;
  latitude = minutes_to_deg fractions (pos 22_648_000) 10_000;
  fix_type = 1;
  spare = 0;
  raim = false;
  communication_state = 49_205;
}

pub base_station_report_sample-Fits : BaseStation.Fits fractions base_station_report_sample
base_station_report_sample-Fits = record {
  header = record {
    message_id = omega arith;
    repeat_indicator = omega arith;
    user_id = omega arith;
    valid = refl;
  };
  utc_year = omega arith;
  utc_month = omega arith;
  utc_day = omega arith;
  utc_hour = omega arith;
  utc_minute = omega arith;
  utc_second = omega arith;
  longitude = (negsuc 73_424_279, omega arith, refl);
  latitude = (pos 22_648_000, omega arith, refl);
  fix_type = omega arith;
  spare = omega arith;
  communication_state = omega arith;
}

abbrev pub ship_static_data_sample : ShipStaticData Fraction
ship_static_data_sample = record {
  header = record { message_id = 5; repeat_indicator = 0; user_id = 367_533_950; valid = true };
  ais_version = 2;
  imo_number = 9_703_291;
  call_sign = codes "WDA9674";
  name = codes "EVER GIVEN";
  ship_type = 70;
  dimension = record { a = 120; b = 35; c = 12; d = 14 };
  fix_type = 1;
  eta = record { month = 12; day = 31; hour = 24; minute = 60 };
  maximum_static_draught = tenths fractions 157;
  destination = codes "ROTTERDAM";
  dte = false;
  spare = true;
}

pub ship_static_data_sample-Fits : ShipStatic.Fits fractions ship_static_data_sample
ship_static_data_sample-Fits = record {
  header = record {
    message_id = omega arith;
    repeat_indicator = omega arith;
    user_id = omega arith;
    valid = refl;
  };
  ais_version = omega arith;
  imo_number = omega arith;
  call_sign = record {
    plain = ground arith;
    short = omega arith;
    trimmed = unfold trim_end in refl;
  };
  name = record { plain = ground arith; short = omega arith; trimmed = unfold trim_end in refl };
  ship_type = omega arith;
  dimension = record { a = omega arith; b = omega arith; c = omega arith; d = omega arith };
  fix_type = omega arith;
  month = omega arith;
  day = omega arith;
  hour = omega arith;
  minute = omega arith;
  maximum_static_draught = (157, omega arith, refl);
  destination = record {
    plain = ground arith;
    short = omega arith;
    trimmed = unfold trim_end in refl;
  };
}

abbrev pub sar_aircraft_sample : SarAircraftPositionReport Fraction
sar_aircraft_sample = record {
  header = record { message_id = 9; repeat_indicator = 0; user_id = 367_533_950; valid = true };
  altitude = 303;
  sog = 42;
  position_accuracy = false;
  longitude = minutes_to_deg fractions (negsuc 73_424_279) 10_000;
  latitude = minutes_to_deg fractions (pos 22_648_000) 10_000;
  cog = tenths fractions 1545;
  timestamp = 15;
  alt_from_baro = true;
  dte = true;
  assigned_mode = false;
  raim = false;
  communication_state = 33_392;
}

pub sar_aircraft_sample-Fits : Sar.Fits fractions sar_aircraft_sample
sar_aircraft_sample-Fits = record {
  header = record {
    message_id = omega arith;
    repeat_indicator = omega arith;
    user_id = omega arith;
    valid = refl;
  };
  altitude = omega arith;
  sog = omega arith;
  longitude = (negsuc 73_424_279, omega arith, refl);
  latitude = (pos 22_648_000, omega arith, refl);
  cog = (1545, omega arith, refl);
  timestamp = omega arith;
  communication_state = omega arith;
}

abbrev pub standard_class_b_sample : StandardClassBPositionReport Fraction
standard_class_b_sample = record {
  header = record { message_id = 18; repeat_indicator = 0; user_id = 367_533_950; valid = true };
  sog = tenths fractions 14;
  position_accuracy = false;
  longitude = minutes_to_deg fractions (negsuc 73_424_279) 10_000;
  latitude = minutes_to_deg fractions (pos 22_648_000) 10_000;
  cog = tenths fractions 1770;
  true_heading = 177;
  timestamp = 34;
  class_b_unit = true;
  class_b_display = false;
  class_b_dsc = true;
  class_b_band = true;
  class_b_msg22 = true;
  assigned_mode = false;
  raim = true;
  communication_state_is_itdma = true;
  communication_state = 393_222;
}

pub standard_class_b_sample-Fits : ClassB.Fits fractions standard_class_b_sample
standard_class_b_sample-Fits = record {
  header = record {
    message_id = omega arith;
    repeat_indicator = omega arith;
    user_id = omega arith;
    valid = refl;
  };
  sog = (14, omega arith, refl);
  longitude = (negsuc 73_424_279, omega arith, refl);
  latitude = (pos 22_648_000, omega arith, refl);
  cog = (1770, omega arith, refl);
  true_heading = omega arith;
  timestamp = omega arith;
  communication_state = omega arith;
}

abbrev pub extended_class_b_sample : ExtendedClassBPositionReport Fraction
extended_class_b_sample = record {
  header = record { message_id = 19; repeat_indicator = 0; user_id = 367_533_950; valid = true };
  sog = tenths fractions 87;
  position_accuracy = false;
  longitude = minutes_to_deg fractions (negsuc 73_424_279) 10_000;
  latitude = minutes_to_deg fractions (pos 22_648_000) 10_000;
  cog = tenths fractions 3359;
  true_heading = 511;
  timestamp = 46;
  name = codes "CAPT.J.RIMES";
  ship_type = 70;
  dimension = record { a = 120; b = 35; c = 12; d = 14 };
  fix_type = 1;
  raim = false;
  dte = false;
  assigned_mode = false;
}

pub extended_class_b_sample-Fits : ExtendedClassB.Fits fractions extended_class_b_sample
extended_class_b_sample-Fits = record {
  header = record {
    message_id = omega arith;
    repeat_indicator = omega arith;
    user_id = omega arith;
    valid = refl;
  };
  sog = (87, omega arith, refl);
  longitude = (negsuc 73_424_279, omega arith, refl);
  latitude = (pos 22_648_000, omega arith, refl);
  cog = (3359, omega arith, refl);
  true_heading = omega arith;
  timestamp = omega arith;
  name = record { plain = ground arith; short = omega arith; trimmed = unfold trim_end in refl };
  ship_type = omega arith;
  dimension = record { a = omega arith; b = omega arith; c = omega arith; d = omega arith };
  fix_type = omega arith;
}

abbrev pub aids_to_navigation_sample : AidsToNavigationReport Fraction
aids_to_navigation_sample = record {
  header = record { message_id = 21; repeat_indicator = 0; user_id = 367_533_950; valid = true };
  aid_type = 1;
  name = codes "CHINA ROSE";
  position_accuracy = true;
  longitude = minutes_to_deg fractions (negsuc 73_424_279) 10_000;
  latitude = minutes_to_deg fractions (pos 22_648_000) 10_000;
  dimension = record { a = 120; b = 35; c = 12; d = 14 };
  fix_type = 7;
  timestamp = 60;
  off_position = true;
  aton_status = 165;
  raim = false;
  virtual_aton = true;
  assigned_mode = false;
  name_extension = [];
}

pub aids_to_navigation_sample-Fits : AidsToNavigation.Fits fractions aids_to_navigation_sample
aids_to_navigation_sample-Fits = record {
  header = record {
    message_id = omega arith;
    repeat_indicator = omega arith;
    user_id = omega arith;
    valid = refl;
  };
  aid_type = omega arith;
  name = record { plain = ground arith; short = omega arith; trimmed = unfold trim_end in refl };
  longitude = (negsuc 73_424_279, omega arith, refl);
  latitude = (pos 22_648_000, omega arith, refl);
  dimension = record { a = omega arith; b = omega arith; c = omega arith; d = omega arith };
  fix_type = omega arith;
  timestamp = omega arith;
  aton_status = omega arith;
  name_extension = refl;
}

abbrev pub long_range_sample : LongRangeAisBroadcastMessage Fraction
long_range_sample = record {
  header = record { message_id = 27; repeat_indicator = 0; user_id = 367_533_950; valid = true };
  position_accuracy = true;
  raim = false;
  navigational_status = 3;
  longitude = minutes_to_deg fractions (negsuc 81_599) 10;
  latitude = minutes_to_deg fractions (pos 25_153) 10;
  sog = of_nat fractions 57;
  cog = of_nat fractions 167;
  position_latency = false;
  spare = false;
}

pub long_range_sample-Fits : LongRange.Fits fractions long_range_sample
long_range_sample-Fits = record {
  header = record {
    message_id = omega arith;
    repeat_indicator = omega arith;
    user_id = omega arith;
    valid = refl;
  };
  navigational_status = omega arith;
  longitude = (negsuc 81_599, omega arith, refl);
  latitude = (pos 25_153, omega arith, refl);
  sog = (57, omega arith, refl);
  cog = (167, omega arith, refl);
}
