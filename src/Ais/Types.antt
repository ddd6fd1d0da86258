-- ===== src/Ais/Types.antt =====
-- crates/ais/src/types.rs: the messages. A `String` is its bytes, and `F` is the type of `f64`.
use openseafeed.Base.{ℕ, Bool, false, Bytes, codes, [], Option}
use openseafeed.Base.Int.{ℤ}

pub record Header : Type 0 where
  pub message_id : ℕ
  pub repeat_indicator : ℕ
  pub user_id : ℕ
  pub valid : Bool

pub record Dimension : Type 0 where
  pub a : ℕ
  pub b : ℕ
  pub c : ℕ
  pub d : ℕ

pub record Eta : Type 0 where
  pub month : ℕ
  pub day : ℕ
  pub hour : ℕ
  pub minute : ℕ

pub record PositionReport (F : Type 0) : Type 0 where
  pub header : Header
  pub navigational_status : ℕ
  pub rate_of_turn : ℤ
  pub sog : F
  pub position_accuracy : Bool
  pub longitude : F
  pub latitude : F
  pub cog : F
  pub true_heading : ℕ
  pub timestamp : ℕ
  pub special_manoeuvre_indicator : ℕ
  pub spare : ℕ
  pub raim : Bool
  pub communication_state : ℕ

pub record BaseStationReport (F : Type 0) : Type 0 where
  pub header : Header
  pub utc_year : ℕ
  pub utc_month : ℕ
  pub utc_day : ℕ
  pub utc_hour : ℕ
  pub utc_minute : ℕ
  pub utc_second : ℕ
  pub position_accuracy : Bool
  pub longitude : F
  pub latitude : F
  pub fix_type : ℕ
  pub spare : ℕ
  pub raim : Bool
  pub communication_state : ℕ

pub record ShipStaticData (F : Type 0) : Type 0 where
  pub header : Header
  pub ais_version : ℕ
  pub imo_number : ℕ
  pub call_sign : Bytes
  pub name : Bytes
  pub ship_type : ℕ
  pub dimension : Dimension
  pub fix_type : ℕ
  pub eta : Eta
  pub maximum_static_draught : F
  pub destination : Bytes
  pub dte : Bool
  pub spare : Bool

pub record SarAircraftPositionReport (F : Type 0) : Type 0 where
  pub header : Header
  pub altitude : ℕ
  pub sog : ℕ
  pub position_accuracy : Bool
  pub longitude : F
  pub latitude : F
  pub cog : F
  pub timestamp : ℕ
  pub alt_from_baro : Bool
  pub dte : Bool
  pub assigned_mode : Bool
  pub raim : Bool
  pub communication_state : ℕ

pub record StandardClassBPositionReport (F : Type 0) : Type 0 where
  pub header : Header
  pub sog : F
  pub position_accuracy : Bool
  pub longitude : F
  pub latitude : F
  pub cog : F
  pub true_heading : ℕ
  pub timestamp : ℕ
  pub class_b_unit : Bool
  pub class_b_display : Bool
  pub class_b_dsc : Bool
  pub class_b_band : Bool
  pub class_b_msg22 : Bool
  pub assigned_mode : Bool
  pub raim : Bool
  pub communication_state_is_itdma : Bool
  pub communication_state : ℕ

pub record ExtendedClassBPositionReport (F : Type 0) : Type 0 where
  pub header : Header
  pub sog : F
  pub position_accuracy : Bool
  pub longitude : F
  pub latitude : F
  pub cog : F
  pub true_heading : ℕ
  pub timestamp : ℕ
  pub name : Bytes
  pub ship_type : ℕ
  pub dimension : Dimension
  pub fix_type : ℕ
  pub raim : Bool
  pub dte : Bool
  pub assigned_mode : Bool

pub record AidsToNavigationReport (F : Type 0) : Type 0 where
  pub header : Header
  pub aid_type : ℕ
  pub name : Bytes
  pub position_accuracy : Bool
  pub longitude : F
  pub latitude : F
  pub dimension : Dimension
  pub fix_type : ℕ
  pub timestamp : ℕ
  pub off_position : Bool
  pub aton_status : ℕ
  pub raim : Bool
  pub virtual_aton : Bool
  pub assigned_mode : Bool
  pub name_extension : Bytes

pub record StaticReportA : Type 0 where
  pub valid : Bool
  pub name : Bytes

pub record StaticReportB : Type 0 where
  pub valid : Bool
  pub ship_type : ℕ
  pub vendor_id_name : Bytes
  pub vender_id_model : ℕ
  pub vender_id_serial : ℕ
  pub call_sign : Bytes
  pub dimension : Dimension
  pub fix_type : ℕ
  pub spare : ℕ

pub record StaticDataReport : Type 0 where
  pub header : Header
  pub part_number : Bool
  pub reserved : ℕ
  pub report_a : StaticReportA
  pub report_b : StaticReportB

pub record LongRangeAisBroadcastMessage (F : Type 0) : Type 0 where
  pub header : Header
  pub position_accuracy : Bool
  pub raim : Bool
  pub navigational_status : ℕ
  pub longitude : F
  pub latitude : F
  pub sog : F
  pub cog : F
  pub position_latency : Bool
  pub spare : Bool

pub record Unknown : Type 0 where
  pub header : Header
  pub num_bits : ℕ

pub data Packet (F : Type 0) : Type 0 where
  position_report : PositionReport F → Packet F
  base_station_report : BaseStationReport F → Packet F
  ship_static_data : ShipStaticData F → Packet F
  standard_search_and_rescue_aircraft_report : SarAircraftPositionReport F → Packet F
  standard_class_b_position_report : StandardClassBPositionReport F → Packet F
  extended_class_b_position_report : ExtendedClassBPositionReport F → Packet F
  aids_to_navigation_report : AidsToNavigationReport F → Packet F
  static_data_report : StaticDataReport → Packet F
  long_range_ais_broadcast_message : LongRangeAisBroadcastMessage F → Packet F
  unknown : Unknown → Packet F

unfoldable pub type_name : {F : Type 0} → Packet F → Bytes
type_name (position_report _) = codes "PositionReport"
type_name (base_station_report _) = codes "BaseStationReport"
type_name (ship_static_data _) = codes "ShipStaticData"
type_name (standard_search_and_rescue_aircraft_report _) =
    codes "StandardSearchAndRescueAircraftReport"
type_name (standard_class_b_position_report _) = codes "StandardClassBPositionReport"
type_name (extended_class_b_position_report _) = codes "ExtendedClassBPositionReport"
type_name (aids_to_navigation_report _) = codes "AidsToNavigationReport"
type_name (static_data_report _) = codes "StaticDataReport"
type_name (long_range_ais_broadcast_message _) = codes "LongRangeAisBroadcastMessage"
type_name (unknown _) = codes "Unknown"

pub record Message (F : Type 0) : Type 0 where
  pub id : ℕ
  pub mmsi : ℕ
  pub packet : Packet F
  pub position : Option (F × F)
  pub name : Option Bytes
  pub ship_type : Option ℕ
  pub imo : Option ℕ

-- `Default::default()` of the two halves of a type 24 report.
abbrev pub default_a : StaticReportA
default_a = record { valid = false; name = [] }

abbrev pub default_b : StaticReportB
default_b = record {
  valid = false;
  ship_type = 0;
  vendor_id_name = [];
  vender_id_model = 0;
  vender_id_serial = 0;
  call_sign = [];
  dimension = record { a = 0; b = 0; c = 0; d = 0 };
  fix_type = 0;
  spare = 0;
}
