-- ===== src/Ais/RoundTrip/Packets.antt =====
-- `Packet::encode` and `decode`, whatever the message.
use openseafeed.Base.{ℕ, ◌≡◌, refl, ◌⊎◌, Bytes, some}
use openseafeed.Base.Result.{ok}
use openseafeed.Ais.Float.{Floats}
use openseafeed.Ais.Types.{
  Header, Packet, position_report, base_station_report, ship_static_data,
  standard_search_and_rescue_aircraft_report, standard_class_b_position_report,
  extended_class_b_position_report, aids_to_navigation_report, static_data_report,
  long_range_ais_broadcast_message, unknown,
}
use openseafeed.Ais.Decode.{Body, no_facts, decode}
use openseafeed.Ais.Encode.{encode}
use openseafeed.Ais.RoundTrip.Laws.{IsExact}
use openseafeed.Ais.RoundTrip.Parts.{message}
use openseafeed.Ais.RoundTrip.Position
use openseafeed.Ais.RoundTrip.BaseStation
use openseafeed.Ais.RoundTrip.ShipStatic
use openseafeed.Ais.RoundTrip.Sar
use openseafeed.Ais.RoundTrip.ClassB
use openseafeed.Ais.RoundTrip.ExtendedClassB
use openseafeed.Ais.RoundTrip.AidsToNavigation
use openseafeed.Ais.RoundTrip.LongRange

module _ (fl : Floats) where
  open fl use {F}

  abbrev pub header_of : Packet F → Header
  header_of (position_report p) = p.header
  header_of (base_station_report p) = p.header
  header_of (ship_static_data p) = p.header
  header_of (standard_search_and_rescue_aircraft_report p) = p.header
  header_of (standard_class_b_position_report p) = p.header
  header_of (extended_class_b_position_report p) = p.header
  header_of (aids_to_navigation_report p) = p.header
  header_of (static_data_report p) = p.header
  header_of (long_range_ais_broadcast_message p) = p.header
  header_of (unknown p) = p.header

  -- The packet with the facts that its fields give.
  abbrev pub body_of : Packet F → Body fl
  body_of (position_report p) = Position.body fl p
  body_of (base_station_report p) = BaseStation.body fl p
  body_of (ship_static_data p) = ShipStatic.body fl p
  body_of (standard_search_and_rescue_aircraft_report p) = Sar.body fl p
  body_of (standard_class_b_position_report p) = ClassB.body fl p
  body_of (extended_class_b_position_report p) = ExtendedClassB.body fl p
  body_of (aids_to_navigation_report p) = AidsToNavigation.body fl p
  body_of (static_data_report p) = no_facts fl (static_data_report p)
  body_of (long_range_ais_broadcast_message p) = LongRange.body fl p
  body_of (unknown p) = no_facts fl (unknown p)

  -- A packet other than a report of type 24 or an unknown one, whose id is one of its kind and
  -- whose fields fit their bits.
  abbrev pub IsFit : Packet F → Type 0
  IsFit (position_report p) =
      ((p.header.message_id ≡ 1) ⊎ (p.header.message_id ≡ 2) ⊎ (p.header.message_id ≡ 3))
      × Position.Fits fl p
  IsFit (base_station_report p) =
      ((p.header.message_id ≡ 4) ⊎ (p.header.message_id ≡ 11)) × BaseStation.Fits fl p
  IsFit (ship_static_data p) = (p.header.message_id ≡ 5) × ShipStatic.Fits fl p
  IsFit (standard_search_and_rescue_aircraft_report p) = (p.header.message_id ≡ 9) × Sar.Fits fl p
  IsFit (standard_class_b_position_report p) = (p.header.message_id ≡ 18) × ClassB.Fits fl p
  IsFit (extended_class_b_position_report p) = (p.header.message_id ≡ 19) × ExtendedClassB.Fits fl p
  IsFit (aids_to_navigation_report p) = (p.header.message_id ≡ 21) × AidsToNavigation.Fits fl p
  IsFit (static_data_report p) = ⊥
  IsFit (long_range_ais_broadcast_message p) = (p.header.message_id ≡ 27) × LongRange.Fits fl p
  IsFit (unknown p) = ⊥

  -- A packet that fits is encoded, and what it is encoded to is decoded to the packet, with the number
  -- of its header and the position, name, type and number that its fields give.
  pub decode-encode :
      IsExact fl
      → (p : Packet F) → IsFit p
      → (payload : Bytes) × (fill_bits : ℕ) × (encode fl p ≡ some (payload, fill_bits))
        × (decode fl payload fill_bits ≡ ok (message fl (header_of p) (body_of p)))
  unfolding encode
  decode-encode exact (position_report p) (id, fits) =
      (_, _, refl, Position.decode-encode_position_report fl exact p id fits)
  decode-encode exact (base_station_report p) (id, fits) =
      (_, _, refl, BaseStation.decode-encode_base_station_report fl exact p id fits)
  decode-encode exact (ship_static_data p) (id, fits) =
      (_, _, refl, ShipStatic.decode-encode_ship_static_data fl exact p id fits)
  decode-encode exact (standard_search_and_rescue_aircraft_report p) (id, fits) =
      (_, _, refl, Sar.decode-encode_sar_aircraft fl exact p id fits)
  decode-encode exact (standard_class_b_position_report p) (id, fits) =
      (_, _, refl, ClassB.decode-encode_standard_class_b fl exact p id fits)
  decode-encode exact (extended_class_b_position_report p) (id, fits) =
      (_, _, refl, ExtendedClassB.decode-encode_extended_class_b fl exact p id fits)
  decode-encode exact (aids_to_navigation_report p) (id, fits) =
      (_, _, refl, AidsToNavigation.decode-encode_aids_to_navigation fl exact p id fits)
  decode-encode exact (static_data_report p) fit = absurd fit
  decode-encode exact (long_range_ais_broadcast_message p) (id, fits) =
      (_, _, refl, LongRange.decode-encode_long_range fl exact p id fits)
  decode-encode exact (unknown p) fit = absurd fit
