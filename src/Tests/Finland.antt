-- ===== src/Tests/Finland.antt =====
-- The records of Digitraffic on concrete inputs.
use openseafeed.Base.{◌≡◌, refl, [], ◌∷◌, arith, Bytes, codes, true, false}
use openseafeed.Base.Int.{pos, negsuc}
use openseafeed.Base.Map.{get}
use openseafeed.Base.Result.{ok}
use openseafeed.Ais.Bits.{trim_end}
use openseafeed.Ais.Float.{tenths}
use openseafeed.Ais.Fields.{minutes_to_deg}
use openseafeed.Ais.Decode.{decode}
use openseafeed.Ais.RoundTrip.Parts.{message}
use openseafeed.Ais.RoundTrip.Position
use openseafeed.Ais.RoundTrip.ShipStatic
use openseafeed.Nmea.Sentence.{ok as received}
use openseafeed.Nmea.Assembler.{Group, Assembler}
use openseafeed.Nmea.Delivery.{receive}
use openseafeed.Radio.{IsReady}
use openseafeed.Worker.Finland.{
  Location, Metadata, unpack_eta, location_report, location_to_sentences, metadata_report,
  metadata_to_sentences,
}
use openseafeed.Worker.Finland.Heard.{
  FitsLocation, FitsMetadata, receive-location_to_sentences, receive-metadata_to_sentences,
}
use openseafeed.Tests.Fractions.{Fraction, fractions, fractions-IsExact}

abbrev location : Location Fraction
location = record {
  time = pos 1_668_075_025;
  sog = tenths fractions 107;
  cog = tenths fractions 3266;
  nav_stat = 0;
  rot = negsuc 200;
  pos_acc = true;
  raim = false;
  heading = 325;
  lon = minutes_to_deg fractions (pos 12_147_564) 10_000;
  lat = minutes_to_deg fractions (pos 36_120_000) 10_000;
}

location-FitsLocation : FitsLocation fractions 219_598_000 location
location-FitsLocation = record {
  mmsi_bits = omega arith;
  nav_stat = omega arith;
  sog = (107, omega arith, refl);
  lon = (pos 12_147_564, omega arith, refl);
  lat = (pos 36_120_000, omega arith, refl);
  cog = (3266, omega arith, refl);
  heading = omega arith;
}

abbrev metadata : Metadata
metadata = record {
  name = codes "ARUNA CIHAN";
  destination = codes "UST LUGA";
  draught = pos 68;
  eta = 733_376;
  pos_type = 15;
  ref_a = 160;
  ref_b = 33;
  ref_c = 20;
  ref_d = 12;
  call_sign = codes "V7WW7";
  imo = 9_543_756;
  ship_type = 70;
}

metadata-FitsMetadata : FitsMetadata fractions 538_007_561 metadata
metadata-FitsMetadata = record {
  mmsi_bits = omega arith;
  imo = omega arith;
  call_sign = record {
    plain = ground arith;
    short = omega arith;
    trimmed = unfold trim_end in refl;
  };
  name = record { plain = ground arith; short = omega arith; trimmed = unfold trim_end in refl };
  destination = record {
    plain = ground arith;
    short = omega arith;
    trimmed = unfold trim_end in refl;
  };
  ship_type = omega arith;
  pos_type = omega arith;
  ref_a = omega arith;
  ref_b = omega arith;
  ref_c = omega arith;
  ref_d = omega arith;
  draught = (68, omega arith, refl);
}

arrival : unpack_eta 733_376 ≡ record { month = 11; day = 6; hour = 3; minute = 0 }
unfolding unpack_eta
arrival = refl

abbrev receiver : Assembler
receiver = record { ttl = 30; pending = [] }

receiver-IsReady : (text : Bytes) → IsReady receiver (λ j. 100) text (codes "A") 4
receiver-IsReady text = record {
  distinct = tt;
  absent = unfold get in refl;
  young = λ j. omega arith;
}

receive-location_to_sentences_example :
    (g : Group) × (receive receiver
        (λ j. 100)
        (location_to_sentences fractions 219_598_000 location 4)
      ≡ received (g ∷ []))
    × (decode fractions g.payload g.fill_bits
        ≡ ok (
            message fractions
              (location_report fractions 219_598_000 location).header
              (Position.body fractions (location_report fractions 219_598_000 location))))
receive-location_to_sentences_example =
    receive-location_to_sentences fractions fractions-IsExact 219_598_000 4 location receiver
      (λ j. 100) location-FitsLocation (receiver-IsReady _)

receive-metadata_to_sentences_example :
    (g : Group) × (receive receiver
        (λ j. 100)
        (metadata_to_sentences fractions 538_007_561 metadata 4)
      ≡ received (g ∷ []))
    × (decode fractions g.payload g.fill_bits
        ≡ ok (
            message fractions
              (metadata_report fractions 538_007_561 metadata).header
              (ShipStatic.body fractions (metadata_report fractions 538_007_561 metadata))))
receive-metadata_to_sentences_example =
    receive-metadata_to_sentences fractions fractions-IsExact 538_007_561 4 metadata receiver
      (λ j. 100) metadata-FitsMetadata (receiver-IsReady _)
