-- ===== src/Nmea.antt =====
-- crates/nmea: NMEA 0183 AIVDM/AIVDO sentences and their reassembly.
pub mod Number
pub mod Sentence
pub mod Encode
pub mod Assembler
pub mod Delivery
