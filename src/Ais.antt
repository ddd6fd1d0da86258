-- ===== src/Ais.antt =====
-- crates/ais: the AIS (ITU-R M.1371) codec.
pub mod Bits
pub mod BitList
pub mod BitsMut
pub mod Armor
pub mod Float
pub mod Types
pub mod Fields
pub mod Reports
pub mod Decode
pub mod Encode
pub mod RoundTrip
