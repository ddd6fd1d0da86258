-- ===== src/Ais/RoundTrip.antt =====
-- `decode` on what the encoders wrote. `Fields` reads the fields of a stream that carries a message,
-- `Laws` says what is assumed of floating-point numbers, and there is one module per kind of message.
pub mod Fields
pub mod Texts
pub mod Laws
pub mod Parts
pub mod Position
pub mod BaseStation
pub mod ShipStatic
pub mod Sar
pub mod ClassB
pub mod ExtendedClassB
pub mod AidsToNavigation
pub mod LongRange
pub mod Packets
