-- ===== src/Wire.antt =====
-- Integers on the wire: fixed little-endian fields and varints.
pub mod Stream
pub mod Fixed
pub mod Varint
pub mod Read
