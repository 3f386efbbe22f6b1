-- ===== src/Encoding.antt =====
-- The encodings of Go's standard library that the program's packages call.
pub mod Hex
pub mod Base64
pub mod Decimal
pub mod Json
