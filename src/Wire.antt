-- ===== src/Wire.antt =====
-- src/wire/: the formats that messages and rows are written in.
pub mod Msgpack
