-- ===== src/Codec.antt =====
-- The FAST variable-length integers of core/src/serialize/fast_protocol_packed.rs and the packed
-- vectors of core/src/serialize/byte_buffer_packer.rs.
pub mod Fast
pub mod Packed
mod Tests
