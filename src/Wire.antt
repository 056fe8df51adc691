-- ===== src/Wire.antt =====
-- crates/capnp-wire: words, checked ranges, segments and pointer words.
pub mod Integer
pub mod Endian
pub mod Segment
pub mod Pointer
mod Tests
