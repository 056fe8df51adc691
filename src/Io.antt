-- ===== src/Io.antt =====
-- crates/capnp-io: message framing and packing.
pub mod Framing
pub mod Packed
mod Tests
