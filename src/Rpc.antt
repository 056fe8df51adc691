-- ===== src/Rpc.antt =====
-- crates/capnp-rpc-core: the tables of a connection.
pub mod Capability
mod Tests
