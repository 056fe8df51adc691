-- ===== src/Message.antt =====
-- crates/capnp-message: the reader's limits, and the validation of pointers.
pub mod Budget
pub mod Error
pub mod Segments
pub mod Metered
pub mod Limits
pub mod Validation
pub mod WorkItem
pub mod Walk
mod Tests
