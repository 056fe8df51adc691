-- ===== src/Wire/Segment.antt =====
-- crates/capnp-wire/src/segment.rs: a message segment, a whole number of words.
use capnp_rs_experiment.Prelude.{ℕ, ◌/◌, ◌%◌, ◌^◌, length, Option, none, some, ◌==◌, if◌then◌else◌}
use capnp_rs_experiment.Prelude.Bytes.{Bytes}
use capnp_rs_experiment.Wire.Integer.{word_bytes}

pub record Segment : Type 0 where
  pub bytes : Bytes

unfoldable pub from_bytes : Bytes → Option Segment
from_bytes bytes = if length bytes % word_bytes == 0 then some (record { bytes = bytes }) else none

-- `as u32`
abbrev pub word_count : Segment → ℕ
word_count s = length s.bytes / word_bytes % 2 ^ 32
