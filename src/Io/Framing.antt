-- ===== src/Io/Framing.antt =====
-- crates/capnp-io/src/framing.rs: limits, errors, frames, and the check of the segment count.
pub mod Parse
pub mod Borrowed
pub mod Encode
pub mod Layout
pub mod Reads
pub mod Checks
pub mod Prepared
pub mod RoundTrip
use capnp_rs_experiment.Prelude.{
  ℕ, ◌+◌, ◌*◌, ◌/◌, ◌≤◌, List, Result, ok, err, min, ltb, if◌then◌else◌,
}
use capnp_rs_experiment.Prelude.Bytes.{Bytes}
use capnp_rs_experiment.Wire.Segment.{Segment}

abbrev pub max_segments_limit : ℕ
max_segments_limit = 512

pub record FrameLimits : Type 0 where
  pub max_segments : ℕ
  pub max_total_words : ℕ

abbrev pub default_limits : FrameLimits
default_limits = record { max_segments = max_segments_limit; max_total_words = 8 * 1024 * 1024 }

pub data FrameError : Type 0 where
  truncated_header : ℕ → FrameError
  segment_count_overflow : FrameError
  too_many_segments : ℕ → ℕ → FrameError
  truncated_segment_table : ℕ → ℕ → FrameError
  total_words_overflow : FrameError
  message_too_large : ℕ → ℕ → FrameError
  body_length_overflow : FrameError
  truncated_body : ℕ → ℕ → FrameError
  no_segments : FrameError
  segment_not_word_aligned : ℕ → ℕ → FrameError
  segment_too_large : ℕ → ℕ → FrameError
  segment_buffer_too_small : ℕ → ℕ → FrameError
  trailing_data : ℕ → FrameError

-- `Frame` and `BorrowedFrame`, which have the same fields.
pub record Frame : Type 0 where
  pub segments : List Segment
  pub table_len : ℕ
  pub encoded_len : ℕ

-- `FrameRead` and `BorrowedFrameRead`: a message comes with the input behind it.
pub data FrameRead : Type 0 where
  end_of_input : FrameRead
  message : Frame → Bytes → FrameRead

unfoldable pub effective_segment_limit : FrameLimits → ℕ
effective_segment_limit limits = min limits.max_segments max_segments_limit

unfoldable pub check_segment_count : ℕ → FrameLimits → Result FrameError (Unit {0})
unfolding effective_segment_limit
check_segment_count segment_count limits =
    let limit = effective_segment_limit limits in
    if ltb limit segment_count then err (too_many_segments segment_count limit) else ok tt
