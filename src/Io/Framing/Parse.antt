-- ===== src/Io/Framing/Parse.antt =====
-- crates/capnp-io/src/framing.rs, `parse_frame`.
use capnp_rs_experiment.Prelude.{
  ℕ, zero, suc, ◌+◌, ◌-◌, ◌*◌, ◌/◌, List, [], ◌∷◌, length, Result, ok, err, ◌>>=◌, ◌>>◌, ok_or,
  expect_ok, expect_some, slice_at, checked_add, checked_mul, fit, u32_max, ltb, if◌then◌else◌,
}
use capnp_rs_experiment.Prelude.Bytes.{Bytes}
use capnp_rs_experiment.Wire.Endian.{read_u32_le}
use capnp_rs_experiment.Wire.Segment.{Segment, from_bytes}
use capnp_rs_experiment.Io.Framing.{
  FrameLimits, FrameError, truncated_header, segment_count_overflow, truncated_segment_table,
  total_words_overflow, message_too_large, body_length_overflow, truncated_body, Frame, FrameRead,
  end_of_input, message, check_segment_count,
}

-- `for index in 0..count`, by the rounds left: the word counts and their sum.
unfoldable pub read_sizes : Bytes → ℕ → ℕ → ℕ → ℕ → Result FrameError (List ℕ × ℕ)
read_sizes input limit zero index total = ok ([], total)
read_sizes input limit (suc rounds) index total = do
  table_offset ← ok_or (checked_mul 4 (index + 1)) body_length_overflow
  words ← expect_ok (read_u32_le input table_offset)
  total' ← ok_or (checked_add total words) total_words_overflow
  if ltb limit total' then err (message_too_large total' limit) else ok tt
  (sizes, all_words) ← read_sizes input limit rounds (index + 1) total'
  ok (words ∷ sizes, all_words)

-- `for word_count in sizes`
unfoldable pub cut_segments : Bytes → ℕ → List ℕ → Result FrameError (List Segment)
cut_segments input body_offset [] = ok []
cut_segments input body_offset (word_count ∷ sizes) = do
  let end = body_offset + word_count * 8
  bytes ← slice_at body_offset end input
  segment ← expect_some (from_bytes bytes)
  segments ← cut_segments input end sizes
  ok (segment ∷ segments)

unfoldable pub parse_counted : Bytes → FrameLimits → ℕ → Result FrameError FrameRead
parse_counted input limits count = do
  table_len ← ok_or (checked_mul (count / 2 + 1) 8) body_length_overflow
  if ltb (length input) table_len
      then err (truncated_segment_table table_len (length input))
      else ok tt
  (sizes, total_words) ← read_sizes input limits.max_total_words count 0 0
  body_len ← ok_or (checked_mul total_words 8) body_length_overflow
  encoded_len ← ok_or (checked_add table_len body_len) body_length_overflow
  if ltb (length input) encoded_len
      then err (truncated_body body_len (length input - table_len))
      else ok tt
  segments ← cut_segments input table_len sizes
  remaining ← slice_at encoded_len (length input) input
  let frame : Frame = record {
    segments = segments;
    table_len = table_len;
    encoded_len = encoded_len;
  }
  ok (message frame remaining)

unfoldable pub parse_frame : Bytes → FrameLimits → Result FrameError FrameRead
parse_frame [] limits = ok end_of_input
parse_frame (b ∷ bs) limits = do
  let input : Bytes = b ∷ bs
  if ltb (length input) 4 then err (truncated_header (length input)) else ok tt
  encoded_count ← expect_ok (read_u32_le input 0)
  segment_count ← ok_or (fit u32_max (encoded_count + 1)) segment_count_overflow
  check_segment_count segment_count limits
  parse_counted input limits segment_count
