-- ===== src/Io/Framing/Borrowed.antt =====
-- crates/capnp-io/src/framing.rs, `parse_frame_into`: the same parse into storage that the caller
-- provides, with its own paths for one and for two segments.
use capnp_rs_experiment.Prelude.{
  ℕ, ◌+◌, ◌-◌, ◌*◌, ◌/◌, List, [], ◌∷◌, length, take, set, chunks_exact, Result, ok, err, ◌>>=◌,
  ◌>>◌, ok_or, expect_ok, expect_some, slice_at, checked_add, fit, u32_max, usize_max, ltb, ◌==◌,
  if◌then◌else◌,
}
use capnp_rs_experiment.Prelude.Bytes.{Bytes, from_le_bytes}
use capnp_rs_experiment.Wire.Endian.{read_u32_le}
use capnp_rs_experiment.Wire.Segment.{Segment, from_bytes}
use capnp_rs_experiment.Io.Framing.{
  FrameLimits, FrameError, truncated_header, segment_count_overflow, truncated_segment_table,
  message_too_large, body_length_overflow, truncated_body, segment_buffer_too_small, Frame,
  FrameRead, end_of_input, message, check_segment_count,
}

-- A table entry, `u32::from_le_bytes(encoded_words.try_into().expect(..))`.
abbrev entry : Bytes → ℕ
entry encoded_words = from_le_bytes encoded_words

-- The loop that adds the entries up.
unfoldable pub sum_sizes : ℕ → List Bytes → ℕ → Result FrameError ℕ
sum_sizes limit [] total = ok total
sum_sizes limit (encoded_words ∷ table) total = do
  let total' = total + entry encoded_words
  if ltb limit total' then err (message_too_large total' limit) else ok tt
  sum_sizes limit table total'

-- The loop over the storage slots zipped with the entries: the slots as they are then.
unfoldable pub fill_slots : List Segment → List Bytes → Bytes → Result FrameError (List Segment)
fill_slots [] table body = ok []
fill_slots (slot ∷ slots) [] body = ok (slot ∷ slots)
fill_slots (slot ∷ slots) (encoded_words ∷ table) body = do
  let byte_len = entry encoded_words * 8
  segment_bytes ← slice_at 0 byte_len body
  remaining ← slice_at byte_len (length body) body
  segment ← expect_some (from_bytes segment_bytes)
  slots' ← fill_slots slots table remaining
  ok (segment ∷ slots')

-- The lengths of the body and of the frame, when both fit and the input holds them.
unfoldable pub body_lengths : Bytes → ℕ → ℕ → Result FrameError (ℕ × ℕ)
body_lengths input table_len total_words = do
  body_len ← ok_or (fit usize_max (total_words * 8)) body_length_overflow
  encoded_len ← ok_or (checked_add table_len body_len) body_length_overflow
  if ltb (length input) encoded_len
      then err (truncated_body body_len (length input - table_len))
      else ok tt
  ok (body_len, encoded_len)

unfoldable pub finish_frame : Bytes → List Segment → ℕ → ℕ → Result FrameError FrameRead
finish_frame input segments table_len encoded_len = do
  remaining ← slice_at encoded_len (length input) input
  let frame : Frame = record {
    segments = segments;
    table_len = table_len;
    encoded_len = encoded_len;
  }
  ok (message frame remaining)

-- `if count == 1`
unfoldable pub parse_one : Bytes → FrameLimits → List Segment → ℕ → Result FrameError FrameRead
parse_one input limits storage table_len = do
  words ← expect_ok (read_u32_le input 4)
  if ltb limits.max_total_words words
      then err (message_too_large words limits.max_total_words)
      else ok tt
  (body_len, encoded_len) ← body_lengths input table_len words
  bytes ← slice_at table_len encoded_len input
  segment ← expect_some (from_bytes bytes)
  finish_frame input (take 1 (set storage 0 segment)) table_len encoded_len

-- `if count == 2`
unfoldable pub parse_two : Bytes → FrameLimits → List Segment → ℕ → Result FrameError FrameRead
parse_two input limits storage table_len = do
  first_words ← expect_ok (read_u32_le input 4)
  second_words ← expect_ok (read_u32_le input 8)
  let total_words = first_words + second_words
  if ltb limits.max_total_words total_words
      then err (message_too_large total_words limits.max_total_words)
      else ok tt
  (body_len, encoded_len) ← body_lengths input table_len total_words
  let second_offset = table_len + first_words * 8
  first_bytes ← slice_at table_len second_offset input
  first ← expect_some (from_bytes first_bytes)
  second_bytes ← slice_at second_offset encoded_len input
  second ← expect_some (from_bytes second_bytes)
  finish_frame input (take 2 (set (set storage 0 first) 1 second)) table_len encoded_len

unfoldable pub parse_many : Bytes → FrameLimits → List Segment → ℕ → ℕ → Result FrameError FrameRead
parse_many input limits storage count table_len = do
  size_table ← slice_at 4 (4 + count * 4) input
  total_words ← sum_sizes limits.max_total_words (chunks_exact 4 size_table) 0
  (body_len, encoded_len) ← body_lengths input table_len total_words
  body ← slice_at table_len encoded_len input
  slots ← fill_slots (take count storage) (chunks_exact 4 size_table) body
  finish_frame input slots table_len encoded_len

unfoldable pub parse_counted_into :
    Bytes → FrameLimits → List Segment → ℕ → Result FrameError FrameRead
parse_counted_into input limits storage count = do
  if ltb (length storage) count
      then err (segment_buffer_too_small count (length storage))
      else ok tt
  let table_len = (count / 2 + 1) * 8
  if ltb (length input) table_len
      then err (truncated_segment_table table_len (length input))
      else ok tt
  if count == 1
      then parse_one input limits storage table_len
      else if count == 2
      then parse_two input limits storage table_len
      else parse_many input limits storage count table_len

unfoldable pub parse_frame_into : Bytes → FrameLimits → List Segment → Result FrameError FrameRead
parse_frame_into [] limits storage = ok end_of_input
parse_frame_into (b ∷ bs) limits storage = do
  let input : Bytes = b ∷ bs
  if ltb (length input) 4 then err (truncated_header (length input)) else ok tt
  encoded_count ← expect_ok (read_u32_le input 0)
  segment_count ← ok_or (fit u32_max (encoded_count + 1)) segment_count_overflow
  check_segment_count segment_count limits
  parse_counted_into input limits storage segment_count
