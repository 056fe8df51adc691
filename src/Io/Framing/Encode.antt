-- ===== src/Io/Framing/Encode.antt =====
-- crates/capnp-io/src/framing.rs: the writers, `encode_frame` and `encode_prepared_frame`.
use capnp_rs_experiment.Prelude.{
  ℕ, zero, suc, ◌+◌, ◌-◌, ◌*◌, ◌/◌, ◌%◌, ◌^◌, List, [], ◌∷◌, ◌++◌, map, length, take, drop,
  replicate, Result, ok, err, ◌>>=◌, ◌>>◌, ok_or, checked_add, checked_mul, fit, u32_max, ltb, ◌==◌,
  not, if◌then◌else◌,
}
use capnp_rs_experiment.Prelude.Bytes.{Bytes, to_le_bytes}
use capnp_rs_experiment.Io.Framing.{
  FrameLimits, FrameError, total_words_overflow, message_too_large, body_length_overflow,
  no_segments, too_many_segments, segment_not_word_aligned, segment_too_large, check_segment_count,
  effective_segment_limit,
}

-- `for (index, segment) in segments.iter().enumerate()`: the total of the word counts.
unfoldable pub total_of : ℕ → List Bytes → ℕ → ℕ → Result FrameError ℕ
total_of limit [] index total = ok total
total_of limit (segment ∷ segments) index total = do
  if not (length segment % 8 == 0)
      then err (segment_not_word_aligned index (length segment))
      else ok tt
  let words = length segment / 8
  if ltb u32_max words then err (segment_too_large index words) else ok tt
  total' ← ok_or (checked_add total words) total_words_overflow
  if ltb limit total' then err (message_too_large total' limit) else ok tt
  total_of limit segments (index + 1) total'

-- The segment count, the table's length and the body's.
unfoldable pub validate_output_segments : List Bytes → FrameLimits → Result FrameError (ℕ × ℕ × ℕ)
validate_output_segments [] limits = err no_segments
validate_output_segments (s ∷ ss) limits = do
  let segments : List Bytes = s ∷ ss
  segment_count ←
      ok_or (fit u32_max (length segments))
        (too_many_segments u32_max (effective_segment_limit limits))
  check_segment_count segment_count limits
  table_len ← ok_or (checked_mul (length segments / 2 + 1) 8) body_length_overflow
  total_words ← total_of limits.max_total_words segments 0 0
  body_len ← ok_or (checked_mul total_words 8) body_length_overflow
  ok (segment_count, table_len, body_len)

-- `x as u32`, little-endian.
abbrev pub le_u32 : ℕ → Bytes
le_u32 x = to_le_bytes 4 (x % 2 ^ 32)

unfoldable pub append_each : Bytes → List ℕ → Bytes
append_each output [] = output
append_each output (words ∷ rest) = append_each (output ++ le_u32 words) rest

-- `for (slot, words) in encoded.chunks_exact_mut(4).zip(batch)`: the buffer as it is then.
unfoldable pub fill_batch : Bytes → List ℕ → Bytes
fill_batch encoded [] = encoded
fill_batch (a ∷ b ∷ c ∷ d ∷ encoded) (words ∷ batch) = le_u32 words ++ fill_batch encoded batch
fill_batch encoded (words ∷ batch) = encoded

abbrev pub batch_segments : ℕ
batch_segments = 32

-- `for batch in words.chunks(BATCH_SEGMENTS)`; the fuel is the number of entries, and each batch
-- takes one at least.
unfoldable pub append_batches : ℕ → Bytes → List ℕ → Bytes
unfolding fill_batch
append_batches zero output words = output
append_batches (suc fuel) output [] = output
append_batches (suc fuel) output (w ∷ ws) =
    let batch = take batch_segments (w ∷ ws) in
    let encoded = fill_batch (replicate (batch_segments * 4) 0) batch in
    append_batches fuel (output ++ take (length batch * 4) encoded) (drop batch_segments (w ∷ ws))

-- `append_segment_sizes` and `append_prepared_sizes`, on the word counts.
unfoldable pub append_sizes : Bytes → List ℕ → Bytes
unfolding append_each append_batches
append_sizes output words =
    if ltb (length words) 8
    then append_each output words
    else append_batches (length words) output words

abbrev pub words_of : Bytes → ℕ
words_of segment = length segment / 8

abbrev pub extend_all : Bytes → List Bytes → Bytes
extend_all output [] = output
extend_all output (segment ∷ segments) = extend_all (output ++ segment) segments

-- What both encoders write, from the segments' word counts and their bytes.
unfoldable pub write_frame : ℕ → List ℕ → List Bytes → Bytes
write_frame segment_count words segments =
    let header = to_le_bytes 4 (segment_count - 1) in
    let sized = append_sizes header words in
    let padded = if segment_count % 2 == 0 then sized ++ replicate 4 0 else sized in
    extend_all padded segments

unfoldable pub encode_frame : List Bytes → FrameLimits → Result FrameError Bytes
encode_frame segments limits = do
  (segment_count, table_len, body_len) ← validate_output_segments segments limits
  encoded_len ← ok_or (checked_add table_len body_len) body_length_overflow
  ok (write_frame segment_count (map words_of segments) segments)

pub record PreparedSegment : Type 0 where
  pub bytes : Bytes
  pub word_count : ℕ

pub record PreparedSegments : Type 0 where
  pub segments : List PreparedSegment
  pub table_len : ℕ
  pub encoded_len : ℕ

unfoldable pub prepare : Bytes → PreparedSegment
prepare bytes = record { bytes = bytes; word_count = length bytes / 8 % 2 ^ 32 }

unfoldable pub new_prepared : List Bytes → FrameLimits → Result FrameError PreparedSegments
new_prepared segments limits = do
  (segment_count, table_len, body_len) ← validate_output_segments segments limits
  encoded_len ← ok_or (checked_add table_len body_len) body_length_overflow
  ok (record { segments = map prepare segments; table_len = table_len; encoded_len = encoded_len })

unfoldable pub encode_prepared_frame : PreparedSegments → Bytes
encode_prepared_frame p =
    write_frame (length p.segments % 2 ^ 32) (map (λ s. s.word_count) p.segments)
      (map (λ s. s.bytes) p.segments)
