-- ===== src/Io/Packed/Decoder.antt =====
-- crates/capnp-io/src/packed.rs, `PackedDecoder`: the decoder for input that comes in chunks. A method
-- that changes the decoder returns the new one; the input is what `cursor` has not passed.
pub mod Meaning
pub mod Lanes
pub mod Complete
pub mod States
pub mod Rounds
pub mod Chunks
use capnp_rs_experiment.Prelude.{
  ℕ, zero, suc, ◌+◌, ◌-◌, ◌*◌, Bool, true, false, ◌||◌, not, List, [], ◌∷◌, ◌++◌, length, take,
  drop, set, replicate, min, get_elem?, Result, ok, err, panic, ◌>>=◌, ◌>>◌, expect_some, slice_at,
  ltb, ◌==◌, if◌then◌else◌,
}
use capnp_rs_experiment.Prelude.Bytes.{Bytes}
use capnp_rs_experiment.Io.Packed.{
  PackedError, truncated_word, missing_run_length, truncated_raw_run, previous_failure,
  ensure_output_limit, count_ones, lane_set,
}
use capnp_rs_experiment.Io.Packed.Unpack.{spread}

-- `Tag`, `Word`, `ZeroCount`, `RawCount` and `Raw`.
pub data DecodeState : Type 0 where
  at_tag : DecodeState
  in_word : (tag next_byte remaining_payload : ℕ) → Bytes → DecodeState
  at_zero_count : DecodeState
  at_raw_count : DecodeState
  in_raw : ℕ → DecodeState

pub record PackedDecoder : Type 0 where
  pub output : Bytes
  pub max_output_bytes : ℕ
  pub state : DecodeState
  pub failed : Bool

abbrev pub new_decoder : ℕ → PackedDecoder
new_decoder max_output_bytes = record {
  output = [];
  max_output_bytes = max_output_bytes;
  state = at_tag;
  failed = false;
}

-- `decode_complete_item` behind its first check, for a tag of zero.
unfoldable pub complete_zeros : Bytes → Bytes → ℕ → Result PackedError (ℕ × Bytes)
complete_zeros input output limit = do
  additional_words ← expect_some (get_elem? input 1)
  let additional_bytes = additional_words * 8
  let first_word_end = length output + 8
  ensure_output_limit first_word_end additional_bytes limit
  ok (2, output ++ replicate (8 + additional_bytes) 0)

-- The raw run of a full tag, or none.
unfoldable pub complete_raw : ℕ → ℕ → ℕ → Bytes → Bytes → ℕ → Result PackedError (ℕ × Bytes)
complete_raw tag header_bytes raw_bytes input output limit = do
  (word, rest) ← spread 8 0 tag (drop 1 input)
  let output' = output ++ word
  let raw_run : Result PackedError (ℕ × Bytes) = do
    ensure_output_limit (length output') raw_bytes limit
    run ← slice_at header_bytes (header_bytes + raw_bytes) input
    ok (header_bytes + raw_bytes, output' ++ run)
  if tag == 255 then raw_run else ok (header_bytes + raw_bytes, output')

-- For any other tag.
unfoldable pub complete_word : ℕ → ℕ → ℕ → Bytes → Bytes → ℕ → Result PackedError (ℕ × Bytes)
unfolding complete_raw
complete_word tag payload_bytes header_bytes input output limit = do
  raw_words ← if tag == 255 then expect_some (get_elem? input (1 + payload_bytes)) else ok 0
  let raw_bytes = raw_words * 8
  if ltb (length input) (header_bytes + raw_bytes)
      then ok (0, output)
      else complete_raw tag header_bytes raw_bytes input output limit

-- The bytes consumed, 0 when the item is not complete, and the output.
unfoldable pub decode_complete_item : Bytes → Bytes → ℕ → Result PackedError (ℕ × Bytes)
unfolding complete_zeros complete_word
decode_complete_item [] output limit = panic
decode_complete_item (tag ∷ rest) output limit =
    let input : Bytes = tag ∷ rest in
    let payload_bytes = count_ones tag in
    let header_bytes = 1 + payload_bytes + (if tag == 0 || tag == 255 then 1 else 0) in
    let item : Result PackedError (ℕ × Bytes) = do
      ensure_output_limit (length output) 8 limit
      if tag == 0
          then complete_zeros input output limit
          else complete_word tag payload_bytes header_bytes input output limit
    in if ltb (length input) header_bytes then ok (0, output) else item

-- `while *next_byte < WORD_BYTES`, by the lanes left: the lane reached, the payload still missing, the
-- word, and the input left.
unfoldable pub fill_lanes : ℕ → ℕ → ℕ → ℕ → Bytes → Bytes → ((ℕ × ℕ) × Bytes) × Bytes
fill_lanes zero tag next_byte remaining word input = (((next_byte, remaining), word), input)
fill_lanes (suc left) tag next_byte remaining word [] =
    if lane_set tag next_byte
    then (((next_byte, remaining), word), [])
    else fill_lanes left tag (next_byte + 1) remaining word []
fill_lanes (suc left) tag next_byte remaining word (byte ∷ input) =
    if lane_set tag next_byte
    then fill_lanes left tag (next_byte + 1) (remaining - 1) (set word next_byte byte) input
    else fill_lanes left tag (next_byte + 1) remaining word (byte ∷ input)

-- What a round of the loop changes: the state, the output and the input.
abbrev pub Progress : Type 0
Progress = (DecodeState × Bytes) × Bytes

unfoldable pub step_tag : Bytes → Bytes → ℕ → Result PackedError Progress
step_tag [] output limit = panic
step_tag (tag ∷ input) output limit = do
  ensure_output_limit (length output) 8 limit
  if tag == 0
      then ok ((at_zero_count, output ++ replicate 8 0), input)
      else ok ((in_word tag 0 (count_ones tag) (replicate 8 0), output), input)

unfoldable pub step_word : ℕ → ℕ → ℕ → Bytes → Bytes → Bytes → Progress
step_word tag next_byte remaining word input output =
    let (((next_byte', remaining'), word'), rest) =
      fill_lanes (8 - next_byte) tag next_byte remaining word input in
    if next_byte' == 8
    then (((if tag == 255 then at_raw_count else at_tag), output ++ word'), rest)
    else ((in_word tag next_byte' remaining' word', output), rest)

unfoldable pub step_zero_count : Bytes → Bytes → ℕ → Result PackedError Progress
step_zero_count [] output limit = panic
step_zero_count (count ∷ input) output limit = do
  let bytes = count * 8
  ensure_output_limit (length output) bytes limit
  ok ((at_tag, output ++ replicate bytes 0), input)

unfoldable pub step_raw_count : Bytes → Bytes → ℕ → Result PackedError Progress
step_raw_count [] output limit = panic
step_raw_count (count ∷ input) output limit = do
  let bytes = count * 8
  ensure_output_limit (length output) bytes limit
  ok (((if bytes == 0 then at_tag else in_raw bytes), output), input)

unfoldable pub step_raw : ℕ → Bytes → Bytes → Progress
step_raw remaining input output =
    let copied = min remaining (length input) in
    (
      (
        (if remaining - copied == 0 then at_tag else in_raw (remaining - copied)),
        output ++ take copied input,
      ),
      drop copied input,
    )

-- One round of `while cursor < input.len()`.
unfoldable pub decode_round : DecodeState → Bytes → Bytes → ℕ → Result PackedError Progress
unfolding step_tag step_word step_zero_count step_raw_count step_raw decode_complete_item
decode_round at_tag input output limit = do
  (consumed, output') ← decode_complete_item input output limit
  if not (consumed == 0)
      then ok ((at_tag, output'), drop consumed input)
      else step_tag input output' limit
decode_round (in_word tag next_byte remaining word) input output limit =
    ok (step_word tag next_byte remaining word input output)
decode_round at_zero_count input output limit = step_zero_count input output limit
decode_round at_raw_count input output limit = step_raw_count input output limit
decode_round (in_raw remaining) input output limit = ok (step_raw remaining input output)

-- The loop. A round takes a byte, or ends a word or a run and the next one takes a byte.
unfoldable pub decode_loop :
    ℕ → DecodeState → Bytes → Bytes → ℕ → Result PackedError (DecodeState × Bytes)
decode_loop fuel state [] output limit = ok (state, output)
decode_loop zero state (b ∷ bs) output limit = panic
decode_loop (suc fuel) state (b ∷ bs) output limit = do
  ((state', output'), rest) ← decode_round state (b ∷ bs) output limit
  decode_loop fuel state' rest output' limit

unfoldable pub push_inner : PackedDecoder → Bytes → Result PackedError (DecodeState × Bytes)
unfolding decode_loop decode_round
push_inner d input = decode_loop (2 * length input + 1) d.state input d.output d.max_output_bytes

-- After a failure only `failed` is read again, so the state and the output are left as they were.
abbrev pub after_push :
    PackedDecoder
    → Result PackedError (DecodeState × Bytes)
    → PackedDecoder × Result PackedError (Unit {0})
after_push d (ok (state, output)) = (
  record {
    output = output;
    max_output_bytes = d.max_output_bytes;
    state = state;
    failed = d.failed;
  },
  ok tt,
)
after_push d (err e) = (
  record {
    output = d.output;
    max_output_bytes = d.max_output_bytes;
    state = d.state;
    failed = true;
  },
  err e,
)
after_push d panic = (d, panic)

unfoldable pub push : PackedDecoder → Bytes → PackedDecoder × Result PackedError (Unit {0})
unfolding push_inner
push d input = if d.failed then (d, err previous_failure) else after_push d (push_inner d input)

unfoldable pub finish_state : DecodeState → Bytes → Result PackedError Bytes
finish_state at_tag output = ok output
finish_state (in_word tag next_byte remaining word) output = err (truncated_word tag remaining)
finish_state at_zero_count output = err (missing_run_length 0)
finish_state at_raw_count output = err (missing_run_length 255)
finish_state (in_raw remaining) output = err (truncated_raw_run remaining)

unfoldable pub finish : PackedDecoder → Result PackedError Bytes
unfolding finish_state
finish d = if d.failed then err previous_failure else finish_state d.state d.output

-- A caller that stops at the first error.
unfoldable pub decode_chunks : PackedDecoder → List Bytes → Result PackedError Bytes
unfolding push finish
decode_chunks d [] = finish d
decode_chunks d (chunk ∷ chunks) = do let (d', r) = push d chunk; r; decode_chunks d' chunks
