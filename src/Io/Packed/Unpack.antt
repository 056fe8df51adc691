-- ===== src/Io/Packed/Unpack.antt =====
-- crates/capnp-io/src/packed.rs, `unpack`. The input is what the cursor has not passed.
pub mod Steps
pub mod Format
use capnp_rs_experiment.Prelude.{
  ℕ, zero, suc, ◌+◌, ◌-◌, ◌*◌, ◌/◌, ◌%◌, ◌^◌, Bool, true, false, List, [], ◌∷◌, ◌++◌, length, take,
  drop, replicate, Result, ok, err, panic, ◌>>=◌, ◌>>◌, ltb, ◌==◌, if◌then◌else◌,
}
use capnp_rs_experiment.Prelude.Bytes.{Bytes}
use capnp_rs_experiment.Io.Packed.{
  PackedError, truncated_word, missing_run_length, truncated_raw_run, ensure_output_limit,
  count_ones, lane_set,
}

-- `for lane in 0..WORD_BYTES`, by the lanes left: the word's bytes from `lane` on, and the input
-- behind the payload.
unfoldable pub spread : ℕ → ℕ → ℕ → Bytes → Result PackedError (Bytes × Bytes)
spread zero lane tag input = ok ([], input)
spread (suc left) lane tag [] = do
  (word, rest) ← spread left (lane + 1) tag []
  if lane_set tag lane then panic else ok (0 ∷ word, rest)
spread (suc left) lane tag (byte ∷ input) = do
  (word, rest) ← spread left (lane + 1) tag (if lane_set tag lane then input else byte ∷ input)
  ok ((if lane_set tag lane then byte else 0) ∷ word, rest)

-- After a tag of zero.
unfoldable pub unpack_zeros : Bytes → Bytes → ℕ → Result PackedError (Bytes × Bytes)
unpack_zeros [] output limit = err (missing_run_length 0)
unpack_zeros (additional_words ∷ input) output limit = do
  let additional_bytes = additional_words * 8
  ensure_output_limit (length output) additional_bytes limit
  ok (input, output ++ replicate additional_bytes 0)

-- After the first word under a tag of `0xff`.
unfoldable pub unpack_raw : Bytes → Bytes → ℕ → Result PackedError (Bytes × Bytes)
unpack_raw [] output limit = err (missing_run_length 255)
unpack_raw (additional_words ∷ input) output limit = do
  let raw_bytes = additional_words * 8
  ensure_output_limit (length output) raw_bytes limit
  let available = length input
  if ltb available raw_bytes then err (truncated_raw_run (raw_bytes - available)) else ok tt
  ok (drop raw_bytes input, output ++ take raw_bytes input)

-- After any other tag.
unfoldable pub unpack_word : ℕ → Bytes → Bytes → ℕ → Result PackedError (Bytes × Bytes)
unfolding unpack_raw
unpack_word tag input output limit = do
  let payload_bytes = count_ones tag
  let available = length input
  if ltb available payload_bytes
      then err (truncated_word tag (payload_bytes - available))
      else ok tt
  (word, rest) ← spread 8 0 tag input
  if tag == 255 then unpack_raw rest (output ++ word) limit else ok (rest, output ++ word)

-- One round: the input that is left, and the output.
unfoldable pub unpack_item : ℕ → Bytes → Bytes → ℕ → Result PackedError (Bytes × Bytes)
unfolding unpack_zeros unpack_word
unpack_item tag input output limit = do
  ensure_output_limit (length output) 8 limit
  if tag == 0
      then unpack_zeros input (output ++ replicate 8 0) limit
      else unpack_word tag input output limit

-- `while cursor < input.len()`. A round takes a byte at least, so fuel for each byte is enough; that
-- it runs out is shown as `panic`, and does not happen.
unfoldable pub unpack_loop : ℕ → Bytes → Bytes → ℕ → Result PackedError Bytes
unpack_loop fuel [] output limit = ok output
unpack_loop zero (tag ∷ input) output limit = panic
unpack_loop (suc fuel) (tag ∷ input) output limit = do
  (rest, output') ← unpack_item tag input output limit
  unpack_loop fuel rest output' limit

unfoldable pub unpack : Bytes → ℕ → Result PackedError Bytes
unfolding unpack_loop unpack_item
unpack input limit = unpack_loop (length input) input [] limit
