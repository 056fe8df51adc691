-- ===== src/Io/Packed/Pack.antt =====
-- crates/capnp-io/src/packed.rs, `pack` and `pack_aligned_into`. The input is what `offset` has not
-- passed, and the output so far is passed along.
pub mod Swar
pub mod Lanes
pub mod Runs
pub mod Format
pub mod Aligned
use capnp_rs_experiment.Prelude.{
  ℕ, zero, suc, ◌+◌, ◌-◌, ◌*◌, ◌/◌, ◌%◌, Bool, true, false, not, ◌&&◌, List, [], ◌∷◌, ◌++◌, map,
  length, take, drop, get_or, chunks_exact, Result, ok, err, panic, ◌>>=◌, ◌>>◌, min, bit_and, ltb,
  leb, ◌==◌, if◌then◌else◌,
}
use capnp_rs_experiment.Prelude.Bytes.{Bytes}
use capnp_rs_experiment.Io.Packed.{
  PackedError, unaligned_input, max_run_words, check_output_limit, check_raw_output_limit,
  count_ones, word_tag_slice, word_is_zero, zero_byte_count,
}

-- `iter().all(word_is_zero)`
unfoldable pub all_zero : List Bytes → Bool
all_zero [] = true
all_zero (word ∷ words) = word_is_zero word && all_zero words

-- `while remaining_words != 0`; each round takes a word at least.
unfoldable pub write_zero_runs : ℕ → ℕ → Bytes → ℕ → Result PackedError Bytes
write_zero_runs zero remaining_words output limit =
    if remaining_words == 0 then ok output else panic
write_zero_runs (suc fuel) remaining_words output limit =
    let run_words = min remaining_words (max_run_words + 1) in
    let round = do
      check_output_limit (length output) 2 limit
      write_zero_runs fuel (remaining_words - run_words) (output ++ (0 ∷ (run_words - 1) ∷ []))
          limit
    in if remaining_words == 0 then ok output else round

-- `None` where the source returns `false`.
unfoldable pub is_all_zero : Bytes → Bool
unfolding all_zero
is_all_zero [] = false
is_all_zero (b ∷ bs) = all_zero (chunks_exact 8 (b ∷ bs))

-- The zero words at the front of the words that follow, up to `left`.
unfoldable pub leading_zeros : ℕ → List Bytes → ℕ
leading_zeros zero words = 0
leading_zeros (suc left) [] = 0
leading_zeros (suc left) (word ∷ words) =
    if word_is_zero word then suc (leading_zeros left words) else 0

-- The words with at most one zero byte at the front of the input, up to `left`.
unfoldable pub leading_raws : ℕ → Bytes → ℕ
leading_raws zero input = 0
leading_raws (suc left) [] = 0
leading_raws (suc left) (b ∷ bs) =
    if leb (zero_byte_count (take 8 (b ∷ bs))) 1
    then suc (leading_raws left (drop 8 (b ∷ bs)))
    else 0

-- `u8::trailing_zeros` of a number that is not 0.
unfoldable pub trailing_zeros : ℕ → ℕ → ℕ
trailing_zeros zero bits = 0
trailing_zeros (suc left) bits = if bits % 2 == 1 then 0 else suc (trailing_zeros left (bits / 2))

-- The lanes that `while remaining != 0` visits; a round clears the lowest bit.
unfoldable pub lanes_of : ℕ → ℕ → List ℕ
lanes_of zero remaining = []
lanes_of (suc left) remaining =
    let others = lanes_of left (bit_and remaining (remaining - 1)) in
    if remaining == 0 then [] else trailing_zeros 8 remaining ∷ others

-- One round of the main loop, on the word at `offset` and the input behind it: what is left, and the
-- output.
unfoldable pub pack_word : ℕ → Bytes → Bytes → Bytes → ℕ → Result PackedError (Bytes × Bytes)
pack_word tag word following output limit =
    let zeros = leading_zeros max_run_words (chunks_exact 8 following) in
    let raws = leading_raws max_run_words following in
    let zero_run = do
      check_output_limit (length output) 2 limit
      ok (drop (zeros * 8) following, output ++ (0 ∷ zeros ∷ []))
    in let raw_run = do
      check_raw_output_limit (length output) (2 + 8 + raws * 8) limit
      ok (drop (raws * 8) following, output ++ (255 ∷ (word ++ (raws ∷ take (raws * 8) following))))
      in let ordinary = do
        check_output_limit (length output) (1 + count_ones tag) limit
        ok (following, output ++ (tag ∷ map (λ lane. get_or word lane 0) (lanes_of 8 tag)))
        in if tag == 0 then zero_run else if tag == 255 then raw_run else ordinary

unfoldable pub pack_item : Bytes → Bytes → ℕ → Result PackedError (Bytes × Bytes)
unfolding pack_word
pack_item input output limit =
    let word = take 8 input in pack_word (word_tag_slice word) word (drop 8 input) output limit

-- `while offset < complete_bytes`; each round takes a word at least, and the fuel is the number of
-- words. `panic` says that the fuel ran out.
unfoldable pub pack_loop : ℕ → Bytes → Bytes → ℕ → Result PackedError Bytes
pack_loop fuel [] output limit = ok output
pack_loop zero (b ∷ bs) output limit = panic
pack_loop (suc fuel) (b ∷ bs) output limit = do
  (rest, output') ← pack_item (b ∷ bs) output limit
  pack_loop fuel rest output' limit

unfoldable pub pack_aligned_into : Bytes → Bytes → ℕ → Result PackedError Bytes
unfolding pack_loop pack_item is_all_zero
pack_aligned_into input output limit =
    if is_all_zero input
    then write_zero_runs (length input / 8) (length input / 8) output limit
    else pack_loop (length input / 8) input output limit

unfoldable pub pack : Bytes → ℕ → Result PackedError Bytes
unfolding pack_aligned_into
pack input limit = do
  let complete_bytes = length input / 8 * 8
  output ← pack_aligned_into (take complete_bytes input) [] limit
  if not (complete_bytes == length input)
      then err (unaligned_input (length input - complete_bytes))
      else ok tt
  ok output
