-- ===== src/Io/Packed/Decoder/Meaning.antt =====
-- What a state of the decoder makes of the input that is still to come, told by `unpack`; and that each
-- round of the decoder keeps it.
use capnp_rs_experiment.Prelude.{
  ℕ, ◌+◌, ◌-◌, ◌≤◌, ◌<◌, ◌≡◌, refl, ◌∷◌, ◌++◌, length, take, drop, Result, err, ◌>>=◌, ltb, ◌==◌,
  if◌then◌else◌, arith, append-nil, append_assoc, length-append, take-append_le, take-append,
  drop-append, drop-append_le, drop-add, take-add, take_all, drop_all,
}
use capnp_rs_experiment.Prelude.Bytes.{Bytes}
use capnp_rs_experiment.Io.Packed.{
  PackedError, truncated_word, truncated_raw_run, check_output_limit,
}
use capnp_rs_experiment.Io.Packed.Unpack.{spread, unpack_zeros, unpack_raw}
use capnp_rs_experiment.Io.Packed.Unpack.Steps.{unpack_on}
use capnp_rs_experiment.Io.Packed.Decoder.{
  DecodeState, at_tag, in_word, at_zero_count, at_raw_count, in_raw, Progress, step_zero_count,
  step_raw_count, step_raw,
}

-- What is left of an item, then the rest.
abbrev pub items : Result PackedError (Bytes × Bytes) → ℕ → Result PackedError Bytes
items m limit = m >>= λ r. unpack_on r.0 r.1 limit

-- The rest of a word from the lane on.
unfoldable pub word_rest : ℕ → ℕ → ℕ → Bytes → Bytes → Bytes → ℕ → Result PackedError Bytes
word_rest tag lane remaining word input output limit =
    if ltb (length input) remaining
    then err (truncated_word tag (remaining - length input))
    else (spread (8 - lane) lane tag input >>= λ r.
        if tag == 255
        then items (unpack_raw r.1 (output ++ (take lane word ++ r.0)) limit) limit
        else unpack_on r.1 (output ++ (take lane word ++ r.0)) limit)

unfoldable pub meaning : DecodeState → Bytes → Bytes → ℕ → Result PackedError Bytes
meaning at_tag input output limit = unpack_on input output limit
meaning (in_word tag lane remaining word) input output limit =
    word_rest tag lane remaining word input output limit
meaning at_zero_count input output limit = items (unpack_zeros input output limit) limit
meaning at_raw_count input output limit = items (unpack_raw input output limit) limit
meaning (in_raw remaining) input output limit =
    if ltb (length input) remaining
    then err (truncated_raw_run (remaining - length input))
    else unpack_on (drop remaining input) (output ++ take remaining input) limit

-- The meaning after a round, with more input behind what the round had.
abbrev pub after : Result PackedError Progress → Bytes → ℕ → Result PackedError Bytes
after m more limit = m >>= λ r. meaning ((r.0).0) (r.1 ++ more) ((r.0).1) limit

pub zero_count-meaning :
    (count : ℕ) (input output more : Bytes) (limit : ℕ)
    → after (step_zero_count (count ∷ input) output limit) more limit
      ≡ meaning at_zero_count (count ∷ (input ++ more)) output limit
unfolding step_zero_count meaning unpack_zeros check_output_limit
zero_count-meaning count input output more limit = ground arith

pub raw_count-meaning :
    (count : ℕ) (input output more : Bytes) (limit : ℕ)
    → after (step_raw_count (count ∷ input) output limit) more limit
      ≡ meaning at_raw_count (count ∷ (input ++ more)) output limit
unfolding step_raw_count meaning unpack_raw check_output_limit
raw_count-meaning count input output more limit = ground (arith, append-nil output)

abbrev pub meaning_of : Progress → Bytes → ℕ → Result PackedError Bytes
meaning_of ((state, output), rest) more limit = meaning state (rest ++ more) output limit

pub raw_ends :
    (remaining : ℕ) (input output more : Bytes) (limit : ℕ)
    → remaining ≤ length input
    → meaning_of (step_raw remaining input output) more limit
      ≡ meaning (in_raw remaining) (input ++ more) output limit
unfolding step_raw meaning
raw_ends remaining input output more limit h = ground (
  arith,
  length-append input more,
  take-append_le remaining input more h,
  drop-append_le remaining input more h,
)

pub raw_goes_on :
    (more_bytes : ℕ) (input output more : Bytes) (limit : ℕ)
    → 0 < more_bytes
    → meaning_of (step_raw (length input + more_bytes) input output) more limit
      ≡ meaning (in_raw (length input + more_bytes)) (input ++ more) output limit
unfolding step_raw meaning
raw_goes_on more_bytes input output more limit h = ground (
  arith,
  length-append input more,
  take_all (length input) input (omega arith),
  drop_all (length input) input (omega arith),
  drop-add (length input) more_bytes (input ++ more),
  take-add (length input) more_bytes (input ++ more),
  drop-append (length input) input more refl,
  take-append (length input) input more refl,
  append_assoc output input (take more_bytes more),
)
