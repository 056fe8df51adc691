-- ===== src/Io/Tests.antt =====
-- Runs of the theorems on crates/capnp-io at concrete inputs.
use capnp_rs_experiment.Prelude.{
  ◌≤◌, ◌≡◌, ◌↔◌, refl, List, [], ◌∷◌, ◌++◌, map, length, replicate, get_or, ok, arith, Settled,
}
use capnp_rs_experiment.Prelude.Bytes.{Bytes, AreBytes, from_le_bytes, to_le_bytes}
use capnp_rs_experiment.Io.Framing.{
  default_limits, message, check_segment_count, effective_segment_limit,
}
use capnp_rs_experiment.Io.Framing.Parse.{parse_frame}
use capnp_rs_experiment.Io.Framing.Encode.{
  append_sizes, append_each, total_of, validate_output_segments, write_frame, encode_frame, prepare,
  PreparedSegments, new_prepared, encode_prepared_frame,
}
use capnp_rs_experiment.Io.Framing.Layout.{entries, append_sizes_lem}
use capnp_rs_experiment.Io.Framing.Reads.{segments_of}
use capnp_rs_experiment.Io.Framing.Checks.{table_len_of}
use capnp_rs_experiment.Io.Framing.Prepared.{encode_prepared_frame-new_prepared}
use capnp_rs_experiment.Io.Framing.RoundTrip.{parse_frame-encode_frame}
use capnp_rs_experiment.Io.Packed.{
  word_tag, word_tag_slice, check_raw_output_limit, word_is_zero, zero_byte_count,
}
use capnp_rs_experiment.Io.Packed.Tags.{bits, nonzero}
use capnp_rs_experiment.Io.Packed.Format.{no_run, packed, joined}
use capnp_rs_experiment.Io.Packed.Unpack.{unpack}
use capnp_rs_experiment.Io.Packed.Unpack.Format.{unpack-packed}
use capnp_rs_experiment.Io.Packed.Pack.{
  pack, pack_aligned_into, pack_loop, pack_item, pack_word, all_zero, is_all_zero, write_zero_runs,
  leading_zeros, leading_raws, lanes_of, trailing_zeros,
}
use capnp_rs_experiment.Io.Packed.Pack.Swar.{word_tag_slice-word_tag}
use capnp_rs_experiment.Io.Packed.Pack.Lanes.{lanes_of-nonzero}
use capnp_rs_experiment.Io.Packed.Pack.Format.{IsError}
use capnp_rs_experiment.Io.Packed.RoundTrip.{input_words, pack_iff, pack_unaligned, unpack-pack}
use capnp_rs_experiment.Prelude.{take, drop}
use capnp_rs_experiment.Io.Packed.{lane_set, ones, check_output_limit}
use capnp_rs_experiment.Io.Packed.Unpack.{spread}
use capnp_rs_experiment.Io.Packed.Decoder.{
  new_decoder, decode_chunks, push, push_inner, decode_loop, decode_round, decode_complete_item,
  complete_zeros, complete_word, complete_raw, step_tag, step_word, step_zero_count, step_raw_count,
  step_raw, fill_lanes, finish, finish_state,
}
use capnp_rs_experiment.Io.Packed.Decoder.Chunks.{decode_chunks-unpack}

-- A word of zeros, one with two bytes set, and a full one.
abbrev sparse_word : Bytes
sparse_word = 0 ∷ 7 ∷ 0 ∷ 0 ∷ 0 ∷ 255 ∷ 0 ∷ 0 ∷ []

abbrev three_words : Bytes
three_words = replicate 8 0 ++ (sparse_word ++ replicate 8 1)

abbrev three_packed : Bytes
three_packed = 0 ∷ 0 ∷ 34 ∷ 7 ∷ 255 ∷ 255 ∷ 1 ∷ 1 ∷ 1 ∷ 1 ∷ 1 ∷ 1 ∷ 1 ∷ 1 ∷ 0 ∷ []

sparse-AreBytes : AreBytes sparse_word
sparse-AreBytes = ground arith

three-AreBytes : AreBytes three_words
three-AreBytes = ground arith

pack_three : pack three_words 64 ≡ ok three_packed
unfolding pack pack_aligned_into pack_loop pack_item pack_word is_all_zero all_zero word_is_zero
    from_le_bytes leading_zeros leading_raws lanes_of trailing_zeros word_tag_slice
    check_output_limit check_raw_output_limit ones zero_byte_count write_zero_runs
pack_three = refl

unpack-pack_example : unpack three_packed 24 ≡ ok three_words
unpack-pack_example =
    unpack-pack three_words three_packed 64 24 three-AreBytes (omega arith) pack_three (omega arith)
      (omega arith)

pack_iff_example :
    (pack three_words 14 ≡ ok three_packed)
    ↔ ((three_packed ≡ packed no_run (input_words three_words)) × (length three_packed ≤ 14))
pack_iff_example = pack_iff three_words three_packed 14 three-AreBytes (omega arith) (omega arith)

pack_unaligned_example : IsError (pack (1 ∷ 2 ∷ []) 10)
pack_unaligned_example =
    pack_unaligned (1 ∷ 2 ∷ []) 10 (omega arith, (omega arith, tt)) (omega arith) (omega arith)

unpack-packed_example : unpack (packed no_run (sparse_word ∷ [])) 8 ≡ ok (joined (sparse_word ∷ []))
unpack-packed_example =
    unpack-packed (sparse_word ∷ []) 8 ((refl, sparse-AreBytes), tt) (unfold joined in omega arith)
      (omega arith)

word_tag_slice-word_tag_example : word_tag_slice sparse_word ≡ word_tag sparse_word
word_tag_slice-word_tag_example = word_tag_slice-word_tag sparse_word (refl, sparse-AreBytes)

lanes_of-nonzero_example :
    map (λ lane. get_or sparse_word lane 0) (lanes_of 8 (bits sparse_word)) ≡ nonzero sparse_word
lanes_of-nonzero_example = lanes_of-nonzero sparse_word refl

append_sizes_lem_example : append_sizes [] (replicate 40 7) ≡ [] ++ entries (replicate 40 7)
append_sizes_lem_example = append_sizes_lem [] (replicate 40 7)

abbrev two_segments : List Bytes
two_segments = sparse_word ∷ [] ∷ []

abbrev two_encoded : Bytes
two_encoded = 1 ∷ 0 ∷ 0 ∷ 0 ∷ 1 ∷ 0 ∷ 0 ∷ 0 ∷ 0 ∷ 0 ∷ 0 ∷ 0 ∷ 0 ∷ 0 ∷ 0 ∷ 0 ∷ sparse_word

encode_two : encode_frame two_segments default_limits ≡ ok two_encoded
unfolding encode_frame validate_output_segments check_segment_count effective_segment_limit total_of
    write_frame append_sizes append_each to_le_bytes
encode_two = refl

parse_frame-encode_frame_example :
    parse_frame (two_encoded ++ (5 ∷ [])) default_limits
    ≡ ok (
        message
          (record {
            segments = segments_of two_segments;
            table_len = table_len_of (length two_segments);
            encoded_len = length two_encoded;
          })
          (5 ∷ []))
parse_frame-encode_frame_example =
    parse_frame-encode_frame two_segments default_limits (5 ∷ []) encode_two

abbrev two_prepared : PreparedSegments
unfolding prepare
two_prepared = record { segments = map prepare two_segments; table_len = 16; encoded_len = 24 }

encode_prepared_frame-new_prepared_example :
    encode_frame two_segments default_limits ≡ ok (encode_prepared_frame two_prepared)
encode_prepared_frame-new_prepared_example =
    encode_prepared_frame-new_prepared two_segments default_limits prepared
  where
    prepared : new_prepared two_segments default_limits ≡ ok two_prepared
    prepared =
        unfold new_prepared validate_output_segments check_segment_count effective_segment_limit
          total_of prepare in
        refl

-- The packed words again, in chunks that end inside items.
abbrev chunked : List Bytes
chunked = take 3 three_packed ∷ take 6 (drop 3 three_packed) ∷ drop 9 three_packed ∷ []

chunks_of_three : decode_chunks (new_decoder 24) chunked ≡ ok three_words
unfolding decode_chunks push push_inner decode_loop decode_round decode_complete_item complete_zeros
    complete_word complete_raw step_tag step_word step_zero_count step_raw_count step_raw fill_lanes
    finish finish_state spread lane_set ones check_output_limit
chunks_of_three = refl

decode_chunks-unpack_example :
    (decode_chunks (new_decoder 24) chunked ≡ unpack (joined chunked) 24)
    × Settled (λ _. Unit {0}) (decode_chunks (new_decoder 24) chunked)
decode_chunks-unpack_example = decode_chunks-unpack chunked 24 (ground arith)
