-- ===== src/Io/Packed.antt =====
-- crates/capnp-io/src/packed.rs: errors, output limits, and the tests on one word.
pub mod Unpack
pub mod Tags
pub mod Format
pub mod Pack
pub mod Decoder
pub mod RoundTrip
use capnp_rs_experiment.Prelude.{
  ℕ, zero, suc, ◌+◌, ◌-◌, ◌*◌, ◌/◌, ◌%◌, ◌^◌, Bool, true, false, not, ◌&&◌, List, [], ◌∷◌, length,
  Option, none, some, Result, ok, err, ◌>>=◌, ◌>>◌, ok_or, checked_add, checked_mul, fit, usize_max,
  u64_max, bit_and, bit_or, ltb, leb, ◌==◌, if◌then◌else◌,
}
use capnp_rs_experiment.Prelude.Bytes.{Bytes, from_le_bytes}

-- `MAX_RUN_WORDS`
abbrev pub max_run_words : ℕ
max_run_words = 255

pub data PackedError : Type 0 where
  output_limit : ℕ → ℕ → PackedError
  unaligned_input : ℕ → PackedError
  truncated_word : ℕ → ℕ → PackedError
  missing_run_length : ℕ → PackedError
  truncated_raw_run : ℕ → PackedError
  previous_failure : PackedError

unfoldable pub check_output_limit : ℕ → ℕ → ℕ → Result PackedError (Unit {0})
check_output_limit current additional limit = do
  requested ← ok_or (checked_add current additional) (output_limit usize_max limit)
  if ltb limit requested then err (output_limit requested limit) else ok tt

abbrev pub ensure_output_limit : ℕ → ℕ → ℕ → Result PackedError (Unit {0})
ensure_output_limit current additional limit = check_output_limit current additional limit

-- `Option::and_then` and `unwrap_or`.
abbrev and_then : Option ℕ → (ℕ → Option ℕ) → Option ℕ
and_then none f = none
and_then (some a) f = f a

abbrev unwrap_or : Option ℕ → ℕ → ℕ
unwrap_or none d = d
unwrap_or (some a) d = a

unfoldable pub check_raw_output_limit : ℕ → ℕ → ℕ → Result PackedError (Unit {0})
check_raw_output_limit current encoded_len limit = do
  first_word ← ok_or (checked_add current (2 + 8)) (output_limit usize_max limit)
  if ltb limit first_word then err (output_limit first_word limit) else ok tt
  requested ← ok_or (checked_add current encoded_len) (output_limit usize_max limit)
  let additional_that_fit = (limit - first_word) / 8
  let blocks = and_then (checked_add additional_that_fit 1) (λ words. checked_mul words 8)
  let reported = unwrap_or (and_then blocks (λ bytes. checked_add first_word bytes)) usize_max
  if leb requested limit then ok tt else err (output_limit reported limit)

-- `u8::count_ones`, from the lowest bit on.
unfoldable pub ones : ℕ → ℕ → ℕ
ones zero bits = 0
ones (suc k) bits = bits % 2 + ones k (bits / 2)

abbrev pub count_ones : ℕ → ℕ
count_ones tag = ones 8 tag

-- `tag & (1 << lane) != 0`
unfoldable pub lane_set : ℕ → ℕ → Bool
lane_set tag lane = not (bit_and tag (2 ^ lane) == 0)

-- `word.iter().enumerate().fold(0, |tag, (index, byte)| tag | (u8::from(*byte != 0) << index))`
unfoldable pub tag_fold : ℕ → ℕ → Bytes → ℕ
tag_fold index tag [] = tag
tag_fold index tag (byte ∷ bytes) =
    tag_fold (index + 1) (bit_or tag ((if byte == 0 then 0 else 1) * 2 ^ index % 2 ^ 8)) bytes

abbrev pub word_tag : Bytes → ℕ
word_tag word = tag_fold 0 0 word

-- The same tag by arithmetic on the word as a `u64`.
unfoldable pub word_tag_slice : Bytes → ℕ
word_tag_slice word =
    let low_seven_bits : ℕ = 0x7f7f_7f7f_7f7f_7f7f in
    let high_bits : ℕ = 0x8080_8080_8080_8080 in
    let pack_byte_lsbs : ℕ = 0x0102_0408_1020_4080 in
    let value = from_le_bytes word in
    let sum = (bit_and value low_seven_bits + low_seven_bits) % 2 ^ 64 in
    let nonzero_high_bits = bit_and (bit_or sum value) high_bits in
    nonzero_high_bits / 2 ^ 7 * pack_byte_lsbs % 2 ^ 64 / 2 ^ 56

unfoldable pub word_is_zero : Bytes → Bool
word_is_zero word = from_le_bytes word == 0

-- `zero_byte_count` and `zero_byte_count_slice`
unfoldable pub zero_byte_count : Bytes → ℕ
zero_byte_count [] = 0
zero_byte_count (byte ∷ bytes) = (if byte == 0 then 1 else 0) + zero_byte_count bytes
