-- ===== src/Io/Framing/Checks.antt =====
-- What the checks of `encode_frame` establish.
use capnp_rs_experiment.Prelude.{
  ℕ, suc, ◌+◌, ◌*◌, ◌/◌, ◌≤◌, ◌≡◌, ◌∙◌, List, [], ◌∷◌, map, length, All, ok, usize_max, arith,
}
use capnp_rs_experiment.Prelude.Bytes.{Bytes}
use capnp_rs_experiment.Io.Framing.{FrameLimits, check_segment_count}
use capnp_rs_experiment.Io.Framing.Encode.{
  total_of, validate_output_segments, words_of, encode_frame, write_frame,
}
use capnp_rs_experiment.Io.Framing.Layout.{layout, sum, IsAligned, IsU32, write_frame-layout}

total_of_step :
    (limit : ℕ) (s : Bytes) (ss : List Bytes) (index total : ℕ) {all_words : ℕ}
    → total_of limit (s ∷ ss) index total ≡ ok all_words
    → IsAligned s
      × IsU32 (words_of s)
      × (total + words_of s ≤ limit)
      × (total + words_of s ≤ usize_max)
      × (total_of limit ss (index + 1) (total + words_of s) ≡ ok all_words)
unfolding total_of
total_of_step limit s ss index total h = ground arith

-- What the checks of the output establish.
pub record Checked (limit total all_words : ℕ) (ss : List Bytes) : Type 0 where
  pub aligned : All IsAligned ss
  pub small : All IsU32 (map words_of ss)
  pub adds_up : all_words ≡ total + sum (map words_of ss)
  pub within : all_words ≤ limit
  pub fits : all_words ≤ usize_max

pub total_of-Checked :
    (limit : ℕ) (ss : List Bytes) (index total : ℕ) {all_words : ℕ}
    → total_of limit ss index total ≡ ok all_words
    → total ≤ limit
    → total ≤ usize_max
    → Checked limit total all_words ss
unfolding sum
total_of-Checked limit [] index total {all_words} h le fits = record {
  aligned = tt;
  small = tt;
  adds_up = omega (arith, same);
  within = omega (arith, same);
  fits = omega (arith, same);
}
  where
    same : all_words ≡ total
    same = unfold total_of in ground arith
total_of-Checked limit (s ∷ ss) index total h le fits =
    let (a, u, within, fits', rest) = total_of_step limit s ss index total h in
    let c = total_of-Checked limit ss (index + 1) (total + words_of s) rest within fits' in
    record {
      aligned = (a, c.aligned);
      small = (u, c.small);
      adds_up = omega (arith, c.adds_up);
      within = c.within;
      fits = c.fits;
    }

abbrev pub table_len_of : ℕ → ℕ
table_len_of count = (count / 2 + 1) * 8

-- What `encode_frame` has checked when it succeeds.
pub record Encoded (ss : List Bytes) (limits : FrameLimits) (output : Bytes) : Type 0 where
  pub rest : ℕ
  pub all_words : ℕ
  pub count_is : length ss ≡ rest + 1
  pub small_count : length ss ≤ 512
  pub counted : check_segment_count (length ss) limits ≡ ok tt
  pub totalled : total_of limits.max_total_words ss 0 0 ≡ ok all_words
  pub fits : table_len_of (length ss) + all_words * 8 ≤ usize_max
  pub written : output ≡ layout (length ss) (map words_of ss) ss

check_segment_count_max :
    (count : ℕ) (limits : FrameLimits) → check_segment_count count limits ≡ ok tt → count ≤ 512
unfolding check_segment_count
check_segment_count_max count limits h = ground arith

encode_parts :
    (s : Bytes) (ss : List Bytes) (limits : FrameLimits) {output : Bytes}
    → encode_frame (s ∷ ss) limits ≡ ok output
    → (all_words : ℕ) × (check_segment_count (suc (length ss)) limits ≡ ok tt)
      × (total_of limits.max_total_words (s ∷ ss) 0 0 ≡ ok all_words)
      × (table_len_of (suc (length ss)) + all_words * 8 ≤ usize_max)
      × (output ≡ write_frame (suc (length ss)) (map words_of (s ∷ ss)) (s ∷ ss))
unfolding encode_frame validate_output_segments
encode_parts s ss limits h = ground arith

pub encode_frame-Encoded :
    (ss : List Bytes) (limits : FrameLimits) {output : Bytes}
    → encode_frame ss limits ≡ ok output
    → Encoded ss limits output
encode_frame-Encoded [] limits h = absurd (unfold encode_frame validate_output_segments in cc)
encode_frame-Encoded (s ∷ ss) limits h =
    let (all_words, counted, totalled, fits, written) = encode_parts s ss limits h in
    record {
      rest = length ss;
      all_words = all_words;
      count_is = omega arith;
      small_count = check_segment_count_max _ limits counted;
      counted = counted;
      totalled = totalled;
      fits = fits;
      written = written ∙ write_frame-layout _ _ _;
    }
