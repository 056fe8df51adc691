-- ===== src/Io/Framing/RoundTrip.antt =====
-- `parse_frame` reads back what `encode_frame` wrote.
use capnp_rs_experiment.Prelude.{
  ℕ, ◌+◌, ◌-◌, ◌*◌, ◌≤◌, ◌≡◌, refl, sym, ap, ap₂, ◌∙◌, List, [], ◌++◌, map, length, drop,
  append_assoc, append-nil, length-append, length-map, drop-append, All, ok, usize_max, arith,
}
use capnp_rs_experiment.Prelude.Bytes.{Bytes, to_le_bytes, length-to_le_bytes}
use capnp_rs_experiment.Wire.Endian.{read_u32_le}
use capnp_rs_experiment.Io.Framing.{FrameLimits, message, check_segment_count}
use capnp_rs_experiment.Io.Framing.Parse.{read_sizes, cut_segments, parse_frame}
use capnp_rs_experiment.Io.Framing.Encode.{words_of, encode_frame}
use capnp_rs_experiment.Io.Framing.Layout.{
  entries, concat, padding, layout, sum, IsAligned, IsU32, length-entries, length-concat,
}
use capnp_rs_experiment.Io.Framing.Reads.{
  segments_of, read_u32_le-append, read_sizes-entries, cut_segments-concat, parse_counted_ok,
  parse_frame_counted,
}
use capnp_rs_experiment.Io.Framing.Checks.{
  Checked, Encoded, total_of-Checked, encode_frame-Encoded, table_len_of,
}

-- The header, the table and its padding.
abbrev table : ℕ → List ℕ → Bytes
table count words = to_le_bytes 4 (count - 1) ++ (entries words ++ padding count)

length-padding : (count : ℕ) → 4 + count * 4 + length (padding count) ≡ table_len_of count
length-padding count = ground arith

length-table :
    (count : ℕ) (words : List ℕ)
    → length words ≡ count
    → length (table count words) ≡ table_len_of count
length-table count words h = omega (
  arith,
  length-append (to_le_bytes 4 (count - 1)) (entries words ++ padding count),
  length-append (entries words) (padding count),
  length-to_le_bytes 4 (count - 1),
  length-entries words,
  length-padding count,
)

layout-table :
    (count : ℕ) (words : List ℕ) (ss : List Bytes) (more : Bytes)
    → layout count words ss ++ more ≡ table count words ++ (concat ss ++ more)
unfolding layout
layout-table count words ss more = simp append_assoc

table-entries :
    (count : ℕ) (words : List ℕ) (back : Bytes)
    → table count words ++ back
      ≡ to_le_bytes 4 (count - 1) ++ (entries words ++ (padding count ++ back))
table-entries count words back = simp append_assoc

length-layout :
    (count : ℕ) (ss : List Bytes)
    → length ss ≡ count
    → All IsAligned ss
    → length (layout count (map words_of ss) ss) ≡ table_len_of count + sum (map words_of ss) * 8
length-layout count ss h aligned = omega (
  arith,
  ap length (
      sym (append-nil (layout count (map words_of ss) ss))
      ∙ layout-table count (map words_of ss) ss []),
  ap length (append-nil (concat ss)),
  length-append (table count (map words_of ss)) (concat ss ++ []),
  length-table count (map words_of ss) (length-map words_of ss ∙ h),
  length-concat ss aligned,
)

-- A frame in the plain layout, whatever follows it, is parsed as its segments and what follows.
module _ (ss : List Bytes) (limits : FrameLimits) (more : Bytes) (n total : ℕ)
    (count : length ss ≡ n + 1) (few : n + 1 ≤ 512)
    (counted : check_segment_count (n + 1) limits ≡ ok tt) (aligned : All IsAligned ss)
    (small : All IsU32 (map words_of ss)) (adds_up : total ≡ sum (map words_of ss))
    (within : total ≤ limits.max_total_words)
    (fits : table_len_of (n + 1) + total * 8 ≤ usize_max) where
  input : Bytes
  input = table (n + 1) (map words_of ss) ++ (concat ss ++ more)

  words_len : length (map words_of ss) ≡ n + 1
  words_len = length-map words_of ss ∙ count

  front_len : length (table (n + 1) (map words_of ss)) ≡ table_len_of (n + 1)
  front_len = length-table (n + 1) _ words_len

  body_len : length (concat ss) ≡ total * 8
  body_len = omega (arith, length-concat ss aligned)

  inside : table_len_of (n + 1) + total * 8 ≤ length input
  unfolding input
  inside = omega (
    arith,
    front_len,
    body_len,
    length-append (table (n + 1) (map words_of ss)) (concat ss ++ more),
    length-append (concat ss) more,
  )

  sizes_read : read_sizes input limits.max_total_words (n + 1) 0 0 ≡ ok (map words_of ss, total)
  unfolding input
  sizes_read =
      ap₂ (λ (t : Bytes) (k : ℕ). read_sizes t limits.max_total_words k 0 0)
        (table-entries (n + 1) (map words_of ss) (concat ss ++ more)) (sym words_len)
      ∙ read_sizes-entries (map words_of ss) (to_le_bytes 4 (n + 1 - 1)) _ limits.max_total_words 0
          0 small (omega (arith, length-to_le_bytes 4 (n + 1 - 1))) (omega (arith, words_len))
          (omega arith) (omega arith)
      ∙ ap (λ (t : ℕ). ok (map words_of ss, t)) (omega arith)

  segments_cut : cut_segments input (table_len_of (n + 1)) (map words_of ss) ≡ ok (segments_of ss)
  unfolding input
  segments_cut = cut_segments-concat ss (table (n + 1) (map words_of ss)) more _ aligned front_len

  rest_is : drop (table_len_of (n + 1) + total * 8) input ≡ more
  unfolding input
  rest_is =
      ap (drop (table_len_of (n + 1) + total * 8))
        (sym (append_assoc (table (n + 1) (map words_of ss)) (concat ss) more))
      ∙ drop-append _ (table (n + 1) (map words_of ss) ++ concat ss) more (
          omega (
            arith,
            front_len,
            body_len,
            length-append (table (n + 1) (map words_of ss)) (concat ss),
          ))

  count_read : read_u32_le input 0 ≡ ok n
  unfolding input
  count_read =
      ap (λ (t : Bytes). read_u32_le t 0)
        (table-entries (n + 1) (map words_of ss) (concat ss ++ more))
      ∙ read_u32_le-append [] _ (n + 1 - 1) 0 (omega arith) refl (omega arith)
      ∙ ap ok (omega arith)

  parse_input :
      parse_frame input limits
      ≡ ok (
          message
            (record {
              segments = segments_of ss;
              table_len = table_len_of (n + 1);
              encoded_len = table_len_of (n + 1) + total * 8;
            })
            more)
  parse_input =
      parse_frame_counted input limits n (omega (arith, inside)) (omega arith) count_read counted
      ∙ parse_counted_ok input limits (n + 1) _ total (map words_of ss) (segments_of ss) refl inside
          fits sizes_read segments_cut
      ∙ ap (λ (t : Bytes). ok (message _ t)) rest_is

  pub parse_frame-layout :
      parse_frame (layout (n + 1) (map words_of ss) ss ++ more) limits
      ≡ ok (
          message
            (record {
              segments = segments_of ss;
              table_len = table_len_of (n + 1);
              encoded_len = table_len_of (n + 1) + total * 8;
            })
            more)
  unfolding input
  parse_frame-layout =
      ap (λ (t : Bytes). parse_frame t limits) (layout-table (n + 1) (map words_of ss) ss more)
      ∙ parse_input

-- What `encode_frame` wrote, whatever follows it, is parsed as the segments that it was given, with
-- the lengths of the table and of the frame, and what follows is left.
pub parse_frame-encode_frame :
    (ss : List Bytes) (limits : FrameLimits) (more : Bytes) {output : Bytes}
    → encode_frame ss limits ≡ ok output
    → parse_frame (output ++ more) limits
      ≡ ok (
          message
            (record {
              segments = segments_of ss;
              table_len = table_len_of (length ss);
              encoded_len = length output;
            })
            more)
parse_frame-encode_frame ss limits more {output} h =
    ap (λ (t : Bytes). parse_frame (t ++ more) limits) written
    ∙ parse_frame-layout ss limits more e.rest e.all_words e.count_is
        (omega (arith, e.count_is, e.small_count)) (rw e.count_is at e.counted) c.aligned c.small
        (omega (arith, c.adds_up)) c.within fits
    ∙ ap₂
        (λ (t k : ℕ).
          ok (message (record { segments = segments_of ss; table_len = t; encoded_len = k }) more))
        (ap table_len_of (sym e.count_is)) (sym output_len)
  where
    e : Encoded ss limits output
    e = encode_frame-Encoded ss limits h

    c : Checked limits.max_total_words 0 e.all_words ss
    c = total_of-Checked limits.max_total_words ss 0 0 e.totalled (omega arith) (omega arith)

    written : output ≡ layout (e.rest + 1) (map words_of ss) ss
    written = e.written ∙ ap (λ (k : ℕ). layout k (map words_of ss) ss) e.count_is

    fits : table_len_of (e.rest + 1) + e.all_words * 8 ≤ usize_max
    fits = rw e.count_is at e.fits

    output_len : length output ≡ table_len_of (e.rest + 1) + e.all_words * 8
    output_len =
        ap length written
        ∙ omega (arith, length-layout (e.rest + 1) ss e.count_is c.aligned, c.adds_up)
