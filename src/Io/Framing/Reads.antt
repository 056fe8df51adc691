-- ===== src/Io/Framing/Reads.antt =====
-- What `parse_frame` reads from an input whose table and body are known.
use capnp_rs_experiment.Prelude.{
  ℕ, suc, ◌+◌, ◌-◌, ◌*◌, ◌/◌, ◌%◌, ◌^◌, ◌≤◌, ◌<◌, ◌≡◌, refl, sym, ap, ◌∙◌, List, [], ◌∷◌, ◌++◌, map,
  length, take, drop, append_assoc, length-append, length-drop, drop-append, take-append, take_all,
  All, ok, map_ok, usize_max, u32_max, arith,
}
use capnp_rs_experiment.Prelude.Bytes.{
  Bytes, to_le_bytes, from_le_bytes, length-to_le_bytes, from_le_bytes-to_le_bytes,
}
use capnp_rs_experiment.Wire.Endian.{read_le, read_u32_le, read_array_inside}
use capnp_rs_experiment.Wire.Segment.{Segment, from_bytes}
use capnp_rs_experiment.Io.Framing.{FrameLimits, message, check_segment_count}
use capnp_rs_experiment.Io.Framing.Parse.{read_sizes, cut_segments, parse_counted, parse_frame}
use capnp_rs_experiment.Io.Framing.Encode.{le_u32, words_of}
use capnp_rs_experiment.Io.Framing.Layout.{entries, concat, sum, IsAligned, IsU32}

-- A little-endian word behind `front` is read at its place.
pub read_u32_le-append :
    (front back : Bytes) (v offset : ℕ)
    → v < 2 ^ 32
    → length front ≡ offset
    → offset + 4 ≤ usize_max
    → read_u32_le (front ++ (to_le_bytes 4 v ++ back)) offset ≡ ok v
unfolding read_le
read_u32_le-append front back v offset small at fits =
    ap (map_ok from_le_bytes) (
      read_array_inside 4 _ offset inside fits
      ∙ ap ok (
          ap (take 4) (drop-append offset front _ at)
          ∙ take-append 4 (to_le_bytes 4 v) back (length-to_le_bytes 4 v)))
    ∙ ap ok (from_le_bytes-to_le_bytes 4 v small)
  where
    inside : offset + 4 ≤ length (front ++ (to_le_bytes 4 v ++ back))
    inside = omega (
      arith,
      length-append front (to_le_bytes 4 v ++ back),
      length-append (to_le_bytes 4 v) back,
      length-to_le_bytes 4 v,
    )

read_sizes_step :
    (input : Bytes) (limit rounds index total w : ℕ) {sizes : List ℕ} {all_words : ℕ}
    → index ≤ 1024
    → read_u32_le input (4 * (index + 1)) ≡ ok w
    → total + w ≤ limit
    → total + w ≤ usize_max
    → read_sizes input limit rounds (index + 1) (total + w) ≡ ok (sizes, all_words)
    → read_sizes input limit (suc rounds) index total ≡ ok (w ∷ sizes, all_words)
unfolding read_sizes
read_sizes_step input limit rounds index total w few read le fits rest = ground arith

-- The table behind `front` is read as the word counts that it holds, and their sum.
pub read_sizes-entries :
    (ws : List ℕ) (front back : Bytes) (limit index total : ℕ)
    → All IsU32 ws
    → length front ≡ 4 * (index + 1)
    → index + length ws ≤ 1024
    → total + sum ws ≤ limit
    → total + sum ws ≤ usize_max
    → read_sizes (front ++ (entries ws ++ back)) limit (length ws) index total
      ≡ ok (ws, total + sum ws)
unfolding entries sum
read_sizes-entries [] front back limit index total u at few le fits =
    unfold read_sizes in ap (λ (t : ℕ). ok ([], t)) (omega arith)
read_sizes-entries (w ∷ ws) front back limit index total (small, u) at few le fits =
    ap (λ (t : Bytes). read_sizes (front ++ t) limit (suc (length ws)) index total) whole
    ∙ read_sizes_step _ limit (length ws) index total w (omega arith)
        (ap
            (λ (v : ℕ).
              read_u32_le (front ++ (to_le_bytes 4 v ++ (entries ws ++ back))) (4 * (index + 1)))
            (omega arith)
          ∙ read_u32_le-append front _ w _ small at (omega arith))
        (omega arith) (omega arith)
        (ap (λ (t : Bytes). read_sizes t limit (length ws) (index + 1) (total + w))
            (sym (append_assoc front (le_u32 w) (entries ws ++ back)))
          ∙ read_sizes-entries ws (front ++ le_u32 w) back limit (index + 1) (total + w) u
              (omega (arith, length-append front (le_u32 w), length-to_le_bytes 4 (w % 2 ^ 32)))
              (omega arith) (omega arith) (omega arith))
    ∙ ap (λ (t : ℕ). ok (w ∷ ws, t)) (omega arith)
  where
    whole : (le_u32 w ++ entries ws) ++ back ≡ le_u32 w ++ (entries ws ++ back)
    whole = append_assoc (le_u32 w) (entries ws) back

abbrev pub segments_of : List Bytes → List Segment
segments_of = map (λ s. record { bytes = s })

cut_segments_step :
    (input : Bytes) (offset w : ℕ) (sizes : List ℕ) (s : Bytes) {segments : List Segment}
    → IsAligned s
    → offset + w * 8 ≤ length input
    → take (offset + w * 8 - offset) (drop offset input) ≡ s
    → cut_segments input (offset + w * 8) sizes ≡ ok segments
    → cut_segments input offset (w ∷ sizes) ≡ ok (record { bytes = s } ∷ segments)
unfolding cut_segments from_bytes
cut_segments_step input offset w sizes s aligned inside cut rest = ground arith

-- The body behind `front` is cut into the segments that it holds.
pub cut_segments-concat :
    (ss : List Bytes) (front back : Bytes) (offset : ℕ)
    → All IsAligned ss
    → length front ≡ offset
    → cut_segments (front ++ (concat ss ++ back)) offset (map words_of ss) ≡ ok (segments_of ss)
unfolding concat
cut_segments-concat [] front back offset a at = unfold cut_segments in refl
cut_segments-concat (s ∷ ss) front back offset (aligned, a) at =
    ap (λ (t : Bytes). cut_segments (front ++ t) offset (words_of s ∷ map words_of ss))
      (append_assoc s (concat ss) back)
    ∙ cut_segments_step _ offset (words_of s) (map words_of ss) s aligned
        (omega (
          arith,
          length-append front (s ++ (concat ss ++ back)),
          length-append s (concat ss ++ back),
        ))
        (ap (take (offset + words_of s * 8 - offset)) (drop-append offset front _ at)
          ∙ take-append _ s _ (omega arith))
        (ap (λ (t : Bytes). cut_segments t (offset + words_of s * 8) (map words_of ss))
            (sym (append_assoc front s (concat ss ++ back)))
          ∙ cut_segments-concat ss (front ++ s) back (offset + words_of s * 8) a
              (omega (arith, length-append front s)))

-- The parse of an input whose stages are known.
pub parse_counted_ok :
    (input : Bytes) (limits : FrameLimits) (count table_len total : ℕ) (sizes : List ℕ)
    (segments : List Segment)
    → table_len ≡ (count / 2 + 1) * 8
    → table_len + total * 8 ≤ length input
    → table_len + total * 8 ≤ usize_max
    → read_sizes input limits.max_total_words count 0 0 ≡ ok (sizes, total)
    → cut_segments input table_len sizes ≡ ok segments
    → parse_counted input limits count
      ≡ ok (
          message
            (record {
              segments = segments;
              table_len = table_len;
              encoded_len = table_len + total * 8;
            })
            (drop (table_len + total * 8) input))
unfolding parse_counted
parse_counted_ok input limits count table_len total sizes segments t inside fits read cut =
    ground (arith, whole)
  where
    whole :
        take (length input - (table_len + total * 8)) (drop (table_len + total * 8) input)
        ≡ drop (table_len + total * 8) input
    whole = take_all _ _ (omega (arith, length-drop (table_len + total * 8) input))

pub parse_frame_counted :
    (input : Bytes) (limits : FrameLimits) (encoded_count : ℕ)
    → 4 ≤ length input
    → encoded_count + 1 ≤ u32_max
    → read_u32_le input 0 ≡ ok encoded_count
    → check_segment_count (encoded_count + 1) limits ≡ ok tt
    → parse_frame input limits ≡ parse_counted input limits (encoded_count + 1)
unfolding parse_frame
parse_frame_counted [] limits encoded_count long small read check = absurd (omega arith)
parse_frame_counted (b ∷ bs) limits encoded_count long small read check =
    unfold read_le in ground arith
