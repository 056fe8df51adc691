-- ===== src/Io/Framing/Prepared.antt =====
-- `PreparedSegments::new` and `encode_prepared_frame` against `encode_frame`.
use capnp_rs_experiment.Prelude.{
  ℕ, ◌%◌, ◌^◌, ◌≡◌, refl, sym, ap, ap₂, ◌∙◌, List, [], ◌∷◌, map, length, length-map, All, ok, arith,
}
use capnp_rs_experiment.Prelude.Bytes.{Bytes}
use capnp_rs_experiment.Io.Framing.{FrameLimits}
use capnp_rs_experiment.Io.Framing.Encode.{
  PreparedSegments, prepare, validate_output_segments, new_prepared, words_of, write_frame,
  encode_frame, encode_prepared_frame,
}
use capnp_rs_experiment.Io.Framing.Layout.{IsU32}
use capnp_rs_experiment.Io.Framing.Checks.{Checked, Encoded, total_of-Checked, encode_frame-Encoded}

prepared-words :
    (ss : List Bytes)
    → All IsU32 (map words_of ss)
    → map (λ s. s.word_count) (map prepare ss) ≡ map words_of ss
unfolding prepare
prepared-words [] u = refl
prepared-words (s ∷ ss) (small, u) = ap₂ ◌∷◌ (omega arith) (prepared-words ss u)

prepared-bytes : (ss : List Bytes) → map (λ s. s.bytes) (map prepare ss) ≡ ss
unfolding prepare
prepared-bytes [] = refl
prepared-bytes (s ∷ ss) = ap (◌∷◌ s) (prepared-bytes ss)

prepared_parts :
    (ss : List Bytes) (limits : FrameLimits) {p : PreparedSegments}
    → new_prepared ss limits ≡ ok p
    → (encode_frame ss limits ≡ ok (write_frame (length ss) (map words_of ss) ss))
      × (p.segments ≡ map prepare ss)
unfolding new_prepared encode_frame validate_output_segments
prepared_parts [] limits h = absurd cc
prepared_parts (s ∷ ss) limits h = ground arith

-- When the checks accept the segments, writing them later, prepared, gives the frame that
-- `encode_frame` writes at once.
pub encode_prepared_frame-new_prepared :
    (ss : List Bytes) (limits : FrameLimits) {p : PreparedSegments}
    → new_prepared ss limits ≡ ok p
    → encode_frame ss limits ≡ ok (encode_prepared_frame p)
unfolding encode_prepared_frame
encode_prepared_frame-new_prepared ss limits {p} h =
    encoded
    ∙ ap ok (
        ap (λ (n : ℕ). write_frame n (map words_of ss) ss) count
        ∙ ap₂ (write_frame (length p.segments % 2 ^ 32)) words bytes)
  where
    encoded : encode_frame ss limits ≡ ok (write_frame (length ss) (map words_of ss) ss)
    encoded = (prepared_parts ss limits h).0

    same : p.segments ≡ map prepare ss
    same = (prepared_parts ss limits h).1

    e : Encoded ss limits (write_frame (length ss) (map words_of ss) ss)
    e = encode_frame-Encoded ss limits encoded

    c : Checked limits.max_total_words 0 e.all_words ss
    c = total_of-Checked limits.max_total_words ss 0 0 e.totalled (omega arith) (omega arith)

    count : length ss ≡ length p.segments % 2 ^ 32
    count = omega (arith, ap length same, length-map prepare ss, e.small_count)

    words : map words_of ss ≡ map (λ s. s.word_count) p.segments
    words = sym (ap (map (λ s. s.word_count)) same ∙ prepared-words ss c.small)

    bytes : ss ≡ map (λ s. s.bytes) p.segments
    bytes = sym (ap (map (λ s. s.bytes)) same ∙ prepared-bytes ss)
