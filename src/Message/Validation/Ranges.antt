-- ===== src/Message/Validation/Ranges.antt =====
-- The checks on ranges of crates/capnp-message/src/validation.rs, and the reading of a pointer word.
use capnp_rs_experiment.Prelude.{
  ℕ, ◌+◌, ◌*◌, ◌≤◌, ◌≡◌, refl, ap, sym, true, leb→le, ◌-◌, some, ok_or, length, slice, length-take,
  length-drop, leb, u32_max, usize_max, Settled-fit, arith, Settled, Settled-ok, Settled-err,
  Settled-bind, Settled-map, Settled-ok_or, fit-cases, Settled-weaken, drop,
}
use capnp_rs_experiment.Prelude.Bytes.{Bytes}
use capnp_rs_experiment.Prelude.Int.{ℤ, pos, negsuc}
use capnp_rs_experiment.Message.Error.{
  WireLocation, ValidationError, target_word_overflow, pointer_out_of_bounds,
}
use capnp_rs_experiment.Message.Segments.{MessageSegments, segment}
use capnp_rs_experiment.Message.Validation.{
  check_range_in_segment, check_range, find_segment, read_pointer_and_segment, read_pointer,
  get_range, wire_pointer, positional_target, target_at, signed_target, location_at,
}

-- The words from `location` on lie inside their segment.
pub record Inside (m : MessageSegments) (location : WireLocation) (words : ℕ) : Type 0 where
  pub bytes : Bytes
  pub found : segment m location.segment_id ≡ some bytes
  pub within : 8 * (location.word_offset + words) ≤ length bytes

pub check_range_in_segment-Settled :
    (location : WireLocation) (words : ℕ) (bytes : Bytes)
    → Settled
        (λ _. 8 * (location.word_offset + words) ≤ length bytes)
        (check_range_in_segment location words bytes)
unfolding check_range_in_segment
check_range_in_segment-Settled location words bytes = ground arith

pub check_range-Settled :
    (m : MessageSegments) (location : WireLocation) (words : ℕ)
    → Settled (λ _. Inside m location words) (check_range m location words)
unfolding check_range find_segment
check_range-Settled m location words =
    Settled-bind (λ bytes. segment m location.segment_id ≡ some bytes) _ _ (Settled-ok_or _ _)
      (λ bytes found.
        Settled-weaken _ (check_range_in_segment-Settled location words bytes)
          (λ _ within. record { bytes = bytes; found = found; within = within }))

length-get_range :
    (bytes r : Bytes) (a b : ℕ) → b ≡ a + 8 → get_range bytes a b ≡ some r → length r ≡ 8
length-get_range bytes r a b h e =
    let inside : leb b (length bytes) ≡ true = ground (arith, e) in
    let sliced : slice a b bytes ≡ r = ground (arith, e) in
    omega (
      arith,
      h,
      leb→le b (length bytes) inside,
      sym (ap length sliced),
      length-take (b - a) (drop a bytes),
      length-drop a bytes,
    )

get_range-Settled :
    (bytes : Bytes) (a b : ℕ) (e : ValidationError)
    → b ≡ a + 8
    → Settled (λ r. length r ≡ 8) (ok_or (get_range bytes a b) e)
get_range-Settled bytes a b e h =
    Settled-weaken _ (Settled-ok_or _ e) (λ r found. length-get_range bytes r a b h found)

wire_pointer-Settled :
    (bytes : Bytes)
    → length bytes ≡ 8
    → Settled {E = ValidationError} (λ _. Unit {0}) (wire_pointer bytes)
wire_pointer-Settled bytes h = ground (arith, h)

pub read_pointer_and_segment-Settled :
    (m : MessageSegments) (location : WireLocation)
    → Settled
        (λ r.
          (segment m location.segment_id ≡ some (r.1))
          × (8 * (location.word_offset + 1) ≤ length (r.1)))
        (read_pointer_and_segment m location)
unfolding read_pointer_and_segment find_segment
read_pointer_and_segment-Settled m location =
    Settled-bind (λ bytes. segment m location.segment_id ≡ some bytes) _ _ (Settled-ok_or _ _)
      (λ source found.
        Settled-bind _ _ _ (check_range_in_segment-Settled location 1 source) (λ _ within.
          Settled-fit usize_max (location.word_offset * 8) target_word_overflow _ (λ _.
            Settled-fit usize_max (location.word_offset * 8 + 8) target_word_overflow _ (λ _.
              Settled-bind _ _ _
                (get_range-Settled source (location.word_offset * 8) (location.word_offset * 8 + 8)
                  (pointer_out_of_bounds location) refl)
                (λ bytes eight.
                  Settled-bind _ _ _ (wire_pointer-Settled bytes eight)
                    (λ p _. Settled-ok _ (found, within)))))))

pub read_pointer-Settled :
    (m : MessageSegments) (location : WireLocation)
    → Settled (λ _. Inside m location 1) (read_pointer m location)
unfolding read_pointer
read_pointer-Settled m location =
    Settled-map _ _ _ (read_pointer_and_segment-Settled m location)
      (λ (p, source) (found, within). record { bytes = source; found = found; within = within })

pub positional_target-Settled :
    (location : WireLocation) (offset : ℤ)
    → Settled (λ content. content.word_offset ≤ u32_max) (positional_target location offset)
unfolding positional_target
positional_target-Settled location offset = target-Settled (signed_target location offset)
  where
    target-Settled :
        (target : ℤ)
        → Settled (λ content. content.word_offset ≤ u32_max) (target_at location offset target)
    target-Settled (negsuc n) = Settled-err _
    target-Settled (pos n) =
        Settled-map (λ a. (a ≡ n) × (n ≤ u32_max)) (location_at location.segment_id) _
          (fit-cases u32_max n _) (λ word_offset (e, fits). omega (arith, e, fits))
