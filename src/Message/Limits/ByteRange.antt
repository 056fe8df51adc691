-- ===== src/Message/Limits/ByteRange.antt =====
-- What `try_read_byte_list_fast` in crates/capnp-message/src/validation.rs reads, against the reader for
-- any pointer.
use capnp_rs_experiment.Prelude.{
  ℕ, ◌+◌, ◌*◌, ◌/◌, ◌≤◌, ◌≡◌, refl, ap, sym, ◌∙◌, Bool, true, false, not, Option, none, some,
  Result, ok, panic, ◌>>=◌, ◌>>◌, ok_or, expect_some, length, ltb, ◌==◌, if◌then◌else◌, fit,
  checked_add, checked_mul, u64_max, usize_max, arith, bind_ok, ok_or_ok, if_ok, leb→le,
}
use capnp_rs_experiment.Prelude.Bytes.{Bytes}
use capnp_rs_experiment.Prelude.Int.{ℤ, pos, negsuc}
use capnp_rs_experiment.Wire.Pointer.{
  WirePointer, ElementSize, void, bit, two_bytes, four_bytes, eight_bytes, pointer,
  inline_composite, list, byte, kind, is_null, list_fields, has_kind, ListPointerFields,
}
use capnp_rs_experiment.Message.Error.{
  unknown_segment, target_word_overflow, pointer_out_of_bounds, ValidationError, WireLocation,
}
use capnp_rs_experiment.Message.Segments.{MessageSegments, segment}
use capnp_rs_experiment.Message.Validation.{
  has_size, get_range, wire_pointer, signed_target, positional_target, target_at, location_at,
  check_range_in_segment, read_pointer_and_segment, find_segment,
}
use capnp_rs_experiment.Message.Limits.Agreement.{kind_of_test}
use capnp_rs_experiment.Message.Limits.ByteList.{
  EarlyReturn, null_path, slow_path, target_word, fast_range, fast_list, fast_plan,
}

-- The range that a list pointer leads to, and the bytes in it.
pub record Ranged (source : Bytes) (location : WireLocation) (f : ListPointerFields) (words : ℕ)
    (bytes : Bytes) : Type 0 where
  pub content : WireLocation
  pub target : positional_target location f.offset ≡ ok content
  pub charged : words ≡ (f.count + 7) / 8
  pub checked : check_range_in_segment content ((f.count + 7) / 8) source ≡ ok tt
  pub found :
      get_range source (content.word_offset * 8) (content.word_offset * 8 + f.count) ≡ some bytes

fits_of : (max value v : ℕ) → fit max value ≡ some v → (v ≡ value) × (value ≤ max)
fits_of max value v h = (ground (arith, h), ground (arith, h))

target_of :
    (location : WireLocation) (offset z : ℤ) (target : ℕ)
    → target_word z ≡ some target
    → target_at location offset z ≡ ok (location_at location.segment_id target)
target_of location offset (negsuc n) target h = absurd (cc h)
target_of location offset (pos n) target h = ground (arith, h)

range_fits :
    (location : WireLocation) (words : ℕ) (source : Bytes)
    → length source / 8 ≤ u64_max
    → location.word_offset + words ≤ u64_max
    → ltb (length source / 8) (location.word_offset + words) ≡ false
    → check_range_in_segment location words source ≡ ok tt
unfolding check_range_in_segment
range_fits location words source a b c = ground (arith, a, b, c)

pair_ok :
    {a a' : ℕ} {b b' : Bytes}
    → ◌≡◌ {A = Result EarlyReturn (ℕ × Bytes)} (ok (a, b)) (ok (a', b'))
    → (a ≡ a') × (b ≡ b')
pair_ok h = (cc h, cc h)

fast_range-Ranged :
    (source : Bytes) (f : ListPointerFields) (location : WireLocation) (words : ℕ) (bytes : Bytes)
    → length source / 8 ≤ u64_max
    → fast_range source f location ≡ ok (words, bytes)
    → Ranged source location f words bytes
unfolding fast_range positional_target
fast_range-Ranged source f location words bytes small h =
    let (target, h1, r1) =
      bind_ok (ok_or (target_word (signed_target location f.offset)) slow_path) _ (words, bytes)
        h in
    let (target_end, h2, r2) =
      bind_ok (ok_or (checked_add target ((f.count + 7) / 8)) slow_path) _ (words, bytes) r1 in
    let (inside, r3) = if_ok (ltb (length source / 8) target_end) slow_path _ (words, bytes) r2 in
    let (start, h4, r4) = bind_ok (ok_or (checked_mul target 8) slow_path) _ (words, bytes) r3 in
    let (end, h5, r5) = bind_ok (ok_or (checked_add start f.count) slow_path) _ (words, bytes) r4 in
    let (bytes', h6, r6) =
      bind_ok (ok_or (get_range source start end) slow_path) _ (words, bytes) r5 in
    let e1 =
      target_of location f.offset (signed_target location f.offset) target
        (ok_or_ok _ _ target h1) in
    let (e2, fit2) =
      fits_of usize_max (target + (f.count + 7) / 8) target_end (ok_or_ok _ _ target_end h2) in
    let (e4, _) = fits_of usize_max (target * 8) start (ok_or_ok _ _ start h4) in
    let (e5, _) = fits_of usize_max (start + f.count) end (ok_or_ok _ _ end h5) in
    let (e6, e7) = pair_ok r6 in
    record {
      content = location_at location.segment_id target;
      target = e1;
      charged = sym e6;
      checked =
          range_fits (location_at location.segment_id target) ((f.count + 7) / 8) source small
            (omega (arith, e2, fit2)) (ap (ltb (length source / 8)) (sym e2) ∙ inside);
      found =
          ap (λ a. get_range source a (a + f.count)) (sym e4)
          ∙ ap (get_range source start) (sym e5)
          ∙ ok_or_ok _ _ bytes' h6
          ∙ ap some e7;
    }

size_of_test : (size : ElementSize) → has_size size byte ≡ true → size ≡ byte
size_of_test void h = absurd (cc h)
size_of_test bit h = absurd (cc h)
size_of_test byte h = refl
size_of_test two_bytes h = absurd (cc h)
size_of_test four_bytes h = absurd (cc h)
size_of_test eight_bytes h = absurd (cc h)
size_of_test pointer h = absurd (cc h)
size_of_test inline_composite h = absurd (cc h)

holds_of_not : (b : Bool) → not b ≡ false → b ≡ true
holds_of_not true h = refl
holds_of_not false h = absurd (cc h)

-- The pointer that the shortcut accepts: a near list of bytes.
pub record Accepted (source : Bytes) (p : WirePointer) (location : WireLocation) (words : ℕ)
    (bytes : Bytes) : Type 0 where
  pub fields : ListPointerFields
  pub non_null : is_null p ≡ false
  pub is_list : kind p ≡ list
  pub present : list_fields p ≡ some fields
  pub is_byte : fields.element_size ≡ byte
  pub ranged : Ranged source location fields words bytes

fast_list-Accepted :
    (source : Bytes) (p : WirePointer) (location : WireLocation) (words : ℕ) (bytes : Bytes)
    → length source / 8 ≤ u64_max
    → fast_list source p location ≡ ok (words, bytes)
    → Accepted source p location words bytes
unfolding fast_list
fast_list-Accepted source p location words bytes small h =
    let (non_null, r1) = if_ok (is_null p) null_path _ (words, bytes) h in
    let (a, r2) = if_ok (not (has_kind (kind p) list)) slow_path _ (words, bytes) r1 in
    let (f, present, r3) = bind_ok (expect_some (list_fields p)) _ (words, bytes) r2 in
    let (c, r4) =
      if_ok (not (has_size f.element_size byte)) slow_path (fast_range source f location)
        (words, bytes) r3 in
    record {
      fields = f;
      non_null = non_null;
      is_list = (kind_of_test (kind p)).1 (holds_of_not _ a);
      present = expect_ok_some (list_fields p) f present;
      is_byte = size_of_test f.element_size (holds_of_not _ c);
      ranged = fast_range-Ranged source f location words bytes small r4;
    }
  where
    expect_ok_some :
        (o : Option ListPointerFields) (f : ListPointerFields)
        → expect_some {E = EarlyReturn} o ≡ ok f
        → o ≡ some f
    expect_ok_some none f h = absurd (cc h)
    expect_ok_some (some g) f h = cc h

-- The word that the shortcut reads is the one that the other readers read.
pub record Read (m : MessageSegments) (location : WireLocation) (words : ℕ) (bytes : Bytes)
    : Type 0 where
  pub source : Bytes
  pub word : WirePointer
  pub found : segment m location.segment_id ≡ some source
  pub read : read_pointer_and_segment m location ≡ ok (word, source)
  pub accepted : Accepted source word location words bytes

wire_pointer_other :
    (bytes : Bytes) (p : WirePointer)
    → wire_pointer {E = EarlyReturn} bytes ≡ ok p
    → wire_pointer {E = ValidationError} bytes ≡ ok p
wire_pointer_other bytes p h = other (length bytes == 8) h
  where
    other :
        (b : Bool)
        → ◌≡◌ {A = Result EarlyReturn WirePointer}
            (if b then ok (record { bytes = bytes }) else panic)
            (ok p)
        → ◌≡◌ {A = Result ValidationError WirePointer}
            (if b then ok (record { bytes = bytes }) else panic)
            (ok p)
    other true e = cc e
    other false e = absurd (cc e)

-- `read_pointer_and_segment`, with its parts as parameters.
abbrev read_chain :
    WireLocation
    → Result ValidationError Bytes
    → (Bytes → Result ValidationError (Unit {0}))
    → Option ℕ
    → (ℕ → Option ℕ)
    → (Bytes → ℕ → ℕ → Option Bytes)
    → (Bytes → Result ValidationError WirePointer)
    → Result ValidationError (WirePointer × Bytes)
read_chain location found check start more cut word = do
  source ← found
  check source
  offset ← ok_or start target_word_overflow
  end ← ok_or (more offset) target_word_overflow
  bytes ← ok_or (cut source offset end) (pointer_out_of_bounds location)
  p ← word bytes
  ok (p, source)

read_chain-ok :
    (source taken : Bytes) (location : WireLocation) (offset end : ℕ) (p : WirePointer)
    (found : Result ValidationError Bytes) (check : Bytes → Result ValidationError (Unit {0}))
    (start : Option ℕ) (more : ℕ → Option ℕ) (cut : Bytes → ℕ → ℕ → Option Bytes)
    (word : Bytes → Result ValidationError WirePointer)
    → found ≡ ok source
    → check source ≡ ok tt
    → start ≡ some offset
    → more offset ≡ some end
    → cut source offset end ≡ some taken
    → word taken ≡ ok p
    → read_chain location found check start more cut word ≡ ok (p, source)
read_chain-ok source taken location offset end p found check start more cut word h0 h1 h2 h3 h4 h5 =
    simp (h0, h1, h2, h3, h4, h5)

pub fast_plan-Read :
    (m : MessageSegments) (location : WireLocation) (words : ℕ) (bytes : Bytes)
    → ((source : Bytes) → segment m location.segment_id ≡ some source → length source ≤ usize_max)
    → fast_plan m location ≡ ok (words, bytes)
    → Read m location words bytes
unfolding fast_plan read_pointer_and_segment find_segment
fast_plan-Read m location words bytes short h =
    let (source, h1, r1) =
      bind_ok (ok_or (segment m location.segment_id) slow_path) _ (words, bytes) h in
    let (offset, h2, r2) =
      bind_ok (ok_or (checked_mul location.word_offset 8) slow_path) _ (words, bytes) r1 in
    let (end, h3, r3) = bind_ok (ok_or (checked_add offset 8) slow_path) _ (words, bytes) r2 in
    let (taken, h4, r4) =
      bind_ok (ok_or (get_range source offset end) slow_path) _ (words, bytes) r3 in
    let (p, h5, r5) = bind_ok (wire_pointer taken) _ (words, bytes) r4 in
    let found = ok_or_ok _ _ source h1 in
    let e2 = ok_or_ok _ _ offset h2 in
    let e3 = ok_or_ok _ _ end h3 in
    let e4 : get_range source offset end ≡ some taken = ok_or_ok _ _ taken h4 in
    let (same2, _) = fits_of usize_max (location.word_offset * 8) offset e2 in
    let (same3, _) = fits_of usize_max (offset + 8) end e3 in
    let small = short source found in
    let inside : end ≤ length source = leb→le end (length source) (ground (arith, e4)) in
    let ranged =
      range_fits location 1 source (omega (arith, small))
        (omega (arith, inside, small, same2, same3)) (ground (arith, inside, same2, same3)) in
    record {
      source = source;
      word = p;
      found = found;
      read =
          read_chain-ok source taken location offset end p (find_segment m location)
            (check_range_in_segment location 1) (checked_mul location.word_offset 8)
            (λ a. checked_add a 8) get_range wire_pointer
            (ap (λ o. ok_or o (unknown_segment location.segment_id)) found) ranged e2 e3 e4
            (wire_pointer_other taken p h5);
      accepted = fast_list-Accepted source p location words bytes (omega (arith, small)) r5;
    }
