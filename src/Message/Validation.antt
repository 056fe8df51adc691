-- ===== src/Message/Validation.antt =====
-- crates/capnp-message/src/validation.rs: a pointer is read, followed through its far pointers, and
-- resolved, with every range checked against its segment.
pub mod Ranges
pub mod Bounds
use capnp_rs_experiment.Prelude.{
  ℕ, ◌+◌, ◌*◌, ◌/◌, Bool, true, false, not, ◌&&◌, Option, none, some, Result, ok, err, panic, ◌>>=◌,
  ◌>>◌, map_ok, ok_or, expect_some, length, slice, ltb, leb, ◌==◌, if◌then◌else◌, fit, checked_add,
  checked_mul, u32_max, u64_max,
}
use capnp_rs_experiment.Prelude.Bytes.{Bytes}
use capnp_rs_experiment.Prelude.Int.{ℤ, pos, negsuc, pos_part, neg_part, sub_ℕ}
use capnp_rs_experiment.Wire.Pointer.{
  PointerKind, struct, list, far, other, ElementSize, void, bit, byte, two_bytes, four_bytes,
  eight_bytes, pointer, inline_composite, WirePointer, kind, is_null, is_capability,
  capability_index, lower32, struct_fields, list_fields, far_fields, inline_composite_tag_fields,
  has_kind, size_code,
}
use capnp_rs_experiment.Message.Error.{
  WireLocation, StructRef, ListRef, CapabilityRef, ResolvedPointer, null_ref, struct_ref, list_ref,
  capability_ref, ValidationError, unknown_segment, pointer_out_of_bounds, target_before_segment,
  target_word_overflow, object_out_of_bounds, reserved_pointer, invalid_far_landing_pad,
  invalid_double_far_tag, invalid_inline_composite_tag, inline_composite_overrun,
}
use capnp_rs_experiment.Message.Segments.{MessageSegments, segment}

abbrev pub location_at : ℕ → ℕ → WireLocation
location_at segment_id word_offset = record { segment_id = segment_id; word_offset = word_offset }

-- `i64::from(location.word_offset) + 1 + i64::from(offset)`
abbrev pub signed_target : WireLocation → ℤ → ℤ
signed_target location offset = sub_ℕ (location.word_offset + 1 + pos_part offset) (neg_part offset)

abbrev pub target_at : WireLocation → ℤ → ℤ → Result ValidationError WireLocation
target_at location offset (negsuc n) = err (target_before_segment location offset)
target_at location offset (pos target) =
    map_ok (location_at location.segment_id) (ok_or (fit u32_max target) target_word_overflow)

unfoldable pub positional_target : WireLocation → ℤ → Result ValidationError WireLocation
positional_target location offset = target_at location offset (signed_target location offset)

unfoldable pub add_words : WireLocation → ℕ → Result ValidationError WireLocation
add_words location words = do
  offset ← ok_or (checked_add location.word_offset words) target_word_overflow
  word_offset ← ok_or (fit u32_max offset) target_word_overflow
  ok (location_at location.segment_id word_offset)

-- `count.checked_add(size - 1)? / size`
abbrev rounded_up : ℕ → ℕ → ℕ → Result ValidationError ℕ
rounded_up count more size =
    map_ok (λ sum. sum / size) (ok_or (checked_add count more) target_word_overflow)

unfoldable pub list_word_count : ElementSize → ℕ → Result ValidationError ℕ
list_word_count void count = ok 0
list_word_count bit count = rounded_up count 63 64
list_word_count byte count = rounded_up count 7 8
list_word_count two_bytes count = rounded_up count 3 4
list_word_count four_bytes count = rounded_up count 1 2
list_word_count eight_bytes count = ok count
list_word_count pointer count = ok count
list_word_count inline_composite count = err invalid_inline_composite_tag

unfoldable pub check_range_in_segment : WireLocation → ℕ → Bytes → Result ValidationError (Unit {0})
check_range_in_segment location words bytes = do
  segment_words ← ok_or (fit u64_max (length bytes / 8)) target_word_overflow
  end ← ok_or (checked_add location.word_offset words) target_word_overflow
  if ltb segment_words end then err (object_out_of_bounds location words segment_words) else ok tt

unfoldable pub find_segment : MessageSegments → WireLocation → Result ValidationError Bytes
find_segment m location =
    ok_or (segment m location.segment_id) (unknown_segment location.segment_id)

-- `check_range` has the text of `check_range_in_segment`, on the segment that it finds.
unfoldable pub check_range : MessageSegments → WireLocation → ℕ → Result ValidationError (Unit {0})
check_range m location words = do
  bytes ← find_segment m location
  check_range_in_segment location words bytes

-- `bytes.get(a..b)`
abbrev pub get_range : Bytes → ℕ → ℕ → Option Bytes
get_range bytes a b = if leb a b && leb b (length bytes) then some (slice a b bytes) else none

-- `try_into` an array of eight bytes, with its `expect`, and `from_le_bytes`.
abbrev pub wire_pointer : {E : Type 0} → Bytes → Result E WirePointer
wire_pointer bytes = if length bytes == 8 then ok (record { bytes = bytes }) else panic

unfoldable pub read_pointer_and_segment :
    MessageSegments → WireLocation → Result ValidationError (WirePointer × Bytes)
read_pointer_and_segment m location = do
  source ← find_segment m location
  check_range_in_segment location 1 source
  byte_offset ← ok_or (checked_mul location.word_offset 8) target_word_overflow
  byte_end ← ok_or (checked_add byte_offset 8) target_word_overflow
  bytes ← ok_or (get_range source byte_offset byte_end) (pointer_out_of_bounds location)
  p ← wire_pointer bytes
  ok (p, source)

unfoldable pub read_pointer : MessageSegments → WireLocation → Result ValidationError WirePointer
read_pointer m location = map_ok (λ r. r.0) (read_pointer_and_segment m location)

unfoldable pub validate_struct_at :
    MessageSegments → WireLocation → WirePointer → Result ValidationError ResolvedPointer
validate_struct_at m content p = do
  fields ← expect_some (struct_fields p)
  check_range m content (fields.data_words + fields.pointer_count)
  ok (
      struct_ref (record {
        content = content;
        data_words = fields.data_words;
        pointer_count = fields.pointer_count;
      }))

unfoldable pub validate_struct :
    MessageSegments → WireLocation → WirePointer → Result ValidationError ResolvedPointer
validate_struct m location p = do
  fields ← expect_some (struct_fields p)
  content ← positional_target location fields.offset
  validate_struct_at m content p

-- The branch of `validate_list_at` for an inline-composite list.
unfoldable pub validate_inline_composite :
    MessageSegments → WireLocation → ℕ → Result ValidationError ResolvedPointer
validate_inline_composite m target declared_words = do
  check_range m target (declared_words + 1)
  tag ← read_pointer m target
  tag_fields ← ok_or (inline_composite_tag_fields tag) invalid_inline_composite_tag
  required_words ←
      ok_or
        (checked_mul (tag_fields.data_words + tag_fields.pointer_count) tag_fields.element_count)
        target_word_overflow
  if ltb declared_words required_words
      then err (inline_composite_overrun required_words declared_words)
      else do
        word_offset ← ok_or (fit u32_max (target.word_offset + 1)) target_word_overflow
        ok (
            list_ref (record {
              content = location_at target.segment_id word_offset;
              element_size = inline_composite;
              element_count = tag_fields.element_count;
              content_words = declared_words;
              inline_struct_size = some (tag_fields.data_words, tag_fields.pointer_count);
            }))

-- The branch for the other element sizes.
unfoldable pub validate_plain_list :
    MessageSegments → WireLocation → ElementSize → ℕ → Result ValidationError ResolvedPointer
validate_plain_list m target element_size count = do
  words ← list_word_count element_size count
  check_range m target words
  content_words ← ok_or (fit u32_max words) target_word_overflow
  ok (
      list_ref (record {
        content = target;
        element_size = element_size;
        element_count = count;
        content_words = content_words;
        inline_struct_size = none;
      }))

abbrev pub has_size : ElementSize → ElementSize → Bool
has_size a b = size_code a == size_code b

unfoldable pub validate_list_at :
    MessageSegments → WireLocation → WirePointer → Result ValidationError ResolvedPointer
validate_list_at m target p = do
  fields ← expect_some (list_fields p)
  if has_size fields.element_size inline_composite
      then validate_inline_composite m target fields.count
      else validate_plain_list m target fields.element_size fields.count

unfoldable pub validate_list :
    MessageSegments → WireLocation → WirePointer → Result ValidationError ResolvedPointer
validate_list m location p = do
  fields ← expect_some (list_fields p)
  target ← positional_target location fields.offset
  validate_list_at m target p

-- The two arms for `PointerKind::Other`.
abbrev pub validate_other : WirePointer → Result ValidationError ResolvedPointer
validate_other p =
    if is_capability p
    then map_ok (λ i. capability_ref (record { index = i })) (expect_some (capability_index p))
    else err (reserved_pointer (lower32 p))

-- The `match` on the kind, in `validate_non_far`.
abbrev pub non_far_arm :
    MessageSegments
    → WireLocation
    → WirePointer
    → PointerKind
    → Result ValidationError ResolvedPointer
non_far_arm m location p struct = validate_struct m location p
non_far_arm m location p list = validate_list m location p
non_far_arm m location p other = validate_other p
non_far_arm m location p far = err invalid_far_landing_pad

unfoldable pub validate_non_far :
    MessageSegments → WireLocation → WirePointer → Result ValidationError ResolvedPointer
validate_non_far m location p = non_far_arm m location p (kind p)

-- The `match` on the kind of the tag behind a double far pointer.
abbrev pub tag_arm :
    MessageSegments
    → WireLocation
    → WirePointer
    → PointerKind
    → Result ValidationError ResolvedPointer
tag_arm m object tag struct = validate_struct_at m object tag
tag_arm m object tag list = validate_list_at m object tag
tag_arm m object tag _ = err invalid_double_far_tag

-- `validate_far` from the check of the first pad's kind on, for a double far pointer.
unfoldable pub validate_double_far :
    MessageSegments → WireLocation → WirePointer → Result ValidationError ResolvedPointer
validate_double_far m pad first =
    if not (has_kind (kind first) far) then err invalid_far_landing_pad else do
      first_far ← expect_some (far_fields first)
      word_offset ← ok_or (fit u32_max (pad.word_offset + 1)) target_word_overflow
      tag ← read_pointer m (location_at pad.segment_id word_offset)
      tag_arm m (location_at first_far.segment_id first_far.landing_pad_word) tag (kind tag)

unfoldable pub validate_far : MessageSegments → WirePointer → Result ValidationError ResolvedPointer
validate_far m p = do
  fields ← expect_some (far_fields p)
  let pad = location_at fields.segment_id fields.landing_pad_word
  check_range m pad (if fields.double_far then 2 else 1)
  first ← read_pointer m pad
  if not fields.double_far
      then (if has_kind (kind first) far
          then err invalid_far_landing_pad
          else validate_non_far m pad first)
      else validate_double_far m pad first

-- The `match` on the kind, in `validate_wire_pointer`.
abbrev pub wire_arm :
    MessageSegments
    → WireLocation
    → WirePointer
    → PointerKind
    → Result ValidationError ResolvedPointer
wire_arm m location p struct = validate_struct m location p
wire_arm m location p list = validate_list m location p
wire_arm m location p far = validate_far m p
wire_arm m location p other = validate_other p

unfoldable pub validate_wire_pointer :
    MessageSegments → WireLocation → WirePointer → Result ValidationError ResolvedPointer
validate_wire_pointer m location p =
    if is_null p then ok null_ref else wire_arm m location p (kind p)

unfoldable pub validate_pointer :
    MessageSegments → WireLocation → Result ValidationError ResolvedPointer
validate_pointer m location = do p ← read_pointer m location; validate_wire_pointer m location p
