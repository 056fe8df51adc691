-- ===== src/Message/Limits.antt =====
-- crates/capnp-message/src/validation.rs: a pointer is validated, then its nesting and its traversal
-- charge are accounted for.
pub mod ByteList
pub mod ByteRange
pub mod Shortcut
pub mod Readers
pub mod Agreement
use mathlib.Core.Option
use capnp_rs_experiment.Prelude.{
  ℕ, ◌+◌, ◌/◌, ◌%◌, Bool, true, false, not, ◌&&◌, ◌||◌, Option, none, some, Result, ok, err, panic,
  ok_or, expect_some, map_ok, length, take, leb, ltb, ◌==◌, if◌then◌else◌, fit, checked_add,
  checked_mul, u32_max, u64_max,
}
use capnp_rs_experiment.Prelude.Bytes.{Bytes}
use capnp_rs_experiment.Prelude.Int.{ℤ, pos, negsuc}
use capnp_rs_experiment.Wire.Pointer.{
  PointerKind, struct, list, far, other, ElementSize, void, byte, inline_composite, WirePointer,
  kind, is_null, struct_fields, list_fields, far_fields, has_kind, FarPointerFields,
  StructPointerFields,
}
use capnp_rs_experiment.Message.Budget.{TraversalBudget, NestingLimit, descend}
use capnp_rs_experiment.Message.Error.{
  WireLocation, root_location, StructRef, ListRef, ResolvedPointer, null_ref, struct_ref, list_ref,
  capability_ref, ValidationError, target_word_overflow, object_out_of_bounds, BoundedPointer,
  TraversalError, validation,
}
use capnp_rs_experiment.Message.Metered.{Metered, ◌>>=◌, ◌>>◌, done, checked, nested, charge}
use capnp_rs_experiment.Message.Segments.{MessageSegments, segment}
use capnp_rs_experiment.Message.Validation.{
  read_pointer, read_pointer_and_segment, validate_wire_pointer, positional_target,
  check_range_in_segment, list_word_count, has_size, get_range, wire_pointer, signed_target,
}

abbrev pub landing_pad_words : Option FarPointerFields → ℕ
landing_pad_words none = 0
landing_pad_words (some fields) = if fields.double_far then 2 else 1

-- `value.inline_struct_size == Some((0, 0))`
abbrev is_zero_sized : Option (ℕ × ℕ) → Bool
is_zero_sized none = false
is_zero_sized (some (data_words, pointer_count)) = data_words == 0 && pointer_count == 0

abbrev pub target_words : ResolvedPointer → Result ValidationError ℕ
target_words null_ref = ok 0
target_words (capability_ref value) = ok 0
target_words (struct_ref value) = ok (value.data_words + value.pointer_count)
target_words (list_ref value) =
    let physical =
      value.content_words + (if has_size value.element_size inline_composite then 1 else 0) in
    let amplified =
      (if has_size value.element_size void || is_zero_sized value.inline_struct_size
        then value.element_count
        else 0) in
    ok_or (checked_add physical amplified) target_word_overflow

abbrev pub with_landing_pad : ℕ → Result ValidationError ℕ → Result ValidationError ℕ
with_landing_pad pad (ok words) = ok_or (checked_add words pad) target_word_overflow
with_landing_pad pad (err e) = err e
with_landing_pad pad panic = panic

unfoldable pub traversal_charge : WirePointer → ResolvedPointer → Result ValidationError ℕ
traversal_charge p resolved =
    with_landing_pad (landing_pad_words (far_fields p)) (target_words resolved)

-- The `match` for the nesting limit of the children.
abbrev pub child_limit : {B : Type 0} → NestingLimit → ResolvedPointer → Metered B NestingLimit
child_limit limit (struct_ref value) = nested (descend limit)
child_limit limit (list_ref value) = nested (descend limit)
child_limit limit null_ref = done limit
child_limit limit (capability_ref value) = done limit

abbrev pub bounded : ResolvedPointer → NestingLimit → ℕ → BoundedPointer
bounded resolved limit words = record {
  pointer = resolved;
  child_nesting = limit;
  charged_words = words;
}

-- `first_chunk::<8>()`, and its error, whose `?` comes before the chunk is looked at.
abbrev root_chunk : Bytes → Option ℕ → Result ValidationError WirePointer
root_chunk first none = err target_word_overflow
root_chunk first (some segment_words) =
    if leb 8 (length first)
    then wire_pointer (take 8 first)
    else err (object_out_of_bounds root_location 1 segment_words)

unfoldable pub root_word : MessageSegments → Result ValidationError WirePointer
root_word m = root_chunk m.first (fit u64_max (length m.first / 8))

module _ {B : Type 0} (T : TraversalBudget B) (m : MessageSegments) where
  -- The statements that follow the reading of the pointer, the same in every reader: they are
  -- `validate_root_pointer_with_limits_slow` at the root.
  unfoldable pub validate_read_pointer_with_limits :
      WireLocation → WirePointer → NestingLimit → Metered B BoundedPointer
  validate_read_pointer_with_limits location p limit = do
    resolved ← checked (validate_wire_pointer m location p)
    child_nesting ← child_limit limit resolved
    charged_words ← checked (traversal_charge p resolved)
    charge T charged_words
    done (bounded resolved child_nesting charged_words)

  unfoldable pub validate_pointer_with_limits :
      WireLocation → NestingLimit → Metered B BoundedPointer
  validate_pointer_with_limits location limit = do
    p ← checked (read_pointer m location)
    validate_read_pointer_with_limits location p limit

  -- The branch for a struct pointer, of the struct reader and of the root reader.
  unfoldable pub validate_near_struct :
      WireLocation → WirePointer → Bytes → NestingLimit → Metered B BoundedPointer
  validate_near_struct location p source limit = do
    fields ← checked (expect_some (struct_fields p))
    content ← checked (positional_target location fields.offset)
    let charged_words = fields.data_words + fields.pointer_count
    checked (check_range_in_segment content charged_words source)
    child_nesting ← nested (descend limit)
    charge T charged_words
    done (
        bounded
          (struct_ref (record {
            content = content;
            data_words = fields.data_words;
            pointer_count = fields.pointer_count;
          }))
          child_nesting charged_words)

  abbrev pub validate_struct_or_other :
      WireLocation → NestingLimit → WirePointer × Bytes → Metered B BoundedPointer
  validate_struct_or_other location limit (p, source) =
      if not (is_null p) && has_kind (kind p) struct
      then validate_near_struct location p source limit
      else validate_read_pointer_with_limits location p limit

  unfoldable pub validate_struct_pointer_with_limits :
      WireLocation → NestingLimit → Metered B BoundedPointer
  validate_struct_pointer_with_limits location limit = do
    r ← checked (read_pointer_and_segment m location)
    validate_struct_or_other location limit r

  -- The branch for a list of another element size than inline-composite.
  unfoldable pub validate_near_list :
      WireLocation → ℤ → ElementSize → ℕ → Bytes → NestingLimit → Metered B BoundedPointer
  validate_near_list location offset element_size count source limit = do
    content ← checked (positional_target location offset)
    words ← checked (list_word_count element_size count)
    checked (check_range_in_segment content words source)
    let amplified = (if has_size element_size void then count else 0)
    charged_words ← checked (ok_or (checked_add words amplified) target_word_overflow)
    child_nesting ← nested (descend limit)
    charge T charged_words
    content_words ← checked (ok_or (fit u32_max words) target_word_overflow)
    done (
        bounded
          (list_ref (record {
            content = content;
            element_size = element_size;
            element_count = count;
            content_words = content_words;
            inline_struct_size = none;
          }))
          child_nesting charged_words)

  abbrev pub validate_list_or_other :
      WireLocation → NestingLimit → WirePointer × Bytes → Metered B BoundedPointer
  validate_list_or_other location limit (p, source) =
      if not (is_null p) && has_kind (kind p) list
      then checked (expect_some (list_fields p)) >>= (λ fields.
        if not (has_size fields.element_size inline_composite)
        then validate_near_list location fields.offset fields.element_size fields.count source limit
        else validate_read_pointer_with_limits location p limit)
      else validate_read_pointer_with_limits location p limit

  unfoldable pub validate_list_pointer_with_limits :
      WireLocation → NestingLimit → Metered B BoundedPointer
  validate_list_pointer_with_limits location limit = do
    r ← checked (read_pointer_and_segment m location)
    validate_list_or_other location limit r

  unfoldable pub validate_root_struct_pointer_with_limits : NestingLimit → Metered B BoundedPointer
  validate_root_struct_pointer_with_limits limit = do
    p ← checked (root_word m)
    validate_struct_or_other root_location limit (p, m.first)
