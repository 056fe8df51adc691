-- ===== src/Message/Limits/Readers.antt =====
-- The readers for a struct, a list and the root in crates/capnp-message/src/validation.rs agree with the
-- reader for any pointer.
use capnp_rs_experiment.Prelude.{
  ℕ, ◌+◌, ◌^◌, ◌≤◌, ◌<◌, ◌≡◌, ap, ◌∙◌, false, none, some, ok, Result-cases, Bool-cases, inl, inr,
  arith, fit, checked_add, if◌then◌else◌, u32_max,
}
use capnp_rs_experiment.Prelude.Bytes.{Bytes}
use capnp_rs_experiment.Prelude.Int.{ℤ}
use capnp_rs_experiment.Wire.Pointer.{
  struct, list, ElementSize, void, bit, byte, two_bytes, four_bytes, eight_bytes, pointer,
  inline_composite, WirePointer, kind, is_null, struct_fields, list_fields, far_fields,
  StructPointerFields, ListPointerFields,
}
use capnp_rs_experiment.Message.Budget.{TraversalBudget, NestingLimit}
use capnp_rs_experiment.Message.Error.{WireLocation, ListRef, list_ref}
use capnp_rs_experiment.Message.Segments.{MessageSegments, segment}
use capnp_rs_experiment.Message.Validation.{
  positional_target, check_range_in_segment, check_range, find_segment, validate_wire_pointer,
  validate_struct, validate_struct_at, validate_list, validate_list_at, validate_plain_list,
  list_word_count, has_size,
}
use capnp_rs_experiment.Message.Limits.{
  traversal_charge, validate_near_struct, validate_near_list, validate_read_pointer_with_limits,
}

-- The target stands in the pointer's own segment.
pub positional_target-segment :
    (location content : WireLocation) (offset : ℤ)
    → positional_target location offset ≡ ok content
    → content.segment_id ≡ location.segment_id
unfolding positional_target
positional_target-segment location content offset e = ground (arith, e)

struct_not_far : (p : WirePointer) → kind p ≡ struct → far_fields p ≡ none
unfolding far_fields
struct_not_far p h = ground (arith, h)

module _ {B : Type 0} (T : TraversalBudget B) (m : MessageSegments) where
  pub near_struct_lem :
      (location : WireLocation) (p : WirePointer) (source : Bytes) (limit : NestingLimit) (b : B)
      (f : StructPointerFields)
      → segment m location.segment_id ≡ some source
      → is_null p ≡ false
      → kind p ≡ struct
      → struct_fields p ≡ some f
      → checked_add (f.data_words + f.pointer_count) 0 ≡ some (f.data_words + f.pointer_count)
      → validate_near_struct T m location p source limit b
        ≡ validate_read_pointer_with_limits T m location p limit b
  unfolding validate_near_struct validate_read_pointer_with_limits validate_wire_pointer
      validate_struct validate_struct_at check_range find_segment traversal_charge
  near_struct_lem location p source limit b f found non_null is_struct present fits =
      let not_far = struct_not_far p is_struct in
      elim (Result-cases (positional_target location f.offset)) [
        | inl (content, e) ↦
            let same =
              ap (segment m) (positional_target-segment location content f.offset e) ∙ found in
            elim (Result-cases
              (check_range_in_segment content (f.data_words + f.pointer_count) source)) [
                | inl (u, c) ↦ simp (present, e, c, non_null, is_struct, same, not_far, fits)
                | inr (inl (x, c)) ↦ simp (present, e, c, non_null, is_struct, same, not_far)
                | inr (inr c) ↦ simp (present, e, c, non_null, is_struct, same, not_far)
              ]
        | inr (inl (x, e)) ↦ simp (present, e, non_null, is_struct)
        | inr (inr e) ↦ simp (present, e, non_null, is_struct)
      ]

list_not_far : (p : WirePointer) → kind p ≡ list → far_fields p ≡ none
unfolding far_fields
list_not_far p h = ground (arith, h)

-- A list has at most as many words as elements, if it is not inline-composite.
list_word_count_le :
    (size : ElementSize) (count words : ℕ)
    → count < 2 ^ 29
    → list_word_count size count ≡ ok words
    → words ≤ count
unfolding list_word_count
list_word_count_le void count words small e = ground (arith, e)
list_word_count_le bit count words small e = ground (arith, e)
list_word_count_le byte count words small e = ground (arith, e)
list_word_count_le two_bytes count words small e = ground (arith, e)
list_word_count_le four_bytes count words small e = ground (arith, e)
list_word_count_le eight_bytes count words small e = ground (arith, e)
list_word_count_le pointer count words small e = ground (arith, e)
list_word_count_le inline_composite count words small e = ground (arith, e)

abbrev plain_list : WireLocation → ElementSize → ℕ → ℕ → ListRef
plain_list content size count words = record {
  content = content;
  element_size = size;
  element_count = count;
  content_words = words;
  inline_struct_size = none;
}

abbrev amplified : ElementSize → ℕ → ℕ
amplified size count = if has_size size void then count else 0

plain_list_charge :
    (p : WirePointer) (content : WireLocation) (size : ElementSize) (count words : ℕ)
    → far_fields p ≡ none
    → has_size size inline_composite ≡ false
    → count < 2 ^ 29
    → words ≤ count
    → (traversal_charge p (list_ref (plain_list content size count words))
        ≡ ok (words + amplified size count))
      × (checked_add words (amplified size count) ≡ some (words + amplified size count))
unfolding traversal_charge
plain_list_charge p content size count words not_far plain small short =
    elim (Bool-cases (has_size size void)) [
      | inl v ↦ ground (arith, not_far, plain, small, short, v)
      | inr v ↦ ground (arith, not_far, plain, small, short, v)
    ]

module _ {B : Type 0} (T : TraversalBudget B) (m : MessageSegments) where
  pub near_list_lem :
      (location : WireLocation) (p : WirePointer) (source : Bytes) (limit : NestingLimit) (b : B)
      (f : ListPointerFields)
      → segment m location.segment_id ≡ some source
      → is_null p ≡ false
      → kind p ≡ list
      → list_fields p ≡ some f
      → has_size f.element_size inline_composite ≡ false
      → f.count < 2 ^ 29
      → validate_near_list T m location f.offset f.element_size f.count source limit b
        ≡ validate_read_pointer_with_limits T m location p limit b
  unfolding validate_near_list validate_read_pointer_with_limits validate_wire_pointer validate_list
      validate_list_at validate_plain_list check_range find_segment
  near_list_lem location p source limit b f found non_null is_list present plain small =
      let not_far = list_not_far p is_list in
      elim (Result-cases (positional_target location f.offset)) [
        | inl (content, e) ↦
            let same =
              ap (segment m) (positional_target-segment location content f.offset e) ∙ found in
            elim (Result-cases (list_word_count f.element_size f.count)) [
              | inl (words, w) ↦
                  let short = list_word_count_le f.element_size f.count words small w in
                  let fits : fit u32_max words ≡ some words = ground (arith, short, small) in
                  elim (Result-cases (check_range_in_segment content words source)) [
                    | inl (u, c) ↦
                        let charged =
                          plain_list_charge p content f.element_size f.count words not_far plain
                            small short in
                        simp (
                          present, e, w, c, non_null, is_list, same, plain, fits, charged.0,
                          charged.1,
                        )
                    | inr (inl (x, c)) ↦ simp (present, e, w, c, non_null, is_list, same, plain)
                    | inr (inr c) ↦ simp (present, e, w, c, non_null, is_list, same, plain)
                  ]
              | inr (inl (x, w)) ↦ simp (present, e, w, non_null, is_list, plain)
              | inr (inr w) ↦ simp (present, e, w, non_null, is_list, plain)
            ]
        | inr (inl (x, e)) ↦ simp (present, e, non_null, is_list, plain)
        | inr (inr e) ↦ simp (present, e, non_null, is_list, plain)
      ]
