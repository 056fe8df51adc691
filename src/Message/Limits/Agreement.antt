-- ===== src/Message/Limits/Agreement.antt =====
-- The readers for a struct, a list and the root in crates/capnp-message/src/validation.rs, from the
-- reading of the pointer word on.
use capnp_rs_experiment.Prelude.{
  ◌+◌, ◌/◌, ◌^◌, ◌<◌, ◌≡◌, refl, true, false, some, Result-cases, Bool-cases, inl, inr, arith,
  checked_add, Settled-value, length, length-take, take, ◌==◌, u64_max, ltb, leb,
}
use capnp_rs_experiment.Prelude.Bytes.{Bytes}
use capnp_rs_experiment.Wire.Pointer.{
  PointerKind, struct, list, far, other, inline_composite, WirePointer, kind, is_null,
  struct_fields, list_fields, has_kind, StructPointerFields, ListPointerFields, upper32,
}
use capnp_rs_experiment.Message.Budget.{TraversalBudget, NestingLimit}
use capnp_rs_experiment.Message.Error.{WireLocation, root_location}
use capnp_rs_experiment.Message.Segments.{MessageSegments, segment}
use capnp_rs_experiment.Message.Validation.{
  read_pointer, read_pointer_and_segment, find_segment, check_range_in_segment, has_size,
}
use capnp_rs_experiment.Message.Validation.Ranges.{read_pointer_and_segment-Settled}
use capnp_rs_experiment.Message.Validation.Bounds.{struct_fields-some, list_fields-some}
use capnp_rs_experiment.Message.Limits.{
  validate_pointer_with_limits, validate_struct_pointer_with_limits,
  validate_list_pointer_with_limits, validate_root_struct_pointer_with_limits,
  validate_struct_or_other, validate_list_or_other, validate_read_pointer_with_limits, root_word,
}
use capnp_rs_experiment.Message.Limits.Readers.{near_struct_lem, near_list_lem}

-- The fields of a struct pointer are of 16 bits, so that their sum can be charged.
struct_fields-charge :
    (p : WirePointer) (f : StructPointerFields)
    → struct_fields p ≡ some f
    → checked_add (f.data_words + f.pointer_count) 0 ≡ some (f.data_words + f.pointer_count)
unfolding struct_fields
struct_fields-charge p f e = ground (arith, e)

pub list_fields-count :
    (p : WirePointer) (f : ListPointerFields) → list_fields p ≡ some f → f.count < 2 ^ 29
unfolding list_fields upper32
list_fields-count p f e = ground (arith, e)

pub kind_of_test :
    (k : PointerKind)
    → (has_kind k struct ≡ true → k ≡ struct) × (has_kind k list ≡ true → k ≡ list)
kind_of_test struct = (λ h. refl, λ h. absurd (cc h))
kind_of_test list = (λ h. absurd (cc h), λ h. refl)
kind_of_test far = (λ h. absurd (cc h), λ h. absurd (cc h))
kind_of_test other = (λ h. absurd (cc h), λ h. absurd (cc h))

module _ {B : Type 0} (T : TraversalBudget B) (m : MessageSegments) where
  struct_or_other_lem :
      (location : WireLocation) (p : WirePointer) (source : Bytes) (limit : NestingLimit) (b : B)
      → segment m location.segment_id ≡ some source
      → validate_struct_or_other T m location limit (p, source) b
        ≡ validate_read_pointer_with_limits T m location p limit b
  struct_or_other_lem location p source limit b found = elim (Bool-cases (is_null p)) [
    | inl null ↦ simp null
    | inr non_null ↦ elim (Bool-cases (has_kind (kind p) struct)) [
      | inr not_struct ↦ simp (non_null, not_struct)
      | inl is_struct ↦
          let k = (kind_of_test (kind p)).0 is_struct in
          let (f, present) = struct_fields-some p k in
          simp (non_null, is_struct)
            (near_struct_lem T m location p source limit b f found non_null k present
              (struct_fields-charge p f present))
    ]
  ]

  list_or_other_lem :
      (location : WireLocation) (p : WirePointer) (source : Bytes) (limit : NestingLimit) (b : B)
      → segment m location.segment_id ≡ some source
      → validate_list_or_other T m location limit (p, source) b
        ≡ validate_read_pointer_with_limits T m location p limit b
  list_or_other_lem location p source limit b found = elim (Bool-cases (is_null p)) [
    | inl null ↦ simp null
    | inr non_null ↦ elim (Bool-cases (has_kind (kind p) list)) [
      | inr not_list ↦ simp (non_null, not_list)
      | inl is_list ↦
          let k = (kind_of_test (kind p)).1 is_list in
          let (f, present) = list_fields-some p k in
          elim (Bool-cases (has_size f.element_size inline_composite)) [
            | inl inline ↦ simp (non_null, is_list, present, inline)
            | inr plain ↦
                simp (non_null, is_list, present, plain)
                  (near_list_lem T m location p source limit b f found non_null k present plain
                    (list_fields-count p f present))
          ]
    ]
  ]

-- The struct reader returns what the reader for any pointer does, and leaves the same budget, on every
-- branch: the shortcut for a struct in the pointer's own segment changes no answer and no charge.
pub validate_struct_pointer_with_limits_lem :
    {B : Type 0} (T : TraversalBudget B) (m : MessageSegments) (location : WireLocation)
    (limit : NestingLimit) (b : B)
    → validate_struct_pointer_with_limits T m location limit b
      ≡ validate_pointer_with_limits T m location limit b
unfolding validate_struct_pointer_with_limits validate_pointer_with_limits read_pointer
validate_struct_pointer_with_limits_lem T m location limit b =
    elim (Result-cases (read_pointer_and_segment m location)) [
      | inl ((p, source), e) ↦
          let (found, _) =
            Settled-value _ (p, source) (read_pointer_and_segment-Settled m location) e in
          simp e (struct_or_other_lem T m location p source limit b found)
      | inr (inl (x, e)) ↦ simp e
      | inr (inr e) ↦ simp e
    ]

-- The list reader returns what the reader for any pointer does, and leaves the same budget, on every
-- branch, although it converts the word count only after the charge.
pub validate_list_pointer_with_limits_lem :
    {B : Type 0} (T : TraversalBudget B) (m : MessageSegments) (location : WireLocation)
    (limit : NestingLimit) (b : B)
    → validate_list_pointer_with_limits T m location limit b
      ≡ validate_pointer_with_limits T m location limit b
unfolding validate_list_pointer_with_limits validate_pointer_with_limits read_pointer
validate_list_pointer_with_limits_lem T m location limit b =
    elim (Result-cases (read_pointer_and_segment m location)) [
      | inl ((p, source), e) ↦
          let (found, _) =
            Settled-value _ (p, source) (read_pointer_and_segment-Settled m location) e in
          simp e (list_or_other_lem T m location p source limit b found)
      | inr (inl (x, e)) ↦ simp e
      | inr (inr e) ↦ simp e
    ]

-- The root's word, which is read without a lookup of its segment.
root_word_lem : (m : MessageSegments) → read_pointer m root_location ≡ root_word m
unfolding read_pointer read_pointer_and_segment root_word find_segment segment
    check_range_in_segment
root_word_lem m = elim (Bool-cases (leb (length m.first / 8) u64_max)) [
  | inr over ↦ simp over
  | inl fits ↦ elim (Bool-cases (leb 8 (length m.first))) [
    | inr short ↦
        let none_left : ltb (length m.first / 8) 1 ≡ true = ground (arith, short) in
        simp (fits, none_left, short)
    | inl whole ↦
        let some_left : ltb (length m.first / 8) 1 ≡ false = ground (arith, whole) in
        let eight : (length (take 8 m.first) == 8) ≡ true =
          ground (arith, whole, length-take 8 m.first) in
        simp (fits, some_left, whole, eight)
  ]
]

-- The root reader returns what the reader for any pointer does at the root, and leaves the same budget,
-- on every branch.
pub validate_root_struct_pointer_with_limits_lem :
    {B : Type 0} (T : TraversalBudget B) (m : MessageSegments) (limit : NestingLimit) (b : B)
    → validate_root_struct_pointer_with_limits T m limit b
      ≡ validate_pointer_with_limits T m root_location limit b
unfolding validate_root_struct_pointer_with_limits validate_pointer_with_limits segment
validate_root_struct_pointer_with_limits_lem T m limit b =
    let same = root_word_lem m in
    elim (Result-cases (root_word m)) [
      | inl (p, e) ↦ simp (e, same) (struct_or_other_lem T m root_location p m.first limit b refl)
      | inr (inl (x, e)) ↦ simp (e, same)
      | inr (inr e) ↦ simp (e, same)
    ]
