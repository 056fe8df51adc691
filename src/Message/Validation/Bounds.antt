-- ===== src/Message/Validation/Bounds.antt =====
-- What a pointer resolves to lies inside its segment, in crates/capnp-message/src/validation.rs.
use capnp_rs_experiment.Prelude.{
  ℕ, ◌+◌, ◌*◌, ◌^◌, ◌≤◌, ◌<◌, ◌≡◌, refl, Option-cases, inl, inr, false, Option, none, some, ltb,
  if◌then◌else◌, usize_max, u32_max, arith, Settled, Settled-ok, Settled-err, Settled-bind,
  Settled-map, fit-cases, Settled-ok_or, Settled-expect, Settled-fit, Settled-if, not,
}
use capnp_rs_experiment.Wire.Pointer.{
  PointerKind, struct, list, far, other, ElementSize, void, bit, byte, two_bytes, four_bytes,
  eight_bytes, pointer, inline_composite, WirePointer, kind, is_null, is_capability,
  capability_index, upper32, struct_fields, list_fields, far_fields, inline_composite_tag_fields,
  has_kind, lower32, InlineCompositeTagFields, StructPointerFields, ListPointerFields,
  FarPointerFields,
}
use capnp_rs_experiment.Message.Error.{
  WireLocation, ListRef, ResolvedPointer, null_ref, struct_ref, list_ref, capability_ref,
  target_word_overflow, invalid_inline_composite_tag,
}
use capnp_rs_experiment.Message.Segments.{MessageSegments}
use capnp_rs_experiment.Message.Validation.{
  list_word_count, location_at, validate_struct_at, validate_struct, validate_inline_composite,
  validate_plain_list, validate_list_at, validate_list, validate_other, non_far_arm,
  validate_non_far, tag_arm, validate_double_far, validate_far, wire_arm, validate_wire_pointer,
  validate_pointer,
}
use capnp_rs_experiment.Message.Validation.Ranges.{
  Inside, check_range-Settled, read_pointer-Settled, positional_target-Settled,
}

-- The width of an element in the encoding of lists, in bits. The elements of an inline-composite list are
-- structs, of the width that its tag gives.
abbrev pub element_bits : ElementSize → Option ℕ
element_bits void = some 0
element_bits bit = some 1
element_bits byte = some 8
element_bits two_bytes = some 16
element_bits four_bytes = some 32
element_bits eight_bytes = some 64
element_bits pointer = some 64
element_bits inline_composite = none

-- The words are as many as the elements need: the bits fit, and there is no word too many.
abbrev pub FitsWords : ElementSize → ℕ → ℕ → Type 0
FitsWords size count words =
    (bits : ℕ) × (element_bits size ≡ some bits)
    × (count * bits ≤ words * 64)
    × (words * 64 < count * bits + 64)

-- The elements of a list fit into its words.
abbrev pub Filled : ListRef → Option (ℕ × ℕ) → Type 0
Filled l none = FitsWords l.element_size l.element_count l.content_words
Filled l (some (data_words, pointer_count)) =
    (l.element_size ≡ inline_composite)
    × ((data_words + pointer_count) * l.element_count ≤ l.content_words)
    × (pointer_count < 2 ^ 16)

-- What a pointer may resolve to in the message `m`.
abbrev pub Resolved : MessageSegments → ResolvedPointer → Type 0
Resolved m null_ref = Unit
Resolved m (struct_ref s) =
    Inside m s.content (s.data_words + s.pointer_count) × (s.pointer_count < 2 ^ 16)
Resolved m (list_ref l) =
    Inside m l.content l.content_words × Filled l l.inline_struct_size × (l.element_count < 2 ^ 32)
Resolved m (capability_ref c) = Unit

pub struct_fields-some :
    (p : WirePointer) → kind p ≡ struct → (f : StructPointerFields) × (struct_fields p ≡ some f)
unfolding struct_fields
struct_fields-some p h = elim (Option-cases (struct_fields p)) [
  | inl missing ↦ absurd (ground (arith, h, missing))
  | inr present ↦ present
]

pub list_fields-some :
    (p : WirePointer) → kind p ≡ list → (f : ListPointerFields) × (list_fields p ≡ some f)
unfolding list_fields
list_fields-some p h = elim (Option-cases (list_fields p)) [
  | inl missing ↦ absurd (ground (arith, h, missing))
  | inr present ↦ present
]

far_fields-some :
    (p : WirePointer) → kind p ≡ far → (f : FarPointerFields) × (far_fields p ≡ some f)
unfolding far_fields
far_fields-some p h = elim (Option-cases (far_fields p)) [
  | inl missing ↦ absurd (ground (arith, h, missing))
  | inr present ↦ present
]

struct_fields-bound :
    (p : WirePointer) (f : StructPointerFields)
    → struct_fields p ≡ some f
    → f.pointer_count < 2 ^ 16
unfolding struct_fields
struct_fields-bound p f e = ground (arith, e)

tag_fields-bound :
    (p : WirePointer) (f : InlineCompositeTagFields)
    → inline_composite_tag_fields p ≡ some f
    → (f.pointer_count < 2 ^ 16) × (f.element_count < 2 ^ 32)
unfolding inline_composite_tag_fields lower32
tag_fields-bound p f e = (ground (arith, e), ground (arith, e))

list_fields-bound :
    (p : WirePointer) (f : ListPointerFields) → list_fields p ≡ some f → f.count < 2 ^ 32
unfolding list_fields upper32
list_fields-bound p f e = ground (arith, e)

validate_struct_at-Settled :
    (m : MessageSegments) (content : WireLocation) (p : WirePointer)
    → kind p ≡ struct
    → Settled (Resolved m) (validate_struct_at m content p)
unfolding validate_struct_at
validate_struct_at-Settled m content p h =
    let (f, present) = struct_fields-some p h in
    Settled-bind _ _ _ (Settled-expect _ f present) (λ fields e.
      Settled-bind _ _ _ (check_range-Settled m content (fields.data_words + fields.pointer_count))
        (λ _ inside. Settled-ok _ (inside, struct_fields-bound p fields e)))

validate_struct-Settled :
    (m : MessageSegments) (location : WireLocation) (p : WirePointer)
    → kind p ≡ struct
    → Settled (Resolved m) (validate_struct m location p)
unfolding validate_struct
validate_struct-Settled m location p h =
    let (f, present) = struct_fields-some p h in
    Settled-bind _ _ _ (Settled-expect _ f present) (λ fields _.
      Settled-bind _ _ _ (positional_target-Settled location fields.offset)
        (λ content _. validate_struct_at-Settled m content p h))

validate_inline_composite-Settled :
    (m : MessageSegments) (target : WireLocation) (declared_words : ℕ)
    → Settled (Resolved m) (validate_inline_composite m target declared_words)
unfolding validate_inline_composite
validate_inline_composite-Settled m target declared_words =
    Settled-bind _ _ _ (check_range-Settled m target (declared_words + 1)) (λ _ inside.
      Settled-bind _ _ _ (read_pointer-Settled m target) (λ tag _.
        Settled-bind _ _ _
          (Settled-ok_or (inline_composite_tag_fields tag) invalid_inline_composite_tag)
          (λ f e.
            Settled-fit usize_max ((f.data_words + f.pointer_count) * f.element_count)
              target_word_overflow _
              (λ _.
                Settled-if (ltb declared_words ((f.data_words + f.pointer_count) * f.element_count))
                  (λ _. Settled-err _)
                  (λ fits. Settled-fit u32_max (target.word_offset + 1) target_word_overflow _ (λ _.
                    Settled-ok _ (
                      record {
                        bytes = inside.bytes;
                        found = inside.found;
                        within = omega (arith, inside.within);
                      },
                      (refl, ground (arith, fits), (tag_fields-bound tag f e).0),
                      (tag_fields-bound tag f e).1,
                    )))))))

list_word_count-Settled :
    (size : ElementSize) (count : ℕ) → Settled (FitsWords size count) (list_word_count size count)
unfolding list_word_count
list_word_count-Settled void count = Settled-ok _ (0, refl, omega arith, omega arith)
list_word_count-Settled bit count =
    Settled-map _ _ _ (fit-cases usize_max (count + 63) _)
      (λ sum (e, _). (1, refl, omega (arith, e), omega (arith, e)))
list_word_count-Settled byte count =
    Settled-map _ _ _ (fit-cases usize_max (count + 7) _)
      (λ sum (e, _). (8, refl, omega (arith, e), omega (arith, e)))
list_word_count-Settled two_bytes count =
    Settled-map _ _ _ (fit-cases usize_max (count + 3) _)
      (λ sum (e, _). (16, refl, omega (arith, e), omega (arith, e)))
list_word_count-Settled four_bytes count =
    Settled-map _ _ _ (fit-cases usize_max (count + 1) _)
      (λ sum (e, _). (32, refl, omega (arith, e), omega (arith, e)))
list_word_count-Settled eight_bytes count = Settled-ok _ (64, refl, omega arith, omega arith)
list_word_count-Settled pointer count = Settled-ok _ (64, refl, omega arith, omega arith)
list_word_count-Settled inline_composite count = Settled-err _

validate_plain_list-Settled :
    (m : MessageSegments) (target : WireLocation) (size : ElementSize) (count : ℕ)
    → count < 2 ^ 32
    → Settled (Resolved m) (validate_plain_list m target size count)
unfolding validate_plain_list
validate_plain_list-Settled m target size count small =
    Settled-bind _ _ _ (list_word_count-Settled size count) (λ words counted.
      Settled-bind _ _ _ (check_range-Settled m target words) (λ _ inside.
        Settled-fit u32_max words target_word_overflow _
          (λ _. Settled-ok _ (inside, counted, small))))

validate_list_at-Settled :
    (m : MessageSegments) (target : WireLocation) (p : WirePointer)
    → kind p ≡ list
    → Settled (Resolved m) (validate_list_at m target p)
unfolding validate_list_at
validate_list_at-Settled m target p h =
    let (f, present) = list_fields-some p h in
    Settled-bind _ _ _ (Settled-expect _ f present) (λ fields e.
      Settled-if _ (λ _. validate_inline_composite-Settled m target fields.count)
        (λ _.
          validate_plain_list-Settled m target fields.element_size fields.count
            (list_fields-bound p fields e)))

validate_list-Settled :
    (m : MessageSegments) (location : WireLocation) (p : WirePointer)
    → kind p ≡ list
    → Settled (Resolved m) (validate_list m location p)
unfolding validate_list
validate_list-Settled m location p h =
    let (f, present) = list_fields-some p h in
    Settled-bind _ _ _ (Settled-expect _ f present) (λ fields _.
      Settled-bind _ _ _ (positional_target-Settled location fields.offset)
        (λ target _. validate_list_at-Settled m target p h))

validate_other-Settled :
    (m : MessageSegments) (p : WirePointer) → Settled (Resolved m) (validate_other p)
unfolding capability_index
validate_other-Settled m p =
    Settled-if (is_capability p)
      (λ yes. Settled-map _ _ _ (Settled-expect _ (upper32 p) (ground (arith, yes))) (λ i _. tt))
      (λ _. Settled-err _)

non_far_arm-Settled :
    (m : MessageSegments) (location : WireLocation) (p : WirePointer) (k : PointerKind)
    → kind p ≡ k
    → Settled (Resolved m) (non_far_arm m location p k)
non_far_arm-Settled m location p struct h = validate_struct-Settled m location p h
non_far_arm-Settled m location p list h = validate_list-Settled m location p h
non_far_arm-Settled m location p far h = Settled-err _
non_far_arm-Settled m location p other h = validate_other-Settled m p

tag_arm-Settled :
    (m : MessageSegments) (object : WireLocation) (tag : WirePointer) (k : PointerKind)
    → kind tag ≡ k
    → Settled (Resolved m) (tag_arm m object tag k)
tag_arm-Settled m object tag struct h = validate_struct_at-Settled m object tag h
tag_arm-Settled m object tag list h = validate_list_at-Settled m object tag h
tag_arm-Settled m object tag far h = Settled-err _
tag_arm-Settled m object tag other h = Settled-err _

far_of_has_kind : (k : PointerKind) → not (has_kind k far) ≡ false → k ≡ far
far_of_has_kind struct h = absurd (cc h)
far_of_has_kind list h = absurd (cc h)
far_of_has_kind far h = refl
far_of_has_kind other h = absurd (cc h)

validate_double_far-Settled :
    (m : MessageSegments) (pad : WireLocation) (first : WirePointer)
    → Settled (Resolved m) (validate_double_far m pad first)
unfolding validate_double_far
validate_double_far-Settled m pad first =
    Settled-if _ (λ _. Settled-err _)
      (λ is_far.
        let (f, present) = far_fields-some first (far_of_has_kind (kind first) is_far) in
        Settled-bind _ _ _ (Settled-expect _ f present) (λ first_far _.
          Settled-fit u32_max (pad.word_offset + 1) target_word_overflow _ (λ _.
            Settled-bind _ _ _
              (read_pointer-Settled m (location_at pad.segment_id (pad.word_offset + 1)))
              (λ tag _.
                tag_arm-Settled m (location_at first_far.segment_id first_far.landing_pad_word) tag
                  (kind tag) refl))))

validate_far-Settled :
    (m : MessageSegments) (p : WirePointer) → kind p ≡ far → Settled (Resolved m) (validate_far m p)
unfolding validate_far validate_non_far
validate_far-Settled m p h =
    let (f, present) = far_fields-some p h in
    Settled-bind _ _ _ (Settled-expect _ f present) (λ fields _.
      let pad = location_at fields.segment_id fields.landing_pad_word in
      Settled-bind _ _ _ (check_range-Settled m pad (if fields.double_far then 2 else 1)) (λ _ _.
        Settled-bind _ _ _ (read_pointer-Settled m pad) (λ first _.
          Settled-if (not fields.double_far)
            (λ _.
              Settled-if (has_kind (kind first) far) (λ _. Settled-err _)
                (λ _. non_far_arm-Settled m pad first (kind first) refl))
            (λ _. validate_double_far-Settled m pad first))))

wire_arm-Settled :
    (m : MessageSegments) (location : WireLocation) (p : WirePointer) (k : PointerKind)
    → kind p ≡ k
    → Settled (Resolved m) (wire_arm m location p k)
wire_arm-Settled m location p struct h = validate_struct-Settled m location p h
wire_arm-Settled m location p list h = validate_list-Settled m location p h
wire_arm-Settled m location p far h = validate_far-Settled m p h
wire_arm-Settled m location p other h = validate_other-Settled m p

pub validate_wire_pointer-Settled :
    (m : MessageSegments) (location : WireLocation) (p : WirePointer)
    → Settled (Resolved m) (validate_wire_pointer m location p)
unfolding validate_wire_pointer
validate_wire_pointer-Settled m location p =
    Settled-if (is_null p) (λ _. Settled-ok _ tt) (λ _. wire_arm-Settled m location p (kind p) refl)

-- Whatever the bytes of the message, the validation of a pointer does not panic; a struct that it
-- resolves to lies with all its data and pointers inside its segment, and a list with all its words. The
-- elements of a list fit into these words: at their width in bits, with less than a word to spare, or, in an
-- inline-composite list, at the words that its tag gives. The counts are of 16 and 32 bits.
pub validate_pointer-Resolved :
    (m : MessageSegments) (location : WireLocation)
    → Settled (Resolved m) (validate_pointer m location)
unfolding validate_pointer
validate_pointer-Resolved m location =
    Settled-bind _ _ _ (read_pointer-Settled m location)
      (λ p _. validate_wire_pointer-Settled m location p)
