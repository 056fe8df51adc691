-- ===== src/Message/Limits/Shortcut.antt =====
-- The shortcut for byte lists in crates/capnp-message/src/validation.rs, against the reader for any
-- pointer.
use capnp_rs_experiment.Prelude.{
  ℕ, ◌+◌, ◌-◌, ◌*◌, ◌/◌, ◌^◌, ◌≤◌, ◌<◌, ◌≡◌, refl, ap, sym, ◌∙◌, false, Option, none, some, Result,
  ok, err, panic, length, ◌==◌, fit, checked_add, usize_max, u32_max, arith, Bool-cases, inl, inr,
}
use capnp_rs_experiment.Prelude.Bytes.{Bytes}
use capnp_rs_experiment.Wire.Pointer.{byte, inline_composite, ListPointerFields}
use capnp_rs_experiment.Message.Budget.{TraversalBudget, NestingLimit, BudgetExhausted, descend}
use capnp_rs_experiment.Message.Error.{WireLocation, ListRef, list_ref}
use capnp_rs_experiment.Message.Segments.{MessageSegments, segment}
use capnp_rs_experiment.Message.Validation.{
  has_size, get_range, positional_target, check_range_in_segment, list_word_count, read_pointer,
}
use capnp_rs_experiment.Message.Limits.{bounded, validate_near_list, validate_pointer_with_limits}
use capnp_rs_experiment.Message.Limits.Readers.{near_list_lem, positional_target-segment}
use capnp_rs_experiment.Message.Limits.Agreement.{list_fields-count}
use capnp_rs_experiment.Message.Limits.ByteList.{
  EarlyReturn, null_path, slow_path, FastByteList, bytes_of, slow, finish_fast, charged_list,
  fast_plan, try_read_byte_list_fast,
}
use capnp_rs_experiment.Message.Limits.ByteRange.{fast_plan-Read}

byte_words : (count : ℕ) → count < 2 ^ 29 → list_word_count byte count ≡ ok ((count + 7) / 8)
unfolding list_word_count
byte_words count small = ground (arith, small)

descended :
    (limit : NestingLimit)
    → (limit.remaining == 0) ≡ false
    → (child : NestingLimit) × (descend limit ≡ ok child)
unfolding descend
descended limit h = (record { remaining = limit.remaining - 1 }, ground (arith, h))

abbrev byte_list : Bytes → ListPointerFields → WireLocation → ListRef
byte_list source f content = record {
  content = content;
  element_size = byte;
  element_count = f.count;
  content_words = (f.count + 7) / 8;
  inline_struct_size = none;
}

module _ {B : Type 0} (T : TraversalBudget B) (m : MessageSegments) where
  near_byte_list :
      (location content : WireLocation) (f : ListPointerFields) (source : Bytes)
      (limit child : NestingLimit) (b b' : B)
      → f.count < 2 ^ 29
      → positional_target location f.offset ≡ ok content
      → check_range_in_segment content ((f.count + 7) / 8) source ≡ ok tt
      → descend limit ≡ ok child
      → T.try_charge b ((f.count + 7) / 8) ≡ (b', ok tt)
      → validate_near_list T m location f.offset byte f.count source limit b
        ≡ (b', ok (bounded (list_ref (byte_list source f content)) child ((f.count + 7) / 8)))
  unfolding validate_near_list
  near_byte_list location content f source limit child b b' small target checked deeper paid =
      let words = byte_words f.count small in
      let sum : checked_add ((f.count + 7) / 8) 0 ≡ some ((f.count + 7) / 8) =
        ground (arith, small) in
      let fits : fit u32_max ((f.count + 7) / 8) ≡ some ((f.count + 7) / 8) =
        ground (arith, small) in
      simp (target, words, checked, sum, deeper, paid, fits)

  charged_list-cases :
      (t : B × Result BudgetExhausted (Unit {0})) (b' : B) (bs bytes : Bytes)
      → charged_list bs t ≡ (b', some (bytes_of bytes))
      → (bs ≡ bytes) × (t ≡ (b', ok tt))
  charged_list-cases (b'', ok u) b' bs bytes h =
      (same_bytes (ap (λ t. t.1) h), ap (λ x. (x, ok tt)) (ap (λ x. x.0) h))
    where
      same_bytes : {bs bytes : Bytes} → some (bytes_of bs) ≡ some (bytes_of bytes) → bs ≡ bytes
      same_bytes e = cc e
  charged_list-cases (b'', err e) b' bs bytes h = absurd (cc (ap (λ t. t.1) h))
  charged_list-cases (b'', panic) b' bs bytes h = absurd (cc (ap (λ t. t.1) h))

  finish_fast-cases :
      (limit : NestingLimit) (b b' : B) (r : Result EarlyReturn (ℕ × Bytes)) (bytes : Bytes)
      → finish_fast T limit b r ≡ (b', some (bytes_of bytes))
      → (words : ℕ) × (r ≡ ok (words, bytes))
        × ((limit.remaining == 0) ≡ false)
        × (T.try_charge b words ≡ (b', ok tt))
  finish_fast-cases limit b b' (err null_path) bytes h = absurd (cc (ap (λ t. t.1) h))
  finish_fast-cases limit b b' (err slow_path) bytes h = absurd (cc (ap (λ t. t.1) h))
  finish_fast-cases limit b b' panic bytes h = absurd (cc (ap (λ t. t.1) h))
  finish_fast-cases limit b b' (ok (words, bs)) bytes h = elim (Bool-cases (limit.remaining == 0)) [
    | inl exhausted ↦
        absurd (not_bytes {b = b} {b' = b'} {bytes = bytes} (sym (simp exhausted) ∙ h))
    | inr left ↦
        let (same, paid) =
          charged_list-cases (T.try_charge b words) b' bs bytes (sym (simp left) ∙ h) in
        (words, ap (λ x. ok (words, x)) same, left, paid)
  ]
    where
      not_bytes :
          {b b' : B} {bytes : Bytes}
          → ◌≡◌ {A = B × Option FastByteList} (b, some slow) (b', some (bytes_of bytes))
          → ⊥
      not_bytes e = absurd (cc (ap (λ x. x.1) e))

-- The bytes that the shortcut returns are the content of the byte list that the reader for any pointer
-- resolves, with the same charge and the same budget left, for a message whose segment has less than
-- 2 ^ 64 bytes.
pub try_read_byte_list_fast_lem :
    {B : Type 0} (T : TraversalBudget B) (m : MessageSegments) (location : WireLocation)
    (limit : NestingLimit) (b b' : B) (bytes : Bytes)
    → ((source : Bytes) → segment m location.segment_id ≡ some source → length source ≤ usize_max)
    → try_read_byte_list_fast T m location limit b ≡ (b', some (bytes_of bytes))
    → (l : ListRef) × (child : NestingLimit) × (source : Bytes) × (validate_pointer_with_limits T m
          location limit b
        ≡ (b', ok (bounded (list_ref l) child l.content_words)))
      × (l.element_size ≡ byte)
      × (segment m l.content.segment_id ≡ some source)
      × (get_range source (l.content.word_offset * 8) (l.content.word_offset * 8 + l.element_count)
          ≡ some bytes)
unfolding try_read_byte_list_fast validate_pointer_with_limits read_pointer
try_read_byte_list_fast_lem T m location limit b b' bytes short h =
    let (words, planned, left, paid) =
      finish_fast-cases T m limit b b' (fast_plan m location) bytes h in
    let r = fast_plan-Read m location words bytes short planned in
    let a = r.accepted in
    let f = a.fields in
    let g = a.ranged in
    let (child, deeper) = descended limit left in
    let small = list_fields-count r.word f a.present in
    let paid' = ap (T.try_charge b) (sym g.charged) ∙ paid in
    let plain = ap (λ s. has_size s inline_composite) a.is_byte in
    let near =
      near_byte_list T m location g.content f r.source limit child b b' small g.target g.checked
        deeper paid' in
    let same =
      near_list_lem T m location r.word r.source limit b f r.found a.non_null a.is_list a.present
        plain small in
    let sized =
      ap (λ s. validate_near_list T m location f.offset s f.count r.source limit b) a.is_byte in
    (
      byte_list r.source f g.content,
      child,
      r.source,
      simp (r.read) (sym same ∙ sized ∙ near),
      refl,
      ap (segment m) (positional_target-segment location g.content f.offset g.target) ∙ r.found,
      g.found,
    )
