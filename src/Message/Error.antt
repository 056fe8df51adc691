-- ===== src/Message/Error.antt =====
-- crates/capnp-message/src/validation.rs: where a pointer stands, what it resolves to, and the errors.
use capnp_rs_experiment.Prelude.{ℕ, Option}
use capnp_rs_experiment.Prelude.Int.{ℤ}
use capnp_rs_experiment.Wire.Pointer.{ElementSize}
use capnp_rs_experiment.Message.Budget.{BudgetExhausted, NestingLimit, NestingLimitExceeded}

pub record WireLocation : Type 0 where
  pub segment_id : ℕ
  pub word_offset : ℕ

abbrev pub root_location : WireLocation
root_location = record { segment_id = 0; word_offset = 0 }

pub record StructRef : Type 0 where
  pub content : WireLocation
  pub data_words : ℕ
  pub pointer_count : ℕ

pub record ListRef : Type 0 where
  pub content : WireLocation
  pub element_size : ElementSize
  pub element_count : ℕ
  pub content_words : ℕ
  pub inline_struct_size : Option (ℕ × ℕ)

pub record CapabilityRef : Type 0 where
  pub index : ℕ

pub data ResolvedPointer : Type 0 where
  null_ref : ResolvedPointer
  struct_ref : StructRef → ResolvedPointer
  list_ref : ListRef → ResolvedPointer
  capability_ref : CapabilityRef → ResolvedPointer

pub data ValidationError : Type 0 where
  no_segments : ValidationError
  segment_not_word_aligned : (segment_id bytes : ℕ) → ValidationError
  too_many_segments : ValidationError
  unknown_segment : (segment_id : ℕ) → ValidationError
  pointer_out_of_bounds : WireLocation → ValidationError
  target_before_segment : WireLocation → (offset : ℤ) → ValidationError
  target_word_overflow : ValidationError
  object_out_of_bounds : WireLocation → (words segment_words : ℕ) → ValidationError
  reserved_pointer : (lower32 : ℕ) → ValidationError
  invalid_far_landing_pad : ValidationError
  invalid_double_far_tag : ValidationError
  invalid_inline_composite_tag : ValidationError
  inline_composite_overrun : (required_words declared_words : ℕ) → ValidationError

pub record BoundedPointer : Type 0 where
  pub pointer : ResolvedPointer
  pub child_nesting : NestingLimit
  pub charged_words : ℕ

pub data TraversalError : Type 0 where
  validation : ValidationError → TraversalError
  budget : BudgetExhausted → TraversalError
  nesting : NestingLimitExceeded → TraversalError

pub record TraversalStats : Type 0 where
  pub pointers_followed : ℕ
  pub words_charged : ℕ
