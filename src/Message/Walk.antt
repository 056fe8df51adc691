-- ===== src/Message/Walk.antt =====
-- crates/capnp-message/src/validation.rs, `walk_pointer_graph`: the work list is a list whose head is the
-- `Vec`'s last element.
pub mod Spent
pub mod Items
pub mod Paid
pub mod Accounts
use capnp_rs_experiment.Prelude.{
  ℕ, suc, zero, ◌+◌, ◌-◌, ◌*◌, ◌%◌, ◌^◌, Bool, true, false, not, ◌&&◌, Option, none, some, List, [],
  ◌∷◌, ◌++◌, Result, ok, err, panic, ok_or, ltb, ◌==◌, if◌then◌else◌, checked_add, checked_mul,
}
use capnp_rs_experiment.Wire.Pointer.{pointer, inline_composite}
use capnp_rs_experiment.Message.Budget.{TraversalBudget, NestingLimit, descend}
use capnp_rs_experiment.Message.Error.{
  WireLocation, ListRef, ResolvedPointer, null_ref, struct_ref, list_ref, capability_ref,
  target_word_overflow, BoundedPointer, TraversalError, TraversalStats,
}
use capnp_rs_experiment.Message.Metered.{Metered, ◌>>=◌, ◌>>◌, done, checked, nested, charge}
use capnp_rs_experiment.Message.Segments.{MessageSegments}
use capnp_rs_experiment.Message.Validation.{add_words, has_size}
use capnp_rs_experiment.Message.WorkItem.{
  WalkItem, pointer_item, pointer_range, inline_pointers, PointerRange, InlinePointers, range_of,
  inline_of, range_head, range_split, inline_location, inline_rest, count_pointer,
}
use capnp_rs_experiment.Message.Limits.{validate_pointer_with_limits}

-- The arm for an inline-composite list.
abbrev pub push_inline :
    {B : Type 0} → ListRef → NestingLimit → Option (ℕ × ℕ) → Metered B (List WalkItem)
push_inline value limit none = done []
push_inline value limit (some (data_words, pointer_count)) =
    if not (value.element_count == 0) && not (pointer_count == 0)
    then nested (descend limit)
      >>= (λ element_nesting. done (inline_of value data_words pointer_count element_nesting))
    else done []

-- What is pushed for the target of a pointer.
abbrev pub push_children : {B : Type 0} → NestingLimit → ResolvedPointer → Metered B (List WalkItem)
push_children limit (struct_ref value) =
    if not (value.pointer_count == 0)
    then checked (add_words value.content value.data_words)
      >>= (λ first. done (range_of first value.pointer_count limit))
    else done []
push_children limit (list_ref value) =
    if has_size value.element_size pointer && not (value.element_count == 0)
    then done (range_of value.content value.element_count limit)
    else if has_size value.element_size inline_composite
    then push_inline value limit value.inline_struct_size
    else done []
push_children limit null_ref = done []
push_children limit (capability_ref value) = done []

abbrev pub split_range : {B : Type 0} → PointerRange → Metered B (List WalkItem)
split_range r =
    if ltb 1 r.remaining
    then checked (add_words r.next r.stride_words) >>= (λ next. done (range_split r next))
    else done (range_head r ∷ [])

abbrev pub split_inline : {B : Type 0} → InlinePointers → Metered B (List WalkItem)
split_inline i =
    checked (inline_location i)
    >>= (λ location. done (pointer_item location i.nesting ∷ inline_rest i))

abbrev pub resume :
    {B : Type 0}
    → (List WalkItem → TraversalStats → B → Option (B × Result TraversalError TraversalStats))
    → List WalkItem
    → B × Result TraversalError (List WalkItem × TraversalStats)
    → Option (B × Result TraversalError TraversalStats)
resume loop work (b, ok (pushed, stats)) = loop (pushed ++ work) stats b
resume loop work (b, err e) = some (b, err e)
resume loop work (b, panic) = some (b, panic)

module _ {B : Type 0} (T : TraversalBudget B) (m : MessageSegments) where
  -- The body of the loop: what is pushed, and the counts.
  abbrev pub step : TraversalStats → WalkItem → Metered B (List WalkItem × TraversalStats)
  step stats (pointer_item location limit) = do
    bounded ← validate_pointer_with_limits T m location limit
    stats' ← checked (count_pointer stats bounded.charged_words)
    pushed ← push_children bounded.child_nesting bounded.pointer
    done (pushed, stats')
  step stats (pointer_range r) = split_range r >>= (λ pushed. done (pushed, stats))
  step stats (inline_pointers i) = split_inline i >>= (λ pushed. done (pushed, stats))

  -- The loop on fuel: `none` is no result of the code.
  unfoldable pub walk :
      ℕ → List WalkItem → TraversalStats → B → Option (B × Result TraversalError TraversalStats)
  walk zero work stats b = none
  walk (suc fuel) [] stats b = some (b, ok stats)
  walk (suc fuel) (item ∷ work) stats b = resume (walk fuel) work (step stats item b)

  unfoldable pub walk_pointer_graph :
      ℕ → WireLocation → NestingLimit → B → Option (B × Result TraversalError TraversalStats)
  walk_pointer_graph fuel root limit b =
      walk fuel (pointer_item root limit ∷ []) (record { pointers_followed = 0; words_charged = 0 })
        b
