-- ===== src/Message/WorkItem.antt =====
-- crates/capnp-message/src/validation.rs, `WalkItem`: what stands on the work list of the walk.
use capnp_rs_experiment.Prelude.{
  ℕ, ◌+◌, ◌-◌, ◌%◌, ◌^◌, List, [], ◌∷◌, Result, ok, ◌>>=◌, ok_or, ltb, if◌then◌else◌, checked_add,
  checked_mul,
}
use capnp_rs_experiment.Message.Budget.{NestingLimit}
use capnp_rs_experiment.Message.Error.{
  WireLocation, ListRef, ValidationError, TraversalStats, target_word_overflow,
}
use capnp_rs_experiment.Message.Validation.{add_words}

pub record PointerRange : Type 0 where
  pub next : WireLocation
  pub remaining : ℕ
  pub stride_words : ℕ
  pub nesting : NestingLimit

pub record InlinePointers : Type 0 where
  pub content : WireLocation
  pub element : ℕ
  pub element_count : ℕ
  pub data_words : ℕ
  pub pointer_count : ℕ
  pub pointer_index : ℕ
  pub nesting : NestingLimit

pub data WalkItem : Type 0 where
  pointer_item : WireLocation → NestingLimit → WalkItem
  pointer_range : PointerRange → WalkItem
  inline_pointers : InlinePointers → WalkItem

abbrev pub range_of : WireLocation → ℕ → NestingLimit → List WalkItem
range_of next remaining limit =
    pointer_range (record { next = next; remaining = remaining; stride_words = 1; nesting = limit })
    ∷ []

abbrev pub inline_of : ListRef → ℕ → ℕ → NestingLimit → List WalkItem
inline_of value data_words pointer_count limit =
    inline_pointers (record {
      content = value.content;
      element = 0;
      element_count = value.element_count;
      data_words = data_words;
      pointer_count = pointer_count;
      pointer_index = 0;
      nesting = limit;
    })
    ∷ []

-- The first pointer of a range, and the range behind it, which starts at `next`.
abbrev pub range_head : PointerRange → WalkItem
range_head r = pointer_item r.next r.nesting

abbrev pub range_split : PointerRange → WireLocation → List WalkItem
range_split r next =
    range_head r
    ∷ (pointer_range (record {
      next = next;
      remaining = r.remaining - 1;
      stride_words = r.stride_words;
      nesting = r.nesting;
    })
        ∷ [])

abbrev pub inline_location : InlinePointers → Result ValidationError WireLocation
inline_location i = do
  element_offset ←
      ok_or (checked_mul i.element (i.data_words + i.pointer_count)) target_word_overflow
  data_end ← ok_or (checked_add element_offset i.data_words) target_word_overflow
  pointer_offset ← ok_or (checked_add data_end i.pointer_index) target_word_overflow
  add_words i.content pointer_offset

-- What is left of the inline pointers after one of them. The counters are a `u16` and a `u32`.
abbrev pub inline_rest : InlinePointers → List WalkItem
inline_rest i =
    let next_pointer = (i.pointer_index + 1) % 2 ^ 16 in
    let next_element = (i.element + 1) % 2 ^ 32 in
    if ltb next_pointer i.pointer_count
    then inline_pointers (record {
      content = i.content;
      element = i.element;
      element_count = i.element_count;
      data_words = i.data_words;
      pointer_count = i.pointer_count;
      pointer_index = next_pointer;
      nesting = i.nesting;
    })
      ∷ []
    else if ltb next_element i.element_count
    then inline_pointers (record {
      content = i.content;
      element = next_element;
      element_count = i.element_count;
      data_words = i.data_words;
      pointer_count = i.pointer_count;
      pointer_index = 0;
      nesting = i.nesting;
    })
      ∷ []
    else []

-- `stats.pointers_followed.checked_add(1)` and `stats.words_charged.checked_add(..)`.
abbrev pub count_pointer : TraversalStats → ℕ → Result ValidationError TraversalStats
count_pointer stats words = do
  followed ← ok_or (checked_add stats.pointers_followed 1) target_word_overflow
  charged ← ok_or (checked_add stats.words_charged words) target_word_overflow
  ok (record { pointers_followed = followed; words_charged = charged })
