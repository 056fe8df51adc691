-- ===== src/Message/Walk/Items.antt =====
-- The work list of `walk_pointer_graph` in crates/capnp-message/src/validation.rs: the pointers that it
-- stands for.
use capnp_rs_experiment.Prelude.{
  ℕ, ◌+◌, ◌-◌, ◌*◌, ◌%◌, ◌^◌, ◌≤◌, ◌<◌, ◌≡◌, refl, ap, ◌∙◌, Bool, true, false, not, ◌&&◌, Option,
  none, some, List, [], ◌∷◌, ◌++◌, Result, arith, All, ltb, ltb→lt, ◌==◌, if◌then◌else◌, Settled,
  Settled-fit, usize_max, u32_max, Settled-ok,
}
use capnp_rs_experiment.Wire.Pointer.{ElementSize, pointer, inline_composite}
use capnp_rs_experiment.Message.Budget.{TraversalBudget, NestingLimit}
use capnp_rs_experiment.Message.Error.{
  WireLocation, ListRef, ResolvedPointer, null_ref, struct_ref, list_ref, capability_ref,
  target_word_overflow, TraversalError,
}
use capnp_rs_experiment.Message.Metered.{done}
use capnp_rs_experiment.Message.Segments.{MessageSegments}
use capnp_rs_experiment.Message.Validation.{add_words, has_size}
use capnp_rs_experiment.Message.Validation.Bounds.{Resolved, Filled}
use capnp_rs_experiment.Message.WorkItem.{
  WalkItem, pointer_item, pointer_range, inline_pointers, PointerRange, InlinePointers, range_of,
  inline_of, range_head, range_split, inline_location, inline_rest,
}
use capnp_rs_experiment.Message.Walk.{push_children, push_inline, split_range, split_inline}
use capnp_rs_experiment.Message.Walk.Spent.{
  Spent, Spent-done, Spent-checked, Spent-nested, Spent-if,
}

abbrev pub IsValid : WalkItem → Type 0
IsValid (pointer_item location limit) = Unit
IsValid (pointer_range r) = 0 < r.remaining
IsValid (inline_pointers i) =
    (i.element < i.element_count)
    × (i.element_count < 2 ^ 32)
    × (i.pointer_index < i.pointer_count)
    × (i.pointer_count < 2 ^ 16)

-- The pointers that an item stands for.
abbrev pub item_pointers : WalkItem → ℕ
item_pointers (pointer_item location limit) = 1
item_pointers (pointer_range r) = r.remaining
item_pointers (inline_pointers i) =
    (i.element_count - i.element) * i.pointer_count - i.pointer_index

-- The turns of the loop that an item takes by itself.
abbrev pub item_turns : WalkItem → ℕ
item_turns (pointer_item location limit) = 1
item_turns item = 2 * item_pointers item

abbrev pub pending : List WalkItem → ℕ
pending [] = 0
pending (item ∷ work) = item_pointers item + pending work

abbrev pub turns : List WalkItem → ℕ
turns [] = 0
turns (item ∷ work) = item_turns item + turns work

pub pending-append : (xs ys : List WalkItem) → pending (xs ++ ys) ≡ pending xs + pending ys
pending-append [] ys = omega arith
pending-append (x ∷ xs) ys = omega (arith, pending-append xs ys)

pub turns-append : (xs ys : List WalkItem) → turns (xs ++ ys) ≡ turns xs + turns ys
turns-append [] ys = omega arith
turns-append (x ∷ xs) ys = omega (arith, turns-append xs ys)

-- At most `pointers` pointers are pushed, as items that take at most `most` turns.
pub record Pushed (pointers most : ℕ) (items : List WalkItem) : Type 0 where
  pub valid : All IsValid items
  pub few : pending items ≤ pointers
  pub short : turns items ≤ most

abbrev pub inline_count : Option (ℕ × ℕ) → ListRef → ℕ
inline_count none l = 0
inline_count (some (data_words, pointer_count)) l = l.element_count * pointer_count

-- The pointers inside a target.
abbrev pub child_pointers : ResolvedPointer → ℕ
child_pointers (struct_ref s) = s.pointer_count
child_pointers (list_ref l) =
    if has_size l.element_size pointer then l.element_count else inline_count l.inline_struct_size l
child_pointers null_ref = 0
child_pointers (capability_ref c) = 0

add_words-Settled :
    (location : WireLocation) (words : ℕ) → Settled (λ _. Unit {0}) (add_words location words)
unfolding add_words
add_words-Settled location words =
    Settled-fit usize_max (location.word_offset + words) target_word_overflow _ (λ _.
      Settled-fit u32_max (location.word_offset + words) target_word_overflow _
        (λ _. Settled-ok _ tt))

range_of-Pushed :
    (next : WireLocation) (n : ℕ) (limit : NestingLimit)
    → 0 < n
    → Pushed n (2 * n) (range_of next n limit)
range_of-Pushed next n limit h = record { valid = (h, tt); few = omega arith; short = omega arith }

nothing-Pushed : (n : ℕ) → Pushed n (2 * n) []
nothing-Pushed n = record { valid = tt; few = omega arith; short = omega arith }

Pushed-if :
    {n k : ℕ} {xs ys : List WalkItem} (b : Bool)
    → (b ≡ true → Pushed n k xs)
    → (b ≡ false → Pushed n k ys)
    → Pushed n k (if b then xs else ys)
Pushed-if true h k = h refl
Pushed-if false h k = k refl

one_element_less : (n e pc : ℕ) → e < n → (n - e) * pc ≡ (n - (e + 1)) * pc + pc
one_element_less n e pc h =
    ap (λ (t : ℕ). t * pc) {x = n - e} {y = n - (e + 1) + 1} (omega (arith, h)) ∙ omega arith

-- The rest of the inline pointers is one pointer fewer.
inline_rest-Pushed :
    (i : InlinePointers)
    → IsValid (inline_pointers i)
    → Pushed
        (item_pointers (inline_pointers i) - 1)
        (2 * (item_pointers (inline_pointers i) - 1))
        (inline_rest i)
inline_rest-Pushed i (e, ec, p, pc) =
    let step = one_element_less i.element_count i.element i.pointer_count e in
    Pushed-if (ltb ((i.pointer_index + 1) % 2 ^ 16) i.pointer_count)
      (λ more. record {
        valid = ((e, ec, ltb→lt _ _ more, pc), tt);
        few = omega (arith, step, p, pc);
        short = omega (arith, step, p, pc);
      })
      (λ last.
        let counted =
          ap (λ (t : ℕ). (i.element_count - t) * i.pointer_count) {x = (i.element + 1) % 2 ^ 32}
            {y = i.element + 1} (omega (arith, e, ec)) in
        let wrapped : i.pointer_index + 1 ≡ i.pointer_count = ground (arith, last, p, pc) in
        Pushed-if (ltb ((i.element + 1) % 2 ^ 32) i.element_count)
          (λ more. record {
            valid = ((ltb→lt _ _ more, ec, omega (arith, p), pc), tt);
            few = omega (arith, step, wrapped, counted);
            short = omega (arith, step, wrapped, counted);
          })
          (λ _. record { valid = tt; few = omega arith; short = omega arith }))

range_split-Pushed :
    (r : PointerRange) (next : WireLocation)
    → 1 < r.remaining
    → Pushed r.remaining (2 * r.remaining - 1) (range_split r next)
range_split-Pushed r next h = record {
  valid = (tt, (omega (arith, h), tt));
  few = omega (arith, h);
  short = omega (arith, h);
}

inline_split-Pushed :
    (i : InlinePointers) (location : WireLocation)
    → IsValid (inline_pointers i)
    → Pushed
        (item_pointers (inline_pointers i))
        (2 * item_pointers (inline_pointers i) - 1)
        (pointer_item location i.nesting ∷ inline_rest i)
inline_split-Pushed i location (e, ec, p, pc) =
    let rest = inline_rest-Pushed i (e, ec, p, pc) in
    let step = one_element_less i.element_count i.element i.pointer_count e in
    record {
      valid = (tt, rest.valid);
      few = omega (arith, rest.few, step, p);
      short = omega (arith, rest.short, step, p);
    }

pub inline_pointers_left :
    (i : InlinePointers) → IsValid (inline_pointers i) → 0 < item_pointers (inline_pointers i)
inline_pointers_left i (e, ec, p, pc) =
    omega (arith, one_element_less i.element_count i.element i.pointer_count e, p)

inline_location-Settled : (i : InlinePointers) → Settled (λ _. Unit {0}) (inline_location i)
inline_location-Settled i =
    Settled-fit usize_max (i.element * (i.data_words + i.pointer_count)) target_word_overflow _
      (λ _.
        Settled-fit usize_max (i.element * (i.data_words + i.pointer_count) + i.data_words)
          target_word_overflow _
          (λ _.
            Settled-fit usize_max
              (i.element * (i.data_words + i.pointer_count) + i.data_words + i.pointer_index)
              target_word_overflow _ (λ _. add_words-Settled i.content _)))

module _ {B : Type 0} (T : TraversalBudget B) where
  -- `items` are pushed, and nothing is charged.
  abbrev pub Pushes : ℕ → ℕ → B → B × Result TraversalError (List WalkItem) → Type 0
  Pushes pointers most b out = Spent T b (λ items b'. Pushed pointers most items × (b' ≡ b)) out

  pub split_range-Spent :
      (r : PointerRange) (b : B)
      → IsValid (pointer_range r)
      → Pushes r.remaining (2 * r.remaining - 1) b (split_range r b)
  split_range-Spent r b h =
      Spent-if T (ltb 1 r.remaining) _ _
        (λ more.
          Spent-checked T _ _ b (λ next. done (range_split r next))
            (add_words-Settled r.next r.stride_words)
            (λ next _.
              Spent-done T (range_split r next) b
                (range_split-Pushed r next (ltb→lt 1 r.remaining more), refl)))
        (λ _.
          Spent-done T (range_head r ∷ []) b
            (record { valid = (tt, tt); few = h; short = omega (arith, h) }, refl))

  pub split_inline-Spent :
      (i : InlinePointers) (b : B)
      → IsValid (inline_pointers i)
      → Pushes
          (item_pointers (inline_pointers i))
          (2 * item_pointers (inline_pointers i) - 1)
          b
          (split_inline i b)
  split_inline-Spent i b h =
      Spent-checked T _ _ b (λ location. done (pointer_item location i.nesting ∷ inline_rest i))
        (inline_location-Settled i)
        (λ location _.
          Spent-done T (pointer_item location i.nesting ∷ inline_rest i) b
            (inline_split-Pushed i location h, refl))

  push_inline-Spent :
      (l : ListRef) (limit : NestingLimit) (sizes : Option (ℕ × ℕ)) (b : B)
      → Filled l sizes
      → l.element_count < 2 ^ 32
      → Pushes (inline_count sizes l) (2 * inline_count sizes l) b (push_inline l limit sizes b)
  push_inline-Spent l limit none b h small = Spent-done T [] b (nothing-Pushed 0, refl)
  push_inline-Spent l limit (some (data_words, pointer_count)) b (inline, fits, pc) small =
      let whole =
        ap (λ (t : ℕ). t * pointer_count) {x = l.element_count - 0} {y = l.element_count}
          (omega arith) in
      Spent-if T (not (l.element_count == 0) && not (pointer_count == 0)) _ _
        (λ some_left.
          Spent-nested T limit b (λ n. done (inline_of l data_words pointer_count n))
            (λ n. Spent-done T (inline_of l data_words pointer_count n) b (
              record {
                valid = ((ground (arith, some_left), small, ground (arith, some_left), pc), tt);
                few = omega (arith, whole);
                short = omega (arith, whole);
              },
              refl,
            )))
        (λ _. Spent-done T [] b (nothing-Pushed _, refl))

  pub push_children-Spent :
      (m : MessageSegments) (limit : NestingLimit) (resolved : ResolvedPointer) (b : B)
      → Resolved m resolved
      → Pushes
          (child_pointers resolved)
          (2 * child_pointers resolved)
          b
          (push_children limit resolved b)
  push_children-Spent m limit null_ref b h = Spent-done T [] b (nothing-Pushed 0, refl)
  push_children-Spent m limit (capability_ref c) b h = Spent-done T [] b (nothing-Pushed 0, refl)
  push_children-Spent m limit (struct_ref s) b h =
      Spent-if T (not (s.pointer_count == 0)) _ _
        (λ some_left.
          Spent-checked T _ _ b (λ first. done (range_of first s.pointer_count limit))
            (add_words-Settled s.content s.data_words)
            (λ first _.
              Spent-done T _ b
                (range_of-Pushed first s.pointer_count limit (ground (arith, some_left)), refl)))
        (λ _. Spent-done T [] b (nothing-Pushed _, refl))
  push_children-Spent m limit (list_ref l) b (inside, filled, small) = sized l.element_size
    where
      sized :
          (size : ElementSize)
          → Pushes
              (if has_size size pointer
                then l.element_count
                else inline_count l.inline_struct_size l)
              (2
                * (if has_size size pointer
                    then l.element_count
                    else inline_count l.inline_struct_size l))
              b
              ((if has_size size pointer && not (l.element_count == 0)
                  then done (range_of l.content l.element_count limit)
                  else if has_size size inline_composite
                  then push_inline l limit l.inline_struct_size
                  else done [])
                b)
      sized pointer =
          Spent-if T (not (l.element_count == 0)) _ _
            (λ some_left.
              Spent-done T _ b
                (range_of-Pushed l.content l.element_count limit (ground (arith, some_left)), refl))
            (λ _. Spent-done T [] b (nothing-Pushed _, refl))
      sized inline_composite = push_inline-Spent l limit l.inline_struct_size b filled small
      sized _ = Spent-done T [] b (nothing-Pushed _, refl)
