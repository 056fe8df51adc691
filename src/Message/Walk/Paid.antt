-- ===== src/Message/Walk/Paid.antt =====
-- The charges of crates/capnp-message/src/validation.rs: what a pointer is charged pays for the pointers
-- inside its target.
use capnp_rs_experiment.Prelude.{
  ℕ, ◌+◌, ◌*◌, ◌≤◌, ◌≡◌, refl, ap, true, Option, none, some, Result, ok, err, panic, arith,
  Bool-cases, inl, inr, Settled, Settled-ok, Settled-err, Settled-weaken, fit-cases, usize_max,
  if◌then◌else◌,
}
use capnp_rs_experiment.Wire.Pointer.{ElementSize, pointer, WirePointer, far_fields}
use capnp_rs_experiment.Message.Budget.{TraversalBudget, NestingLimit}
use capnp_rs_experiment.Message.Error.{
  WireLocation, ListRef, ResolvedPointer, null_ref, struct_ref, list_ref, capability_ref,
  BoundedPointer, ValidationError,
}
use capnp_rs_experiment.Message.Metered.{Metered, ◌>>=◌, done, checked, charge}
use capnp_rs_experiment.Message.Segments.{MessageSegments}
use capnp_rs_experiment.Message.Validation.{has_size, validate_wire_pointer, read_pointer}
use capnp_rs_experiment.Message.Validation.Ranges.{read_pointer-Settled}
use capnp_rs_experiment.Message.Validation.Bounds.{
  element_bits, Resolved, Filled, validate_wire_pointer-Settled,
}
use capnp_rs_experiment.Message.Limits.{
  traversal_charge, target_words, landing_pad_words, with_landing_pad,
  validate_read_pointer_with_limits, validate_pointer_with_limits, bounded, child_limit,
}
use capnp_rs_experiment.Message.Walk.Spent.{
  Spent, Spent-done, Spent-bind, Spent-checked, Spent-nested, Spent-charge,
}
use capnp_rs_experiment.Message.Walk.Items.{child_pointers, inline_count}

with_landing_pad-covers :
    (pad n : ℕ) (r : Result ValidationError ℕ) (c : ℕ)
    → ((words : ℕ) → r ≡ ok words → n ≤ words)
    → with_landing_pad pad r ≡ ok c
    → n ≤ c
with_landing_pad-covers pad n (ok words) c h e = ground (arith, h words refl, e)
with_landing_pad-covers pad n (err x) c h e = absurd (cc e)
with_landing_pad-covers pad n panic c h e = absurd (cc e)

-- The pointers of a list lie in its words.
list_pointers_le :
    (l : ListRef) (sizes : Option (ℕ × ℕ))
    → Filled l sizes
    → (if has_size l.element_size pointer then l.element_count else inline_count sizes l)
      ≤ l.content_words
list_pointers_le l none (bits, width, fits, tight) =
    elim (Bool-cases (has_size l.element_size pointer)) [
      | inl same ↦
          let wide = width_of l.element_size bits same width in ground (arith, same, fits, wide)
      | inr other ↦ ground (arith, other)
    ]
  where
    width_of :
        (size : ElementSize) (bits : ℕ)
        → has_size size pointer ≡ true
        → element_bits size ≡ some bits
        → bits ≡ 64
    width_of size bits same h = ground (arith, same, h)
list_pointers_le l (some (d, pc)) (inline, fits, small) =
    let less : l.element_count * pc ≤ (d + pc) * l.element_count = omega arith in
    let other = ap (λ s. has_size s pointer) inline in ground (arith, less, fits, other)

-- Every pointer inside a target is paid for.
traversal_charge-covers :
    (m : MessageSegments) (p : WirePointer) (resolved : ResolvedPointer) (c : ℕ)
    → Resolved m resolved
    → traversal_charge p resolved ≡ ok c
    → child_pointers resolved ≤ c
unfolding traversal_charge
traversal_charge-covers m p null_ref c h e = omega arith
traversal_charge-covers m p (capability_ref x) c h e = omega arith
traversal_charge-covers m p (struct_ref s) c h e =
    with_landing_pad-covers (landing_pad_words (far_fields p)) s.pointer_count
      (target_words (struct_ref s)) c (λ words u. ground (arith, u)) e
traversal_charge-covers m p (list_ref l) c (inside, filled, small) e =
    with_landing_pad-covers (landing_pad_words (far_fields p)) _ (target_words (list_ref l)) c
      (λ words u.
        let physical : l.content_words ≤ words = ground (arith, u) in
        omega (arith, physical, list_pointers_le l l.inline_struct_size filled))
      e

target_words-Settled :
    (resolved : ResolvedPointer) → Settled (λ _. Unit {0}) (target_words resolved)
target_words-Settled null_ref = ground arith
target_words-Settled (capability_ref x) = ground arith
target_words-Settled (struct_ref s) = ground arith
target_words-Settled (list_ref l) = Settled-weaken _ (fit-cases usize_max _ _) (λ _ _. tt)

traversal_charge-Settled :
    (p : WirePointer) (resolved : ResolvedPointer)
    → Settled (λ c. traversal_charge p resolved ≡ ok c) (traversal_charge p resolved)
unfolding traversal_charge
traversal_charge-Settled p resolved = reflected (traversal_charge p resolved) (settles p resolved)
  where
    settles :
        (p : WirePointer) (resolved : ResolvedPointer)
        → Settled (λ _. Unit {0}) (traversal_charge p resolved)
    settles p resolved = padded (target_words resolved) (target_words-Settled resolved)
      where
        padded :
            (r : Result ValidationError ℕ)
            → Settled (λ _. Unit {0}) r
            → Settled (λ _. Unit {0}) (with_landing_pad (landing_pad_words (far_fields p)) r)
        padded (ok words) h = Settled-weaken _ (fit-cases usize_max _ _) (λ _ _. tt)
        padded (err x) h = Settled-err x
        padded panic h = absurd h.settled

    reflected :
        (r : Result ValidationError ℕ) → Settled (λ _. Unit {0}) r → Settled (λ c. r ≡ ok c) r
    reflected (ok c) h = Settled-ok c refl
    reflected (err x) h = Settled-err x
    reflected panic h = absurd h.settled

module _ {B : Type 0} (T : TraversalBudget B) where
  child_limit-Spent :
      {C : Type 0} {Q : C → B → Type 0} (limit : NestingLimit) (resolved : ResolvedPointer) (b : B)
      (k : NestingLimit → Metered B C)
      → ((a : NestingLimit) → Spent T b Q (k a b))
      → Spent T b Q ((child_limit limit resolved >>= k) b)
  child_limit-Spent limit null_ref b k f = f limit
  child_limit-Spent limit (capability_ref c) b k f = f limit
  child_limit-Spent limit (struct_ref s) b k f = Spent-nested T limit b k f
  child_limit-Spent limit (list_ref l) b k f = Spent-nested T limit b k f

  -- What a pointer is charged pays for the pointers inside its target.
  pub record Paid (m : MessageSegments) (b : B) (bounded : BoundedPointer) (b' : B) : Type 0 where
    pub resolved : Resolved m bounded.pointer
    pub balance : T.remaining_words b' + bounded.charged_words ≡ T.remaining_words b
    pub covered : child_pointers bounded.pointer ≤ bounded.charged_words

  pub validate_pointer_with_limits-Paid :
      (m : MessageSegments) (location : WireLocation) (limit : NestingLimit) (b : B)
      → Spent T b (Paid m b) (validate_pointer_with_limits T m location limit b)
  unfolding validate_pointer_with_limits validate_read_pointer_with_limits
  validate_pointer_with_limits-Paid m location limit b =
      Spent-checked T _ (read_pointer m location) b
        (λ p. validate_read_pointer_with_limits T m location p limit)
        (read_pointer-Settled m location)
        (λ p _.
          Spent-checked T _ (validate_wire_pointer m location p) b
            (λ resolved. child_limit limit resolved >>= (λ child.
              checked (traversal_charge p resolved)
              >>= (λ words. charge T words >>= (λ _. done (bounded resolved child words)))))
            (validate_wire_pointer-Settled m location p)
            (λ resolved valid.
              child_limit-Spent limit resolved b
                (λ child.
                  checked (traversal_charge p resolved)
                  >>= (λ words. charge T words >>= (λ _. done (bounded resolved child words))))
                (λ child.
                  Spent-checked T _ (traversal_charge p resolved) b
                    (λ words. charge T words >>= (λ _. done (bounded resolved child words)))
                    (traversal_charge-Settled p resolved)
                    (λ words e.
                      Spent-bind T _ (charge T words b) (λ _. done (bounded resolved child words))
                        (Spent-charge T words b)
                        (λ _ b' balance. Spent-done T (bounded resolved child words) b' (record {
                          resolved = valid;
                          balance = balance;
                          covered = traversal_charge-covers m p resolved words valid e;
                        }))))))
