-- ===== src/Message/Walk/Spent.antt =====
-- Computations on a budget, in crates/capnp-message: what they leave of it.
use capnp_rs_experiment.Prelude.{
  ℕ, ◌+◌, ◌≤◌, ◌≡◌, refl, ap, ◌⊎◌, inl, inr, Bool, true, false, if◌then◌else◌, Result, ok, err,
  panic, arith, Settled,
}
use capnp_rs_experiment.Message.Budget.{
  TraversalBudget, NestingLimit, NestingLimitExceeded, descend, charge_balance, BudgetExhausted,
}
use capnp_rs_experiment.Message.Error.{ValidationError, TraversalError}
use capnp_rs_experiment.Message.Metered.{
  Metered, ◌>>=◌, done, checked, nested, charge, continue, charge_outcome,
}

descend-Settled : (limit : NestingLimit) → Settled (λ _. Unit {0}) (descend limit)
unfolding descend
descend-Settled limit = ground arith

module _ {B : Type 0} (T : TraversalBudget B) where
  -- A success leaves a budget of which `P` holds; nothing is ever given back, and nothing panics.
  abbrev pub Spends : {A : Type 0} → B → (A → B → Type 0) → B × Result TraversalError A → Type 0
  Spends b P (b', ok a) = (T.remaining_words b' ≤ T.remaining_words b) × P a b'
  Spends b P (b', err e) = T.remaining_words b' ≤ T.remaining_words b
  Spends b P (b', panic) = ⊥

  pub record Spent {A : Type 0} (b : B) (P : A → B → Type 0) (r : B × Result TraversalError A)
      : Type 0 where
    pub spends : Spends b P r

  pub Spent-done : {A : Type 0} {P : A → B → Type 0} (a : A) (b : B) → P a b → Spent b P (done a b)
  Spent-done a b p = record { spends = (omega arith, p) }

  pub Spent-bind :
      {A C : Type 0} {b : B} (P : A → B → Type 0) {Q : C → B → Type 0}
      (r : B × Result TraversalError A) (k : A → Metered B C)
      → Spent b P r
      → ((a : A) (b' : B) → P a b' → Spent b' Q (k a b'))
      → Spent b Q (continue k r)
  Spent-bind P (b', ok a) k h f = spent-after (k a b') (h.spends.0) (f a b' (h.spends.1))
    where
      spent-after :
          {C : Type 0} {Q : C → B → Type 0} {b b' : B} (r : B × Result TraversalError C)
          → T.remaining_words b' ≤ T.remaining_words b
          → Spent b' Q r
          → Spent b Q r
      spent-after (b'', ok c) less h = record {
        spends = (omega (arith, less, h.spends.0), h.spends.1);
      }
      spent-after (b'', err e) less h = record { spends = omega (arith, less, h.spends) }
      spent-after (b'', panic) less h = absurd h.spends
  Spent-bind P (b', err e) k h f = record { spends = h.spends }
  Spent-bind P (b', panic) k h f = absurd h.spends

  -- A check leaves the budget as it is.
  pub Spent-checked :
      {A C : Type 0} (P : A → Type 0) {Q : C → B → Type 0} (r : Result ValidationError A) (b : B)
      (k : A → Metered B C)
      → Settled P r
      → ((a : A) → P a → Spent b Q (k a b))
      → Spent b Q ((checked r >>= k) b)
  Spent-checked P (ok a) b k h f = f a h.settled
  Spent-checked P (err e) b k h f = record { spends = omega arith }
  Spent-checked P panic b k h f = absurd h.settled

  pub Spent-nested :
      {C : Type 0} {Q : C → B → Type 0} (limit : NestingLimit) (b : B)
      (k : NestingLimit → Metered B C)
      → ((a : NestingLimit) → Spent b Q (k a b))
      → Spent b Q ((nested (descend limit) >>= k) b)
  Spent-nested {C} {Q} limit b k f = returned (descend limit) (descend-Settled limit)
    where
      returned :
          (r : Result NestingLimitExceeded NestingLimit)
          → Settled (λ _. Unit {0}) r
          → Spent b Q ((nested r >>= k) b)
      returned (ok a) h = f a
      returned (err e) h = record { spends = omega arith }
      returned panic h = absurd h.settled

  pub Spent-if :
      {C : Type 0} {Q : C → B → Type 0} (c : Bool) (x y : Metered B C) {b : B}
      → (c ≡ true → Spent b Q (x b))
      → (c ≡ false → Spent b Q (y b))
      → Spent b Q ((if c then x else y) b)
  Spent-if true x y h k = h refl
  Spent-if false x y h k = k refl

  pub Spent-charge :
      (words : ℕ) (b : B)
      → Spent b (λ _ b'. T.remaining_words b' + words ≡ T.remaining_words b) (charge T words b)
  Spent-charge words b = outcome (T.try_charge b words) (charge_balance T b words)
    where
      outcome :
          {x : BudgetExhausted} (t : B × Result BudgetExhausted (Unit {0}))
          → (t.1 ≡ ok tt) × (T.remaining_words (t.0) + words ≡ T.remaining_words b)
            ⊎ (t.1 ≡ err x) × (t.0 ≡ b)
          → Spent b (λ _ b'. T.remaining_words b' + words ≡ T.remaining_words b) (charge_outcome t)
      outcome (b', ok u) (inl (e, balance)) = record { spends = (omega (arith, balance), balance) }
      outcome (b', ok u) (inr (e, same)) = absurd (cc e)
      outcome (b', err x) (inl (e, balance)) = absurd (cc e)
      outcome (b', err x) (inr (e, same)) = record {
        spends = omega (arith, ap T.remaining_words same);
      }
      outcome (b', panic) (inl (e, balance)) = absurd (cc e)
      outcome (b', panic) (inr (e, same)) = absurd (cc e)
