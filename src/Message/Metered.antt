-- ===== src/Message/Metered.antt =====
-- crates/capnp-message: a computation that charges a budget. It returns the budget after it, also when
-- it fails; `?` is bind.
use capnp_rs_experiment.Prelude.{ℕ, Result, ok, err, panic}
use capnp_rs_experiment.Message.Budget.{TraversalBudget, BudgetExhausted, NestingLimitExceeded}
use capnp_rs_experiment.Message.Error.{ValidationError, TraversalError, validation, budget, nesting}

abbrev pub Metered : Type 0 → Type 0 → Type 0
Metered B A = B → B × Result TraversalError A

abbrev pub continue :
    {B A C : Type 0} → (A → Metered B C) → B × Result TraversalError A → B × Result TraversalError C
continue next (b, ok a) = next a b
continue next (b, err e) = (b, err e)
continue next (b, panic) = (b, panic)

infixl 5 ◌>>=◌ ◌>>◌
abbrev pub ◌>>=◌ : {B A C : Type 0} → Metered B A → (A → Metered B C) → Metered B C
(first >>= next) b = continue next (first b)

abbrev pub ◌>>◌ : {B C : Type 0} → Metered B (Unit {0}) → Metered B C → Metered B C
first >> next = first >>= λ u. next

-- `Ok(value)`
abbrev pub done : {B A : Type 0} → A → Metered B A
done value b = (b, ok value)

-- `?`, with the conversion of the error.
abbrev pub converted : {E A : Type 0} → (E → TraversalError) → Result E A → Result TraversalError A
converted into (ok value) = ok value
converted into (err e) = err (into e)
converted into panic = panic

abbrev pub checked : {B A : Type 0} → Result ValidationError A → Metered B A
checked r b = (b, converted validation r)

abbrev pub nested : {B A : Type 0} → Result NestingLimitExceeded A → Metered B A
nested r b = (b, converted nesting r)

abbrev pub charge_outcome :
    {B : Type 0} → B × Result BudgetExhausted (Unit {0}) → B × Result TraversalError (Unit {0})
charge_outcome (b, r) = (b, converted budget r)

-- `budget.try_charge(words)?`
abbrev pub charge : {B : Type 0} → TraversalBudget B → ℕ → Metered B (Unit {0})
charge T words b = charge_outcome (T.try_charge b words)
