-- ===== src/Message/Budget.antt =====
-- crates/capnp-message/src/budget.rs: the words that a reader may traverse, and the depth of a branch. A
-- charge returns the budget after it.
use capnp_rs_experiment.Prelude.{
  ℕ, ◌+◌, ◌≤◌, ◌<◌, ◌≡◌, ◌∙◌, refl, Option, none, some, Result, ok, err, panic, ◌⊎◌, checked_sub,
  arith, leb, if◌then◌else◌, leb→le, Bool-cases, inl, inr,
}

pub record BudgetExhausted : Type 0 where
  pub requested_words : ℕ
  pub remaining_words : ℕ

abbrev pub exhausted : ℕ → ℕ → BudgetExhausted
exhausted requested remaining = record { requested_words = requested; remaining_words = remaining }

-- `trait TraversalBudget`, with what both implementations keep: a charge deducts its whole word
-- count, or leaves the balance as it is.
pub record TraversalBudget (B : Type 0) : Type 0 where
  pub try_charge : B → ℕ → B × Result BudgetExhausted (Unit {0})
  pub remaining_words : B → ℕ
  pub granted :
      (b : B) (words : ℕ)
      → words ≤ remaining_words b
      → ((try_charge b words).1 ≡ ok tt)
        × (remaining_words (try_charge b words).0 + words ≡ remaining_words b)
  pub refused :
      (b : B) (words : ℕ)
      → remaining_words b < words
      → ((try_charge b words).1 ≡ err (exhausted words (remaining_words b)))
        × ((try_charge b words).0 ≡ b)

pub record LocalTraversalBudget : Type 0 where
  pub remaining : ℕ

abbrev pub new_local : ℕ → LocalTraversalBudget
new_local limit_words = record { remaining = limit_words }

-- The `match` on `checked_sub`.
abbrev settle_local :
    LocalTraversalBudget → ℕ → Option ℕ → LocalTraversalBudget × Result BudgetExhausted (Unit {0})
settle_local b words (some next) = (record { remaining = next }, ok tt)
settle_local b words none = (b, err (exhausted words b.remaining))

unfoldable pub local_try_charge :
    LocalTraversalBudget → ℕ → LocalTraversalBudget × Result BudgetExhausted (Unit {0})
local_try_charge b words = settle_local b words (checked_sub b.remaining words)

pub local_granted :
    (b : LocalTraversalBudget) (words : ℕ)
    → words ≤ b.remaining
    → ((local_try_charge b words).1 ≡ ok tt)
      × (((local_try_charge b words).0).remaining + words ≡ b.remaining)
unfolding local_try_charge
local_granted b words h = ground arith

pub local_refused :
    (b : LocalTraversalBudget) (words : ℕ)
    → b.remaining < words
    → ((local_try_charge b words).1 ≡ err (exhausted words b.remaining))
      × ((local_try_charge b words).0 ≡ b)
unfolding local_try_charge
local_refused b words h = ground arith

abbrev pub local_budget : TraversalBudget LocalTraversalBudget
local_budget = record {
  try_charge = local_try_charge;
  remaining_words = λ b. b.remaining;
  granted = local_granted;
  refused = local_refused;
}

-- `AtomicU64::fetch_update`, which happens as one step: the cell after it, and the value before it.
abbrev settle_cell : ℕ → Option ℕ → ℕ × Result ℕ ℕ
settle_cell before (some after) = (after, ok before)
settle_cell before none = (before, err before)

abbrev pub fetch_update : ℕ → (ℕ → Option ℕ) → ℕ × Result ℕ ℕ
fetch_update cell update = settle_cell cell (update cell)

pub record SharedTraversalBudget : Type 0 where
  pub remaining : ℕ

-- `map(|_| ())` and `map_err`.
abbrev charge_result : ℕ → Result ℕ ℕ → Result BudgetExhausted (Unit {0})
charge_result words (ok before) = ok tt
charge_result words (err remaining) = err (exhausted words remaining)
charge_result words panic = panic

unfoldable pub shared_try_charge :
    SharedTraversalBudget → ℕ → SharedTraversalBudget × Result BudgetExhausted (Unit {0})
shared_try_charge b words =
    let (remaining', r) = fetch_update b.remaining (λ remaining. checked_sub remaining words) in
    (record { remaining = remaining' }, charge_result words r)

pub shared_granted :
    (b : SharedTraversalBudget) (words : ℕ)
    → words ≤ b.remaining
    → ((shared_try_charge b words).1 ≡ ok tt)
      × (((shared_try_charge b words).0).remaining + words ≡ b.remaining)
unfolding shared_try_charge
shared_granted b words h = ground arith

pub shared_refused :
    (b : SharedTraversalBudget) (words : ℕ)
    → b.remaining < words
    → ((shared_try_charge b words).1 ≡ err (exhausted words b.remaining))
      × ((shared_try_charge b words).0 ≡ b)
unfolding shared_try_charge
shared_refused b words h = ground arith

abbrev pub shared_budget : TraversalBudget SharedTraversalBudget
shared_budget = record {
  try_charge = shared_try_charge;
  remaining_words = λ b. b.remaining;
  granted = shared_granted;
  refused = shared_refused;
}

pub record NestingLimit : Type 0 where
  pub remaining : ℕ

pub data NestingLimitExceeded : Type 0 where
  nesting_limit_exceeded : NestingLimitExceeded

abbrev descend_to : Option ℕ → Result NestingLimitExceeded NestingLimit
descend_to (some remaining) = ok (record { remaining = remaining })
descend_to none = err nesting_limit_exceeded

unfoldable pub descend : NestingLimit → Result NestingLimitExceeded NestingLimit
descend n = descend_to (checked_sub n.remaining 1)

-- Whatever is asked for, it is granted in full, or refused and the budget left as it was.
pub charge_balance :
    {B : Type 0} (T : TraversalBudget B) (b : B) (words : ℕ)
    → ((T.try_charge b words).1 ≡ ok tt)
        × (T.remaining_words ((T.try_charge b words).0) + words ≡ T.remaining_words b)
      ⊎ ((T.try_charge b words).1 ≡ err (exhausted words (T.remaining_words b)))
        × ((T.try_charge b words).0 ≡ b)
charge_balance T b words = elim (Bool-cases (leb words (T.remaining_words b))) [
  | inl fits ↦ inl (T.granted b words (leb→le _ _ fits))
  | inr over ↦ inr (T.refused b words (ground arith))
]

-- A shared budget, the words that its readers were granted so far, and how many of their requests were
-- refused although the balance covered them.
pub record Account : Type 0 where
  pub budget : SharedTraversalBudget
  pub granted_words : ℕ
  pub unjust_refusals : ℕ

-- What a charge does to the account: words that are granted count, and so does an unjust refusal.
abbrev pub settle_account :
    Account → ℕ → SharedTraversalBudget × Result BudgetExhausted (Unit {0}) → Account
settle_account a words (b, ok _) = record {
  budget = b;
  granted_words = a.granted_words + words;
  unjust_refusals = a.unjust_refusals;
}
settle_account a words (b, err _) = record {
  budget = b;
  granted_words = a.granted_words;
  unjust_refusals = a.unjust_refusals + (if leb words ((a.budget).remaining) then 1 else 0);
}
settle_account a words (b, panic) = record {
  budget = b;
  granted_words = a.granted_words;
  unjust_refusals = a.unjust_refusals + 1;
}

-- The charges of all readers, each one atomic, in the order in which they happen.
pub data SharedCharges (a : Account) : Account → Type 0 where
  none_yet : SharedCharges a a
  then_charge :
      {a' : Account} (words : ℕ)
      → SharedCharges a a'
      → SharedCharges a (settle_account a' words (shared_try_charge a'.budget words))

shared_try_charge_step :
    (a : Account) (words : ℕ)
    → let a' = settle_account a words (shared_try_charge a.budget words) in
      ((a'.budget).remaining + a'.granted_words ≡ (a.budget).remaining + a.granted_words)
      × (a'.unjust_refusals ≡ a.unjust_refusals)
unfolding shared_try_charge
shared_try_charge_step a words = ground arith

-- After any charges by any readers of one shared budget, in any order and of any sizes, the words granted
-- and the balance make up the balance at the start: no charge is partial, and no more is granted than
-- there was. No request was refused that the balance covered.
pub SharedCharges-balance :
    {a a' : Account}
    → SharedCharges a a'
    → ((a'.budget).remaining + a'.granted_words ≡ (a.budget).remaining + a.granted_words)
      × (a'.unjust_refusals ≡ a.unjust_refusals)
SharedCharges-balance none_yet = (refl, refl)
SharedCharges-balance (then_charge {a'} words before) =
    let (balance, just) = shared_try_charge_step a' words in
    let (balance', just') = SharedCharges-balance before in (balance ∙ balance', just ∙ just')
