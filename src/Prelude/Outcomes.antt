-- ===== src/Prelude/Outcomes.antt =====
-- Results without a panic: a value with a property, or an error.
use mathlib.Core.Path.{◌≡◌, refl, subst}
use mathlib.Core.Bool.{Bool, true, false}
use mathlib.Core.Option.{Option, none, some}
use Prim.Native.Nat.{ℕ, ◌≤◌}
use native.Mathlib.Omega.{arith}
use capnp_rs_experiment.Prelude.Tests.{if◌then◌else◌, leb, leb→le}
use capnp_rs_experiment.Prelude.Checked.{fit}
use capnp_rs_experiment.Prelude.Results.{Result, ok, err, panic, ◌>>=◌, ok_or, expect_some, map_ok}

abbrev pub Settles : {E A : Type 0} → (A → Type 0) → Result E A → Type 0
Settles P (ok a) = P a
Settles P (err e) = Unit
Settles P panic = ⊥

pub record Settled {E A : Type 0} (P : A → Type 0) (m : Result E A) : Type 0 where
  pub settled : Settles P m

pub Settled-ok : {E A : Type 0} {P : A → Type 0} (a : A) → P a → Settled {E = E} P (ok a)
Settled-ok a p = record { settled = p }

pub Settled-err : {E A : Type 0} {P : A → Type 0} (e : E) → Settled P (err e)
Settled-err e = record { settled = tt }

pub Settled-bind :
    {E A B : Type 0} (P : A → Type 0) {Q : B → Type 0} (m : Result E A) (f : A → Result E B)
    → Settled P m
    → ((a : A) → P a → Settled Q (f a))
    → Settled Q (m >>= f)
Settled-bind P (ok a) f h k = k a h.settled
Settled-bind P (err e) f h k = record { settled = tt }
Settled-bind P panic f h k = absurd h.settled

pub Settled-map :
    {E A B : Type 0} (P : A → Type 0) {Q : B → Type 0} (f : A → B) (m : Result E A)
    → Settled P m
    → ((a : A) → P a → Q (f a))
    → Settled Q (map_ok f m)
Settled-map P f (ok a) h k = record { settled = k a h.settled }
Settled-map P f (err e) h k = record { settled = tt }
Settled-map P f panic h k = absurd h.settled

pub Settled-ok_or : {E A : Type 0} (o : Option A) (e : E) → Settled (λ a. o ≡ some a) (ok_or o e)
Settled-ok_or none e = record { settled = tt }
Settled-ok_or (some a) e = record { settled = refl }

-- An `expect` of what is there.
pub Settled-expect :
    {E A : Type 0} (o : Option A) (a : A)
    → o ≡ some a
    → Settled {E = E} (λ b. o ≡ some b) (expect_some o)
Settled-expect none a h = absurd (cc h)
Settled-expect (some b) a h = record { settled = refl }

pub fit-cases :
    (max value : ℕ) {E : Type 0} (e : E)
    → Settled (λ a. (a ≡ value) × (value ≤ max)) (ok_or (fit max value) e)
fit-cases max value e = ground arith

pub Settled-if :
    {E A : Type 0} {P : A → Type 0} (b : Bool) {m n : Result E A}
    → (b ≡ true → Settled P m)
    → (b ≡ false → Settled P n)
    → Settled P (if b then m else n)
Settled-if true h k = h refl
Settled-if false h k = k refl

pub Settled-weaken :
    {E A : Type 0} {P Q : A → Type 0} (m : Result E A)
    → Settled P m
    → ((a : A) → P a → Q a)
    → Settled Q m
Settled-weaken (ok a) h k = record { settled = k a h.settled }
Settled-weaken (err e) h k = record { settled = tt }
Settled-weaken panic h k = absurd h.settled

pub Settled-fit :
    {E A : Type 0} {Q : A → Type 0} (max value : ℕ) (e : E) (f : ℕ → Result E A)
    → (value ≤ max → Settled Q (f value))
    → Settled Q (ok_or (fit max value) e >>= f)
Settled-fit {E} {A} {Q} max value e f k = split (leb value max) (λ fits. k (leb→le value max fits))
  where
    split :
        (b : Bool)
        → (b ≡ true → Settled Q (f value))
        → Settled Q (ok_or (if b then some value else none) e >>= f)
    split true h = h refl
    split false h = Settled-err e

pub Settled-value :
    {E A : Type 0} {P : A → Type 0} (m : Result E A) (a : A) → Settled P m → m ≡ ok a → P a
Settled-value {P = P} m a h e = (subst (Settled P) e h).settled
