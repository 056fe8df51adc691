-- ===== src/Prelude/Results.antt =====
-- Rust's `Result`, with `?` as bind. `panic` is no value of that type: it says that the code panicked.
use Prim.Native.Nat.{ℕ}
use mathlib.Core.Path.{◌≡◌, refl}
use mathlib.Core.Logic.{◌⊎◌, inl, inr}
use mathlib.Core.Option.{Option, none, some}
use mathlib.Core.Bool.{Bool, true, false, ◌&&◌}
use mathlib.Core.List.{List}
use capnp_rs_experiment.Prelude.Tests.{leb, if◌then◌else◌}
use capnp_rs_experiment.Prelude.Lists.{length, slice}

pub data Result (E A : Type 0) : Type 0 where
  ok : A → Result E A
  err : E → Result E A
  panic : Result E A

infixl 5 ◌>>=◌ ◌>>◌
abbrev pub ◌>>=◌ : {E A B : Type 0} → Result E A → (A → Result E B) → Result E B
ok value >>= next = next value
err error >>= next = err error
panic >>= next = panic

abbrev pub ◌>>◌ : {E B : Type 0} → Result E (Unit {0}) → Result E B → Result E B
checked >> next = checked >>= λ u. next

-- `Result::map`
abbrev pub map_ok : {E A B : Type 0} → (A → B) → Result E A → Result E B
map_ok f (ok a) = ok (f a)
map_ok f (err e) = err e
map_ok f panic = panic

-- `Option::ok_or`
abbrev pub ok_or : {E A : Type 0} → Option A → E → Result E A
ok_or none e = err e
ok_or (some a) e = ok a

-- `expect` on a `Result` and on an `Option`.
abbrev pub expect_ok : {E D A : Type 0} → Result D A → Result E A
expect_ok (ok a) = ok a
expect_ok (err e) = panic
expect_ok panic = panic

abbrev pub expect_some : {E A : Type 0} → Option A → Result E A
expect_some none = panic
expect_some (some a) = ok a

-- `xs[a..b]`, which panics outside the slice.
abbrev pub slice_at : {E A : Type 0} → ℕ → ℕ → List A → Result E (List A)
slice_at a b xs = if leb a b && leb b (length xs) then ok (slice a b xs) else panic

-- The value of a success; what an error or a panic carries is forgotten.
abbrev pub success : {E A : Type 0} → Result E A → Option A
success (ok a) = some a
success (err e) = none
success panic = none

-- `P` holds of the value, if there is one.
abbrev pub Holds : {E A : Type 0} → (A → Type 0) → Result E A → Type 0
Holds P (ok a) = P a
Holds P (err e) = Unit
Holds P panic = Unit

pub record Ensures {E A : Type 0} (P : A → Type 0) (m : Result E A) : Type 0 where
  pub holds : Holds P m

pub Ensures-bind :
    {E A B : Type 0} (P : A → Type 0) {Q : B → Type 0} (m : Result E A) (f : A → Result E B)
    → Ensures P m
    → ((a : A) → P a → Ensures Q (f a))
    → Ensures Q (m >>= f)
Ensures-bind P (ok a) f h k = k a h.holds
Ensures-bind P (err e) f h k = record { holds = tt }
Ensures-bind P panic f h k = record { holds = tt }

-- After a check only what follows it matters.
pub Ensures-then :
    {E A B : Type 0} {Q : B → Type 0} (m : Result E A) (f : A → Result E B)
    → ((a : A) → Ensures Q (f a))
    → Ensures Q (m >>= f)
Ensures-then (ok a) f k = k a
Ensures-then (err e) f k = record { holds = tt }
Ensures-then panic f k = record { holds = tt }

pub Ensures-if :
    {E A : Type 0} {P : A → Type 0} (b : Bool) {m n : Result E A}
    → Ensures P m
    → Ensures P n
    → Ensures P (if b then m else n)
Ensures-if true h k = h
Ensures-if false h k = k

pub Result-cases :
    {E A : Type 0} (m : Result E A) → ((a : A) × (m ≡ ok a)) ⊎ ((e : E) × (m ≡ err e)) ⊎ (m ≡ panic)
Result-cases (ok a) = inl (a, refl)
Result-cases (err e) = inr (inl (e, refl))
Result-cases panic = inr (inr refl)

-- A success of a chain is a success of each part.
pub bind_ok :
    {E A B : Type 0} (m : Result E A) (f : A → Result E B) (c : B)
    → (m >>= f) ≡ ok c
    → (a : A) × (m ≡ ok a) × (f a ≡ ok c)
bind_ok (ok a) f c h = (a, refl, h)
bind_ok (err e) f c h = absurd (cc h)
bind_ok panic f c h = absurd (cc h)

pub ok_or_ok : {E A : Type 0} (o : Option A) (e : E) (a : A) → ok_or {E = E} o e ≡ ok a → o ≡ some a
ok_or_ok none e a h = absurd (cc h)
ok_or_ok (some b) e a h = cc h

pub if_ok :
    {E A : Type 0} (b : Bool) (e : E) (m : Result E A) (c : A)
    → (if b then err e else m) ≡ ok c
    → (b ≡ false) × (m ≡ ok c)
if_ok true e m c h = absurd (cc h)
if_ok false e m c h = (refl, h)
