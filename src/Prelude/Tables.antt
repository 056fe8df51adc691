-- ===== src/Prelude/Tables.antt =====
-- Facts over a small range, by evaluation at every value.
use Prim.Native.Nat.{ℕ, zero, suc, ◌<◌}
use mathlib.Core.Path.{◌≡◌, refl}
use mathlib.Core.Bool.{Bool, true, false, ◌&&◌}
use mathlib.Core.List.{List, [], ◌∷◌}
use native.Mathlib.Omega.{arith}
use capnp_rs_experiment.Prelude.Tests.{◌==◌}

unfoldable pub all_below : ℕ → (ℕ → Bool) → Bool
all_below zero p = true
all_below (suc n) p = p n && all_below n p

pub all_below_sound :
    (bound value : ℕ) (test : ℕ → Bool)
    → value < bound
    → all_below bound test ≡ true
    → test value ≡ true
unfolding all_below
all_below_sound zero value test less tested = absurd (omega arith)
all_below_sound (suc bound) value test less tested =
    ground (arith, all_below_sound bound value test)

abbrev pub same_list : List ℕ → List ℕ → Bool
same_list [] [] = true
same_list (x ∷ xs) (y ∷ ys) = x == y && same_list xs ys
same_list _ _ = false

pub same_list→eq : (xs ys : List ℕ) → same_list xs ys ≡ true → xs ≡ ys
same_list→eq [] [] h = refl
same_list→eq [] (y ∷ ys) h = cc
same_list→eq (x ∷ xs) [] h = cc
same_list→eq (x ∷ xs) (y ∷ ys) h = ground (arith, same_list→eq xs ys)
