-- ===== src/Prelude/Maps.antt =====
-- Rust's `BTreeMap` with integer keys: a list of the entries in ascending order of their keys.
use Prim.Native.Nat.{ℕ, ◌+◌, ◌≤◌}
use mathlib.Core.Path.{◌≡◌, refl, ap, sym, ◌∙◌}
use mathlib.Core.Logic.{◌≢◌, ◌⊎◌, inl, inr}
use mathlib.Core.Bool.{Bool, true, false}
use mathlib.Core.Option.{Option, none, some}
use mathlib.Core.List.{List, [], ◌∷◌}
use native.Mathlib.Omega.{arith}
use capnp_rs_experiment.Prelude.Tests.{◌==◌, ltb, if◌then◌else◌, Bool-cases}
use capnp_rs_experiment.Prelude.Lists.{length}

abbrev pub Map {ℓ} : Type ℓ → Type ℓ
Map V = List (ℕ × V)

module _ {ℓ} {V : Type ℓ} where
  abbrev pub lookup : Map V → ℕ → Option V
  lookup [] k = none
  lookup ((k', v) ∷ m) k = if k' == k then some v else lookup m k

  abbrev pub is_some : Option V → Bool
  is_some none = false
  is_some (some v) = true

  abbrev pub contains_key : Map V → ℕ → Bool
  contains_key m k = is_some (lookup m k)

  -- A key that is there keeps its place, and gets the new value.
  abbrev pub insert : Map V → ℕ → V → Map V
  insert [] k v = (k, v) ∷ []
  insert ((k', v') ∷ m) k v =
      let rest = insert m k v in
      if k' == k then (k, v) ∷ m else if ltb k k' then (k, v) ∷ ((k', v') ∷ m) else (k', v') ∷ rest

  -- A write through `get_mut`.
  abbrev pub update : Map V → ℕ → V → Map V
  update [] k v = []
  update ((k', v') ∷ m) k v =
      let rest = update m k v in if k' == k then (k', v) ∷ rest else (k', v') ∷ rest

  abbrev pub remove : Map V → ℕ → Map V
  remove [] k = []
  remove ((k', v') ∷ m) k = let rest = remove m k in if k' == k then rest else (k', v') ∷ rest

  pub lookup-insert : (m : Map V) (k : ℕ) (v : V) → lookup (insert m k v) k ≡ some v
  lookup-insert [] k v = ground arith
  lookup-insert ((k', v') ∷ m) k v = ground (arith, lookup-insert m k v)

  pub lookup-insert_other :
      (m : Map V) (k k' : ℕ) (v : V) → k ≢ k' → lookup (insert m k v) k' ≡ lookup m k'
  lookup-insert_other [] k k' v h = ground (arith, h)
  lookup-insert_other ((k'', v') ∷ m) k k' v h = ground (arith, h, lookup-insert_other m k k' v h)

  pub lookup-remove : (m : Map V) (k : ℕ) → lookup (remove m k) k ≡ none
  lookup-remove [] k = refl
  lookup-remove ((k', v') ∷ m) k = ground (arith, lookup-remove m k)

  pub lookup-remove_other : (m : Map V) (k k' : ℕ) → k ≢ k' → lookup (remove m k) k' ≡ lookup m k'
  lookup-remove_other [] k k' h = refl
  lookup-remove_other ((k'', v') ∷ m) k k' h = ground (arith, h, lookup-remove_other m k k' h)

  pub length-insert_le : (m : Map V) (k : ℕ) (v : V) → length (insert m k v) ≤ length m + 1
  length-insert_le [] k v = omega arith
  length-insert_le ((k', v') ∷ m) k v = ground (arith, length-insert_le m k v)

  pub length-remove_le : (m : Map V) (k : ℕ) → length (remove m k) ≤ length m
  length-remove_le [] k = omega arith
  length-remove_le ((k', v') ∷ m) k = ground (arith, length-remove_le m k)

  pub lookup-update :
      (m : Map V) (k : ℕ) (v u : V) → lookup m k ≡ some u → lookup (update m k v) k ≡ some v
  lookup-update [] k v u h = absurd (cc h)
  lookup-update ((k', v') ∷ m) k v u h = elim (Bool-cases (k' == k)) [
    | inl same ↦ simp same
    | inr other ↦
        let there : lookup m k ≡ some u = sym (simp other) ∙ h in
        simp other (lookup-update m k v u there)
  ]

  pub lookup-update_other :
      (m : Map V) (k k' : ℕ) (v : V) → k ≢ k' → lookup (update m k v) k' ≡ lookup m k'
  lookup-update_other [] k k' v h = refl
  lookup-update_other ((k'', v') ∷ m) k k' v h = ground (arith, h, lookup-update_other m k k' v h)

  pub length-update : (m : Map V) (k : ℕ) (v : V) → length (update m k v) ≡ length m
  length-update [] k v = refl
  length-update ((k', v') ∷ m) k v = ground (arith, length-update m k v)

pub same_key : (a b : ℕ) → (a ≡ b) ⊎ (a ≢ b)
same_key a b = elim (Bool-cases (a == b)) [
  | inl same ↦ inl (ground (arith, same))
  | inr other ↦ inr (λ e. ground (arith, other, e))
]

module _ {V : Type 0} where
  pub some-injective : {u v : V} → some u ≡ some v → u ≡ v
  some-injective h = cc h

  -- What stands in a map after an operation: the new entry, or an old one.
  pub insert-cases :
      (m : Map V) (k k' : ℕ) (v u : V)
      → lookup (insert m k v) k' ≡ some u
      → (k ≡ k') × (u ≡ v) ⊎ (k ≢ k') × (lookup m k' ≡ some u)
  insert-cases m k k' v u h = elim (same_key k k') [
    | inl e ↦
        inl (e, some-injective (sym h ∙ ap (lookup (insert m k v)) (sym e) ∙ lookup-insert m k v))
    | inr n ↦ inr (n, sym (lookup-insert_other m k k' v n) ∙ h)
  ]

  pub update-cases :
      (m : Map V) (k k' : ℕ) (v u w : V)
      → lookup m k ≡ some w
      → lookup (update m k v) k' ≡ some u
      → (k ≡ k') × (u ≡ v) ⊎ (k ≢ k') × (lookup m k' ≡ some u)
  update-cases m k k' v u w there h = elim (same_key k k') [
    | inl e ↦ inl (
      e,
      some-injective (sym h ∙ ap (lookup (update m k v)) (sym e) ∙ lookup-update m k v w there),
    )
    | inr n ↦ inr (n, sym (lookup-update_other m k k' v n) ∙ h)
  ]

  pub remove-cases :
      (m : Map V) (k k' : ℕ) (u : V)
      → lookup (remove m k) k' ≡ some u
      → (k ≢ k') × (lookup m k' ≡ some u)
  remove-cases m k k' u h = elim (same_key k k') [
    | inl e ↦ absurd (cc (h, ap (lookup (remove m k)) e, lookup-remove m k))
    | inr n ↦ (n, sym (lookup-remove_other m k k' n) ∙ h)
  ]

  pub lookup_unique :
      (m : Map V) (k k' : ℕ) (u v : V) → lookup m k ≡ some u → lookup m k' ≡ some v → k ≡ k' → u ≡ v
  lookup_unique m k k' u v h h' e = some-injective (sym h ∙ ap (lookup m) e ∙ h')
