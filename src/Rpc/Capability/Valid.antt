-- ===== src/Rpc/Capability/Valid.antt =====
-- The invariants of the tables in crates/capnp-rpc-core/src/capability.rs, and the steps that keep them.
use capnp_rs_experiment.Prelude.{
  ℕ, ◌≤◌, ◌<◌, ◌≡◌, ◌≢◌, refl, ap, sym, subst, ◌∙◌, Bool, true, false, ◌&&◌, none, some, length,
  if◌then◌else◌, Bool-cases, inl, inr, u64_max, arith, ◌==◌,
}
use capnp_rs_experiment.Prelude.Maps.{
  lookup, insert, update, insert-cases, update-cases, remove-cases, lookup-insert,
  lookup-insert_other, lookup-update, lookup-update_other, lookup_unique, length-insert_le,
  length-update, length-remove_le, same_key, some-injective, lookup-remove_other,
}
use capnp_rs_experiment.Rpc.Capability.{
  ExportCapability, ExportIdentity, hosted_identity, promise_identity, key, same_identity,
  ExportEntry, ImportEntry, CapabilityTables, with_exports,
}
use capnp_rs_experiment.Rpc.Capability.Exports.{
  entry_with, add_export, drop_export, is_promise_export,
}

abbrev pub Counted : ℕ → Type 0
Counted references = (0 < references) × (references ≤ u64_max)

-- An export is held, is found under its capability's identity, and does not use a reserved number.
abbrev pub EntryValid : CapabilityTables → ℕ → ExportEntry → Type 0
EntryValid t id e =
    Counted e.references
    × (t.export_by_identity (key e.capability) ≡ some id)
    × (t.reserved_export_ids id ≡ false)

-- Every identity leads to the export of its capability.
pub record ExportsValid (t : CapabilityTables) : Type 0 where
  pub entries : (id : ℕ) (e : ExportEntry) → lookup t.exports id ≡ some e → EntryValid t id e
  pub indexed :
      (k : ExportIdentity) (id : ℕ)
      → t.export_by_identity k ≡ some id
      → (e : ExportEntry) × (lookup t.exports id ≡ some e) × (key e.capability ≡ k)
  pub few : length t.exports ≤ t.max_exports

pub record ImportsValid (t : CapabilityTables) : Type 0 where
  pub held : (id : ℕ) (e : ImportEntry) → lookup t.imports id ≡ some e → Counted e.references
  pub few : length t.imports ≤ t.max_imports

pub same_identity_refl : (k : ExportIdentity) → same_identity k k ≡ true
same_identity_refl (hosted_identity a) = ground arith
same_identity_refl (promise_identity a) = ground arith

pub same_identity_eq : (k k' : ExportIdentity) → same_identity k k' ≡ true → k ≡ k'
same_identity_eq (hosted_identity a) (hosted_identity b) h = ap hosted_identity (ground (arith, h))
same_identity_eq (promise_identity a) (promise_identity b) h =
    ap promise_identity (ground (arith, h))
same_identity_eq (hosted_identity a) (promise_identity b) h = absurd (cc h)
same_identity_eq (promise_identity a) (hosted_identity b) h = absurd (cc h)

-- What holds of an entry holds of what is equal to it.
at_entry :
    (P : ℕ → ExportEntry → Type 0) {id id' : ℕ} {e e' : ExportEntry}
    → id ≡ id'
    → e' ≡ e
    → P id e
    → P id' e'
at_entry P {id} {id'} {e} {e'} same equal p = subst (λ i. P i e') same (subst (P id) (sym equal) p)

module _ (t : CapabilityTables) (v : ExportsValid t) where
  -- Another count for an export.
  pub recount-Valid :
      (id n : ℕ) (e : ExportEntry)
      → lookup t.exports id ≡ some e
      → Counted n
      → ExportsValid (with_exports t (update t.exports id (entry_with e.capability n)))
  recount-Valid id n e there counted = record {
    entries = λ id' e' h.
        elim (update-cases t.exports id id' (entry_with e.capability n) e' e there h) [
          | inl (same, equal) ↦
              let (_, named, free) = v.entries id e there in
              at_entry (EntryValid t) {e = entry_with e.capability n} same equal
                (counted, named, free)
          | inr (other, old) ↦ v.entries id' e' old
        ];
    indexed = λ k id' h.
        let (e', old, same_name) = v.indexed k id' h in
        elim (same_key id id') [
          | inl same ↦ (
            entry_with e.capability n,
            ap (lookup (update t.exports id (entry_with e.capability n))) (sym same)
                ∙ lookup-update t.exports id _ e there,
            ap (λ x. key x.capability) (lookup_unique t.exports id id' e e' there old same)
                ∙ same_name,
          )
          | inr other ↦ (e', lookup-update_other t.exports id id' _ other ∙ old, same_name)
        ];
    few = omega (arith, v.few, length-update t.exports id (entry_with e.capability n));
  }

  -- A new export, under a number that is free.
  pub add_export-Valid :
      (c : ExportCapability) (id : ℕ)
      → t.export_by_identity (key c) ≡ none
      → lookup t.exports id ≡ none
      → t.reserved_export_ids id ≡ false
      → length t.exports < t.max_exports
      → ExportsValid (add_export t c id)
  add_export-Valid c id fresh absent free room = record {
    entries = λ id' e' h. elim (insert-cases t.exports id id' (entry_with c 1) e' h) [
      | inl (same, equal) ↦
          at_entry (EntryValid (add_export t c id)) {e = entry_with c 1} same equal
            ((omega arith, omega arith), simp (same_identity_refl (key c)), free)
      | inr (other, old) ↦
          let (counted, named, unreserved) = v.entries id' e' old in
          (counted, still_named e' id' named, unreserved)
    ];
    indexed = λ k id' h. elim (Bool-cases (same_identity k (key c))) [
      | inl same ↦
          let same_id = some-injective (sym (simp same) ∙ h) in
          (
            entry_with c 1,
            ap (lookup (insert t.exports id (entry_with c 1))) (sym same_id)
                ∙ lookup-insert t.exports id _,
            sym (same_identity_eq k (key c) same),
          )
      | inr other ↦
          let (e', old, name) = v.indexed k id' (sym (simp other) ∙ h) in
          let apart : id ≢ id' =
            λ same_id. absurd (cc (absent, old, ap (lookup t.exports) same_id)) in
          (e', lookup-insert_other t.exports id id' _ apart ∙ old, name)
    ];
    few = omega (arith, room, length-insert_le t.exports id (entry_with c 1));
  }
    where
      still_named :
          (e' : ExportEntry) (id' : ℕ)
          → t.export_by_identity (key e'.capability) ≡ some id'
          → (add_export t c id).export_by_identity (key e'.capability) ≡ some id'
      still_named e' id' named = elim (Bool-cases (same_identity (key e'.capability) (key c))) [
        | inl same ↦ absurd (
            cc (
              named,
              fresh,
              ap t.export_by_identity (same_identity_eq (key e'.capability) (key c) same),
            ))
        | inr other ↦ simp other named
      ]

  -- The last reference of an export is gone.
  pub drop_export-Valid :
      (id : ℕ) (e : ExportEntry)
      → lookup t.exports id ≡ some e
      → ExportsValid (drop_export t id e.capability)
  drop_export-Valid id e there = record {
    entries = λ id' e' h.
        let (other, old) = remove-cases t.exports id id' e' h in
        let (counted, named, unreserved) = v.entries id' e' old in
        (counted, still_named e' id' other named, reserved_only id' other ∙ unreserved);
    indexed = λ k id' h. elim (Bool-cases (same_identity k (key e.capability))) [
      | inl same ↦ absurd (none_some (sym (simp same) ∙ h))
      | inr other ↦
          let (e', old, name) = v.indexed k id' (sym (simp other) ∙ h) in
          let apart : id ≢ id' = λ same_id.
            let key_of =
              ap (λ x. key x.capability) (lookup_unique t.exports id id' e e' there old same_id)
              ∙ name in
            absurd (cc (other, ap (same_identity k) key_of, same_identity_refl k)) in
          (e', lookup-remove_other t.exports id id' apart ∙ old, name)
    ];
    few = omega (arith, v.few, length-remove_le t.exports id);
  }
    where
      none_some : {id' : ℕ} → none ≡ some id' → ⊥
      none_some h = absurd (cc h)

      still_named :
          (e' : ExportEntry) (id' : ℕ)
          → id ≢ id'
          → t.export_by_identity (key e'.capability) ≡ some id'
          → (drop_export t id e.capability).export_by_identity (key e'.capability) ≡ some id'
      still_named e' id' other named =
          elim (Bool-cases (same_identity (key e'.capability) (key e.capability))) [
            | inl same ↦ absurd (
                other (
                  some-injective (
                    sym ((v.entries id e there).1)
                    ∙ sym (ap t.export_by_identity (same_identity_eq _ _ same))
                    ∙ named)))
            | inr diff ↦ simp diff named
          ]

      reserved_only :
          (id' : ℕ)
          → id ≢ id'
          → (drop_export t id e.capability).reserved_export_ids id' ≡ t.reserved_export_ids id'
      reserved_only id' other =
          only (is_promise_export e.capability) (id' == id) (ground (arith, other))
        where
          only :
              (b c : Bool)
              → c ≡ false
              → (if b && c then true else t.reserved_export_ids id') ≡ t.reserved_export_ids id'
          only b true h = absurd (cc h)
          only true false h = refl
          only false false h = refl
