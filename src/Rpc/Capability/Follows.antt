-- ===== src/Rpc/Capability/Follows.antt =====
-- crates/capnp-rpc-core/src/capability.rs: what every operation but `clear` and
-- `release_promise_reservation` leaves of the tables: the limits, and the numbers that promises own.
use capnp_rs_experiment.Prelude.{ℕ, ◌≡◌, refl, ap, sym, ◌∙◌, true, ◌⊎◌, inl, inr, none, some, arith}
use capnp_rs_experiment.Prelude.Maps.{
  Map, lookup, update, same_key, lookup-update, lookup-update_other, lookup-insert_other,
  lookup-remove_other, lookup_unique,
}
use capnp_rs_experiment.Rpc.Capability.{
  PromiseCapability, ExportCapability, promise_export, ExportEntry, ImportEntry, CapabilityTables,
  with_imports, with_exports,
}
use capnp_rs_experiment.Rpc.Capability.Exports.{entry_with, add_export, drop_export}

-- The number is that of an export of this promise, or is reserved.
abbrev pub Owned : CapabilityTables → ℕ → PromiseCapability → Type 0
Owned t id c =
    ((e : ExportEntry) × (lookup t.exports id ≡ some e) × (e.capability ≡ promise_export c))
    ⊎ (t.reserved_export_ids id ≡ true)

pub record Follows (t t' : CapabilityTables) : Type 0 where
  pub max_imports : t'.max_imports ≡ t.max_imports
  pub max_exports : t'.max_exports ≡ t.max_exports
  pub reserved : (id : ℕ) → t.reserved_export_ids id ≡ true → t'.reserved_export_ids id ≡ true
  pub owned : (id : ℕ) (c : PromiseCapability) → Owned t id c → Owned t' id c

pub Follows-refl : (t : CapabilityTables) → Follows t t
Follows-refl t = record {
  max_imports = refl;
  max_exports = refl;
  reserved = λ id h. h;
  owned = λ id c o. o;
}

pub Follows-trans : {t t' t'' : CapabilityTables} → Follows t t' → Follows t' t'' → Follows t t''
Follows-trans f g = record {
  max_imports = g.max_imports ∙ f.max_imports;
  max_exports = g.max_exports ∙ f.max_exports;
  reserved = λ id h. g.reserved id (f.reserved id h);
  owned = λ id c o. g.owned id c (f.owned id c o);
}

module _ (t : CapabilityTables) where
  pub with_imports-Follows : (m : Map ImportEntry) → Follows t (with_imports t m)
  with_imports-Follows m = record {
    max_imports = refl;
    max_exports = refl;
    reserved = λ id h. h;
    owned = λ id c o. o;
  }

  pub recount-Follows :
      (id n : ℕ) (e : ExportEntry)
      → lookup t.exports id ≡ some e
      → Follows t (with_exports t (update t.exports id (entry_with e.capability n)))
  recount-Follows id n e there = record {
    max_imports = refl;
    max_exports = refl;
    reserved = λ id' h. h;
    owned = λ id' c o. elim o [
      | inr h ↦ inr h
      | inl (e', old, promised) ↦ elim (same_key id id') [
        | inl same ↦ inl (
          entry_with e.capability n,
          ap (lookup (update t.exports id (entry_with e.capability n))) (sym same)
              ∙ lookup-update t.exports id (entry_with e.capability n) e there,
          ap (λ (x : ExportEntry). x.capability)
                (lookup_unique t.exports id id' e e' there old same)
              ∙ promised,
        )
        | inr other ↦ inl (e', lookup-update_other t.exports id id' _ other ∙ old, promised)
      ]
    ];
  }

  pub add_export-Follows :
      (c : ExportCapability) (id : ℕ) → lookup t.exports id ≡ none → Follows t (add_export t c id)
  add_export-Follows c id absent = record {
    max_imports = refl;
    max_exports = refl;
    reserved = λ id' h. h;
    owned = λ id' p o. elim o [
      | inr h ↦ inr h
      | inl (e', old, promised) ↦ elim (same_key id id') [
        | inl same ↦ absurd (cc (absent, old, ap (lookup t.exports) same))
        | inr other ↦ inl (e', lookup-insert_other t.exports id id' _ other ∙ old, promised)
      ]
    ];
  }

  pub drop_export-Follows :
      (id : ℕ) (e : ExportEntry)
      → lookup t.exports id ≡ some e
      → Follows t (drop_export t id e.capability)
  drop_export-Follows id e there = record {
    max_imports = refl;
    max_exports = refl;
    reserved = still;
    owned = λ id' p o. elim o [
      | inr h ↦ inr (still id' h)
      | inl (e', old, promised) ↦ elim (same_key id id') [
        | inl same ↦ inr (
            tombstone id' p same (
              ap (λ (x : ExportEntry). x.capability)
                (lookup_unique t.exports id id' e e' there old same)
              ∙ promised))
        | inr other ↦ inl (e', lookup-remove_other t.exports id id' other ∙ old, promised)
      ]
    ];
  }
    where
      still :
          (i : ℕ)
          → t.reserved_export_ids i ≡ true
          → (drop_export t id e.capability).reserved_export_ids i ≡ true
      still i h = ground (arith, h)

      tombstone :
          (i : ℕ) (p : PromiseCapability)
          → id ≡ i
          → e.capability ≡ promise_export p
          → (drop_export t id e.capability).reserved_export_ids i ≡ true
      tombstone i p same promised = ground (arith, same, promised)

-- What an operation adds to the exports: no export goes, or gets another capability.
pub record Grows (t t' : CapabilityTables) : Type 0 where
  pub imports : t'.imports ≡ t.imports
  pub kept :
      (id : ℕ) (e : ExportEntry)
      → lookup t.exports id ≡ some e
      → (e' : ExportEntry) × (lookup t'.exports id ≡ some e') × (e'.capability ≡ e.capability)

pub Grows-refl : (t : CapabilityTables) → Grows t t
Grows-refl t = record { imports = refl; kept = λ id e h. (e, h, refl) }

pub Grows-trans : {t t' t'' : CapabilityTables} → Grows t t' → Grows t' t'' → Grows t t''
Grows-trans f g = record {
  imports = g.imports ∙ f.imports;
  kept = λ id e h.
      let (e', there, same) = f.kept id e h in
      let (e'', there', same') = g.kept id e' there in (e'', there', same' ∙ same);
}

module _ (t : CapabilityTables) where
  pub recount-Grows :
      (id n : ℕ) (e : ExportEntry)
      → lookup t.exports id ≡ some e
      → Grows t (with_exports t (update t.exports id (entry_with e.capability n)))
  recount-Grows id n e there = record {
    imports = refl;
    kept = λ id' e' old. elim (same_key id id') [
      | inl same ↦ (
        entry_with e.capability n,
        ap (lookup (update t.exports id (entry_with e.capability n))) (sym same)
            ∙ lookup-update t.exports id (entry_with e.capability n) e there,
        ap (λ (x : ExportEntry). x.capability) (lookup_unique t.exports id id' e e' there old same),
      )
      | inr other ↦ (e', lookup-update_other t.exports id id' _ other ∙ old, refl)
    ];
  }

  pub add_export-Grows :
      (c : ExportCapability) (id : ℕ) → lookup t.exports id ≡ none → Grows t (add_export t c id)
  add_export-Grows c id absent = record {
    imports = refl;
    kept = λ id' e' old. elim (same_key id id') [
      | inl same ↦ absurd (cc (absent, old, ap (lookup t.exports) same))
      | inr other ↦ (e', lookup-insert_other t.exports id id' _ other ∙ old, refl)
    ];
  }
