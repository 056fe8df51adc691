-- ===== src/Rpc/Capability/Described.antt =====
-- crates/capnp-rpc-core/src/capability.rs: what a descriptor says of the tables, and that the operations
-- keep their invariants.
use capnp_rs_experiment.Prelude.{
  ℕ, ◌-◌, ◌<◌, ◌≡◌, refl, ap, sym, ◌∙◌, subst, Bool, true, false, not, ◌||◌, Option, none, some,
  Result, ok, err, panic, length, leb, ltb, if◌then◌else◌, ◌==◌, Option-cases, inl, inr,
  checked_add, u64_max, arith, Settled, Settled-ok, Settled-err,
}
use capnp_rs_experiment.Prelude.Maps.{lookup, contains_key, is_some, lookup-insert, lookup-update}
use capnp_rs_experiment.Rpc.Capability.{
  hosted_identity, promise_identity, no_descriptor, receiver_hosted_id, receiver_answer_to,
  OutgoingCapability, no_capability, hosted, promise, receiver_answer, receiver_hosted, attached,
  CapDescriptor, CapabilityError, ExportCapability, hosted_export, promise_export, key, ExportEntry,
  CapabilityTables, stats, contains_import,
}
use capnp_rs_experiment.Rpc.Capability.Exports.{
  descriptor_of, entry_with, count_reference, describe_again, describe_at, describe_known,
  describe_export, describe, lowest_free_export_id, ReleaseMessage, release_entry, apply_release,
}
use capnp_rs_experiment.Rpc.Capability.Valid.{
  ExportsValid, Counted, recount-Valid, add_export-Valid, drop_export-Valid,
}
use capnp_rs_experiment.Rpc.Capability.Follows.{
  Follows, Follows-refl, recount-Follows, add_export-Follows, drop_export-Follows, Grows,
  Grows-refl, recount-Grows, add_export-Grows,
}
use capnp_rs_experiment.Rpc.Capability.Numbers.{lowest_free_export_id-Settled}

-- The descriptor names an export of this capability.
pub record Exported (t : CapabilityTables) (c : ExportCapability) (d : CapDescriptor) : Type 0 where
  pub id : ℕ
  pub named : d ≡ descriptor_of c id
  pub entry : ExportEntry
  pub present : lookup t.exports id ≡ some entry
  pub same : entry.capability ≡ c

pub Exported-Grows :
    {t t' : CapabilityTables} (c : ExportCapability) (d : CapDescriptor)
    → Grows t t'
    → Exported t c d
    → Exported t' c d
Exported-Grows c d g x =
    let (e, there, same) = g.kept x.id x.entry x.present in
    record { id = x.id; named = x.named; entry = e; present = there; same = same ∙ x.same }

-- The tables after an operation are valid, it did not panic, and `P` holds of what it returned.
pub record Keeps {A : Type 0} (t : CapabilityTables) (P : CapabilityTables → A → Type 0)
    (out : CapabilityTables × Result CapabilityError A) : Type 0 where
  pub same_imports : ((out.0).imports ≡ t.imports) × ((out.0).max_imports ≡ t.max_imports)
  pub follows : Follows t (out.0)
  pub valid : ExportsValid (out.0)
  pub result : Settled (P (out.0)) (out.1)

-- What was exported before still is, and `P` holds of what is returned.
abbrev pub Now :
    {A : Type 0}
    → CapabilityTables
    → (CapabilityTables → A → Type 0)
    → CapabilityTables
    → A
    → Type 0
Now t P t' a = P t' a × Grows t t'

pub Keeps-if :
    {A : Type 0} {t : CapabilityTables} {P : CapabilityTables → A → Type 0} (b : Bool)
    {x y : CapabilityTables × Result CapabilityError A}
    → (b ≡ true → Keeps t P x)
    → (b ≡ false → Keeps t P y)
    → Keeps t P (if b then x else y)
Keeps-if true h k = h refl
Keeps-if false h k = k refl

key-injective : (a b : ExportCapability) → key a ≡ key b → a ≡ b
key-injective (hosted_export a) (hosted_export b) h =
    ap (λ i. hosted_export (record { identity = i })) (same_number h)
  where
    same_number : {i j : ℕ} → hosted_identity i ≡ hosted_identity j → i ≡ j
    same_number e = cc e
key-injective (promise_export a) (promise_export b) h =
    ap (λ i. promise_export (record { identity = i })) (same_number h)
  where
    same_number : {i j : ℕ} → promise_identity i ≡ promise_identity j → i ≡ j
    same_number e = cc e
key-injective (hosted_export a) (promise_export b) h = absurd (cc h)
key-injective (promise_export a) (hosted_export b) h = absurd (cc h)

none_of_absent : {o : Option ExportEntry} → is_some o ≡ false → o ≡ none
none_of_absent {o} h = elim (Option-cases o) [
  | inl absent ↦ absent
  | inr (e, present) ↦ absurd (cc (h, ap is_some present))
]

neither : (a b : Bool) → (a || b) ≡ false → (a ≡ false) × (b ≡ false)
neither true b h = absurd (cc h)
neither false b h = (refl, h)

pub incremented : (n m : ℕ) → checked_add n 1 ≡ some m → Counted m
incremented n m h = ground (arith, h)

module _ (t : CapabilityTables) (v : ExportsValid t) (c : ExportCapability) where
  failed : (e : CapabilityError) → Keeps t (Now t (λ t'. Exported t' c)) (t, err e)
  failed e = record {
    same_imports = (refl, refl);
    follows = Follows-refl t;
    valid = v;
    result = Settled-err e;
  }

  count_reference-Keeps :
      (id : ℕ) (e : ExportEntry) (count : Option ℕ)
      → lookup t.exports id ≡ some e
      → key e.capability ≡ key c
      → checked_add e.references 1 ≡ count
      → Keeps t (Now t (λ t'. Exported t' c)) (count_reference t c id e count)
  count_reference-Keeps id e none there name counted = failed _
  count_reference-Keeps id e (some n) there name counted = record {
    same_imports = (refl, refl);
    follows = recount-Follows t id n e there;
    valid = recount-Valid t v id n e there (incremented e.references n counted);
    result = Settled-ok (descriptor_of c id) (
      record {
        id = id;
        named = refl;
        entry = entry_with e.capability n;
        present = lookup-update t.exports id (entry_with e.capability n) e there;
        same = key-injective e.capability c name;
      },
      recount-Grows t id n e there,
    );
  }

  describe_at-Keeps :
      (r : Result CapabilityError ℕ)
      → t.export_by_identity (key c) ≡ none
      → length t.exports < t.max_exports
      → Settled (λ id. (contains_key t.exports id || t.reserved_export_ids id) ≡ false) r
      → Keeps t (Now t (λ t'. Exported t' c)) (describe_at t c r)
  describe_at-Keeps (ok id) fresh room free =
      let (absent, unreserved) =
        neither (contains_key t.exports id) (t.reserved_export_ids id) free.settled in
      record {
        same_imports = (refl, refl);
        follows = add_export-Follows t c id (none_of_absent absent);
        valid = add_export-Valid t v c id fresh (none_of_absent absent) unreserved room;
        result = Settled-ok (descriptor_of c id) (
          record {
            id = id;
            named = refl;
            entry = entry_with c 1;
            present = lookup-insert t.exports id (entry_with c 1);
            same = refl;
          },
          add_export-Grows t c id (none_of_absent absent),
        );
      }
  describe_at-Keeps (err e) fresh room free = failed e
  describe_at-Keeps panic fresh room free = absurd free.settled

  describe_known-Keeps :
      (known : Option ℕ)
      → t.export_by_identity (key c) ≡ known
      → Keeps t (Now t (λ t'. Exported t' c)) (describe_known t c known)
  describe_known-Keeps none fresh =
      Keeps-if (leb t.max_exports (length t.exports)) (λ _. failed _)
        (λ room.
          describe_at-Keeps (lowest_free_export_id t.exports t.reserved_export_ids) fresh
            (ground (arith, room)) (lowest_free_export_id-Settled t.exports t.reserved_export_ids))
  describe_known-Keeps (some id) known =
      let (e, there, name) = v.indexed (key c) id known in
      subst (λ o. Keeps t (Now t (λ t'. Exported t' c)) (describe_again t c id o)) (sym there)
        (count_reference-Keeps id e (checked_add e.references 1) there name refl)

  pub describe_export-Keeps : Keeps t (Now t (λ t'. Exported t' c)) (describe_export t c)
  unfolding describe_export
  describe_export-Keeps =
      Keeps-if ((stats t).export_references == u64_max) (λ _. failed _)
        (λ _. describe_known-Keeps (t.export_by_identity (key c)) refl)

-- The descriptor stands for the capability, in the tables as they are now.
abbrev pub StandsFor : CapabilityTables → OutgoingCapability → CapDescriptor → Type 0
StandsFor t (hosted c) d = Exported t (hosted_export c) d
StandsFor t (promise c) d = Exported t (promise_export c) d
StandsFor t no_capability d = d ≡ no_descriptor
StandsFor t (receiver_answer a) d = d ≡ receiver_answer_to a
StandsFor t (receiver_hosted id) d = (d ≡ receiver_hosted_id id) × (contains_import t id ≡ true)
StandsFor t (attached c r) d = ⊥

pub describe-Keeps :
    (t : CapabilityTables) (v : ExportsValid t) (c : OutgoingCapability)
    → Keeps t (Now t (λ t'. StandsFor t' c)) (describe t c)
unfolding describe
describe-Keeps t v no_capability = record {
  same_imports = (refl, refl);
  follows = Follows-refl t;
  valid = v;
  result = Settled-ok _ (refl, Grows-refl t);
}
describe-Keeps t v (hosted c) = describe_export-Keeps t v (hosted_export c)
describe-Keeps t v (promise c) = describe_export-Keeps t v (promise_export c)
describe-Keeps t v (receiver_hosted id) =
    Keeps-if (not (contains_import t id))
      (λ _. record {
        same_imports = (refl, refl);
        follows = Follows-refl t;
        valid = v;
        result = Settled-err _;
      })
      (λ there. record {
        same_imports = (refl, refl);
        follows = Follows-refl t;
        valid = v;
        result = Settled-ok _ ((refl, ground (arith, there)), Grows-refl t);
      })
describe-Keeps t v (receiver_answer a) = record {
  same_imports = (refl, refl);
  follows = Follows-refl t;
  valid = v;
  result = Settled-ok _ (refl, Grows-refl t);
}
describe-Keeps t v (attached c r) = record {
  same_imports = (refl, refl);
  follows = Follows-refl t;
  valid = v;
  result = Settled-err _;
}

pub apply_release-Keeps :
    (t : CapabilityTables) (v : ExportsValid t) (release : ReleaseMessage)
    → Keeps t (λ _ _. Unit {0}) (apply_release t release)
unfolding apply_release
apply_release-Keeps t v release = released (lookup t.exports release.id) refl
  where
    released :
        (o : Option ExportEntry)
        → lookup t.exports release.id ≡ o
        → Keeps t (λ _ _. Unit {0}) (release_entry t release o)
    released none h = record {
      same_imports = (refl, refl);
      follows = Follows-refl t;
      valid = v;
      result = Settled-err _;
    }
    released (some e) h =
        Keeps-if ((release.reference_count == 0) || ltb e.references release.reference_count)
          (λ _. record {
            same_imports = (refl, refl);
            follows = Follows-refl t;
            valid = v;
            result = Settled-err _;
          })
          (λ fits.
            Keeps-if (e.references - release.reference_count == 0)
              (λ last. record {
                same_imports = (refl, refl);
                follows = drop_export-Follows t release.id e h;
                valid = drop_export-Valid t v release.id e h;
                result = Settled-ok _ tt;
              })
              (λ more.
                let (counted, _, _) = v.entries release.id e h in
                record {
                  same_imports = (refl, refl);
                  follows =
                      recount-Follows t release.id (e.references - release.reference_count) e h;
                  valid =
                      recount-Valid t v release.id (e.references - release.reference_count) e h
                        (ground (arith, more), omega (arith, counted.1));
                  result = Settled-ok _ tt;
                }))
