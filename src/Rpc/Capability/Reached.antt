-- ===== src/Rpc/Capability/Reached.antt =====
-- crates/capnp-rpc-core/src/capability.rs: the tables that a connection can reach, and what a descriptor
-- brings back.
use capnp_rs_experiment.Prelude.{
  ℕ, ◌≡◌, refl, ap, ◌∙◌, subst, Bool, true, false, not, ◌&&◌, ◌||◌, Option, none, some, List,
  Result, ok, arith, if◌then◌else◌, ◌==◌, inl, inr, Bool-cases, Option-cases,
}
use capnp_rs_experiment.Prelude.Maps.{lookup, contains_key, is_some}
use capnp_rs_experiment.Rpc.Capability.{
  OutgoingCapability, CapDescriptor, receiver_hosted_id, CapabilityError, ExportCapability,
  hosted_export, promise_export, ExportEntry, CapabilityTables, new, clear,
  release_promise_reservation,
}
use capnp_rs_experiment.Rpc.Capability.Exports.{
  descriptor_of, describe_export, describe, describe_all, ReleaseMessage, is_promise_export,
  apply_release,
}
use capnp_rs_experiment.Rpc.Capability.Imports.{received_as, receive_own, receive, release_import}
use capnp_rs_experiment.Rpc.Capability.Payload.{describe_all_with_resources}
use capnp_rs_experiment.Rpc.Capability.Implicit.{
  apply_implicit_import_releases, apply_implicit_releases,
}
use capnp_rs_experiment.Rpc.Capability.Follows.{Follows}
use capnp_rs_experiment.Rpc.Capability.Described.{Exported, Keeps, Now, describe_export-Keeps}
use capnp_rs_experiment.Rpc.Capability.Operations.{
  IsValid, Kept, describe-Kept, describe_all-Kept, receive-Kept, release_import-Kept,
  apply_release-Kept,
}
use capnp_rs_experiment.Rpc.Capability.Composed.{
  describe_all_with_resources-Kept, apply_implicit_import_releases-Kept,
  apply_implicit_releases-Kept,
}

-- One operation of the connection on its tables, whatever it returns.
pub data Step (t : CapabilityTables) : CapabilityTables → Type 0 where
  describes : (c : OutgoingCapability) → Step t ((describe t c).0)
  describes_all : (cs : List OutgoingCapability) → Step t ((describe_all t cs).0)
  describes_all_with_resources :
      (cs : List OutgoingCapability) → Step t ((describe_all_with_resources t cs).0)
  receives : (d : CapDescriptor) → Step t ((receive t d).0)
  releases_import : (id count : ℕ) → Step t ((release_import t id count).0)
  applies_implicit_import_releases :
      (ids : List ℕ) → Step t ((apply_implicit_import_releases t ids).0)
  applies_release : (release : ReleaseMessage) → Step t ((apply_release t release).0)
  applies_implicit_releases : (ids : List ℕ) → Step t ((apply_implicit_releases t ids).0)

abbrev is_promise_entry : Option ExportEntry → Bool
is_promise_entry none = false
is_promise_entry (some e) = is_promise_export e.capability

-- The numbers of promises that went, told from the exports before and after a step alone.
abbrev pub promises_gone : CapabilityTables → CapabilityTables → (ℕ → Bool) → ℕ → Bool
promises_gone t t' gone id =
    (is_promise_entry (lookup t.exports id) && not (contains_key t'.exports id)) || gone id

-- The tables that the operations lead to, and the numbers under which a promise was exported and then
-- released, since its reservation was last given up.
pub data Reached (max_imports max_exports : ℕ) : (ℕ → Bool) → CapabilityTables → Type 0 where
  start : Reached max_imports max_exports (λ id. false) (new max_imports max_exports)
  step :
      {gone : ℕ → Bool} {t t' : CapabilityTables}
      → Reached max_imports max_exports gone t
      → Step t t'
      → Reached max_imports max_exports (promises_gone t t' gone) t'
  releases_reservation :
      {gone : ℕ → Bool} {t : CapabilityTables} (id : ℕ)
      → Reached max_imports max_exports gone t
      → Reached max_imports max_exports
          (λ i. if i == id then false else gone i)
          (release_promise_reservation t id)
  clears :
      {gone : ℕ → Bool} {t : CapabilityTables}
      → Reached max_imports max_exports gone t
      → Reached max_imports max_exports (λ id. false) (clear t)

new-Valid : (max_imports max_exports : ℕ) → IsValid (new max_imports max_exports)
unfolding new
new-Valid max_imports max_exports = record {
  exports = record {
    entries = λ id e h. absurd (cc h);
    indexed = λ k id h. absurd (cc h);
    few = omega arith;
  };
  imports = record { held = λ id e h. absurd (cc h); few = omega arith };
}

clear-Valid : (t : CapabilityTables) → IsValid (clear t)
clear-Valid t = record {
  exports = record {
    entries = λ id e h. absurd (cc h);
    indexed = λ k id h. absurd (cc h);
    few = omega arith;
  };
  imports = record { held = λ id e h. absurd (cc h); few = omega arith };
}

release_promise_reservation-Valid :
    (t : CapabilityTables) (v : IsValid t) (id : ℕ) → IsValid (release_promise_reservation t id)
unfolding release_promise_reservation
release_promise_reservation-Valid t v id = record {
  exports = record {
    entries = λ i e h.
        let (counted, named, unreserved) = (v.exports).entries i e h in
        (counted, named, ground (arith, unreserved));
    indexed = (v.exports).indexed;
    few = (v.exports).few;
  };
  imports = record { held = (v.imports).held; few = (v.imports).few };
}

-- Valid tables with these limits, in which every number that a promise left is reserved and free.
pub record Sound (max_imports max_exports : ℕ) (gone : ℕ → Bool) (t : CapabilityTables)
    : Type 0 where
  pub valid : IsValid t
  pub imports_limit : t.max_imports ≡ max_imports
  pub exports_limit : t.max_exports ≡ max_exports
  pub kept_back :
      (id : ℕ)
      → gone id ≡ true
      → (t.reserved_export_ids id ≡ true) × (contains_key t.exports id ≡ false)

-- What is reserved is free.
reserved_free :
    (t : CapabilityTables) (v : IsValid t) (id : ℕ)
    → t.reserved_export_ids id ≡ true
    → contains_key t.exports id ≡ false
reserved_free t v id h = elim (Option-cases (lookup t.exports id)) [
  | inl absent ↦ ap is_some absent
  | inr (e, there) ↦
      let (counted, named, unreserved) = (v.exports).entries id e there in
      absurd (cc (h, unreserved))
]

-- The number of a promise that a step drops is reserved after it.
gone-reserved :
    (t t' : CapabilityTables) (gone : ℕ → Bool) (id : ℕ) (o : Option ExportEntry)
    → Follows t t'
    → (gone id ≡ true → t.reserved_export_ids id ≡ true)
    → lookup t.exports id ≡ o
    → ((is_promise_entry o && not (contains_key t'.exports id)) || gone id) ≡ true
    → t'.reserved_export_ids id ≡ true
gone-reserved t t' gone id none f before h g = f.reserved id (before g)
gone-reserved t t' gone id (some e) f before h g = by_kind e.capability refl g
  where
    by_kind :
        (c : ExportCapability)
        → e.capability ≡ c
        → ((is_promise_export c && not (contains_key t'.exports id)) || gone id) ≡ true
        → t'.reserved_export_ids id ≡ true
    by_kind (hosted_export c) k g' = f.reserved id (before g')
    by_kind (promise_export c) k g' = elim (f.owned id c (inl (e, h, k))) [
      | inr kept ↦ kept
      | inl (e', there, same) ↦ f.reserved id (before (ground (arith, there, g')))
    ]

Sound-after :
    {A : Type 0} {max_imports max_exports : ℕ} {gone : ℕ → Bool} (t : CapabilityTables)
    (out : CapabilityTables × Result CapabilityError A)
    → Sound max_imports max_exports gone t
    → Kept t out
    → Sound max_imports max_exports (promises_gone t (out.0) gone) (out.0)
Sound-after {gone = gone} t (t', r) s k = record {
  valid = k.valid;
  imports_limit = (k.follows).max_imports ∙ s.imports_limit;
  exports_limit = (k.follows).max_exports ∙ s.exports_limit;
  kept_back = λ id h.
      let kept =
        gone-reserved t t' gone id (lookup t.exports id) k.follows (λ g. (s.kept_back id g).0) refl
          h in
      (kept, reserved_free t' k.valid id kept);
}

Step-Sound :
    {max_imports max_exports : ℕ} {gone : ℕ → Bool} {t t' : CapabilityTables}
    → Step t t'
    → Sound max_imports max_exports gone t
    → Sound max_imports max_exports (promises_gone t t' gone) t'
Step-Sound {t = t} (describes c) s = Sound-after t (describe t c) s (describe-Kept t s.valid c)
Step-Sound {t = t} (describes_all cs) s =
    Sound-after t (describe_all t cs) s (describe_all-Kept t s.valid cs)
Step-Sound {t = t} (describes_all_with_resources cs) s =
    Sound-after t (describe_all_with_resources t cs) s
      (describe_all_with_resources-Kept t s.valid cs)
Step-Sound {t = t} (receives d) s = Sound-after t (receive t d) s (receive-Kept t s.valid d)
Step-Sound {t = t} (releases_import id count) s =
    Sound-after t (release_import t id count) s (release_import-Kept t s.valid id count)
Step-Sound {t = t} (applies_implicit_import_releases ids) s =
    Sound-after t (apply_implicit_import_releases t ids) s
      (apply_implicit_import_releases-Kept t s.valid ids)
Step-Sound {t = t} (applies_release release) s =
    Sound-after t (apply_release t release) s (apply_release-Kept t s.valid release)
Step-Sound {t = t} (applies_implicit_releases ids) s =
    Sound-after t (apply_implicit_releases t ids) s (apply_implicit_releases-Kept t s.valid ids)

-- In all tables that are reached from empty ones by any sequence of `describe`, `describe_all`,
-- `describe_all_with_resources`, `receive`, `release_import`, `apply_release`, both implicit releases,
-- `release_promise_reservation` and `clear`, whatever each returns, the limits are those at the start;
-- every import and export has between one and 2 ^ 64 - 1 references and there are at most as many as the
-- limits allow; every export is found under its capability's identity, every identity leads to the export
-- of that capability, and no export uses a reserved number. The number of every promise whose export went
-- is reserved, and no export uses it, until `release_promise_reservation` of it or `clear`.
pub Reached-Sound :
    {max_imports max_exports : ℕ} {gone : ℕ → Bool} {t : CapabilityTables}
    → Reached max_imports max_exports gone t
    → Sound max_imports max_exports gone t
unfolding new release_promise_reservation
Reached-Sound {max_imports} {max_exports} start = record {
  valid = new-Valid max_imports max_exports;
  imports_limit = refl;
  exports_limit = refl;
  kept_back = λ id h. absurd (cc h);
}
Reached-Sound (step before last) = Step-Sound last (Reached-Sound before)
Reached-Sound (releases_reservation {gone = gone} {t = t} id before) =
    let s = Reached-Sound before in
    record {
      valid = release_promise_reservation-Valid t s.valid id;
      imports_limit = s.imports_limit;
      exports_limit = s.exports_limit;
      kept_back = λ i h. elim (Bool-cases (i == id)) [
        | inl same ↦ absurd (ground (arith, same, h))
        | inr other ↦
            let held = s.kept_back i (ground (arith, other, h)) in
            (ground (arith, other, held.0), held.1)
      ];
    }
Reached-Sound (clears {t = t} before) =
    let s = Reached-Sound before in
    record {
      valid = clear-Valid t;
      imports_limit = s.imports_limit;
      exports_limit = s.exports_limit;
      kept_back = λ i h. absurd (cc h);
    }

-- In valid tables, a capability that is described as an export, for the first time or again, gets a
-- descriptor of its kind with a number under which the peer's `receiverHosted` gives back that
-- capability, and receiving it leaves the tables as they are.
pub receive-describe_export :
    (t t' : CapabilityTables) (c : ExportCapability) (d : CapDescriptor)
    → IsValid t
    → describe_export t c ≡ (t', ok d)
    → (id : ℕ) × (d ≡ descriptor_of c id)
      × (receive t' (receiver_hosted_id id) ≡ (t', ok (received_as c)))
unfolding receive
receive-describe_export t t' c d v e =
    let kept =
      subst (Keeps t (Now t (λ u. Exported u c))) e (describe_export-Keeps t v.exports c) in
    let x = (kept.result).settled.0 in
    (
      x.id,
      x.named,
      ap (λ o. (t', receive_own x.id o)) x.present ∙ ap (λ k. (t', ok (received_as k))) x.same,
    )
