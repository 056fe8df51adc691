-- ===== src/Rpc/Capability/Composed.antt =====
-- crates/capnp-rpc-core/src/capability.rs: the operations that are made of several others keep the tables
-- valid too.
use capnp_rs_experiment.Prelude.{
  ℕ, ◌≡◌, refl, Bool, true, false, Option, none, some, List, [], ◌∷◌, Result, ok, err, panic,
  length, leb, ltb, ◌==◌, fit, u32_max, arith, Settled, Settled-ok, Settled-err, Settled-bind,
  Settled-if, Settled-fit, Settled-ok_or, if◌then◌else◌, ◌+◌,
}
use capnp_rs_experiment.Prelude.Maps.{Map, lookup, insert, update, remove}
use capnp_rs_experiment.Rpc.Capability.{
  AttachedResource, OutgoingCapability, CapDescriptor, CapabilityError, reference_count_overflow,
  ImportEntry, CapabilityTables, with_imports,
}
use capnp_rs_experiment.Rpc.Capability.Exports.{describe, or_restore}
use capnp_rs_experiment.Rpc.Capability.Imports.{import_with}
use capnp_rs_experiment.Rpc.Capability.Payload.{
  and_then, Described, attach_at, attach_described, capability_of, attached_resource,
  max_attached_resources, describe_each, describe_all_with_resources,
}
use capnp_rs_experiment.Rpc.Capability.Implicit.{
  or_default, count_ids, check_counts, checked_counts, lowered, lower_import, lower_imports,
  apply_implicit_import_releases, release_each, apply_implicit_releases,
}
use capnp_rs_experiment.Rpc.Capability.Follows.{Follows, Follows-refl, with_imports-Follows}
use capnp_rs_experiment.Rpc.Capability.Operations.{
  IsValid, Kept, Kept-if, Kept-after, unchanged, refused, update_import-Valid, remove_import-Valid,
  describe-Kept, apply_release-Kept,
}

module _ {A B : Type 0} where
  and_then-Kept :
      (s : CapabilityTables)
      (next : A → CapabilityTables → CapabilityTables × Result CapabilityError B)
      (out : CapabilityTables × Result CapabilityError A)
      → Kept s out
      → ((a : A) (t : CapabilityTables) → Follows s t → IsValid t → Kept s (next a t))
      → Kept s (and_then next out)
  and_then-Kept s next (t, ok a) k h = h a t k.follows k.valid
  and_then-Kept s next (t, err e) k h = Kept-after k.follows (refused t k.valid e)
  and_then-Kept s next (t, panic) k h = absurd (k.no_panic).settled

module _ (s : CapabilityTables) (v : IsValid s) where
  or_restore-Kept :
      {A : Type 0} (t : CapabilityTables) (out : CapabilityTables × Result CapabilityError A)
      → Follows s t
      → Kept t out
      → Kept s (or_restore s out)
  or_restore-Kept t (t', ok a) f k = Kept-after f (Kept-after k.follows (unchanged t' k.valid a))
  or_restore-Kept t (t', err e) f k = refused s v e
  or_restore-Kept t (t', panic) f k = absurd (k.no_panic).settled

  attach_described-Kept :
      (resource : Option AttachedResource) (acc : Described) (d : CapDescriptor)
      (t : CapabilityTables)
      → Follows s t
      → IsValid t
      → Kept s (attach_described s resource acc d t)
  attach_described-Kept none (ds, rs) d t f u = Kept-after f (unchanged t u _)
  attach_described-Kept (some resource) (ds, rs) d t f u =
      Kept-if (leb max_attached_resources (length rs)) (λ _. refused s v _)
        (λ _. indexed (fit 255 (length rs)))
    where
      indexed : (index : Option ℕ) → Kept s (attach_at t (ds, rs) d resource index)
      indexed none = Kept-after f (refused t u _)
      indexed (some index) = Kept-after f (unchanged t u _)

  describe_each-Kept :
      (cs : List OutgoingCapability) (acc : Described) (t : CapabilityTables)
      → Follows s t
      → IsValid t
      → Kept s (describe_each s cs acc t)
  describe_each-Kept [] acc t f u = Kept-after f (unchanged t u acc)
  describe_each-Kept (c ∷ cs) acc t f u =
      and_then-Kept s (describe_each s cs) _
        (and_then-Kept s (attach_described s (attached_resource c) acc)
          (or_restore s (describe t (capability_of c)))
          (or_restore-Kept t (describe t (capability_of c)) f (describe-Kept t u (capability_of c)))
          (λ d. attach_described-Kept (attached_resource c) acc d))
        (λ acc'. describe_each-Kept cs acc')

  pub describe_all_with_resources-Kept :
      (cs : List OutgoingCapability) → Kept s (describe_all_with_resources s cs)
  unfolding describe_all_with_resources
  describe_all_with_resources-Kept cs = describe_each-Kept cs ([], []) s (Follows-refl s) v

count_ids-Settled : (ids : List ℕ) (counts : Map ℕ) → Settled (λ _. Unit {0}) (count_ids counts ids)
count_ids-Settled [] counts = Settled-ok counts tt
count_ids-Settled (id ∷ ids) counts =
    Settled-fit u32_max (or_default (lookup counts id) + 1) reference_count_overflow _
      (λ _. count_ids-Settled ids (insert counts id (or_default (lookup counts id) + 1)))

module _ (held : ℕ → Option ℕ) (unknown : ℕ → CapabilityError) where
  check_counts-Settled :
      (counts : Map ℕ) → Settled (λ _. Unit {0}) (check_counts held unknown counts)
  check_counts-Settled [] = Settled-ok tt tt
  check_counts-Settled ((id, count) ∷ counts) =
      Settled-bind _ _ _ (Settled-ok_or (held id) (unknown id)) (λ references _.
        Settled-if (ltb references count) (λ _. Settled-err _) (λ _. check_counts-Settled counts))

  checked_counts-Settled :
      (ids : List ℕ) → Settled (λ _. Unit {0}) (checked_counts held unknown ids)
  checked_counts-Settled ids =
      Settled-bind _ _ _ (count_ids-Settled ids [])
        (λ counts _. Settled-bind _ _ _ (check_counts-Settled counts) (λ _ _. Settled-ok counts tt))

  -- A computation on the tables as they are.
  checked_counts-Kept :
      (t : CapabilityTables) (v : IsValid t) (ids : List ℕ)
      → Kept t (t, checked_counts held unknown ids)
  checked_counts-Kept t v ids = record {
    follows = Follows-refl t;
    valid = v;
    no_panic = checked_counts-Settled ids;
  }

lower_import-Kept :
    (t : CapabilityTables) (v : IsValid t) (id count : ℕ) (o : Option ImportEntry)
    → lookup t.imports id ≡ o
    → Kept t (lower_import t id count o)
lower_import-Kept t v id count none h = refused t v _
lower_import-Kept t v id count (some e) h = record {
  follows = with_imports-Follows t _;
  valid = left (lowered e count == 0) refl;
  no_panic = Settled-ok tt tt;
}
  where
    left :
        (last : Bool)
        → (lowered e count == 0) ≡ last
        → IsValid (
            with_imports t (
              if last
              then remove t.imports id
              else update t.imports id (import_with e (lowered e count))))
    left true last = remove_import-Valid t v id
    left false more =
        update_import-Valid t v id e (import_with e (lowered e count)) h
          (ground (arith, more), omega arith)

lower_imports-Kept :
    (counts : Map ℕ) (t : CapabilityTables) → IsValid t → Kept t (lower_imports counts t)
lower_imports-Kept [] t v = unchanged t v tt
lower_imports-Kept ((id, count) ∷ counts) t v =
    and_then-Kept t (λ _. lower_imports counts) _
      (lower_import-Kept t v id count (lookup t.imports id) refl)
      (λ _ t' f u. Kept-after f (lower_imports-Kept counts t' u))

release_each-Kept :
    (counts : Map ℕ) (t : CapabilityTables) → IsValid t → Kept t (release_each counts t)
release_each-Kept [] t v = unchanged t v tt
release_each-Kept ((id, count) ∷ counts) t v =
    and_then-Kept t (λ _. release_each counts) _ (apply_release-Kept t v _)
      (λ _ t' f u. Kept-after f (release_each-Kept counts t' u))

module _ (t : CapabilityTables) (v : IsValid t) (ids : List ℕ) where
  pub apply_implicit_import_releases-Kept : Kept t (apply_implicit_import_releases t ids)
  unfolding apply_implicit_import_releases
  apply_implicit_import_releases-Kept =
      and_then-Kept t lower_imports _ (checked_counts-Kept _ _ t v ids)
        (λ counts t' f u. Kept-after f (lower_imports-Kept counts t' u))

  pub apply_implicit_releases-Kept : Kept t (apply_implicit_releases t ids)
  unfolding apply_implicit_releases
  apply_implicit_releases-Kept =
      and_then-Kept t release_each _ (checked_counts-Kept _ _ t v ids)
        (λ counts t' f u. Kept-after f (release_each-Kept counts t' u))
