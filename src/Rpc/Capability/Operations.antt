-- ===== src/Rpc/Capability/Operations.antt =====
-- crates/capnp-rpc-core/src/capability.rs: every operation keeps the tables valid, and none panics.
use capnp_rs_experiment.Prelude.{
  ℕ, ◌-◌, ◌<◌, ◌≡◌, refl, ap, sym, ◌∙◌, subst, Bool, true, false, ◌||◌, Option, none, some, List,
  [], ◌∷◌, Result, ok, err, panic, length, leb, ltb, if◌then◌else◌, ◌==◌, inl, inr, checked_add,
  u64_max, arith, Settled, Settled-ok, Settled-err, Settled-weaken,
}
use capnp_rs_experiment.Prelude.Maps.{
  Map, lookup, insert, update, remove, insert-cases, update-cases, remove-cases, length-insert_le,
  length-update, length-remove_le,
}
use capnp_rs_experiment.Rpc.Capability.{
  AttachedResource, OutgoingCapability, CapDescriptor, no_descriptor, sender_hosted_id,
  sender_promise_id, receiver_hosted_id, receiver_answer_to, third_party_hosted, with_resource,
  ReceivedCapability, CapabilityError, ExportEntry, ImportEntry, CapabilityTables, stats,
  with_imports,
}
use capnp_rs_experiment.Rpc.Capability.Exports.{
  describe, collect_descriptors, then_collect, collected, describe_all, or_restore, ReleaseMessage,
  apply_release,
}
use capnp_rs_experiment.Rpc.Capability.Imports.{
  import_with, import_again, import_entry, receive_import, receive_own, received_import,
  attach_entry, attach_missing, with_attachment, attach_to, attach_received, receive, release_held,
  release_import,
}
use capnp_rs_experiment.Rpc.Capability.Valid.{ExportsValid, ImportsValid, Counted}
use capnp_rs_experiment.Rpc.Capability.Follows.{
  Follows, Follows-refl, Follows-trans, with_imports-Follows,
}
use capnp_rs_experiment.Rpc.Capability.Described.{
  Keeps, describe-Keeps, apply_release-Keeps, incremented,
}

pub record IsValid (t : CapabilityTables) : Type 0 where
  pub exports : ExportsValid t
  pub imports : ImportsValid t

-- An operation keeps the tables valid, with the limits and the numbers of promises, and does not panic.
pub record Kept {A : Type 0} (t : CapabilityTables)
    (out : CapabilityTables × Result CapabilityError A) : Type 0 where
  pub follows : Follows t (out.0)
  pub valid : IsValid (out.0)
  pub no_panic : Settled (λ _. Unit {0}) (out.1)

pub Kept-if :
    {A : Type 0} {t : CapabilityTables} (b : Bool)
    {x y : CapabilityTables × Result CapabilityError A}
    → (b ≡ true → Kept t x)
    → (b ≡ false → Kept t y)
    → Kept t (if b then x else y)
Kept-if true h k = h refl
Kept-if false h k = k refl

module _ (t : CapabilityTables) (v : IsValid t) where
  pub unchanged : {A : Type 0} (a : A) → Kept t (t, ok a)
  unchanged a = record { follows = Follows-refl t; valid = v; no_panic = Settled-ok a tt }

  pub refused : {A : Type 0} (e : CapabilityError) → Kept {A = A} t (t, err e)
  refused e = record { follows = Follows-refl t; valid = v; no_panic = Settled-err e }

  with_imports-Valid :
      (m : Map ImportEntry) → ImportsValid (with_imports t m) → IsValid (with_imports t m)
  with_imports-Valid m i = record {
    exports = record {
      entries = (v.exports).entries;
      indexed = (v.exports).indexed;
      few = (v.exports).few;
    };
    imports = i;
  }

  pub update_import-Valid :
      (id : ℕ) (e e' : ImportEntry)
      → lookup t.imports id ≡ some e
      → Counted e'.references
      → IsValid (with_imports t (update t.imports id e'))
  update_import-Valid id e e' there counted = with_imports-Valid _ (record {
    held = λ i u h. elim (update-cases t.imports id i e' u e there h) [
      | inl (same, equal) ↦ subst (λ x. Counted (x.references)) (sym equal) counted
      | inr (other, old) ↦ (v.imports).held i u old
    ];
    few = omega (arith, (v.imports).few, length-update t.imports id e');
  })

  insert_import-Valid :
      (id : ℕ) (e' : ImportEntry)
      → length t.imports < t.max_imports
      → Counted e'.references
      → IsValid (with_imports t (insert t.imports id e'))
  insert_import-Valid id e' room counted = with_imports-Valid _ (record {
    held = λ i u h. elim (insert-cases t.imports id i e' u h) [
      | inl (same, equal) ↦ subst (λ x. Counted (x.references)) (sym equal) counted
      | inr (other, old) ↦ (v.imports).held i u old
    ];
    few = omega (arith, room, length-insert_le t.imports id e');
  })

  pub remove_import-Valid : (id : ℕ) → IsValid (with_imports t (remove t.imports id))
  remove_import-Valid id = with_imports-Valid _ (record {
    held = λ i u h. (v.imports).held i u ((remove-cases t.imports id i u h).1);
    few = omega (arith, (v.imports).few, length-remove_le t.imports id);
  })

  import_again-Kept :
      (id : ℕ) (e : ImportEntry) (count : Option ℕ) (received : ReceivedCapability)
      → lookup t.imports id ≡ some e
      → checked_add e.references 1 ≡ count
      → Kept t (import_again t id e count received)
  import_again-Kept id e none received there counted = refused _
  import_again-Kept id e (some n) received there counted = record {
    follows = with_imports-Follows t _;
    valid = update_import-Valid id e (import_with e n) there (incremented e.references n counted);
    no_panic = Settled-ok received tt;
  }

  receive_import-Kept :
      (id : ℕ) (promise : Bool) (mismatch : CapabilityError) (received : ReceivedCapability)
      → Kept t (receive_import t id promise mismatch received)
  receive_import-Kept id promise mismatch received =
      Kept-if ((stats t).import_references == u64_max) (λ _. refused _)
        (λ _. entry (lookup t.imports id) refl)
    where
      entry :
          (o : Option ImportEntry)
          → lookup t.imports id ≡ o
          → Kept t (import_entry t id promise mismatch received o)
      entry none h =
          Kept-if (leb t.max_imports (length t.imports)) (λ _. refused _)
            (λ room. record {
              follows = with_imports-Follows t _;
              valid = insert_import-Valid id _ (ground (arith, room)) (omega arith, omega arith);
              no_panic = Settled-ok received tt;
            })
      entry (some e) h =
          Kept-if _ (λ _. refused mismatch)
            (λ _. import_again-Kept id e (checked_add e.references 1) received h refl)

  attach_to-Kept :
      (received : ReceivedCapability) (resource : Option AttachedResource) (import : Option ℕ)
      → Kept t (attach_to t received resource import)
  attach_to-Kept received none import = unchanged received
  attach_to-Kept received (some resource) none = unchanged received
  attach_to-Kept received (some resource) (some id) = entry (lookup t.imports id) refl
    where
      entry :
          (o : Option ImportEntry)
          → lookup t.imports id ≡ o
          → Kept t (attach_entry t received id resource o)
      entry none h = refused _
      entry (some e) h = missing e.attachment
        where
          missing :
              (held : Option AttachedResource)
              → Kept t (attach_missing t received id resource e held)
          missing (some held) = unchanged received
          missing none = record {
            follows = with_imports-Follows t _;
            valid =
                update_import-Valid id e (with_attachment e resource) h ((v.imports).held id e h);
            no_panic = Settled-ok received tt;
          }

  remaining :
      (id count : ℕ) (e : ImportEntry)
      → lookup t.imports id ≡ some e
      → (last : Bool) → (e.references - count == 0) ≡ last
      → IsValid (
          with_imports t (
            if last
            then remove t.imports id
            else update t.imports id (import_with e (e.references - count))))
  remaining id count e h true last = remove_import-Valid id
  remaining id count e h false more =
      let counted = (v.imports).held id e h in
      update_import-Valid id e (import_with e (e.references - count)) h
        (ground (arith, more), omega (arith, counted.1))

  pub release_import-Kept : (id count : ℕ) → Kept t (release_import t id count)
  unfolding release_import
  release_import-Kept id count = held (lookup t.imports id) refl
    where
      held : (o : Option ImportEntry) → lookup t.imports id ≡ o → Kept t (release_held t id count o)
      held none h = refused _
      held (some e) h =
          Kept-if ((count == 0) || ltb e.references count) (λ _. refused _)
            (λ fits. record {
              follows = with_imports-Follows t _;
              valid = remaining id count e h (e.references - count == 0) refl;
              no_panic = Settled-ok _ tt;
            })

-- An operation after another.
pub Kept-after :
    {A : Type 0} {t t' : CapabilityTables} {out : CapabilityTables × Result CapabilityError A}
    → Follows t t'
    → Kept t' out
    → Kept t out
Kept-after f k = record {
  follows = Follows-trans f k.follows;
  valid = k.valid;
  no_panic = k.no_panic;
}

attach_received-Kept :
    (t : CapabilityTables) (resource : Option AttachedResource)
    (out : CapabilityTables × Result CapabilityError ReceivedCapability)
    → Kept t out
    → Kept t (attach_received resource out)
attach_received-Kept t resource (t', ok received) h =
    Kept-after h.follows (attach_to-Kept t' h.valid received resource (received_import received))
attach_received-Kept t resource (t', err e) h = Kept-after h.follows (refused t' h.valid e)
attach_received-Kept t resource (t', panic) h = absurd (h.no_panic).settled

receive_own-Settled : (id : ℕ) (o : Option ExportEntry) → Settled (λ _. Unit {0}) (receive_own id o)
receive_own-Settled id none = Settled-err _
receive_own-Settled id (some e) = Settled-ok _ tt

pub receive-Kept : (t : CapabilityTables) (v : IsValid t) (d : CapDescriptor) → Kept t (receive t d)
unfolding receive
receive-Kept t v no_descriptor = unchanged t v _
receive-Kept t v (sender_hosted_id id) = receive_import-Kept t v id false _ _
receive-Kept t v (sender_promise_id id) = receive_import-Kept t v id true _ _
receive-Kept t v (receiver_hosted_id id) = record {
  follows = Follows-refl t;
  valid = v;
  no_panic = receive_own-Settled id (lookup t.exports id);
}
receive-Kept t v (receiver_answer_to a) = unchanged t v _
receive-Kept t v (third_party_hosted vine_id) = receive_import-Kept t v vine_id false _ _
receive-Kept t v (with_resource d index resource) =
    attach_received-Kept t resource (receive t d) (receive-Kept t v d)

same_imports-Valid :
    (t t' : CapabilityTables)
    → t'.imports ≡ t.imports
    → t'.max_imports ≡ t.max_imports
    → ImportsValid t
    → ImportsValid t'
same_imports-Valid t t' same max v = record {
  held = λ id e h. v.held id e (ap (λ m. lookup m id) (sym same) ∙ h);
  few = omega (arith, ap length same, max, v.few);
}

-- An operation on the exports.
Keeps-Kept :
    {A : Type 0} {P : CapabilityTables → A → Type 0} (t : CapabilityTables)
    (out : CapabilityTables × Result CapabilityError A)
    → IsValid t
    → Keeps t P out
    → Kept t out
Keeps-Kept t out v k = record {
  follows = k.follows;
  valid = record {
    exports = k.valid;
    imports = same_imports-Valid t (out.0) ((k.same_imports).0) ((k.same_imports).1) v.imports;
  };
  no_panic = Settled-weaken (out.1) k.result (λ _ _. tt);
}

pub describe-Kept :
    (t : CapabilityTables) (v : IsValid t) (c : OutgoingCapability) → Kept t (describe t c)
describe-Kept t v c = Keeps-Kept t (describe t c) v (describe-Keeps t v.exports c)

pub apply_release-Kept :
    (t : CapabilityTables) (v : IsValid t) (release : ReleaseMessage)
    → Kept t (apply_release t release)
apply_release-Kept t v release =
    Keeps-Kept t (apply_release t release) v (apply_release-Keeps t v.exports release)

collected-Kept :
    (t : CapabilityTables) (d : CapDescriptor)
    (out : CapabilityTables × Result CapabilityError (List CapDescriptor))
    → Kept t out
    → Kept t (collected d out)
collected-Kept t d (t', ok ds) h = Kept-after h.follows (unchanged t' h.valid _)
collected-Kept t d (t', err e) h = Kept-after h.follows (refused t' h.valid e)
collected-Kept t d (t', panic) h = absurd (h.no_panic).settled

then_collect-Kept :
    (t : CapabilityTables)
    (rest : CapabilityTables → CapabilityTables × Result CapabilityError (List CapDescriptor))
    (out : CapabilityTables × Result CapabilityError CapDescriptor)
    → Kept t out
    → ((t' : CapabilityTables) → IsValid t' → Kept t' (rest t'))
    → Kept t (then_collect rest out)
then_collect-Kept t rest (t', ok d) h k =
    Kept-after h.follows (collected-Kept t' d (rest t') (k t' h.valid))
then_collect-Kept t rest (t', err e) h k = Kept-after h.follows (refused t' h.valid e)
then_collect-Kept t rest (t', panic) h k = absurd (h.no_panic).settled

collect_descriptors-Kept :
    (t : CapabilityTables) (v : IsValid t) (cs : List OutgoingCapability)
    → Kept t (collect_descriptors t cs)
collect_descriptors-Kept t v [] = unchanged t v []
collect_descriptors-Kept t v (c ∷ cs) =
    then_collect-Kept t (λ t'. collect_descriptors t' cs) (describe t c) (describe-Kept t v c)
      (λ t' v'. collect_descriptors-Kept t' v' cs)

pub describe_all-Kept :
    (t : CapabilityTables) (v : IsValid t) (cs : List OutgoingCapability)
    → Kept t (describe_all t cs)
unfolding describe_all
describe_all-Kept t v cs = restored (collect_descriptors t cs) (collect_descriptors-Kept t v cs)
  where
    restored :
        (out : CapabilityTables × Result CapabilityError (List CapDescriptor))
        → Kept t out
        → Kept t (or_restore t out)
    restored (t', ok ds) h = h
    restored (t', err e) h = refused t v e
    restored (t', panic) h = h
