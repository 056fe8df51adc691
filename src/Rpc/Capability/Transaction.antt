-- ===== src/Rpc/Capability/Transaction.antt =====
-- crates/capnp-rpc-core/src/capability.rs: `describe_all`, which describes a payload as a whole or not at
-- all.
use capnp_rs_experiment.Prelude.{
  ◌≡◌, refl, ap, ◌∙◌, List, [], ◌∷◌, Result, ok, err, panic, Settled, Settled-ok, Settled-err,
}
use capnp_rs_experiment.Prelude.Maps.{contains_key}
use capnp_rs_experiment.Rpc.Capability.{
  OutgoingCapability, no_capability, hosted, promise, receiver_answer, receiver_hosted, attached,
  CapDescriptor, CapabilityError, hosted_export, promise_export, CapabilityTables,
}
use capnp_rs_experiment.Rpc.Capability.Exports.{
  describe, describe_all, collect_descriptors, then_collect, collected, or_restore,
}
use capnp_rs_experiment.Rpc.Capability.Follows.{Grows, Grows-refl, Grows-trans}
use capnp_rs_experiment.Rpc.Capability.Described.{
  Exported-Grows, Keeps, Now, StandsFor, describe-Keeps,
}
use capnp_rs_experiment.Rpc.Capability.Operations.{IsValid, Kept, describe-Kept}

-- Every descriptor of a payload stands for its capability, in the tables as they are now.
abbrev pub AllStand : CapabilityTables → List OutgoingCapability → List CapDescriptor → Type 0
AllStand t [] [] = Unit
AllStand t (c ∷ cs) (d ∷ ds) = StandsFor t c d × AllStand t cs ds
AllStand t _ _ = ⊥

pub StandsFor-Grows :
    {t t' : CapabilityTables} (c : OutgoingCapability) (d : CapDescriptor)
    → Grows t t'
    → StandsFor t c d
    → StandsFor t' c d
StandsFor-Grows no_capability d g h = h
StandsFor-Grows (hosted c) d g h = Exported-Grows (hosted_export c) d g h
StandsFor-Grows (promise c) d g h = Exported-Grows (promise_export c) d g h
StandsFor-Grows (receiver_answer a) d g h = h
StandsFor-Grows (receiver_hosted id) d g h = (h.0, ap (λ m. contains_key m id) g.imports ∙ h.1)
StandsFor-Grows (attached c r) d g h = h

collect_descriptors-AllStand :
    (cs : List OutgoingCapability) (t : CapabilityTables)
    → IsValid t
    → let out = collect_descriptors t cs in Settled (Now t (λ t'. AllStand t' cs) (out.0)) (out.1)
collect_descriptors-AllStand [] t v = Settled-ok [] (tt, Grows-refl t)
collect_descriptors-AllStand (c ∷ cs) t v =
    first (describe t c) (describe-Keeps t v.exports c) (describe-Kept t v c)
      (collect_descriptors-AllStand cs)
  where
    more :
        (t' : CapabilityTables) (d : CapDescriptor)
        (out : CapabilityTables × Result CapabilityError (List CapDescriptor))
        → Now t (λ u. StandsFor u c) t' d
        → Settled (Now t' (λ u. AllStand u cs) (out.0)) (out.1)
        → Settled (Now t (λ u. AllStand u (c ∷ cs)) ((collected d out).0)) ((collected d out).1)
    more t' d (t'', ok ds) (stands, grows) h =
        Settled-ok (d ∷ ds)
          ((StandsFor-Grows c d h.settled.1 stands, h.settled.0), Grows-trans grows h.settled.1)
    more t' d (t'', err e) n h = Settled-err e
    more t' d (t'', panic) n h = absurd h.settled

    first :
        (out : CapabilityTables × Result CapabilityError CapDescriptor)
        → Keeps t (Now t (λ u. StandsFor u c)) out
        → Kept t out
        → ((t' : CapabilityTables)
            → IsValid t'
            → Settled
                (Now t' (λ u. AllStand u cs) ((collect_descriptors t' cs).0))
                ((collect_descriptors t' cs).1))
        → let all = then_collect (λ u. collect_descriptors u cs) out in
          Settled (Now t (λ u. AllStand u (c ∷ cs)) (all.0)) (all.1)
    first (t', ok d) k kept rest =
        more t' d (collect_descriptors t' cs) (k.result).settled (rest t' kept.valid)
    first (t', err e) k kept rest = Settled-err e
    first (t', panic) k kept rest = absurd (k.result).settled

-- What a payload leaves: all of it described, or nothing of it.
abbrev pub Transaction :
    CapabilityTables
    → List OutgoingCapability
    → CapabilityTables × Result CapabilityError (List CapDescriptor)
    → Type 0
Transaction t cs (t', ok ds) = AllStand t' cs ds × Grows t t'
Transaction t cs (t', err e) = t' ≡ t
Transaction t cs (t', panic) = ⊥

-- In valid tables, a payload is described as a whole or not at all. With a result there is a descriptor for
-- each capability, in order, and in the tables after the last one each stands for its capability: an export
-- of it, the peer's import of that number, or the answer; no earlier export has gone or changed its
-- capability. With an error, whatever capabilities were described before the failure, the tables are those
-- before the payload; and there is no panic.
pub describe_all-Transaction :
    (t : CapabilityTables) (cs : List OutgoingCapability)
    → IsValid t
    → Transaction t cs (describe_all t cs)
unfolding describe_all
describe_all-Transaction t cs v =
    whole (collect_descriptors t cs) (collect_descriptors-AllStand cs t v)
  where
    whole :
        (out : CapabilityTables × Result CapabilityError (List CapDescriptor))
        → Settled (Now t (λ u. AllStand u cs) (out.0)) (out.1)
        → Transaction t cs (or_restore t out)
    whole (t', ok ds) h = h.settled
    whole (t', err e) h = refl
    whole (t', panic) h = absurd h.settled
