-- ===== src/Rpc/Capability/Delivered.antt =====
-- crates/capnp-rpc-core/src/capability.rs, `describe_all_with_resources`: a payload with resources is
-- described as a whole or not at all, and every resource is found under its descriptor's index.
use capnp_rs_experiment.Prelude.{
  ℕ, ◌+◌, ◌<◌, ◌≡◌, refl, sym, ◌∙◌, subst, true, Option, none, some, List, [], ◌∷◌, ◌++◌, Result,
  ok, err, panic, length, length-append, append-nil, append_assoc, leb, arith, inl, inr, Bool-cases,
}
use capnp_rs_experiment.Rpc.Capability.{
  AttachedResource, OutgoingCapability, no_capability, hosted, promise, receiver_answer,
  receiver_hosted, attached, CapDescriptor, with_resource, CapabilityError, CapabilityTables,
}
use capnp_rs_experiment.Rpc.Capability.Exports.{describe, or_restore}
use capnp_rs_experiment.Rpc.Capability.Payload.{
  and_then, OwnedResource, capability_of, attached_resource, attach_resource, Described,
  max_attached_resources, attach_described, describe_each, describe_all_with_resources,
}
use capnp_rs_experiment.Rpc.Capability.Follows.{Grows, Grows-refl, Grows-trans}
use capnp_rs_experiment.Rpc.Capability.Described.{Keeps, Now, StandsFor, describe-Keeps}
use capnp_rs_experiment.Rpc.Capability.Operations.{IsValid, Kept, describe-Kept}
use capnp_rs_experiment.Rpc.Capability.Transaction.{StandsFor-Grows}

-- One capability of a payload, with the resources from the index `k` on: without an attachment its
-- descriptor stands for it; otherwise the next resource is its own, and its descriptor names the index.
abbrev Delivers :
    CapabilityTables
    → ℕ
    → Option AttachedResource
    → OutgoingCapability
    → CapDescriptor
    → List OwnedResource
    → (ℕ → List OwnedResource → Type 0)
    → Type 0
Delivers t k none c d rs rest = StandsFor t c d × rest k rs
Delivers t k (some r) c d [] rest = ⊥
Delivers t k (some r) c d (o ∷ rs) rest =
    (k < max_attached_resources)
    × (o.owner ≡ r)
    × ((d' : CapDescriptor) × (d ≡ with_resource d' k (some r)) × StandsFor t c d')
    × rest (k + 1) rs

abbrev pub Delivered :
    CapabilityTables
    → List OutgoingCapability
    → List CapDescriptor
    → ℕ
    → List OwnedResource
    → Type 0
Delivered t [] [] k rs = rs ≡ []
Delivered t (c ∷ cs) (d ∷ ds) k rs =
    Delivers t k (attached_resource c) (capability_of c) d rs (λ k' rs'. Delivered t cs ds k' rs')
Delivered t _ _ k rs = ⊥

-- What the loop leaves, behind what it had collected.
abbrev Loops :
    CapabilityTables
    → CapabilityTables
    → List OutgoingCapability
    → Described
    → CapabilityTables × Result CapabilityError Described
    → Type 0
Loops s t cs (ds0, rs0) (t', ok (all_ds, all_rs)) =
    Grows t t'
    × (ds : List CapDescriptor) × (rs : List OwnedResource) × (all_ds ≡ ds0 ++ ds)
    × (all_rs ≡ rs0 ++ rs)
    × Delivered t' cs ds (length rs0) rs
Loops s t cs acc (t', err e) = t' ≡ s
Loops s t cs acc (t', panic) = ⊥

-- The same for a first capability and the others.
abbrev HeadLoops :
    CapabilityTables
    → CapabilityTables
    → Option AttachedResource
    → OutgoingCapability
    → List OutgoingCapability
    → Described
    → CapabilityTables × Result CapabilityError Described
    → Type 0
HeadLoops s t resource c cs (ds0, rs0) (t', ok (all_ds, all_rs)) =
    Grows t t'
    × (d : CapDescriptor) × (ds : List CapDescriptor) × (rs : List OwnedResource) × (all_ds
        ≡ ds0 ++ (d ∷ ds))
    × (all_rs ≡ rs0 ++ rs)
    × Delivers t' (length rs0) resource c d rs (λ k rs'. Delivered t' cs ds k rs')
HeadLoops s t resource c cs acc (t', err e) = t' ≡ s
HeadLoops s t resource c cs acc (t', panic) = ⊥

-- A descriptor of a capability has no attachment yet.
attach_resource_lem :
    (t : CapabilityTables) (c : OutgoingCapability) (d : CapDescriptor) (k : ℕ)
    (r : Option AttachedResource)
    → StandsFor t c d
    → attach_resource d k r ≡ with_resource d k r
attach_resource_lem t no_capability d k r h = rw h refl
attach_resource_lem t (hosted c) d k r h = rw h.named refl
attach_resource_lem t (promise c) d k r h = rw h.named refl
attach_resource_lem t (receiver_answer a) d k r h = rw h refl
attach_resource_lem t (receiver_hosted id) d k r h = rw h.0 refl
attach_resource_lem t (attached c o) d k r h = absurd h

module _ (s t : CapabilityTables) (c : OutgoingCapability) (cs : List OutgoingCapability)
    (ds0 : List CapDescriptor) (rs0 : List OwnedResource) where
  plain_head :
      (t' : CapabilityTables) (d : CapDescriptor)
      (out : CapabilityTables × Result CapabilityError Described)
      → Now t (λ u. StandsFor u c) t' d
      → Loops s t' cs (ds0 ++ (d ∷ []), rs0) out
      → HeadLoops s t none c cs (ds0, rs0) out
  plain_head t' d (t'', ok (all_ds, all_rs)) n (g, ds, rs, e, e', rest) = (
    Grows-trans n.1 g,
    d,
    ds,
    rs,
    e ∙ append_assoc ds0 (d ∷ []) ds,
    e',
    (StandsFor-Grows c d g n.0, rest),
  )
  plain_head t' d (t'', err e) n h = h
  plain_head t' d (t'', panic) n h = h

  attached_head :
      (t' : CapabilityTables) (d : CapDescriptor) (r : AttachedResource)
      (out : CapabilityTables × Result CapabilityError Described)
      → length rs0 < max_attached_resources
      → Now t (λ u. StandsFor u c) t' d
      → Loops s t' cs
          (
            ds0 ++ (attach_resource d (length rs0) (some r) ∷ []),
            rs0 ++ (record { owner = r } ∷ []),
          )
          out
      → HeadLoops s t (some r) c cs (ds0, rs0) out
  attached_head t' d r (t'', ok (all_ds, all_rs)) room n (g, ds, rs, e, e', rest) = (
    Grows-trans n.1 g,
    attach_resource d (length rs0) (some r),
    ds,
    record { owner = r } ∷ rs,
    e ∙ append_assoc ds0 (attach_resource d (length rs0) (some r) ∷ []) ds,
    e' ∙ append_assoc rs0 (record { owner = r } ∷ []) rs,
    (
      room,
      refl,
      (d, attach_resource_lem t' c d (length rs0) (some r) n.0, StandsFor-Grows c d g n.0),
      subst (λ (k : ℕ). Delivered t'' cs ds k rs) (length-append rs0 (record { owner = r } ∷ []))
          rest,
    ),
  )
  attached_head t' d r (t'', err e) room n h = h
  attached_head t' d r (t'', panic) room n h = h

  described_head :
      (resource : Option AttachedResource) (t' : CapabilityTables) (d : CapDescriptor)
      → Now t (λ u. StandsFor u c) t' d
      → ((acc : Described) → Loops s t' cs acc (describe_each s cs acc t'))
      → HeadLoops s t resource c cs
          (ds0, rs0)
          (and_then (describe_each s cs) (attach_described s resource (ds0, rs0) d t'))
  described_head none t' d n rest =
      plain_head t' d (describe_each s cs (ds0 ++ (d ∷ []), rs0) t') n (rest _)
  described_head (some r) t' d n rest =
      elim (Bool-cases (leb max_attached_resources (length rs0))) [
        | inl full ↦ rw full refl
        | inr room ↦
            let in_range : leb (length rs0) 255 ≡ true = ground (arith, room) in
            rw (room, in_range) (attached_head t' d r _ (ground (arith, room)) n (rest _))
      ]

describe_each-Loops :
    (s : CapabilityTables) (cs : List OutgoingCapability) (acc : Described) (t : CapabilityTables)
    → IsValid t
    → Loops s t cs acc (describe_each s cs acc t)
describe_each-Loops s [] (ds0, rs0) t v =
    (Grows-refl t, [], [], sym (append-nil ds0), sym (append-nil rs0), refl)
describe_each-Loops s (c ∷ cs) (ds0, rs0) t v = whole _ (
    first (describe t (capability_of c)) (describe-Keeps t v.exports (capability_of c))
      (describe-Kept t v (capability_of c)) (λ t' v' acc. describe_each-Loops s cs acc t' v'))
  where
    whole :
        (out : CapabilityTables × Result CapabilityError Described)
        → HeadLoops s t (attached_resource c) (capability_of c) cs (ds0, rs0) out
        → Loops s t (c ∷ cs) (ds0, rs0) out
    whole (t', ok (all_ds, all_rs)) (g, d, ds, rs, e, e', h) = (g, d ∷ ds, rs, e, e', h)
    whole (t', err e) h = h
    whole (t', panic) h = h

    first :
        (out : CapabilityTables × Result CapabilityError CapDescriptor)
        → Keeps t (Now t (λ u. StandsFor u (capability_of c))) out
        → Kept t out
        → ((t' : CapabilityTables)
            → IsValid t'
            → (acc : Described) → Loops s t' cs acc (describe_each s cs acc t'))
        → HeadLoops s t
            (attached_resource c)
            (capability_of c)
            cs
            (ds0, rs0)
            (and_then
              (describe_each s cs)
              (and_then (attach_described s (attached_resource c) (ds0, rs0)) (or_restore s out)))
    first (t', ok d) k kept rest =
        described_head s t (capability_of c) cs ds0 rs0 (attached_resource c) t' d
          (k.result).settled (rest t' kept.valid)
    first (t', err e) k kept rest = refl
    first (t', panic) k kept rest = absurd (k.result).settled

-- What a payload with resources leaves: all of it described, or nothing of it.
abbrev pub ResourceTransaction :
    CapabilityTables
    → List OutgoingCapability
    → CapabilityTables × Result CapabilityError Described
    → Type 0
ResourceTransaction t cs (t', ok (ds, rs)) = Delivered t' cs ds 0 rs × Grows t t'
ResourceTransaction t cs (t', err e) = t' ≡ t
ResourceTransaction t cs (t', panic) = ⊥

-- In valid tables, a payload with resources is described as a whole or not at all. With a result there is a
-- descriptor for each capability, in order: in the tables after the last one it stands for the capability,
-- and for an attached one it also names the index, below 255, under which the resources returned hold the
-- resource; the indices count up from 0, and there is no other resource. No earlier export has gone or
-- changed its capability. With an error, the one for too many resources included, the tables are those
-- before the payload; and there is no panic.
pub describe_all_with_resources-ResourceTransaction :
    (t : CapabilityTables) (cs : List OutgoingCapability)
    → IsValid t
    → ResourceTransaction t cs (describe_all_with_resources t cs)
unfolding describe_all_with_resources
describe_all_with_resources-ResourceTransaction t cs v =
    whole (describe_each t cs ([], []) t) (describe_each-Loops t cs ([], []) t v)
  where
    whole :
        (out : CapabilityTables × Result CapabilityError Described)
        → Loops t t cs ([], []) out
        → ResourceTransaction t cs out
    whole (t', ok (all_ds, all_rs)) (g, ds, rs, e, e', delivered) = rw (e, e') (delivered, g)
    whole (t', err e) h = h
    whole (t', panic) h = h
