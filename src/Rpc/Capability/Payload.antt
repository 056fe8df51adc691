-- ===== src/Rpc/Capability/Payload.antt =====
-- crates/capnp-rpc-core/src/capability.rs, `describe_all_with_resources`: a payload whose capabilities may
-- have resources attached.
use capnp_rs_experiment.Prelude.{
  ℕ, Option, none, some, List, [], ◌∷◌, ◌++◌, Result, ok, err, panic, length, leb, fit,
  if◌then◌else◌,
}
use capnp_rs_experiment.Rpc.Capability.{
  AttachedResource, OutgoingCapability, attached, CapDescriptor, with_resource, CapabilityError,
  attached_resource_limit, CapabilityTables,
}
use capnp_rs_experiment.Rpc.Capability.Exports.{describe, or_restore}

-- An operation on the tables, and the next one when it succeeds.
abbrev pub and_then :
    {A B : Type 0}
    → (A → CapabilityTables → CapabilityTables × Result CapabilityError B)
    → CapabilityTables × Result CapabilityError A
    → CapabilityTables × Result CapabilityError B
and_then next (t, ok a) = next a t
and_then next (t, err e) = (t, err e)
and_then next (t, panic) = (t, panic)

-- The owner that the transport keeps, without its byte charge.
pub record OwnedResource : Type 0 where
  pub owner : AttachedResource

abbrev into_transport_resource : AttachedResource → OwnedResource
into_transport_resource resource = record { owner = resource }

-- `OutgoingCapability::capability` and `attached_resource`.
abbrev pub capability_of : OutgoingCapability → OutgoingCapability
capability_of (attached c resource) = c
capability_of c = c

abbrev pub attached_resource : OutgoingCapability → Option AttachedResource
attached_resource (attached c resource) = some resource
attached_resource c = none

-- `CapDescriptor::with_attachment`
abbrev pub attach_resource : CapDescriptor → ℕ → Option AttachedResource → CapDescriptor
attach_resource (with_resource d old_index old) index resource = with_resource d index resource
attach_resource d index resource = with_resource d index resource

-- `MAX_ATTACHED_RESOURCES`
abbrev pub max_attached_resources : ℕ
max_attached_resources = 255

-- The descriptors and the resources collected so far.
abbrev pub Described : Type 0
Described = List CapDescriptor × List OwnedResource

abbrev pub attach_at :
    CapabilityTables
    → Described
    → CapDescriptor
    → AttachedResource
    → Option ℕ
    → CapabilityTables × Result CapabilityError Described
attach_at t (ds, rs) d resource none = (t, err (attached_resource_limit max_attached_resources))
attach_at t (ds, rs) d resource (some index) = (
  t,
  ok (
    ds ++ (attach_resource d index (some resource) ∷ []),
    rs ++ (into_transport_resource resource ∷ []),
  ),
)

-- The body of the loop behind `describe`.
abbrev pub attach_described :
    CapabilityTables
    → Option AttachedResource
    → Described
    → CapDescriptor
    → CapabilityTables
    → CapabilityTables × Result CapabilityError Described
attach_described snapshot none (ds, rs) d t = (t, ok (ds ++ (d ∷ []), rs))
attach_described snapshot (some resource) (ds, rs) d t =
    if leb max_attached_resources (length rs)
    then (snapshot, err (attached_resource_limit max_attached_resources))
    else attach_at t (ds, rs) d resource (fit 255 (length rs))

abbrev pub describe_each :
    CapabilityTables
    → List OutgoingCapability
    → Described
    → CapabilityTables
    → CapabilityTables × Result CapabilityError Described
describe_each snapshot [] acc t = (t, ok acc)
describe_each snapshot (c ∷ cs) acc t = and_then (describe_each snapshot cs) (
    and_then (attach_described snapshot (attached_resource c) acc)
      (or_restore snapshot (describe t (capability_of c))))

unfoldable pub describe_all_with_resources :
    CapabilityTables → List OutgoingCapability → CapabilityTables × Result CapabilityError Described
describe_all_with_resources t capabilities = describe_each t capabilities ([], []) t
