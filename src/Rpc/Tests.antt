-- ===== src/Rpc/Tests.antt =====
-- Runs of the theorems on crates/capnp-rpc-core at small tables.
use capnp_rs_experiment.Prelude.{
  ℕ, ◌<◌, ◌≡◌, refl, List, Bool, true, false, ◌||◌, none, some, ok, err, [], ◌∷◌, arith,
  if◌then◌else◌, ◌==◌,
}
use capnp_rs_experiment.Prelude.Maps.{contains_key}
use capnp_rs_experiment.Rpc.Capability.{
  OutgoingCapability, promise, attached, with_resource, hosted, sender_hosted_id,
  receiver_hosted_id, hosted_here, export_limit, ExportCapability, hosted_export, CapabilityTables,
  hosted_identity, same_identity, new, stats, ExportEntry,
}
use capnp_rs_experiment.Rpc.Capability.Exports.{
  lowest_free_export_id, descriptor_of, describe_export, describe, describe_all, entry_with,
  apply_release,
}
use capnp_rs_experiment.Rpc.Capability.Imports.{receive}
use capnp_rs_experiment.Rpc.Capability.Numbers.{lowest_free_export_id-Least}
use capnp_rs_experiment.Rpc.Capability.Reached.{
  Reached, start, step, describes, applies_release, promises_gone, Sound, Reached-Sound,
  receive-describe_export,
}
use capnp_rs_experiment.Rpc.Capability.Payload.{describe_all_with_resources}
use capnp_rs_experiment.Rpc.Capability.Delivered.{
  ResourceTransaction, describe_all_with_resources-ResourceTransaction,
}
use capnp_rs_experiment.Rpc.Capability.Transaction.{Transaction, describe_all-Transaction}

abbrev served : ExportCapability
served = hosted_export (record { identity = 7 })

abbrev exporting : CapabilityTables
exporting = record {
  imports = [];
  exports = (0, entry_with served 1) ∷ [];
  export_by_identity = λ k. if same_identity k (hosted_identity 7) then some 0 else none;
  reserved_export_ids = λ id. false;
  max_imports = 4;
  max_exports = 4;
}

described : describe_export (new 4 4) served ≡ (exporting, ok (sender_hosted_id 0))
unfolding describe_export new stats lowest_free_export_id
described = refl

empty-Reached : Reached 4 4 (λ id. false) (new 4 4)
empty-Reached = start

-- A promise is exported under the number 0, and its only reference is released.
abbrev awaited : OutgoingCapability
awaited = promise (record { identity = 7 })

abbrev exported : CapabilityTables
exported = (describe (new 4 4) awaited).0

abbrev released : CapabilityTables
released = (apply_release exported (record { id = 0; reference_count = 1 })).0

abbrev history : ℕ → Bool
history = promises_gone exported released (promises_gone (new 4 4) exported (λ id. false))

number_gone : history 0 ≡ true
unfolding describe describe_export apply_release new stats lowest_free_export_id
number_gone = refl

Reached-Sound_example : Sound 4 4 history released
Reached-Sound_example = Reached-Sound (
    step (step empty-Reached (describes awaited))
      (applies_release (record { id = 0; reference_count = 1 })))

receive-describe_export_example :
    (id : ℕ) × (sender_hosted_id 0 ≡ descriptor_of served id)
    × (receive exporting (receiver_hosted_id id)
        ≡ (exporting, ok (hosted_here (record { identity = 7 }))))
receive-describe_export_example =
    receive-describe_export (new 4 4) exporting served (sender_hosted_id 0)
      (Reached-Sound empty-Reached).valid described

-- Two capabilities, of which the tables have room for one.
abbrev payload : List OutgoingCapability
payload = hosted (record { identity = 7 }) ∷ hosted (record { identity = 8 }) ∷ []

rolled_back : describe_all (new 4 1) payload ≡ (new 4 1, err (export_limit 1))
unfolding describe_all describe describe_export new stats lowest_free_export_id
rolled_back = refl

both_described :
    (describe_all (new 4 2) payload).1 ≡ ok (sender_hosted_id 0 ∷ sender_hosted_id 1 ∷ [])
unfolding describe_all describe describe_export new stats lowest_free_export_id
both_described = refl

describe_all-Transaction_example : Transaction (new 4 1) payload (describe_all (new 4 1) payload)
describe_all-Transaction_example =
    describe_all-Transaction (new 4 1) payload
      (Reached-Sound {max_imports = 4} {max_exports = 1} start).valid

-- The second capability has a resource attached.
abbrev fitted : List OutgoingCapability
fitted =
    hosted (record { identity = 7 })
    ∷ attached (hosted (record { identity = 8 })) (record { inner = 5 })
    ∷ []

resource_indexed :
    (describe_all_with_resources (new 4 2) fitted).1
    ≡ ok (
      sender_hosted_id 0 ∷ with_resource (sender_hosted_id 1) 0 (some (record { inner = 5 })) ∷ [],
      (record { owner = record { inner = 5 } }) ∷ [],
    )
unfolding describe_all_with_resources describe describe_export new stats lowest_free_export_id
resource_indexed = refl

describe_all_with_resources-ResourceTransaction_example :
    ResourceTransaction (new 4 2) fitted (describe_all_with_resources (new 4 2) fitted)
describe_all_with_resources-ResourceTransaction_example =
    describe_all_with_resources-ResourceTransaction (new 4 2) fitted
      (Reached-Sound {max_imports = 4} {max_exports = 2} start).valid

lowest_free_export_id-Least_example :
    (id : ℕ) × (lowest_free_export_id [] (λ i. i == 0) ≡ ok id)
    × ((contains_key {V = ExportEntry} [] id || (id == 0)) ≡ false)
    × ((i : ℕ) → i < id → (contains_key {V = ExportEntry} [] i || (i == 0)) ≡ true)
lowest_free_export_id-Least_example =
    lowest_free_export_id-Least [] (λ i. i == 0) 1 (omega arith) refl
