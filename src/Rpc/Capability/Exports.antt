-- ===== src/Rpc/Capability/Exports.antt =====
-- crates/capnp-rpc-core/src/capability.rs: what the connection exports, described and released.
use capnp_rs_experiment.Prelude.{
  ℕ, zero, suc, ◌+◌, ◌-◌, Bool, true, false, not, ◌&&◌, ◌||◌, Option, none, some, List, [], ◌∷◌,
  Result, ok, err, panic, length, ltb, leb, ◌==◌, if◌then◌else◌, checked_add, u32_max, u64_max,
}
use capnp_rs_experiment.Prelude.Maps.{Map, lookup, contains_key, insert, update, remove}
use capnp_rs_experiment.Rpc.Capability.{
  OutgoingCapability, no_capability, hosted, promise, receiver_answer, receiver_hosted, attached,
  CapDescriptor, no_descriptor, sender_hosted_id, sender_promise_id, receiver_hosted_id,
  receiver_answer_to, CapabilityError, export_limit, export_id_exhausted, reference_count_overflow,
  unknown_import, unknown_export, excess_release, unsupported_descriptor, ExportCapability,
  hosted_export, promise_export, key, same_identity, ExportEntry, CapabilityTables, stats,
  contains_import, with_exports,
}

-- The loop over the candidates, on fuel. A candidate is a `u32`.
abbrev pub search_free : (ℕ → Bool) → ℕ → ℕ → Result CapabilityError ℕ
search_free taken zero candidate = panic
search_free taken (suc fuel) candidate =
    let next = search_free taken fuel (candidate + 1) in
    if taken candidate
    then if leb (candidate + 1) u32_max then next else err export_id_exhausted
    else ok candidate

unfoldable pub lowest_free_export_id : Map ExportEntry → (ℕ → Bool) → Result CapabilityError ℕ
lowest_free_export_id exports reserved =
    search_free (λ id. contains_key exports id || reserved id) (u32_max + 1) 0

abbrev pub descriptor_of : ExportCapability → ℕ → CapDescriptor
descriptor_of (hosted_export c) id = sender_hosted_id id
descriptor_of (promise_export c) id = sender_promise_id id

abbrev pub entry_with : ExportCapability → ℕ → ExportEntry
entry_with capability references = record { capability = capability; references = references }

-- A capability that is exported already: one more reference.
abbrev pub count_reference :
    CapabilityTables
    → ExportCapability
    → ℕ
    → ExportEntry
    → Option ℕ
    → CapabilityTables × Result CapabilityError CapDescriptor
count_reference t capability id e none = (t, err reference_count_overflow)
count_reference t capability id e (some references) = (
  with_exports t (update t.exports id (entry_with e.capability references)),
  ok (descriptor_of capability id),
)

abbrev pub describe_again :
    CapabilityTables
    → ExportCapability
    → ℕ
    → Option ExportEntry
    → CapabilityTables × Result CapabilityError CapDescriptor
describe_again t capability id none = (t, err (unknown_export id))
describe_again t capability id (some e) =
    count_reference t capability id e (checked_add e.references 1)

-- A capability that is exported for the first time.
abbrev pub add_export : CapabilityTables → ExportCapability → ℕ → CapabilityTables
add_export t capability id = record {
  imports = t.imports;
  exports = insert t.exports id (entry_with capability 1);
  export_by_identity =
      λ k. if same_identity k (key capability) then some id else t.export_by_identity k;
  reserved_export_ids = t.reserved_export_ids;
  max_imports = t.max_imports;
  max_exports = t.max_exports;
}

abbrev pub describe_at :
    CapabilityTables
    → ExportCapability
    → Result CapabilityError ℕ
    → CapabilityTables × Result CapabilityError CapDescriptor
describe_at t capability (ok id) = (add_export t capability id, ok (descriptor_of capability id))
describe_at t capability (err e) = (t, err e)
describe_at t capability panic = (t, panic)

abbrev pub describe_known :
    CapabilityTables
    → ExportCapability
    → Option ℕ
    → CapabilityTables × Result CapabilityError CapDescriptor
describe_known t capability (some id) = describe_again t capability id (lookup t.exports id)
describe_known t capability none =
    if leb t.max_exports (length t.exports)
    then (t, err (export_limit t.max_exports))
    else describe_at t capability (lowest_free_export_id t.exports t.reserved_export_ids)

unfoldable pub describe_export :
    CapabilityTables → ExportCapability → CapabilityTables × Result CapabilityError CapDescriptor
describe_export t capability =
    if (stats t).export_references == u64_max
    then (t, err reference_count_overflow)
    else describe_known t capability (t.export_by_identity (key capability))

unfoldable pub describe :
    CapabilityTables → OutgoingCapability → CapabilityTables × Result CapabilityError CapDescriptor
describe t no_capability = (t, ok no_descriptor)
describe t (hosted c) = describe_export t (hosted_export c)
describe t (promise c) = describe_export t (promise_export c)
describe t (receiver_hosted id) =
    if not (contains_import t id)
    then (t, err (unknown_import id))
    else (t, ok (receiver_hosted_id id))
describe t (receiver_answer a) = (t, ok (receiver_answer_to a))
describe t (attached c r) =
    (t, err (unsupported_descriptor "attached capabilities require describe_all_with_resources"))

abbrev pub collected :
    CapDescriptor
    → CapabilityTables × Result CapabilityError (List CapDescriptor)
    → CapabilityTables × Result CapabilityError (List CapDescriptor)
collected d (t, ok ds) = (t, ok (d ∷ ds))
collected d (t, err e) = (t, err e)
collected d (t, panic) = (t, panic)

-- `collect` into a `Result` stops at the first error.
abbrev pub then_collect :
    (CapabilityTables → CapabilityTables × Result CapabilityError (List CapDescriptor))
    → CapabilityTables × Result CapabilityError CapDescriptor
    → CapabilityTables × Result CapabilityError (List CapDescriptor)
then_collect rest (t, ok d) = collected d (rest t)
then_collect rest (t, err e) = (t, err e)
then_collect rest (t, panic) = (t, panic)

abbrev pub collect_descriptors :
    CapabilityTables
    → List OutgoingCapability
    → CapabilityTables × Result CapabilityError (List CapDescriptor)
collect_descriptors t [] = (t, ok [])
collect_descriptors t (c ∷ cs) = then_collect (λ t'. collect_descriptors t' cs) (describe t c)

abbrev pub or_restore :
    {A : Type 0}
    → CapabilityTables
    → CapabilityTables × Result CapabilityError A
    → CapabilityTables × Result CapabilityError A
or_restore snapshot (t, err e) = (snapshot, err e)
or_restore snapshot (t, ok a) = (t, ok a)
or_restore snapshot (t, panic) = (t, panic)

unfoldable pub describe_all :
    CapabilityTables
    → List OutgoingCapability
    → CapabilityTables × Result CapabilityError (List CapDescriptor)
describe_all t capabilities = or_restore t (collect_descriptors t capabilities)

pub record ReleaseMessage : Type 0 where
  pub id : ℕ
  pub reference_count : ℕ

abbrev pub is_promise_export : ExportCapability → Bool
is_promise_export (hosted_export c) = false
is_promise_export (promise_export c) = true

-- The last reference is gone: a promise's number stays reserved.
abbrev pub drop_export : CapabilityTables → ℕ → ExportCapability → CapabilityTables
drop_export t id capability = record {
  imports = t.imports;
  exports = remove t.exports id;
  export_by_identity =
      λ k. if same_identity k (key capability) then none else t.export_by_identity k;
  reserved_export_ids =
      λ i. if is_promise_export capability && (i == id) then true else t.reserved_export_ids i;
  max_imports = t.max_imports;
  max_exports = t.max_exports;
}

abbrev pub release_entry :
    CapabilityTables
    → ReleaseMessage
    → Option ExportEntry
    → CapabilityTables × Result CapabilityError (Unit {0})
release_entry t release none = (t, err (unknown_export release.id))
release_entry t release (some e) =
    if (release.reference_count == 0) || ltb e.references release.reference_count
    then (t, err (excess_release release.id release.reference_count e.references))
    else if e.references - release.reference_count == 0
    then (drop_export t release.id e.capability, ok tt)
    else (
      with_exports t (
          update t.exports release.id
            (entry_with e.capability (e.references - release.reference_count))),
      ok tt,
    )

unfoldable pub apply_release :
    CapabilityTables → ReleaseMessage → CapabilityTables × Result CapabilityError (Unit {0})
apply_release t release = release_entry t release (lookup t.exports release.id)
