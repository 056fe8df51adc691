-- ===== src/Rpc/Capability/Imports.antt =====
-- crates/capnp-rpc-core/src/capability.rs: what the peer's descriptors bring in, and its release.
use capnp_rs_experiment.Prelude.{
  ℕ, ◌-◌, Bool, true, false, not, ◌||◌, Option, none, some, Result, ok, err, panic, length, ltb,
  leb, ◌==◌, if◌then◌else◌, checked_add, u64_max,
}
use capnp_rs_experiment.Prelude.Maps.{lookup, insert, update, remove}
use capnp_rs_experiment.Rpc.Capability.{
  AttachedResource, CapDescriptor, no_descriptor, sender_hosted_id, sender_promise_id,
  receiver_hosted_id, receiver_answer_to, third_party_hosted, with_resource, ReceivedCapability,
  nothing, imported, promise_imported, hosted_here, exported_promise, answer, CapabilityError,
  import_limit, reference_count_overflow, unknown_import, unknown_export, excess_release,
  unsupported_descriptor, ExportCapability, hosted_export, promise_export, ExportEntry, ImportEntry,
  CapabilityTables, stats, with_imports,
}
use capnp_rs_experiment.Rpc.Capability.Exports.{ReleaseMessage}

abbrev same_flag : Bool → Bool → Bool
same_flag true b = b
same_flag false b = not b

abbrev pub import_with : ImportEntry → ℕ → ImportEntry
import_with e references = record {
  references = references;
  promise = e.promise;
  attachment = e.attachment;
}

abbrev pub import_again :
    CapabilityTables
    → ℕ
    → ImportEntry
    → Option ℕ
    → ReceivedCapability
    → CapabilityTables × Result CapabilityError ReceivedCapability
import_again t id e none received = (t, err reference_count_overflow)
import_again t id e (some references) received =
    (with_imports t (update t.imports id (import_with e references)), ok received)

-- The arms for `SenderHosted` and `SenderPromise` differ in the flag, the message and the result.
abbrev pub import_entry :
    CapabilityTables
    → ℕ
    → Bool
    → CapabilityError
    → ReceivedCapability
    → Option ImportEntry
    → CapabilityTables × Result CapabilityError ReceivedCapability
import_entry t id promise mismatch received (some e) =
    if not (same_flag e.promise promise)
    then (t, err mismatch)
    else import_again t id e (checked_add e.references 1) received
import_entry t id promise mismatch received none =
    if leb t.max_imports (length t.imports) then (t, err (import_limit t.max_imports)) else (
      with_imports t
          (insert t.imports id (record { references = 1; promise = promise; attachment = none })),
      ok received,
    )

abbrev pub receive_import :
    CapabilityTables
    → ℕ
    → Bool
    → CapabilityError
    → ReceivedCapability
    → CapabilityTables × Result CapabilityError ReceivedCapability
receive_import t id promise mismatch received =
    if (stats t).import_references == u64_max
    then (t, err reference_count_overflow)
    else import_entry t id promise mismatch received (lookup t.imports id)

abbrev pub receive_sender_hosted :
    CapabilityTables → ℕ → CapabilityTables × Result CapabilityError ReceivedCapability
receive_sender_hosted t id =
    receive_import t id false (unsupported_descriptor "senderHosted reuses a promise import ID")
      (imported id)

abbrev pub receive_sender_promise :
    CapabilityTables → ℕ → CapabilityTables × Result CapabilityError ReceivedCapability
receive_sender_promise t id =
    receive_import t id true (unsupported_descriptor "senderPromise reuses a settled import ID")
      (promise_imported id)

abbrev pub received_as : ExportCapability → ReceivedCapability
received_as (hosted_export c) = hosted_here c
received_as (promise_export c) = exported_promise c

abbrev pub receive_own : ℕ → Option ExportEntry → Result CapabilityError ReceivedCapability
receive_own id none = err (unknown_export id)
receive_own id (some e) = ok (received_as e.capability)

abbrev pub received_import : ReceivedCapability → Option ℕ
received_import (imported id) = some id
received_import (promise_imported id) = some id
received_import _ = none

abbrev pub with_attachment : ImportEntry → AttachedResource → ImportEntry
with_attachment e resource = record {
  references = e.references;
  promise = e.promise;
  attachment = some resource;
}

-- `if entry.attachment.is_none()`
abbrev pub attach_missing :
    CapabilityTables
    → ReceivedCapability
    → ℕ
    → AttachedResource
    → ImportEntry
    → Option AttachedResource
    → CapabilityTables × Result CapabilityError ReceivedCapability
attach_missing t received id resource e (some held) = (t, ok received)
attach_missing t received id resource e none =
    (with_imports t (update t.imports id (with_attachment e resource)), ok received)

abbrev pub attach_entry :
    CapabilityTables
    → ReceivedCapability
    → ℕ
    → AttachedResource
    → Option ImportEntry
    → CapabilityTables × Result CapabilityError ReceivedCapability
attach_entry t received id resource none = (t, err (unknown_import id))
attach_entry t received id resource (some e) = attach_missing t received id resource e e.attachment

-- `if let (Some(resource), ..)`
abbrev pub attach_to :
    CapabilityTables
    → ReceivedCapability
    → Option AttachedResource
    → Option ℕ
    → CapabilityTables × Result CapabilityError ReceivedCapability
attach_to t received (some resource) (some id) =
    attach_entry t received id resource (lookup t.imports id)
attach_to t received _ _ = (t, ok received)

abbrev pub attach_received :
    Option AttachedResource
    → CapabilityTables × Result CapabilityError ReceivedCapability
    → CapabilityTables × Result CapabilityError ReceivedCapability
attach_received resource (t, ok received) = attach_to t received resource (received_import received)
attach_received resource (t, err e) = (t, err e)
attach_received resource (t, panic) = (t, panic)

unfoldable pub receive :
    CapabilityTables → CapDescriptor → CapabilityTables × Result CapabilityError ReceivedCapability
receive t no_descriptor = (t, ok nothing)
receive t (sender_hosted_id id) = receive_sender_hosted t id
receive t (sender_promise_id id) = receive_sender_promise t id
receive t (receiver_hosted_id id) = (t, receive_own id (lookup t.exports id))
receive t (receiver_answer_to a) = (t, ok (answer a))
receive t (third_party_hosted vine_id) = receive_sender_hosted t vine_id
receive t (with_resource d index resource) = attach_received resource (receive t d)

abbrev pub release_held :
    CapabilityTables
    → ℕ
    → ℕ
    → Option ImportEntry
    → CapabilityTables × Result CapabilityError ReleaseMessage
release_held t id count none = (t, err (unknown_import id))
release_held t id count (some e) =
    if (count == 0) || ltb e.references count
    then (t, err (excess_release id count e.references))
    else (
      with_imports t (
          if e.references - count == 0
          then remove t.imports id
          else update t.imports id (import_with e (e.references - count))),
      ok (record { id = id; reference_count = count }),
    )

unfoldable pub release_import :
    CapabilityTables → ℕ → ℕ → CapabilityTables × Result CapabilityError ReleaseMessage
release_import t id count = release_held t id count (lookup t.imports id)
