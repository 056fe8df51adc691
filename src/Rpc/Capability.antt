-- ===== src/Rpc/Capability.antt =====
-- crates/capnp-rpc-core/src/capability.rs: the import and export tables of a connection. A method on
-- `&mut self` returns the tables after it, also when it fails.
pub mod Exports
pub mod Imports
pub mod Valid
pub mod Follows
pub mod Payload
pub mod Implicit
pub mod Composed
pub mod Numbers
pub mod Described
pub mod Operations
pub mod Reached
pub mod Transaction
pub mod Delivered
use Prim.Native.String.{String}
use mathlib.Core.Option
use capnp_rs_experiment.Prelude.{
  ℕ, zero, suc, ◌+◌, ◌-◌, Bool, true, false, not, ◌&&◌, ◌||◌, Option, none, some, List, [], ◌∷◌,
  Result, ok, err, panic, map_ok, ok_or, length, ltb, leb, ◌==◌, if◌then◌else◌, checked_add, fit,
  u32_max, u64_max,
}
use capnp_rs_experiment.Prelude.Maps.{Map, lookup, contains_key, insert, update, remove}

-- An `Arc` is compared by its pointer; every `Arc` has an identity of its own, which stands for it.
pub record HostedCapability : Type 0 where
  pub identity : ℕ

pub record PromiseCapability : Type 0 where
  pub identity : ℕ

-- A shared owner, by the number of what it owns. A third-party token is left out: nothing here looks at it.
pub record AttachedResource : Type 0 where
  pub inner : ℕ

pub data PipelineOp : Type 0 where
  noop : PipelineOp
  get_pointer_field : ℕ → PipelineOp

pub record PromisedAnswer : Type 0 where
  pub question_id : ℕ
  pub transform : List PipelineOp

pub data OutgoingCapability : Type 0 where
  no_capability : OutgoingCapability
  hosted : HostedCapability → OutgoingCapability
  promise : PromiseCapability → OutgoingCapability
  receiver_answer : PromisedAnswer → OutgoingCapability
  receiver_hosted : ℕ → OutgoingCapability
  attached : OutgoingCapability → AttachedResource → OutgoingCapability

pub data CapDescriptor : Type 0 where
  no_descriptor : CapDescriptor
  sender_hosted_id : ℕ → CapDescriptor
  sender_promise_id : ℕ → CapDescriptor
  receiver_hosted_id : ℕ → CapDescriptor
  receiver_answer_to : PromisedAnswer → CapDescriptor
  third_party_hosted : (vine_id : ℕ) → CapDescriptor
  with_resource : CapDescriptor → (resource_index : ℕ) → Option AttachedResource → CapDescriptor

pub data ReceivedCapability : Type 0 where
  nothing : ReceivedCapability
  imported : ℕ → ReceivedCapability
  promise_imported : ℕ → ReceivedCapability
  hosted_here : HostedCapability → ReceivedCapability
  exported_promise : PromiseCapability → ReceivedCapability
  answer : PromisedAnswer → ReceivedCapability

pub record CapabilityStats : Type 0 where
  pub active_imports : ℕ
  pub active_exports : ℕ
  pub import_references : ℕ
  pub export_references : ℕ

pub data CapabilityError : Type 0 where
  identity_exhausted : CapabilityError
  import_limit : (limit : ℕ) → CapabilityError
  export_limit : (limit : ℕ) → CapabilityError
  export_id_exhausted : CapabilityError
  reference_count_overflow : CapabilityError
  attached_resource_limit : (limit : ℕ) → CapabilityError
  unknown_import : ℕ → CapabilityError
  unknown_export : ℕ → CapabilityError
  excess_release : (id requested held : ℕ) → CapabilityError
  unsupported_descriptor : String → CapabilityError

pub data ExportCapability : Type 0 where
  hosted_export : HostedCapability → ExportCapability
  promise_export : PromiseCapability → ExportCapability

pub data ExportIdentity : Type 0 where
  hosted_identity : ℕ → ExportIdentity
  promise_identity : ℕ → ExportIdentity

abbrev pub key : ExportCapability → ExportIdentity
key (hosted_export c) = hosted_identity c.identity
key (promise_export c) = promise_identity c.identity

abbrev pub same_identity : ExportIdentity → ExportIdentity → Bool
same_identity (hosted_identity a) (hosted_identity b) = a == b
same_identity (promise_identity a) (promise_identity b) = a == b
same_identity _ _ = false

pub record ExportEntry : Type 0 where
  pub capability : ExportCapability
  pub references : ℕ

pub record ImportEntry : Type 0 where
  pub references : ℕ
  pub promise : Bool
  pub attachment : Option AttachedResource

-- `export_by_identity` and `reserved_export_ids` are only looked up and changed at a key, and are
-- functions of the key.
pub record CapabilityTables : Type 0 where
  pub imports : Map ImportEntry
  pub exports : Map ExportEntry
  pub export_by_identity : ExportIdentity → Option ℕ
  pub reserved_export_ids : ℕ → Bool
  pub max_imports : ℕ
  pub max_exports : ℕ

unfoldable pub new : ℕ → ℕ → CapabilityTables
new max_imports max_exports = record {
  imports = [];
  exports = [];
  export_by_identity = λ k. none;
  reserved_export_ids = λ id. false;
  max_imports = max_imports;
  max_exports = max_exports;
}

-- `try_fold(0, checked_add).unwrap_or(u64::MAX)`
abbrev total_from : ℕ → List ℕ → ℕ
total_from sum [] = sum
total_from sum (n ∷ ns) =
    let rest = total_from (sum + n) ns in if leb (sum + n) u64_max then rest else u64_max

abbrev pub reference_total : List ℕ → ℕ
reference_total ns = total_from 0 ns

abbrev import_counts : Map ImportEntry → List ℕ
import_counts [] = []
import_counts ((id, e) ∷ m) = e.references ∷ import_counts m

abbrev export_counts : Map ExportEntry → List ℕ
export_counts [] = []
export_counts ((id, e) ∷ m) = e.references ∷ export_counts m

unfoldable pub stats : CapabilityTables → CapabilityStats
stats t = record {
  active_imports = length t.imports;
  active_exports = length t.exports;
  import_references = reference_total (import_counts t.imports);
  export_references = reference_total (export_counts t.exports);
}

abbrev pub contains_import : CapabilityTables → ℕ → Bool
contains_import t id = contains_key t.imports id

abbrev pub contains_export : CapabilityTables → ℕ → Bool
contains_export t id = contains_key t.exports id

abbrev pub promise_export_id : CapabilityTables → ℕ → Option ℕ
promise_export_id t identity = t.export_by_identity (promise_identity identity)

abbrev is_promise : Option ImportEntry → Bool
is_promise none = false
is_promise (some e) = e.promise

abbrev pub is_promise_import : CapabilityTables → ℕ → Bool
is_promise_import t id = is_promise (lookup t.imports id)

abbrev attachment_of : Option ImportEntry → Option AttachedResource
attachment_of none = none
attachment_of (some e) = e.attachment

abbrev pub import_attachment : CapabilityTables → ℕ → Option AttachedResource
import_attachment t id = attachment_of (lookup t.imports id)

abbrev pub clear : CapabilityTables → CapabilityTables
clear t = record {
  imports = [];
  exports = [];
  export_by_identity = λ k. none;
  reserved_export_ids = λ id. false;
  max_imports = t.max_imports;
  max_exports = t.max_exports;
}

abbrev pub with_imports : CapabilityTables → Map ImportEntry → CapabilityTables
with_imports t imports = record {
  imports = imports;
  exports = t.exports;
  export_by_identity = t.export_by_identity;
  reserved_export_ids = t.reserved_export_ids;
  max_imports = t.max_imports;
  max_exports = t.max_exports;
}

abbrev pub with_exports : CapabilityTables → Map ExportEntry → CapabilityTables
with_exports t exports = record {
  imports = t.imports;
  exports = exports;
  export_by_identity = t.export_by_identity;
  reserved_export_ids = t.reserved_export_ids;
  max_imports = t.max_imports;
  max_exports = t.max_exports;
}

-- `release_promise_reservation`
unfoldable pub release_promise_reservation : CapabilityTables → ℕ → CapabilityTables
release_promise_reservation t id = record {
  imports = t.imports;
  exports = t.exports;
  export_by_identity = t.export_by_identity;
  reserved_export_ids = λ i. if i == id then false else t.reserved_export_ids i;
  max_imports = t.max_imports;
  max_exports = t.max_exports;
}
