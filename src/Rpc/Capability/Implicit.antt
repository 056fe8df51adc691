-- ===== src/Rpc/Capability/Implicit.antt =====
-- crates/capnp-rpc-core/src/capability.rs: `apply_implicit_import_releases` and `apply_implicit_releases`,
-- which release one reference for every number of a list.
use capnp_rs_experiment.Prelude.{
  ℕ, ◌+◌, ◌-◌, ◌%◌, ◌^◌, Option, none, some, List, [], ◌∷◌, Result, ok, err, ◌>>=◌, ◌>>◌, ok_or,
  ltb, ◌==◌, if◌then◌else◌, fit, u32_max,
}
use capnp_rs_experiment.Prelude.Maps.{Map, lookup, insert, update, remove}
use capnp_rs_experiment.Rpc.Capability.{
  CapabilityError, reference_count_overflow, unknown_import, unknown_export, excess_release,
  ExportEntry, ImportEntry, CapabilityTables, with_imports,
}
use capnp_rs_experiment.Rpc.Capability.Exports.{apply_release}
use capnp_rs_experiment.Rpc.Capability.Imports.{import_with}
use capnp_rs_experiment.Rpc.Capability.Payload.{and_then}

abbrev pub or_default : Option ℕ → ℕ
or_default none = 0
or_default (some n) = n

-- How often each number is listed. A count is a `u32`.
abbrev pub count_ids : Map ℕ → List ℕ → Result CapabilityError (Map ℕ)
count_ids counts [] = ok counts
count_ids counts (id ∷ ids) = do
  count ← ok_or (fit u32_max (or_default (lookup counts id) + 1)) reference_count_overflow
  count_ids (insert counts id count) ids

-- The check of all counts, against the references that are held.
abbrev pub check_counts :
    (ℕ → Option ℕ) → (ℕ → CapabilityError) → Map ℕ → Result CapabilityError (Unit {0})
check_counts held unknown [] = ok tt
check_counts held unknown ((id, count) ∷ counts) = do
  references ← ok_or (held id) (unknown id)
  if ltb references count
      then err (excess_release id count references)
      else check_counts held unknown counts

abbrev pub checked_counts :
    (ℕ → Option ℕ) → (ℕ → CapabilityError) → List ℕ → Result CapabilityError (Map ℕ)
checked_counts held unknown ids = do
  counts ← count_ids [] ids
  check_counts held unknown counts
  ok counts

abbrev import_references : Option ImportEntry → Option ℕ
import_references none = none
import_references (some e) = some e.references

abbrev export_references_of : Option ExportEntry → Option ℕ
export_references_of none = none
export_references_of (some e) = some e.references

-- `entry.references -= count`, a `u64` that wraps.
abbrev pub lowered : ImportEntry → ℕ → ℕ
lowered e count = (e.references + 2 ^ 64 - count) % 2 ^ 64

abbrev pub lower_import :
    CapabilityTables
    → ℕ
    → ℕ
    → Option ImportEntry
    → CapabilityTables × Result CapabilityError (Unit {0})
lower_import t id count none = (t, err (unknown_import id))
lower_import t id count (some e) = (
  with_imports t (
      if lowered e count == 0
      then remove t.imports id
      else update t.imports id (import_with e (lowered e count))),
  ok tt,
)

abbrev pub lower_imports :
    Map ℕ → CapabilityTables → CapabilityTables × Result CapabilityError (Unit {0})
lower_imports [] t = (t, ok tt)
lower_imports ((id, count) ∷ counts) t =
    and_then (λ _. lower_imports counts) (lower_import t id count (lookup t.imports id))

unfoldable pub apply_implicit_import_releases :
    CapabilityTables → List ℕ → CapabilityTables × Result CapabilityError (Unit {0})
apply_implicit_import_releases t ids =
    and_then lower_imports
      (t, checked_counts (λ id. import_references (lookup t.imports id)) unknown_import ids)

abbrev pub release_each :
    Map ℕ → CapabilityTables → CapabilityTables × Result CapabilityError (Unit {0})
release_each [] t = (t, ok tt)
release_each ((id, count) ∷ counts) t =
    and_then (λ _. release_each counts)
      (apply_release t (record { id = id; reference_count = count }))

unfoldable pub apply_implicit_releases :
    CapabilityTables → List ℕ → CapabilityTables × Result CapabilityError (Unit {0})
apply_implicit_releases t ids =
    and_then release_each
      (t, checked_counts (λ id. export_references_of (lookup t.exports id)) unknown_export ids)
