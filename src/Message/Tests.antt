-- ===== src/Message/Tests.antt =====
-- Runs of the theorems on crates/capnp-message at a small message: a struct of one data word and one
-- pointer, which leads to a list of three bytes.
use capnp_rs_experiment.Prelude.{
  subst, usize_max, ◌*◌, ◌≤◌, length, ℕ, ◌+◌, ◌≡◌, refl, ok, [], ◌∷◌, Settled, arith, some,
}
use capnp_rs_experiment.Prelude.Bytes.{Bytes, from_le_bytes}
use capnp_rs_experiment.Wire.Pointer.{
  byte, is_null, kind, struct_fields, list_fields, far_fields, kind_from_bits, raw, lower32,
  upper32, size_from_bits,
}
use capnp_rs_experiment.Message.Budget.{
  new_local, local_budget, local_try_charge, Account, SharedCharges, none_yet, then_charge,
  SharedCharges-balance, shared_try_charge, NestingLimit, descend,
}
use capnp_rs_experiment.Message.Error.{ListRef, list_ref, WireLocation, root_location}
use capnp_rs_experiment.Message.Segments.{
  MessageSegments, segment, one, Holding, new, new_borrowed, from_descriptors, from_owned_segments,
}
use capnp_rs_experiment.Message.Segments.Constructed.{new-Holding, from_descriptors-Holding}
use capnp_rs_experiment.Message.Validation.{
  get_range, validate_pointer, read_pointer, read_pointer_and_segment, find_segment,
  check_range_in_segment, check_range, validate_wire_pointer, validate_struct, validate_struct_at,
  validate_list, validate_list_at, validate_plain_list, list_word_count, positional_target,
  add_words,
}
use capnp_rs_experiment.Message.Validation.Bounds.{Resolved, validate_pointer-Resolved}
use capnp_rs_experiment.Message.Limits.{
  bounded, validate_pointer_with_limits, validate_read_pointer_with_limits, traversal_charge,
  validate_struct_pointer_with_limits, validate_list_pointer_with_limits,
  validate_root_struct_pointer_with_limits,
}
use capnp_rs_experiment.Message.Limits.Agreement.{
  validate_struct_pointer_with_limits_lem, validate_list_pointer_with_limits_lem,
  validate_root_struct_pointer_with_limits_lem,
}
use capnp_rs_experiment.Message.Limits.ByteList.{
  bytes_of, fast_range, fast_list, fast_plan, try_read_byte_list_fast,
}
use capnp_rs_experiment.Message.Limits.Shortcut.{try_read_byte_list_fast_lem}
use capnp_rs_experiment.Message.Walk.{walk, walk_pointer_graph}
use capnp_rs_experiment.Message.Walk.Accounts.{Ends, walk_pointer_graph-Ends}

abbrev root_segment : Bytes
root_segment =
    0 ∷ 0 ∷ 0 ∷ 0 ∷ 1 ∷ 0 ∷ 1 ∷ 0 ∷ 7 ∷ 0 ∷ 0 ∷ 0 ∷ 0 ∷ 0 ∷ 0 ∷ 0 ∷ 1 ∷ 0 ∷ 0 ∷ 0 ∷ 26 ∷ 0 ∷ 0 ∷ 0
    ∷ 97 ∷ 98 ∷ 99 ∷ 0 ∷ 0 ∷ 0 ∷ 0 ∷ 0 ∷ []

abbrev message : MessageSegments
message = record { first = root_segment; segments = one }

abbrev list_location : WireLocation
list_location = record { segment_id = 0; word_offset = 2 }

abbrev limit : NestingLimit
limit = record { remaining = 2 }

abbrev account : ℕ → ℕ → Account
account remaining granted = record {
  budget = record { remaining = remaining };
  granted_words = granted;
  unjust_refusals = 0;
}

SharedCharges-balance_example : (7 + 3 ≡ 10 + 0) × (◌≡◌ {A = ℕ} 0 0)
SharedCharges-balance_example = SharedCharges-balance {a = account 10 0} {a' = account 7 3} charges
  where
    charges : SharedCharges (account 10 0) (account 7 3)
    charges = unfold shared_try_charge in then_charge 8 (then_charge 3 none_yet)

new-Holding_example :
    ((m : MessageSegments) × (new (root_segment ∷ []) ≡ ok m) × Holding (root_segment ∷ []) m)
    × ((m : MessageSegments) × (new_borrowed (root_segment ∷ []) ≡ ok m)
        × Holding (root_segment ∷ []) m)
    × ((m : MessageSegments) × (from_owned_segments (root_segment ∷ []) ≡ ok m)
        × Holding (root_segment ∷ []) m)
new-Holding_example = new-Holding root_segment [] (omega arith) (refl, tt)

from_descriptors-Holding_example :
    (m : MessageSegments) × (from_descriptors ((record { bytes = root_segment }) ∷ []) ≡ ok m)
    × Holding (root_segment ∷ []) m
from_descriptors-Holding_example =
    from_descriptors-Holding (record { bytes = root_segment }) [] (omega arith)

validate_pointer-Resolved_example :
    Settled (Resolved message) (validate_pointer message root_location)
validate_pointer-Resolved_example = validate_pointer-Resolved message root_location

validate_struct_pointer_with_limits_lem_example :
    validate_struct_pointer_with_limits local_budget message root_location limit (new_local 10)
    ≡ validate_pointer_with_limits local_budget message root_location limit (new_local 10)
validate_struct_pointer_with_limits_lem_example =
    validate_struct_pointer_with_limits_lem local_budget message root_location limit (new_local 10)

validate_list_pointer_with_limits_lem_example :
    validate_list_pointer_with_limits local_budget message list_location limit (new_local 10)
    ≡ validate_pointer_with_limits local_budget message list_location limit (new_local 10)
validate_list_pointer_with_limits_lem_example =
    validate_list_pointer_with_limits_lem local_budget message list_location limit (new_local 10)

validate_root_struct_pointer_with_limits_lem_example :
    validate_root_struct_pointer_with_limits local_budget message limit (new_local 10)
    ≡ validate_pointer_with_limits local_budget message root_location limit (new_local 10)
validate_root_struct_pointer_with_limits_lem_example =
    validate_root_struct_pointer_with_limits_lem local_budget message limit (new_local 10)

walk_pointer_graph-Ends_example :
    Ends local_budget 10
      (walk_pointer_graph local_budget message 22 root_location limit (new_local 10))
walk_pointer_graph-Ends_example =
    walk_pointer_graph-Ends local_budget message root_location limit (new_local 10)

-- The walk follows the root and the list, and charges the struct's two words and the list's one.
walked :
    walk_pointer_graph local_budget message 22 root_location limit (new_local 10)
    ≡ some (new_local 7, ok (record { pointers_followed = 2; words_charged = 3 }))
walked =
    unfold walk_pointer_graph walk validate_pointer_with_limits validate_read_pointer_with_limits
      read_pointer read_pointer_and_segment find_segment segment check_range_in_segment check_range
      validate_wire_pointer validate_struct validate_struct_at validate_list validate_list_at
      validate_plain_list list_word_count positional_target traversal_charge add_words
      local_try_charge descend is_null kind struct_fields list_fields far_fields kind_from_bits raw
      lower32 upper32 size_from_bits from_le_bytes in
    refl

root_found : (source : Bytes) → segment message 0 ≡ some source → length source ≤ usize_max
unfolding segment
root_found source h = subst (λ s. length s ≤ usize_max) (found h) (omega arith)
  where
    found : {s : Bytes} → some root_segment ≡ some s → root_segment ≡ s
    found e = cc e

abbrev letters : Bytes
letters = 97 ∷ 98 ∷ 99 ∷ []

try_read_byte_list_fast_lem_example :
    (l : ListRef) × (child : NestingLimit) × (source : Bytes) × (validate_pointer_with_limits
        local_budget message list_location limit
        (new_local 10)
      ≡ (new_local 9, ok (bounded (list_ref l) child l.content_words)))
    × (l.element_size ≡ byte)
    × (segment message l.content.segment_id ≡ some source)
    × (get_range source (l.content.word_offset * 8) (l.content.word_offset * 8 + l.element_count)
        ≡ some letters)
try_read_byte_list_fast_lem_example =
    try_read_byte_list_fast_lem local_budget message list_location limit (new_local 10)
      (new_local 9) letters root_found read
  where
    read :
        try_read_byte_list_fast local_budget message list_location limit (new_local 10)
        ≡ (new_local 9, some (bytes_of letters))
    read =
        unfold try_read_byte_list_fast fast_plan fast_list fast_range segment is_null kind
          list_fields kind_from_bits raw lower32 upper32 size_from_bits from_le_bytes
          local_try_charge in
        refl
