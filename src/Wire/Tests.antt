-- ===== src/Wire/Tests.antt =====
-- Runs of the theorems on crates/capnp-wire at concrete inputs.
use capnp_rs_experiment.Prelude.{
  Settled, ℕ, ◌+◌, ◌*◌, ◌≤◌, ◌≡◌, ◌↔◌, refl, inr, [], ◌∷◌, length, some, ok, map_ok, true,
  usize_max, arith,
}
use capnp_rs_experiment.Prelude.Bytes.{Bytes, to_le_bytes}
use capnp_rs_experiment.Prelude.Int.{pos, negsuc, pos_part, neg_part}
use capnp_rs_experiment.Wire.Integer.{
  checked_range, checked_range_iff, checked_word_range, checked_word_range_iff, checked_add_signed,
  checked_add_signed_iff,
}
use capnp_rs_experiment.Wire.Endian.{
  read_array, write_array, write_le, read_le, read_signed_le, write_signed_le,
  read_array-write_array, read_array_beside, read_le-write_le, read_signed_le-write_signed_le,
}
use capnp_rs_experiment.Wire.Pointer.{
  list, byte, struct_fields, new_struct, list_fields, new_list, inline_composite_tag_fields,
  new_inline_composite_tag, far_fields, new_far, capability_index, new_capability, positional_lower,
}
use capnp_rs_experiment.Wire.Pointer.RoundTrip.{
  IsSigned30, lower_of, struct_fields-new_struct, list_fields-new_list,
  inline_composite_tag_fields-new_inline_composite_tag, far_fields-new_far,
  capability_index-new_capability, positional_lower_iff,
}

checked_range_iff_example :
    (checked_range 3 4 8 ≡ ok (3, 7)) ↔ ((3 + 4 ≤ 8) × (◌≡◌ {A = ℕ × ℕ} (3, 7) (3, 3 + 4)))
checked_range_iff_example = checked_range_iff 3 4 8 (omega arith)

checked_word_range_iff_example :
    (checked_word_range 1 2 24 ≡ ok (8, 24))
    ↔ ((8 * (1 + 2) ≤ 24) × (◌≡◌ {A = ℕ × ℕ} (8, 24) (8 * 1, 8 * (1 + 2))))
checked_word_range_iff_example = checked_word_range_iff 1 2 24 (omega arith)

checked_add_signed_iff_example :
    (checked_add_signed 10 (negsuc 3) ≡ ok 6)
    ↔ ((6 + neg_part (negsuc 3) ≡ 10 + pos_part (negsuc 3)) × (6 ≤ usize_max))
checked_add_signed_iff_example = checked_add_signed_iff 10 (negsuc 3) (omega arith) (omega arith)

abbrev buffer : Bytes
buffer = 1 ∷ 2 ∷ 3 ∷ 4 ∷ 5 ∷ []

read_array-write_array_example :
    (length {A = ℕ} (1 ∷ 9 ∷ 8 ∷ 4 ∷ 5 ∷ []) ≡ length buffer)
    × (read_array 2 (1 ∷ 9 ∷ 8 ∷ 4 ∷ 5 ∷ []) 1 ≡ ok (9 ∷ 8 ∷ []))
read_array-write_array_example = read_array-write_array buffer 1 (9 ∷ 8 ∷ []) accepted
  where
    accepted : write_array buffer 1 (9 ∷ 8 ∷ []) ≡ ok (1 ∷ 9 ∷ 8 ∷ 4 ∷ 5 ∷ [])
    accepted = unfold write_array checked_range in refl

read_array_beside_example : read_array 2 (1 ∷ 9 ∷ 8 ∷ 4 ∷ 5 ∷ []) 3 ≡ read_array 2 buffer 3
read_array_beside_example = read_array_beside buffer 1 (9 ∷ 8 ∷ []) 2 3 accepted (inr (omega arith))
  where
    accepted : write_array buffer 1 (9 ∷ 8 ∷ []) ≡ ok (1 ∷ 9 ∷ 8 ∷ 4 ∷ 5 ∷ [])
    accepted = unfold write_array checked_range in refl

read_le-write_le_example : read_le 2 (1 ∷ 2 ∷ 3 ∷ 0x34 ∷ 0x12 ∷ []) 3 ≡ ok 0x1234
read_le-write_le_example = read_le-write_le 2 buffer 3 0x1234 (omega arith) accepted
  where
    accepted : write_le 2 buffer 3 0x1234 ≡ ok (1 ∷ 2 ∷ 3 ∷ 0x34 ∷ 0x12 ∷ [])
    accepted = unfold write_le write_array checked_range to_le_bytes in refl

read_signed_le-write_signed_le_example :
    read_signed_le 2 (0xfe ∷ 0xff ∷ 3 ∷ 4 ∷ 5 ∷ []) 0 ≡ ok (negsuc 1)
read_signed_le-write_signed_le_example =
    read_signed_le-write_signed_le 2 buffer 0 (negsuc 1) (omega arith) accepted
  where
    accepted : write_signed_le 2 buffer 0 (negsuc 1) ≡ ok (0xfe ∷ 0xff ∷ 3 ∷ 4 ∷ 5 ∷ [])
    accepted = unfold write_signed_le write_array checked_range to_le_bytes in refl

struct_fields-new_struct_example :
    map_ok struct_fields (new_struct (negsuc 6) 3 65535)
    ≡ ok (some (record { offset = negsuc 6; data_words = 3; pointer_count = 65535 }))
struct_fields-new_struct_example =
    struct_fields-new_struct (negsuc 6) 3 65535 (omega arith) (omega arith) (omega arith)

list_fields-new_list_example :
    map_ok list_fields (new_list (pos 5) byte 100)
    ≡ ok (some (record { offset = pos 5; element_size = byte; count = 100 }))
list_fields-new_list_example = list_fields-new_list (pos 5) byte 100 (omega arith) (omega arith)

inline_composite_tag_fields-new_inline_composite_tag_example :
    map_ok inline_composite_tag_fields (new_inline_composite_tag 0x3fff_ffff 2 1)
    ≡ ok (some (record { element_count = 0x3fff_ffff; data_words = 2; pointer_count = 1 }))
inline_composite_tag_fields-new_inline_composite_tag_example =
    inline_composite_tag_fields-new_inline_composite_tag 0x3fff_ffff 2 1 (omega arith) (omega arith)
      (omega arith)

far_fields-new_far_example :
    map_ok far_fields (new_far true 17 4)
    ≡ ok (some (record { double_far = true; landing_pad_word = 17; segment_id = 4 }))
far_fields-new_far_example = far_fields-new_far true 17 4 (omega arith) (omega arith)

capability_index-new_capability_example : capability_index (new_capability 12) ≡ some 12
capability_index-new_capability_example = capability_index-new_capability 12 (omega arith)

positional_lower_iff_example :
    (((lower : ℕ) × (positional_lower list (pos 0x2000_0000) ≡ ok lower))
      ↔ IsSigned30 (pos 0x2000_0000))
    × Settled
        (λ lower. lower ≡ lower_of list (pos 0x2000_0000))
        (positional_lower list (pos 0x2000_0000))
positional_lower_iff_example = positional_lower_iff list (pos 0x2000_0000)
