-- ===== src/Wire/Pointer/RoundTrip.antt =====
-- Reading back the fields that a constructor of `WirePointer` packed.
use capnp_rs_experiment.Prelude.{
  ℕ, ◌+◌, ◌*◌, ◌/◌, ◌%◌, ◌^◌, ◌≤◌, ◌<◌, ◌≡◌, ◌↔◌, ap, ◌∙◌, Bool, true, false, some, ok, map_ok,
  arith, bit_or, if◌then◌else◌, Settled,
}
use capnp_rs_experiment.Prelude.Bits.{
  bit_or_high, bit_or_low, bit_and-one, bit_and_three, bit_and_seven,
}
use capnp_rs_experiment.Prelude.Bytes.{from_le_bytes-to_le_bytes}
use capnp_rs_experiment.Prelude.Int.{ℤ, pos, negsuc, as_u32, as_i32, shr_two}
use capnp_rs_experiment.Wire.Pointer.{
  PointerKind, struct, list, far, kind_code, kind_from_bits, ElementSize, size_code, size_from_bits,
  raw, lower32, upper32, kind, struct_fields, list_fields, far_fields, inline_composite_tag_fields,
  capability_index, from_parts, positional_lower, new_struct, new_list, new_inline_composite_tag,
  new_far, new_capability, is_capability, require_unsigned, unsigned_29_max, unsigned_30_max,
}

pub raw-from_parts :
    (lower upper : ℕ)
    → lower < 2 ^ 32
    → upper < 2 ^ 32
    → raw (from_parts lower upper) ≡ upper * 2 ^ 32 + lower
unfolding raw from_parts
raw-from_parts lower upper h k = from_le_bytes-to_le_bytes 8 _ (omega (arith, merged)) ∙ merged
  where
    merged : bit_or lower (upper * 2 ^ 32 % 2 ^ 64) ≡ upper * 2 ^ 32 + lower
    merged = ap (bit_or lower) (omega arith) ∙ bit_or_low 32 upper lower h

pub lower32-from_parts :
    (lower upper : ℕ) → lower < 2 ^ 32 → upper < 2 ^ 32 → lower32 (from_parts lower upper) ≡ lower
unfolding lower32
lower32-from_parts lower upper h k = omega (arith, raw-from_parts lower upper h k)

pub upper32-from_parts :
    (lower upper : ℕ) → lower < 2 ^ 32 → upper < 2 ^ 32 → upper32 (from_parts lower upper) ≡ upper
unfolding upper32
upper32-from_parts lower upper h k = omega (arith, raw-from_parts lower upper h k)

pub kind_from_bits-mod : (b : ℕ) (k : PointerKind) → b % 4 ≡ kind_code k → kind_from_bits b ≡ k
unfolding kind_from_bits
kind_from_bits-mod b k h = ground (arith, bit_and_three b)

pub size_from_bits-mod : (b : ℕ) (s : ElementSize) → b % 8 ≡ size_code s → size_from_bits b ≡ s
unfolding size_from_bits
size_from_bits-mod b s h = ground (arith, bit_and_seven b)

-- The range of a signed 30-bit field.
abbrev pub IsSigned30 : ℤ → Type 0
IsSigned30 (pos n) = n ≤ 0x1fff_ffff
IsSigned30 (negsuc n) = n ≤ 0x1fff_ffff

abbrev pub lower_of : PointerKind → ℤ → ℕ
lower_of k offset = as_u32 offset % 2 ^ 30 * 4 + kind_code k

pub kind_code-lt : (k : PointerKind) → kind_code k < 4
kind_code-lt k = ground arith

lower-bit_or :
    (k : PointerKind) (w : ℕ)
    → bit_or (w * 2 ^ 2 % 2 ^ 32) (kind_code k) ≡ w % 2 ^ 30 * 4 + kind_code k
lower-bit_or k w =
    ap (λ (t : ℕ). bit_or t (kind_code k)) {y = w % 2 ^ 30 * 2 ^ 2} (omega arith)
    ∙ bit_or_high 2 (w % 2 ^ 30) (kind_code k) (kind_code-lt k)

pub positional_lower_lem :
    (k : PointerKind) (offset : ℤ)
    → IsSigned30 offset
    → positional_lower k offset ≡ ok (lower_of k offset)
unfolding positional_lower
positional_lower_lem k (pos n) h = ground (arith, lower-bit_or k n)
positional_lower_lem k (negsuc n) h = ground (arith, lower-bit_or k (as_u32 (negsuc n)))

positional_lower_range :
    (k : PointerKind) (offset : ℤ) {lower : ℕ}
    → positional_lower k offset ≡ ok lower
    → IsSigned30 offset
unfolding positional_lower
positional_lower_range k (pos n) h = ground arith
positional_lower_range k (negsuc n) h = ground arith

positional_lower-Settled :
    (k : PointerKind) (offset : ℤ)
    → Settled (λ lower. lower ≡ lower_of k offset) (positional_lower k offset)
unfolding positional_lower
positional_lower-Settled k (pos n) = ground (arith, lower-bit_or k n)
positional_lower-Settled k (negsuc n) = ground (arith, lower-bit_or k (as_u32 (negsuc n)))

-- The offset of a positional pointer is accepted, whatever lower half that gives, exactly when it is a
-- signed 30-bit number. A lower half that is given holds the offset's low 30 bits above the kind's code, and
-- any other offset is an error and no panic.
pub positional_lower_iff :
    (k : PointerKind) (offset : ℤ)
    → (((lower : ℕ) × (positional_lower k offset ≡ ok lower)) ↔ IsSigned30 offset)
      × Settled (λ lower. lower ≡ lower_of k offset) (positional_lower k offset)
positional_lower_iff k offset = (
  (
    λ (lower, accepted). positional_lower_range k offset accepted,
    λ h. (lower_of k offset, positional_lower_lem k offset h),
  ),
  positional_lower-Settled k offset,
)

pub offset_of-lower :
    (k : PointerKind) (offset : ℤ)
    → IsSigned30 offset
    → shr_two (as_i32 (lower_of k offset)) ≡ offset
offset_of-lower k (pos n) h = ground (arith, kind_code-lt k)
offset_of-lower k (negsuc n) h = ground (arith, kind_code-lt k)

pub lower_of-lt : (k : PointerKind) (offset : ℤ) → lower_of k offset < 2 ^ 32
lower_of-lt k offset = omega (arith, kind_code-lt k)

pub kind_of-lower :
    (k : PointerKind) (offset : ℤ) (upper : ℕ)
    → upper < 2 ^ 32
    → kind (from_parts (lower_of k offset) upper) ≡ k
unfolding kind
kind_of-lower k offset upper h =
    ap kind_from_bits (lower32-from_parts _ upper (lower_of-lt k offset) h)
    ∙ kind_from_bits-mod _ k (omega (arith, kind_code-lt k))

-- The upper half of a struct pointer or a tag.
sizes-bit_or : (d p : ℕ) → d < 2 ^ 16 → p < 2 ^ 16 → bit_or d (p * 2 ^ 16 % 2 ^ 32) ≡ p * 2 ^ 16 + d
sizes-bit_or d p hd hp = ap (bit_or d) (omega arith) ∙ bit_or_low 16 p d hd

-- A struct pointer with a signed 30-bit offset and 16-bit sizes is built, and is read back as these.
pub struct_fields-new_struct :
    (offset : ℤ) (data_words pointer_count : ℕ)
    → IsSigned30 offset
    → data_words < 2 ^ 16
    → pointer_count < 2 ^ 16
    → map_ok struct_fields (new_struct offset data_words pointer_count)
      ≡ ok (
          some (record { offset = offset; data_words = data_words; pointer_count = pointer_count }))
unfolding struct_fields new_struct
struct_fields-new_struct offset d p h hd hp = ground (
  arith,
  positional_lower_lem struct offset h,
  sizes-bit_or d p hd hp,
  lower32-from_parts (lower_of struct offset) (p * 2 ^ 16 + d) (lower_of-lt struct offset)
      (omega arith),
  upper32-from_parts (lower_of struct offset) (p * 2 ^ 16 + d) (lower_of-lt struct offset)
      (omega arith),
  kind_of-lower struct offset (p * 2 ^ 16 + d) (omega arith),
  offset_of-lower struct offset h,
)

size_code-lt : (s : ElementSize) → size_code s < 8
size_code-lt s = ground arith

size-bit_or :
    (count : ℕ) (s : ElementSize)
    → count ≤ unsigned_29_max
    → bit_or (count * 2 ^ 3 % 2 ^ 32) (size_code s) ≡ count * 8 + size_code s
size-bit_or count s h =
    ap (λ (t : ℕ). bit_or t (size_code s)) {y = count * 2 ^ 3} (omega arith)
    ∙ bit_or_high 3 count (size_code s) (size_code-lt s)

abbrev far_lower : Bool → ℕ → ℕ
far_lower double pad = pad * 8 + (if double then 4 else 0) + 2

far_lower-lt : (double : Bool) (pad : ℕ) → pad ≤ unsigned_29_max → far_lower double pad < 2 ^ 32
far_lower-lt double pad h = ground arith

far_lower-mod : (double : Bool) (pad : ℕ) → far_lower double pad % 4 ≡ 2
far_lower-mod double pad = ground arith

far-bit_or :
    (double : Bool) (pad : ℕ)
    → pad ≤ unsigned_29_max
    → bit_or (bit_or (pad * 2 ^ 3 % 2 ^ 32) ((if double then 1 else 0) * 2 ^ 2 % 2 ^ 32)) 2
      ≡ far_lower double pad
far-bit_or double pad h =
    ap (λ (t : ℕ). bit_or t 2) {y = pad * 8 + (if double then 4 else 0)} (flagged double)
    ∙ ap (λ (t : ℕ). bit_or t 2) {y = (pad * 2 + (if double then 1 else 0)) * 2 ^ 2} (ground arith)
    ∙ bit_or_high 2 _ 2 (omega arith)
    ∙ ground arith
  where
    flagged :
        (d : Bool)
        → bit_or (pad * 2 ^ 3 % 2 ^ 32) ((if d then 1 else 0) * 2 ^ 2 % 2 ^ 32)
          ≡ pad * 8 + (if d then 4 else 0)
    flagged true = ap (λ (t : ℕ). bit_or t 4) (omega arith) ∙ bit_or_high 3 pad 4 (omega arith)
    flagged false = ap (λ (t : ℕ). bit_or t 0) (omega arith) ∙ bit_or_high 3 pad 0 (omega arith)

-- A list pointer with a signed 30-bit offset and a 29-bit count is built, and is read back as its fields.
pub list_fields-new_list :
    (offset : ℤ) (element_size : ElementSize) (count : ℕ)
    → IsSigned30 offset
    → count ≤ unsigned_29_max
    → map_ok list_fields (new_list offset element_size count)
      ≡ ok (some (record { offset = offset; element_size = element_size; count = count }))
unfolding list_fields new_list require_unsigned
list_fields-new_list offset size count h hc = ground (
  arith,
  positional_lower_lem list offset h,
  size-bit_or count size hc,
  size_code-lt size,
  lower32-from_parts (lower_of list offset) (count * 8 + size_code size) (lower_of-lt list offset)
      (upper-lt),
  upper32-from_parts (lower_of list offset) (count * 8 + size_code size) (lower_of-lt list offset)
      (upper-lt),
  kind_of-lower list offset (count * 8 + size_code size) (upper-lt),
  offset_of-lower list offset h,
  size_from_bits-mod (count * 8 + size_code size) size (omega (arith, size_code-lt size)),
)
  where
    upper-lt : count * 8 + size_code size < 2 ^ 32
    upper-lt = omega (arith, size_code-lt size)

-- An inline-composite tag with a 30-bit element count and 16-bit sizes is built, and is read back as
-- these.
pub inline_composite_tag_fields-new_inline_composite_tag :
    (element_count data_words pointer_count : ℕ)
    → element_count ≤ unsigned_30_max
    → data_words < 2 ^ 16
    → pointer_count < 2 ^ 16
    → map_ok inline_composite_tag_fields
        (new_inline_composite_tag element_count data_words pointer_count)
      ≡ ok (
          some (record {
            element_count = element_count;
            data_words = data_words;
            pointer_count = pointer_count;
          }))
unfolding inline_composite_tag_fields new_inline_composite_tag require_unsigned kind
inline_composite_tag_fields-new_inline_composite_tag count d p h hd hp = ground (
  arith,
  sizes-bit_or d p hd hp,
  lower32-from_parts (count * 4 % 2 ^ 32) (p * 2 ^ 16 + d) (omega arith) (omega arith),
  upper32-from_parts (count * 4 % 2 ^ 32) (p * 2 ^ 16 + d) (omega arith) (omega arith),
  kind_from_bits-mod (count * 4 % 2 ^ 32) struct (omega arith),
)

-- A far pointer with a 29-bit landing pad and a 32-bit segment is built, and is read back as these and
-- its flag.
pub far_fields-new_far :
    (double_far : Bool) (landing_pad_word segment_id : ℕ)
    → landing_pad_word ≤ unsigned_29_max
    → segment_id < 2 ^ 32
    → map_ok far_fields (new_far double_far landing_pad_word segment_id)
      ≡ ok (
          some (record {
            double_far = double_far;
            landing_pad_word = landing_pad_word;
            segment_id = segment_id;
          }))
unfolding far_fields new_far require_unsigned kind
far_fields-new_far double pad segment h hs = ground (
  arith,
  far-bit_or double pad h,
  bit_and-one (far_lower double pad / 4),
  lower32-from_parts (far_lower double pad) segment (far_lower-lt double pad h) hs,
  upper32-from_parts (far_lower double pad) segment (far_lower-lt double pad h) hs,
  kind_from_bits-mod (far_lower double pad) far (far_lower-mod double pad),
)

-- The index of a capability pointer is read back, when it has 32 bits.
pub capability_index-new_capability :
    (index : ℕ) → index < 2 ^ 32 → capability_index (new_capability index) ≡ some index
unfolding capability_index new_capability is_capability
capability_index-new_capability index h =
    ground (
      arith,
      lower32-from_parts 3 index (omega arith) h,
      upper32-from_parts 3 index (omega arith) h,
    )
