-- ===== src/Wire/Pointer.antt =====
-- crates/capnp-wire/src/pointer.rs: the bit fields of a pointer word.
pub mod RoundTrip
use Prim.Native.String.{String}
use capnp_rs_experiment.Prelude.{
  ℕ, ◌+◌, ◌*◌, ◌/◌, ◌%◌, ◌^◌, ◌||◌, ◌&&◌, Bool, true, false, not, Option, none, some, Result, ok,
  err, ◌>>=◌, ◌>>◌, bit_and, bit_or, ltb, leb, ◌==◌, if◌then◌else◌,
}
use capnp_rs_experiment.Prelude.Bytes.{Bytes}
use capnp_rs_experiment.Prelude.Int.{ℤ, pos, negsuc, leb_ℤ, as_u32, as_i32, shr_two}
use capnp_rs_experiment.Wire.Integer.{WireError, value_out_of_range}
use capnp_rs_experiment.Wire.Endian.{Word, get, from_u64}

abbrev pub signed_30_min : ℤ
signed_30_min = negsuc 0x1fff_ffff

abbrev pub signed_30_max : ℤ
signed_30_max = pos 0x1fff_ffff

abbrev pub unsigned_29_max : ℕ
unsigned_29_max = 0x1fff_ffff

abbrev pub unsigned_30_max : ℕ
unsigned_30_max = 0x3fff_ffff

pub data PointerKind : Type 0 where
  struct list far other : PointerKind

-- `kind as u32`
abbrev pub kind_code : PointerKind → ℕ
kind_code struct = 0
kind_code list = 1
kind_code far = 2
kind_code other = 3

unfoldable pub kind_from_bits : ℕ → PointerKind
kind_from_bits bits =
    let b = bit_and bits 3 in
    if b == 0 then struct else if b == 1 then list else if b == 2 then far else other

pub data ElementSize : Type 0 where
  void bit byte two_bytes four_bytes eight_bytes pointer inline_composite : ElementSize

-- `element_size as u32`
abbrev pub size_code : ElementSize → ℕ
size_code void = 0
size_code bit = 1
size_code byte = 2
size_code two_bytes = 3
size_code four_bytes = 4
size_code eight_bytes = 5
size_code pointer = 6
size_code inline_composite = 7

unfoldable pub size_from_bits : ℕ → ElementSize
size_from_bits bits =
    let b = bit_and bits 7 in
    if b == 0
    then void
    else if b == 1
    then bit
    else if b == 2
    then byte
    else if b == 3
    then two_bytes
    else if b == 4
    then four_bytes
    else if b == 5
    then eight_bytes
    else if b == 6
    then pointer
    else inline_composite

pub record StructPointerFields : Type 0 where
  pub offset : ℤ
  pub data_words : ℕ
  pub pointer_count : ℕ

pub record InlineCompositeTagFields : Type 0 where
  pub element_count : ℕ
  pub data_words : ℕ
  pub pointer_count : ℕ

pub record ListPointerFields : Type 0 where
  pub offset : ℤ
  pub element_size : ElementSize
  pub count : ℕ

pub record FarPointerFields : Type 0 where
  pub double_far : Bool
  pub landing_pad_word : ℕ
  pub segment_id : ℕ

-- A newtype over `Word`.
abbrev pub WirePointer : Type 0
WirePointer = Word

abbrev pub null : WirePointer
null = from_u64 0

unfoldable pub raw : WirePointer → ℕ
raw p = get p

-- `as u32` and `>> 32`
unfoldable pub lower32 : WirePointer → ℕ
lower32 p = raw p % 2 ^ 32

unfoldable pub upper32 : WirePointer → ℕ
upper32 p = raw p / 2 ^ 32 % 2 ^ 32

unfoldable pub kind : WirePointer → PointerKind
kind p = kind_from_bits (lower32 p)

unfoldable pub is_null : WirePointer → Bool
is_null p = raw p == 0

abbrev is_positional_kind : PointerKind → Bool
is_positional_kind struct = true
is_positional_kind list = true
is_positional_kind _ = false

unfoldable pub is_positional : WirePointer → Bool
is_positional p = is_positional_kind (kind p)

unfoldable pub is_capability : WirePointer → Bool
is_capability p = lower32 p == kind_code other

unfoldable pub positional_offset : WirePointer → Option ℤ
positional_offset p = if is_positional p then some (shr_two (as_i32 (lower32 p))) else none

-- `matches!(self.kind(), ...)`
abbrev pub has_kind : PointerKind → PointerKind → Bool
has_kind a b = kind_code a == kind_code b

unfoldable pub struct_fields : WirePointer → Option StructPointerFields
struct_fields p =
    if has_kind (kind p) struct
    then some (record {
      offset = shr_two (as_i32 (lower32 p));
      data_words = upper32 p % 2 ^ 16;
      pointer_count = upper32 p / 2 ^ 16 % 2 ^ 16;
    })
    else none

unfoldable pub inline_composite_tag_fields : WirePointer → Option InlineCompositeTagFields
inline_composite_tag_fields p =
    if has_kind (kind p) struct
    then some (record {
      element_count = lower32 p / 2 ^ 2;
      data_words = upper32 p % 2 ^ 16;
      pointer_count = upper32 p / 2 ^ 16 % 2 ^ 16;
    })
    else none

unfoldable pub list_fields : WirePointer → Option ListPointerFields
list_fields p =
    if has_kind (kind p) list
    then some (record {
      offset = shr_two (as_i32 (lower32 p));
      element_size = size_from_bits (upper32 p);
      count = upper32 p / 2 ^ 3;
    })
    else none

unfoldable pub far_fields : WirePointer → Option FarPointerFields
far_fields p =
    if has_kind (kind p) far
    then some (record {
      double_far = not (bit_and (lower32 p / 2 ^ 2) 1 == 0);
      landing_pad_word = lower32 p / 2 ^ 3;
      segment_id = upper32 p;
    })
    else none

unfoldable pub capability_index : WirePointer → Option ℕ
capability_index p = if is_capability p then some (upper32 p) else none

-- `x << k` on a `u32`.
abbrev shl32 : ℕ → ℕ → ℕ
shl32 x k = x * 2 ^ k % 2 ^ 32

unfoldable pub positional_lower : PointerKind → ℤ → Result WireError ℕ
positional_lower k offset =
    if not (leb_ℤ signed_30_min offset && leb_ℤ offset signed_30_max)
    then err (value_out_of_range "positional offset" offset signed_30_min signed_30_max)
    else ok (bit_or (shl32 (as_u32 offset) 2) (kind_code k))

unfoldable pub from_parts : ℕ → ℕ → WirePointer
from_parts lower upper = from_u64 (bit_or lower (upper * 2 ^ 32 % 2 ^ 64))

unfoldable pub require_unsigned : String → ℕ → ℕ → Result WireError (Unit {0})
require_unsigned field value max =
    if ltb max value then err (value_out_of_range field (pos value) (pos 0) (pos max)) else ok tt

unfoldable pub new_struct : ℤ → ℕ → ℕ → Result WireError WirePointer
new_struct offset data_words pointer_count = do
  lower ← positional_lower struct offset
  ok (from_parts lower (bit_or data_words (shl32 pointer_count 16)))

-- `new_struct(-1, 0, 0)`; the `expect` cannot fail.
unfoldable pub empty_struct : Result WireError WirePointer
empty_struct = new_struct (negsuc 0) 0 0

unfoldable pub new_list : ℤ → ElementSize → ℕ → Result WireError WirePointer
new_list offset element_size count = do
  require_unsigned "list count" count unsigned_29_max
  lower ← positional_lower list offset
  ok (from_parts lower (bit_or (shl32 count 3) (size_code element_size)))

unfoldable pub new_inline_composite_tag : ℕ → ℕ → ℕ → Result WireError WirePointer
new_inline_composite_tag element_count data_words pointer_count = do
  require_unsigned "inline-composite element count" element_count unsigned_30_max
  ok (from_parts (shl32 element_count 2) (bit_or data_words (shl32 pointer_count 16)))

unfoldable pub new_far : Bool → ℕ → ℕ → Result WireError WirePointer
new_far double_far landing_pad_word segment_id = do
  require_unsigned "far landing-pad word" landing_pad_word unsigned_29_max
  let flag = shl32 (if double_far then 1 else 0) 2
  ok (from_parts (bit_or (bit_or (shl32 landing_pad_word 3) flag) (kind_code far)) segment_id)

unfoldable pub new_capability : ℕ → WirePointer
new_capability index = from_parts (kind_code other) index
