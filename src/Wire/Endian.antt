-- ===== src/Wire/Endian.antt =====
-- crates/capnp-wire/src/endian.rs: little-endian words and scalars read from and written to a
-- byte buffer at any offset. A `&mut [u8]` argument is returned as the new buffer.
use capnp_rs_experiment.Prelude.{
  ℕ, ◌+◌, ◌-◌, ◌/◌, ◌%◌, ◌^◌, ◌≤◌, ◌<◌, ◌≡◌, refl, sym, ap, ◌∙◌, ◌⊎◌, inl, inr, List, map, length,
  slice, take, drop, copy_at, chunks_exact, length-copy_at, slice-copy_at, slice-copy_at_before,
  drop-copy_at_after, Result, ok, err, ◌>>=◌, map_ok, usize_max, ltb, ◌==◌, if◌then◌else◌, arith,
}
use capnp_rs_experiment.Prelude.Int.{ℤ, pos, negsuc}
use capnp_rs_experiment.Prelude.Bytes.{
  Bytes, to_le_bytes, from_le_bytes, length-to_le_bytes, from_le_bytes-to_le_bytes,
}
use capnp_rs_experiment.Wire.Integer.{WireError, out_of_bounds, checked_range, word_bytes}

unfoldable pub read_array : ℕ → Bytes → ℕ → Result WireError Bytes
read_array n bytes offset = do
  (start, end) ← checked_range offset n (length bytes)
  ok (slice start end bytes)

unfoldable pub write_array : Bytes → ℕ → Bytes → Result WireError Bytes
write_array bytes offset value = do
  (start, end) ← checked_range offset (length value) (length bytes)
  ok (copy_at bytes start value)

-- `[u8; WORD_BYTES]`
pub record Word : Type 0 where
  pub bytes : Bytes

abbrev pub zero_word : Word
zero_word = record { bytes = to_le_bytes 8 0 }

-- `Word::get` and `Word::from_u64`
abbrev pub get : Word → ℕ
get w = from_le_bytes w.bytes

abbrev pub from_u64 : ℕ → Word
from_u64 value = record { bytes = to_le_bytes 8 value }

unfoldable pub read_word : Bytes → ℕ → Result WireError Word
read_word bytes offset = map_ok (λ b. record { bytes = b }) (read_array word_bytes bytes offset)

unfoldable pub write_word : Word → Bytes → ℕ → Result WireError Bytes
write_word w bytes offset = write_array bytes offset w.bytes

-- The accessors that `integer_accessors!` makes, for an unsigned integer of `size` bytes.
unfoldable pub read_le : ℕ → Bytes → ℕ → Result WireError ℕ
read_le size bytes offset = map_ok from_le_bytes (read_array size bytes offset)

unfoldable pub write_le : ℕ → Bytes → ℕ → ℕ → Result WireError Bytes
write_le size bytes offset value = write_array bytes offset (to_le_bytes size value)

-- `from_le_bytes` and `to_le_bytes` of a signed integer of `size` bytes.
abbrev pub to_signed : ℕ → ℕ → ℤ
to_signed size v = if ltb v (256 ^ size / 2) then pos v else negsuc (256 ^ size - 1 - v)

abbrev pub of_signed : ℕ → ℤ → ℕ
of_signed size (pos n) = n
of_signed size (negsuc n) = 256 ^ size - 1 - n

unfoldable pub read_signed_le : ℕ → Bytes → ℕ → Result WireError ℤ
read_signed_le size bytes offset =
    map_ok (λ b. to_signed size (from_le_bytes b)) (read_array size bytes offset)

unfoldable pub write_signed_le : ℕ → Bytes → ℕ → ℤ → Result WireError Bytes
write_signed_le size bytes offset value =
    write_array bytes offset (to_le_bytes size (of_signed size value))

abbrev pub read_u8 : Bytes → ℕ → Result WireError ℕ
read_u8 = read_le 1

abbrev pub read_u16_le : Bytes → ℕ → Result WireError ℕ
read_u16_le = read_le 2

abbrev pub read_u32_le : Bytes → ℕ → Result WireError ℕ
read_u32_le = read_le 4

abbrev pub read_u64_le : Bytes → ℕ → Result WireError ℕ
read_u64_le = read_le 8

unfoldable pub validate_word_len : ℕ → Result WireError (Unit {0})
validate_word_len len =
    let remainder = len % word_bytes in
    if remainder == 0 then ok tt else err (out_of_bounds (len - remainder) word_bytes len)

-- A complete word region and what its iterator yields.
pub record WordSlice : Type 0 where
  pub bytes : Bytes

unfoldable pub new_word_slice : Bytes → Result WireError WordSlice
unfolding validate_word_len
new_word_slice bytes = do _ ← validate_word_len (length bytes); ok (record { bytes = bytes })

unfoldable pub words : WordSlice → List Word
words s = map (λ b. record { bytes = b }) (chunks_exact word_bytes s.bytes)

-- A write that is accepted keeps the buffer's length, is read back at its place, and no read of a
-- range beside it sees a difference.
pub record Written (bytes : Bytes) (offset : ℕ) (value written : Bytes) : Type 0 where
  pub keeps_length : length written ≡ length bytes
  pub reads_back : read_array (length value) written offset ≡ ok value
  pub keeps_rest :
      (n at : ℕ)
      → ((at + n ≤ offset) ⊎ (offset + length value ≤ at))
      → read_array n written at ≡ read_array n bytes at

write_array_parts :
    (bytes : Bytes) (offset : ℕ) (value : Bytes) {written : Bytes}
    → write_array bytes offset value ≡ ok written
    → (offset + length value ≤ length bytes)
      × (offset + length value ≤ usize_max)
      × (written ≡ copy_at bytes offset value)
unfolding write_array checked_range
write_array_parts bytes offset value h = ground arith

-- `a..a + n` has `n` elements.
range_len : (a n : ℕ) (xs : Bytes) → take (a + n - a) xs ≡ take n xs
range_len a n xs = ap (λ (t : ℕ). take t xs) (omega arith)

pub read_array_inside :
    (n : ℕ) (bytes : Bytes) (offset : ℕ)
    → offset + n ≤ length bytes
    → offset + n ≤ usize_max
    → read_array n bytes offset ≡ ok (take n (drop offset bytes))
unfolding read_array checked_range
read_array_inside n bytes offset h k = ground (arith, range_len offset n (drop offset bytes))

-- A read depends on the buffer's length and on the bytes of its range.
read_array_cong :
    (n : ℕ) (bytes other : Bytes) (offset : ℕ)
    → length bytes ≡ length other
    → (offset + n ≤ length other → take n (drop offset bytes) ≡ take n (drop offset other))
    → read_array n bytes offset ≡ read_array n other offset
unfolding read_array checked_range
read_array_cong n bytes other offset h k =
    ground
      (arith, k, range_len offset n (drop offset bytes), range_len offset n (drop offset other))

beside :
    (bytes : Bytes) (offset : ℕ) (value : Bytes) (n at : ℕ)
    → offset + length value ≤ length bytes
    → ((at + n ≤ offset) ⊎ (offset + length value ≤ at))
    → take n (drop at (copy_at bytes offset value)) ≡ take n (drop at bytes)
beside bytes offset value n at h (inl before) =
    slice-copy_at_before bytes offset at n value h before
beside bytes offset value n at h (inr after) =
    ap (take n) (drop-copy_at_after bytes offset at value h after)

pub write_array-Written :
    (bytes : Bytes) (offset : ℕ) (value : Bytes) {written : Bytes}
    → write_array bytes offset value ≡ ok written
    → Written bytes offset value written
write_array-Written bytes offset value h =
    let (inside, small, copied) = write_array_parts bytes offset value h in
    let len = length-copy_at bytes offset value inside in
    rw copied (record {
      keeps_length = len;
      reads_back =
          read_array_inside (length value) _ offset (omega (arith, len)) small
          ∙ ap ok (slice-copy_at bytes offset (length value) value inside refl);
      keeps_rest = λ n at apart.
          read_array_cong n _ bytes at len (λ _. beside bytes offset value n at inside apart);
    })

-- A write that is accepted keeps the buffer's length, and the written bytes are read back at their
-- place.
pub read_array-write_array :
    (bytes : Bytes) (offset : ℕ) (value : Bytes) {written : Bytes}
    → write_array bytes offset value ≡ ok written
    → (length written ≡ length bytes) × (read_array (length value) written offset ≡ ok value)
read_array-write_array bytes offset value h =
    let w = write_array-Written bytes offset value h in (w.keeps_length, w.reads_back)

-- A read of a range that ends before the written one or starts behind it has the result, an error
-- included, that it had before the write.
pub read_array_beside :
    (bytes : Bytes) (offset : ℕ) (value : Bytes) {written : Bytes} (n at : ℕ)
    → write_array bytes offset value ≡ ok written
    → ((at + n ≤ offset) ⊎ (offset + length value ≤ at))
    → read_array n written at ≡ read_array n bytes at
read_array_beside bytes offset value n at h apart =
    let w = write_array-Written bytes offset value h in w.keeps_rest n at apart

-- The range of a signed integer of `size` bytes.
abbrev pub IsSigned : ℕ → ℤ → Type 0
IsSigned size (pos n) = n < 256 ^ size / 2
IsSigned size (negsuc n) = n < 256 ^ size / 2

signed_parts :
    (size : ℕ) (v : ℤ)
    → IsSigned size v
    → (of_signed size v < 256 ^ size) × (to_signed size (of_signed size v) ≡ v)
signed_parts size (pos n) h = ground arith
signed_parts size (negsuc n) h = ground arith

same_len :
    (size v offset : ℕ) (bytes : Bytes)
    → read_array (length (to_le_bytes size v)) bytes offset ≡ read_array size bytes offset
same_len size v offset bytes = ap (λ (n : ℕ). read_array n bytes offset) (length-to_le_bytes size v)

-- A scalar that a `write_*_le` accessor stored is what the matching `read_*_le` returns.
-- An unsigned integer that fits its `size` bytes is read back where its write was accepted.
pub read_le-write_le :
    (size : ℕ) (bytes : Bytes) (offset value : ℕ) {written : Bytes}
    → value < 256 ^ size
    → write_le size bytes offset value ≡ ok written
    → read_le size written offset ≡ ok value
unfolding read_le write_le
read_le-write_le size bytes offset value {written} small h =
    let w = write_array-Written bytes offset (to_le_bytes size value) h in
    ap (map_ok from_le_bytes) (sym (same_len size value offset written) ∙ w.reads_back)
    ∙ ap ok (from_le_bytes-to_le_bytes size value small)

-- A signed integer in the range of its `size` bytes is read back where its write was accepted.
pub read_signed_le-write_signed_le :
    (size : ℕ) (bytes : Bytes) (offset : ℕ) (value : ℤ) {written : Bytes}
    → IsSigned size value
    → write_signed_le size bytes offset value ≡ ok written
    → read_signed_le size written offset ≡ ok value
unfolding read_signed_le write_signed_le
read_signed_le-write_signed_le size bytes offset value {written} range h =
    let raw = of_signed size value in
    let (small, same) = signed_parts size value range in
    let w = write_array-Written bytes offset (to_le_bytes size raw) h in
    ap (map_ok (λ b. to_signed size (from_le_bytes b)))
      (sym (same_len size raw offset written) ∙ w.reads_back)
    ∙ ap (λ (t : ℕ). ok (to_signed size t)) (from_le_bytes-to_le_bytes size raw small)
    ∙ ap ok same
