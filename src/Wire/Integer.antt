-- ===== src/Wire/Integer.antt =====
-- crates/capnp-wire/src/integer.rs: byte ranges and signed offsets without overflow.
use Prim.Native.String.{String}
use capnp_rs_experiment.Prelude.{
  ℕ, ◌+◌, ◌*◌, ◌≤◌, ◌≡◌, ◌↔◌, ltb, if◌then◌else◌, Result, ok, err, ok_or, ◌>>=◌, checked_add,
  checked_mul, checked_sub, fit, usize_max, suc, arith,
}
use capnp_rs_experiment.Prelude.Int.{ℤ, pos, negsuc, pos_part, neg_part}

-- `WORD_BYTES`
abbrev pub word_bytes : ℕ
word_bytes = 8

pub data WireError : Type 0 where
  arithmetic_overflow : WireError
  out_of_bounds : ℕ → ℕ → ℕ → WireError
  offset_before_start : ℕ → ℤ → WireError
  value_out_of_range : String → ℤ → ℤ → ℤ → WireError

-- A range is its two ends.
unfoldable pub checked_range : ℕ → ℕ → ℕ → Result WireError (ℕ × ℕ)
checked_range offset len available = do
  end ← ok_or (checked_add offset len) arithmetic_overflow
  if ltb available end then err (out_of_bounds offset len available) else ok (offset, end)

unfoldable pub checked_word_range : ℕ → ℕ → ℕ → Result WireError (ℕ × ℕ)
checked_word_range word_offset word_count available_bytes = do
  byte_offset ← ok_or (checked_mul word_offset word_bytes) arithmetic_overflow
  byte_len ← ok_or (checked_mul word_count word_bytes) arithmetic_overflow
  checked_range byte_offset byte_len available_bytes

-- `delta` is an `i32`. `delta.unsigned_abs()` of a negative one is `suc n`.
unfoldable pub checked_add_signed : ℕ → ℤ → Result WireError ℕ
checked_add_signed base (pos n) = do
  magnitude ← ok_or (fit usize_max n) arithmetic_overflow
  ok_or (checked_add base magnitude) arithmetic_overflow
checked_add_signed base (negsuc n) = do
  magnitude ← ok_or (fit usize_max (suc n)) arithmetic_overflow
  ok_or (checked_sub base magnitude) (offset_before_start base (negsuc n))

-- With a buffer of a `usize` length, `checked_range` succeeds exactly when the range lies inside the
-- buffer, and then returns it.
pub checked_range_iff :
    (offset len available : ℕ) {range : ℕ × ℕ}
    → available ≤ usize_max
    → (checked_range offset len available ≡ ok range)
      ↔ ((offset + len ≤ available) × (range ≡ (offset, offset + len)))
unfolding checked_range
checked_range_iff offset len available h = ground arith

-- With a buffer of a `usize` length, a word range is accepted exactly when all its bytes lie inside the
-- buffer, and is then returned as the byte range.
pub checked_word_range_iff :
    (word_offset word_count available : ℕ) {range : ℕ × ℕ}
    → available ≤ usize_max
    → (checked_word_range word_offset word_count available ≡ ok range) ↔ (
        (8 * (word_offset + word_count) ≤ available)
        × (range ≡ (8 * word_offset, 8 * (word_offset + word_count))))
unfolding checked_word_range checked_range
checked_word_range_iff word_offset word_count available h = ground arith

-- A displacement of a `usize` is accepted exactly when the sum over the integers is a `usize`, and is then
-- that sum.
pub checked_add_signed_iff :
    (base : ℕ) (delta : ℤ) {target : ℕ}
    → base ≤ usize_max
    → neg_part delta ≤ usize_max
    → (checked_add_signed base delta ≡ ok target)
      ↔ ((target + neg_part delta ≡ base + pos_part delta) × (target ≤ usize_max))
unfolding checked_add_signed
checked_add_signed_iff base (pos n) h k = ground arith
checked_add_signed_iff base (negsuc n) h k = ground arith
