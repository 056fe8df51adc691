-- ===== src/Message/Limits/ByteList.antt =====
-- crates/capnp-message/src/validation.rs, `try_read_byte_list_fast`, and what it reads.
use capnp_rs_experiment.Prelude.{
  ℕ, ◌+◌, ◌/◌, not, Option, none, some, Result, ok, err, panic, ◌>>=◌, ok_or, expect_some, length,
  ltb, ◌==◌, if◌then◌else◌, fit, checked_add, checked_mul, u32_max,
}
use capnp_rs_experiment.Prelude.Bytes.{Bytes}
use capnp_rs_experiment.Prelude.Int.{ℤ, pos, negsuc}
use capnp_rs_experiment.Wire.Pointer.{
  WirePointer, list, byte, kind, is_null, list_fields, has_kind, ListPointerFields,
}
use capnp_rs_experiment.Message.Budget.{TraversalBudget, NestingLimit, BudgetExhausted}
use capnp_rs_experiment.Message.Error.{WireLocation}
use capnp_rs_experiment.Message.Segments.{MessageSegments, segment}
use capnp_rs_experiment.Message.Validation.{has_size, get_range, wire_pointer, signed_target}

pub data FastByteList : Type 0 where
  null_list : FastByteList
  bytes_of : Bytes → FastByteList
  slow : FastByteList

-- `return FastByteList::Null` and `return FastByteList::Slow`
pub data EarlyReturn : Type 0 where
  null_path slow_path : EarlyReturn

abbrev pub returned : EarlyReturn → FastByteList
returned null_path = null_list
returned slow_path = slow

-- `u32::try_from(target)`
abbrev pub target_word : ℤ → Option ℕ
target_word (negsuc n) = none
target_word (pos n) = fit u32_max n

-- The statements up to the charge: an early `return` is the error case, and a success has the words to
-- charge and the bytes.
unfoldable pub fast_range :
    Bytes → ListPointerFields → WireLocation → Result EarlyReturn (ℕ × Bytes)
fast_range source fields location = do
  target ← ok_or (target_word (signed_target location fields.offset)) slow_path
  let charged_words = (fields.count + 7) / 8
  target_end ← ok_or (checked_add target charged_words) slow_path
  if ltb (length source / 8) target_end then err slow_path else do
    start ← ok_or (checked_mul target 8) slow_path
    end ← ok_or (checked_add start fields.count) slow_path
    bytes ← ok_or (get_range source start end) slow_path
    ok (charged_words, bytes)

unfoldable pub fast_list : Bytes → WirePointer → WireLocation → Result EarlyReturn (ℕ × Bytes)
fast_list source p location =
    if is_null p
    then err null_path
    else if not (has_kind (kind p) list)
    then err slow_path
    else expect_some (list_fields p) >>= (λ fields.
      if not (has_size fields.element_size byte)
      then err slow_path
      else fast_range source fields location)

unfoldable pub fast_plan : MessageSegments → WireLocation → Result EarlyReturn (ℕ × Bytes)
fast_plan m location = do
  source ← ok_or (segment m location.segment_id) slow_path
  byte_offset ← ok_or (checked_mul location.word_offset 8) slow_path
  byte_end ← ok_or (checked_add byte_offset 8) slow_path
  pointer_bytes ← ok_or (get_range source byte_offset byte_end) slow_path
  p ← wire_pointer pointer_bytes
  fast_list source p location

-- After the charge. `none` says that the code panicked.
abbrev pub charged_list :
    {B : Type 0} → Bytes → B × Result BudgetExhausted (Unit {0}) → B × Option FastByteList
charged_list bytes (b, ok u) = (b, some (bytes_of bytes))
charged_list bytes (b, err e) = (b, some slow)
charged_list bytes (b, panic) = (b, none)

abbrev pub finish_fast :
    {B : Type 0}
    → TraversalBudget B
    → NestingLimit
    → B
    → Result EarlyReturn (ℕ × Bytes)
    → B × Option FastByteList
finish_fast T limit b (err early) = (b, some (returned early))
finish_fast T limit b panic = (b, none)
finish_fast T limit b (ok (charged_words, bytes)) =
    if limit.remaining == 0
    then (b, some slow)
    else charged_list bytes (T.try_charge b charged_words)

unfoldable pub try_read_byte_list_fast :
    {B : Type 0}
    → TraversalBudget B
    → MessageSegments
    → WireLocation
    → NestingLimit
    → B
    → B × Option FastByteList
try_read_byte_list_fast T m location limit b = finish_fast T limit b (fast_plan m location)
