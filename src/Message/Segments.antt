-- ===== src/Message/Segments.antt =====
-- crates/capnp-message/src/validation.rs, `MessageSegments`: the segments of a message, in the storage
-- that each constructor chooses. An `Arc<[u8]>` is its bytes.
pub mod Constructed
use mathlib.Core.Option
use capnp_rs_experiment.Prelude.{
  ℕ, suc, ◌+◌, ◌-◌, ◌*◌, ◌/◌, ◌%◌, ◌≤◌, ◌<◌, ◌≡◌, refl, ap, Bool, true, false, not, Option, none,
  some, List, [], ◌∷◌, map, length, get_elem?, All, Result, ok, err, panic, ◌>>=◌, ◌>>◌, map_ok,
  expect_some, ltb, leb, ◌==◌, if◌then◌else◌, u32_max, usize_max, arith, length-map,
}
use capnp_rs_experiment.Prelude.Bytes.{Bytes}
use capnp_rs_experiment.Wire.Segment.{Segment}
use capnp_rs_experiment.Message.Error.{
  ValidationError, no_segments, too_many_segments, segment_not_word_aligned,
}

pub data SegmentStorage : Type 0 where
  one : SegmentStorage
  two : Bytes → SegmentStorage
  borrowed : List Bytes → SegmentStorage
  descriptors : List Segment → SegmentStorage
  owned : List Bytes → SegmentStorage
  many : List Bytes → SegmentStorage

pub record MessageSegments : Type 0 where
  pub first : Bytes
  pub segments : SegmentStorage

-- The loop over the segments, from `index` on.
abbrev check_aligned : ℕ → List Bytes → Result ValidationError (Unit {0})
check_aligned index [] = ok tt
check_aligned index (segment ∷ segments) =
    if not (length segment % 8 == 0)
    then (if leb index u32_max
        then err (segment_not_word_aligned index (length segment))
        else err too_many_segments)
    else check_aligned (suc index) segments

abbrev is_empty {ℓ} : {A : Type ℓ} → List A → Bool
is_empty [] = true
is_empty (x ∷ xs) = false

unfoldable pub validate_segments : List Bytes → Result ValidationError (Unit {0})
validate_segments segments =
    if is_empty segments
    then err no_segments
    else if ltb u32_max (length segments)
    then err too_many_segments
    else check_aligned 0 segments

-- The `match` on the slice.
abbrev storage : List Bytes → SegmentStorage
storage (first ∷ []) = one
storage (first ∷ (second ∷ [])) = two second
storage segments = many segments

unfoldable pub new : List Bytes → Result ValidationError MessageSegments
new segments = do
  validate_segments segments
  first ← expect_some (get_elem? segments 0)
  ok (record { first = first; segments = storage segments })

unfoldable pub new_borrowed : List Bytes → Result ValidationError MessageSegments
new_borrowed segments = do
  validate_segments segments
  first ← expect_some (get_elem? segments 0)
  ok (record { first = first; segments = borrowed segments })

unfoldable pub from_descriptors : List Segment → Result ValidationError MessageSegments
from_descriptors segments =
    if is_empty segments
    then err no_segments
    else if ltb u32_max (length segments)
    then err too_many_segments
    else do
      first ← expect_some (get_elem? segments 0)
      ok (record { first = first.bytes; segments = descriptors segments })

unfoldable pub from_owned_segments : List Bytes → Result ValidationError MessageSegments
from_owned_segments segments = do
  first ← expect_some (get_elem? segments 0)
  ok (record { first = first; segments = owned segments })

abbrev storage_count : SegmentStorage → ℕ
storage_count one = 1
storage_count (two second) = 2
storage_count (borrowed segments) = length segments
storage_count (descriptors segments) = length segments
storage_count (owned segments) = length segments
storage_count (many segments) = length segments

unfoldable pub segment_count : MessageSegments → ℕ
segment_count m = storage_count m.segments

abbrev stored : SegmentStorage → ℕ → Option Bytes
stored one index = none
stored (two second) index = if index == 1 then some second else none
stored (borrowed segments) index = get_elem? segments index
stored (descriptors segments) index = Option.map (λ s. s.bytes) (get_elem? segments index)
stored (owned segments) index = get_elem? segments index
stored (many segments) index = get_elem? segments index

unfoldable pub segment : MessageSegments → ℕ → Option Bytes
segment m id = if id == 0 then some m.first else stored m.segments id

-- The message holds exactly these segments.
pub record Holding (segments : List Bytes) (m : MessageSegments) : Type 0 where
  pub counted : segment_count m ≡ length segments
  pub held : (id : ℕ) → segment m id ≡ get_elem? segments id
