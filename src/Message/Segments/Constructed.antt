-- ===== src/Message/Segments/Constructed.antt =====
-- What every constructor of `MessageSegments` has in common: a message is a list of segments, however
-- it is stored.
use mathlib.Core.Option
use capnp_rs_experiment.Prelude.{
  ℕ, zero, suc, ◌%◌, ◌≤◌, ◌≡◌, refl, some, List, [], ◌∷◌, map, length, get_elem?, All, ok, u32_max,
  arith, length-map, ◌==◌, if◌then◌else◌,
}
use capnp_rs_experiment.Prelude.Bytes.{Bytes}
use capnp_rs_experiment.Wire.Segment.{Segment}
use capnp_rs_experiment.Message.Segments.{
  MessageSegments, Holding, new, new_borrowed, from_descriptors, from_owned_segments, segment,
  segment_count, validate_segments, check_aligned, one, two, many, borrowed, descriptors, owned,
  storage, SegmentStorage, storage_count, stored,
}

abbrev pub Aligned : Bytes → Type 0
Aligned segment = length segment % 8 ≡ 0

check_aligned_ok :
    (index : ℕ) (segments : List Bytes)
    → All Aligned segments
    → check_aligned index segments ≡ ok tt
check_aligned_ok index [] h = refl
check_aligned_ok index (segment ∷ segments) (h, hs) =
    ground (arith, h, check_aligned_ok (suc index) segments hs)

get_elem-map :
    (segments : List Segment) (i : ℕ)
    → Option.map (λ s. s.bytes) (get_elem? segments i) ≡ get_elem? (map (λ s. s.bytes) segments) i
get_elem-map [] i = refl
get_elem-map (s ∷ segments) zero = refl
get_elem-map (s ∷ segments) (suc i) = get_elem-map segments i

validate_ok :
    (first : Bytes) (rest : List Bytes)
    → length (first ∷ rest) ≤ u32_max
    → All Aligned (first ∷ rest)
    → validate_segments (first ∷ rest) ≡ ok tt
unfolding validate_segments
validate_ok first rest short aligned =
    ground (arith, short, check_aligned_ok 0 (first ∷ rest) aligned)

-- What is stored behind the first segment decides the rest.
holding :
    (first : Bytes) (rest : List Bytes) (store : SegmentStorage)
    → storage_count store ≡ suc (length rest)
    → ((id : ℕ) → stored store (suc id) ≡ get_elem? rest id)
    → Holding (first ∷ rest) (record { first = first; segments = store })
unfolding segment segment_count
holding first rest store counted behind = record { counted = counted; held = held }
  where
    held :
        (id : ℕ) → (if id == 0 then some first else stored store id) ≡ get_elem? (first ∷ rest) id
    held zero = refl
    held (suc id) = ground (arith, behind id)

second_behind :
    (second : Bytes) (id : ℕ) → stored (two second) (suc id) ≡ get_elem? (second ∷ []) id
second_behind second zero = refl
second_behind second (suc id) = ground arith

storage-Holding :
    (first : Bytes) (rest : List Bytes)
    → Holding (first ∷ rest) (record { first = first; segments = storage (first ∷ rest) })
storage-Holding first [] = holding first [] one refl (λ id. refl)
storage-Holding first (second ∷ []) =
    holding first (second ∷ []) (two second) refl (second_behind second)
storage-Holding first (second ∷ (third ∷ rest)) =
    holding first (second ∷ (third ∷ rest)) (many (first ∷ (second ∷ (third ∷ rest)))) refl
      (λ id. refl)

-- For a message of at least one and at most 2 ^ 32 - 1 segments, each a whole number of words, `new`,
-- `new_borrowed` and `from_owned_segments` succeed, and the message that each returns counts these
-- segments and finds each one under its number, and nothing under any other number.
pub new-Holding :
    (first : Bytes) (rest : List Bytes)
    → length (first ∷ rest) ≤ u32_max
    → All Aligned (first ∷ rest)
    → ((m : MessageSegments) × (new (first ∷ rest) ≡ ok m) × Holding (first ∷ rest) m)
      × ((m : MessageSegments) × (new_borrowed (first ∷ rest) ≡ ok m) × Holding (first ∷ rest) m)
      × ((m : MessageSegments) × (from_owned_segments (first ∷ rest) ≡ ok m)
          × Holding (first ∷ rest) m)
unfolding new new_borrowed from_owned_segments
new-Holding first rest short aligned =
    let checked = validate_ok first rest short aligned in
    (
      (
        record { first = first; segments = storage (first ∷ rest) },
        ground (arith, checked),
        storage-Holding first rest,
      ),
      (
        record { first = first; segments = borrowed (first ∷ rest) },
        ground (arith, checked),
        holding first rest (borrowed (first ∷ rest)) refl (λ id. refl),
      ),
      (
        record { first = first; segments = owned (first ∷ rest) },
        refl,
        holding first rest (owned (first ∷ rest)) refl (λ id. refl),
      ),
    )

-- Of descriptors, whose alignment was checked when they were made, the message holds the bytes.
pub from_descriptors-Holding :
    (first : Segment) (rest : List Segment)
    → length (first ∷ rest) ≤ u32_max
    → (m : MessageSegments) × (from_descriptors (first ∷ rest) ≡ ok m)
      × Holding (map (λ s. s.bytes) (first ∷ rest)) m
unfolding from_descriptors
from_descriptors-Holding first rest short =
    let bytes = λ (s : Segment). s.bytes in
    (
      record { first = first.bytes; segments = descriptors (first ∷ rest) },
      ground (arith, short),
      holding first.bytes (map bytes rest) (descriptors (first ∷ rest))
          (omega (arith, length-map bytes rest)) (get_elem-map rest),
    )
