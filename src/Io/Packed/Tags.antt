-- ===== src/Io/Packed/Tags.antt =====
-- The tag of a word, bit by bit: which lanes it has, and what is read back under it.
use capnp_rs_experiment.Prelude.{
  ℕ, zero, suc, ◌+◌, ◌*◌, ◌/◌, ◌%◌, ◌^◌, ◌≤◌, ◌<◌, ◌≡◌, refl, sym, ap, ap₂, ◌∙◌, not, [], ◌∷◌, ◌++◌,
  length, replicate, ==_iff, Result, ok, panic, ◌>>=◌, bit_and, bit_or, ◌==◌, if◌then◌else◌, arith,
  Bool-cases, inl, inr,
}
use capnp_rs_experiment.Prelude.Bits.{bit_or_low, bit_and_split, bit_and-one, bit_and-zero}
use capnp_rs_experiment.Prelude.Bytes.{Bytes}
use capnp_rs_experiment.Io.Packed.{PackedError, ones, count_ones, lane_set, tag_fold, word_tag}
use capnp_rs_experiment.Io.Packed.Unpack.{spread}
use native.Mathlib.Nat.{pow-suc, pow-le-pow_right, div-add-mod', mod-lt, div-div-eq-div-mul}

abbrev pub nonzero_bit : ℕ → ℕ
nonzero_bit byte = if byte == 0 then 0 else 1

-- One bit for each byte, the first one lowest.
unfoldable pub bits : Bytes → ℕ
bits [] = 0
bits (byte ∷ bytes) = nonzero_bit byte + 2 * bits bytes

-- `word.into_iter().filter(|byte| *byte != 0)`
unfoldable pub nonzero : Bytes → Bytes
nonzero [] = []
nonzero (byte ∷ bytes) = if byte == 0 then nonzero bytes else byte ∷ nonzero bytes

pub pow_pos : (n : ℕ) → 0 < 2 ^ n
pow_pos zero = omega arith
pow_pos (suc n) = omega (arith, pow_pos n, pow-suc 2 n)

pub pow_le_byte : (n : ℕ) → n < 8 → 2 ^ n ≤ 128
pow_le_byte n h = pow-le-pow_right (omega arith) {i = n} {j = 7} (omega arith)

pow_add_one : (n : ℕ) → 2 ^ (n + 1) ≡ 2 ^ n * 2
pow_add_one n = ap (λ (t : ℕ). 2 ^ t) (omega arith) ∙ pow-suc 2 n

nonzero_bit-le : (b : ℕ) → nonzero_bit b ≤ 1
nonzero_bit-le b = ground arith

pub bits-lt : (w : Bytes) → bits w < 2 ^ length w
unfolding bits
bits-lt [] = omega arith
bits-lt (b ∷ w) = omega (arith, bits-lt w, nonzero_bit-le b, pow-suc 2 (length w))

merge_bit :
    (index tag b : ℕ)
    → tag < 2 ^ index
    → index < 8
    → bit_or tag (nonzero_bit b * 2 ^ index % 2 ^ 8) ≡ nonzero_bit b * 2 ^ index + tag
merge_bit index tag b h k = ap (bit_or tag) small ∙ bit_or_low index (nonzero_bit b) tag h
  where
    small : nonzero_bit b * 2 ^ index % 2 ^ 8 ≡ nonzero_bit b * 2 ^ index
    small = ground (arith, pow_le_byte index k)

merged-lt : (index tag b : ℕ) → tag < 2 ^ index → nonzero_bit b * 2 ^ index + tag < 2 ^ (index + 1)
merged-lt index tag b h = ground (arith, pow_add_one index)

tag_fold-bits :
    (w : Bytes) (index tag : ℕ)
    → tag < 2 ^ index
    → index + length w ≤ 8
    → tag_fold index tag w ≡ tag + 2 ^ index * bits w
unfolding tag_fold bits
tag_fold-bits [] index tag h k = omega arith
tag_fold-bits (b ∷ w) index tag h k =
    ap (λ (t : ℕ). tag_fold (index + 1) t w) (merge_bit index tag b h (omega arith))
    ∙ tag_fold-bits w (index + 1) _ (merged-lt index tag b h) (omega arith)
    ∙ omega (arith, ap (λ (t : ℕ). t * bits w) (pow_add_one index))

pub word_tag-bits : (w : Bytes) → length w ≡ 8 → word_tag w ≡ bits w
word_tag-bits w h = omega (arith, tag_fold-bits w 0 0 (omega arith) (omega arith))

one_bit : (tag lane : ℕ) → bit_and tag (2 ^ lane) ≡ tag / 2 ^ lane % 2 * 2 ^ lane
one_bit tag lane =
    ap₂ bit_and {y = tag / 2 ^ lane * 2 ^ lane + tag % 2 ^ lane} {v = 1 * 2 ^ lane + 0}
      (sym (div-add-mod' tag (2 ^ lane))) (omega arith)
    ∙ bit_and_split lane (tag / 2 ^ lane) 1 (tag % 2 ^ lane) 0 (mod-lt tag (pow_pos lane))
        (pow_pos lane)
    ∙ ap₂ (λ (s t : ℕ). s * 2 ^ lane + t) (bit_and-one (tag / 2 ^ lane)) (bit_and-zero _)
    ∙ omega arith

pub lane_set_lem : (tag lane : ℕ) → lane_set tag lane ≡ not (tag / 2 ^ lane % 2 == 0)
unfolding lane_set
lane_set_lem tag lane = ap not (ground (arith, one_bit tag lane, pow_pos lane))

-- `spread` with the bits still to be read.
unfoldable pub spread_bits : ℕ → ℕ → Bytes → Result PackedError (Bytes × Bytes)
spread_bits zero tag input = ok ([], input)
spread_bits (suc left) tag [] = do
  (word, rest) ← spread_bits left (tag / 2) []
  if not (tag % 2 == 0) then panic else ok (0 ∷ word, rest)
spread_bits (suc left) tag (byte ∷ input) = do
  (word, rest) ← spread_bits left (tag / 2) (if not (tag % 2 == 0) then input else byte ∷ input)
  ok ((if not (tag % 2 == 0) then byte else 0) ∷ word, rest)

pub next_bit : (tag lane : ℕ) → tag / 2 ^ lane / 2 ≡ tag / 2 ^ (lane + 1)
next_bit tag lane =
    div-div-eq-div-mul tag (2 ^ lane) 2 ∙ ap (λ (t : ℕ). tag / t) (sym (pow_add_one lane))

pub spread-spread_bits :
    (left lane tag : ℕ) (input : Bytes)
    → spread left lane tag input ≡ spread_bits left (tag / 2 ^ lane) input
unfolding spread spread_bits
spread-spread_bits zero lane tag input = refl
spread-spread_bits (suc left) lane tag [] =
    rw (lane_set_lem, spread-spread_bits left (lane + 1) tag [], next_bit)
spread-spread_bits (suc left) lane tag (byte ∷ input) = rw (
  lane_set_lem tag lane,
  spread-spread_bits left (lane + 1) tag
      (if not (tag / 2 ^ lane % 2 == 0) then input else byte ∷ input),
  next_bit tag lane,
)

spread_bits_clear :
    (left tag half : ℕ) (input : Bytes) {word rest : Bytes}
    → tag ≡ 2 * half
    → spread_bits left half input ≡ ok (word, rest)
    → spread_bits (suc left) tag input ≡ ok (0 ∷ word, rest)
unfolding spread_bits
spread_bits_clear left tag half [] h later = ground (arith, halved)
  where
    halved : spread_bits left (tag / 2) [] ≡ spread_bits left half []
    halved = ap (λ (t : ℕ). spread_bits left t []) (omega arith)
spread_bits_clear left tag half (b ∷ input) h later = ground (arith, halved)
  where
    halved : spread_bits left (tag / 2) (b ∷ input) ≡ spread_bits left half (b ∷ input)
    halved = ap (λ (t : ℕ). spread_bits left t (b ∷ input)) (omega arith)

spread_bits_set :
    (left tag half b : ℕ) (input : Bytes) {word rest : Bytes}
    → tag ≡ 1 + 2 * half
    → spread_bits left half input ≡ ok (word, rest)
    → spread_bits (suc left) tag (b ∷ input) ≡ ok (b ∷ word, rest)
unfolding spread_bits
spread_bits_set left tag half b input h later = ground (arith, halved)
  where
    halved : spread_bits left (tag / 2) input ≡ spread_bits left half input
    halved = ap (λ (t : ℕ). spread_bits left t input) (omega arith)

-- Under the tag of a word, its nonzero bytes are read back as the word.
spread_bits-nonzero :
    (w rest : Bytes) → spread_bits (length w) (bits w) (nonzero w ++ rest) ≡ ok (w, rest)
unfolding bits nonzero
spread_bits-nonzero [] rest = unfold spread_bits in refl
spread_bits-nonzero (b ∷ w) rest = elim (Bool-cases (b == 0)) [
  | inl z ↦ rw z (
      spread_bits_clear (length w) _ (bits w) _ (omega arith) (spread_bits-nonzero w rest)
      ∙ ap (λ (t : ℕ). ok (t ∷ w, rest)) (sym ((==_iff b 0).0 z)))
  | inr nz ↦
      rw nz (spread_bits_set (length w) _ (bits w) b _ (omega arith) (spread_bits-nonzero w rest))
]

pub spread-nonzero :
    (w rest : Bytes) → length w ≡ 8 → spread 8 0 (bits w) (nonzero w ++ rest) ≡ ok (w, rest)
spread-nonzero w rest h =
    spread-spread_bits 8 0 (bits w) (nonzero w ++ rest)
    ∙ ap₂ (λ (k t : ℕ). spread_bits k t (nonzero w ++ rest)) (sym h) (omega arith)
    ∙ spread_bits-nonzero w rest

ones-bits : (w : Bytes) → ones (length w) (bits w) ≡ length (nonzero w)
unfolding ones bits nonzero
ones-bits [] = refl
ones-bits (b ∷ w) = elim (Bool-cases (b == 0)) [
  | inl z ↦ rw z (
      ap₂ (λ (s t : ℕ). s + ones (length w) t) {y = 0} {v = bits w} (omega arith) (omega arith)
      ∙ omega (arith, ones-bits w))
  | inr nz ↦ rw nz (
      ap₂ (λ (s t : ℕ). s + ones (length w) t) {y = 1} {v = bits w} (omega arith) (omega arith)
      ∙ omega (arith, ones-bits w))
]

pub count_ones-bits : (w : Bytes) → length w ≡ 8 → count_ones (bits w) ≡ length (nonzero w)
count_ones-bits w h = ap (λ (k : ℕ). ones k (bits w)) (sym h) ∙ ones-bits w

-- A tag of zero is that of the zero word, and a full tag has every byte.
pub bits_zero : (w : Bytes) → bits w ≡ 0 → w ≡ replicate (length w) 0
unfolding bits
bits_zero [] h = refl
bits_zero (b ∷ w) h = ap₂ ◌∷◌ (ground arith) (bits_zero w (omega arith))

pub nonzero_full : (w : Bytes) → bits w + 1 ≡ 2 ^ length w → nonzero w ≡ w
unfolding bits nonzero
nonzero_full [] h = refl
nonzero_full (b ∷ w) h = elim (Bool-cases (b == 0)) [
  | inl z ↦ absurd (ground (arith, pow-suc 2 (length w)))
  | inr nz ↦ rw nz (ap (◌∷◌ b) (nonzero_full w (ground (arith, pow-suc 2 (length w)))))
]
