-- ===== src/Io/Packed/Pack/Swar.antt =====
-- `word_tag_slice` computes the tag with a few operations on the whole word; it is the tag that the
-- bytes give one by one.
use capnp_rs_experiment.Prelude.{
  ℕ, zero, suc, ◌+◌, ◌*◌, ◌/◌, ◌%◌, ◌^◌, ◌≤◌, ◌<◌, ◌≡◌, refl, sym, ap, ap₂, ◌∙◌, true, [], ◌∷◌,
  length, bit_and, bit_or, ◌==◌, ==_iff, ltb, ltb→lt, arith,
}
use capnp_rs_experiment.Prelude.Bits.{bit_or_split, bit_and_split, bit_and_127}
use capnp_rs_experiment.Prelude.Bytes.{Bytes, AreBytes, from_le_bytes}
use capnp_rs_experiment.Prelude.Tables.{all_below, all_below_sound}
use capnp_rs_experiment.Io.Packed.{word_tag, word_tag_slice, word_is_zero}
use capnp_rs_experiment.Io.Packed.Tags.{bits, nonzero_bit, word_tag-bits}
use capnp_rs_experiment.Io.Packed.Format.{IsWord}
use native.Mathlib.Nat.{pow-suc}

-- The mask with the same byte `c` in `n` places.
mask : ℕ → ℕ → ℕ
mask c zero = 0
mask c (suc n) = mask c n * 2 ^ 8 + c

-- What the operations do to one byte.
abbrev marked : ℕ → ℕ
marked b = bit_and (bit_or (bit_and b 127 + 127) b) 128

marked_table : all_below 256 (λ b. marked b == nonzero_bit b * 128) ≡ true
unfolding all_below
marked_table = refl

marked_lem : (b : ℕ) → b < 256 → marked b ≡ nonzero_bit b * 128
marked_lem b h = (==_iff _ _).0 (all_below_sound 256 b _ h marked_table)

or_bound_table : all_below 256 (λ b. ltb (bit_or (bit_and b 127 + 127) b) 256) ≡ true
unfolding all_below
or_bound_table = refl

or_bound : (b : ℕ) → b < 256 → bit_or (bit_and b 127 + 127) b < 2 ^ 8
or_bound b h = ltb→lt _ _ (all_below_sound 256 b _ h or_bound_table)

-- The low seven bits of each byte, with 127 added to each: no byte carries into the next.
abbrev summed : Bytes → ℕ
summed w = bit_and (from_le_bytes w) (mask 127 (length w)) + mask 127 (length w)

front_sum :
    (b : ℕ) (w : Bytes) → b < 256 → summed (b ∷ w) ≡ summed w * 2 ^ 8 + (bit_and b 127 + 127)
unfolding from_le_bytes mask
front_sum b w h = omega (
  arith,
  ap (λ (t : ℕ). bit_and t (mask 127 (length w) * 2 ^ 8 + 127)) {x = b + 256 * from_le_bytes w}
      {y = from_le_bytes w * 2 ^ 8 + b} (omega arith),
  bit_and_split 8 (from_le_bytes w) (mask 127 (length w)) b 127 h (omega arith),
)

-- One lane of each byte, as it stands in the sum.
lane_sum : Bytes → ℕ
lane_sum [] = 0
lane_sum (b ∷ w) = nonzero_bit b + 256 * lane_sum w

summed-lt : (w : Bytes) → AreBytes w → summed w < 256 ^ length w
unfolding from_le_bytes mask
summed-lt [] h = omega arith
summed-lt (b ∷ w) (p, h) =
    omega (arith, front_sum b w p, summed-lt w h, bit_and_127 b, pow-suc 256 (length w))

high_bits-lane_sum :
    (w : Bytes)
    → AreBytes w
    → bit_and (bit_or (summed w) (from_le_bytes w)) (mask 128 (length w)) ≡ lane_sum w * 128
unfolding from_le_bytes mask lane_sum
high_bits-lane_sum [] h = refl
high_bits-lane_sum (b ∷ w) (p, h) =
    ap₂ (λ (s t : ℕ). bit_and (bit_or s t) (mask 128 (length w) * 2 ^ 8 + 128))
      {y = summed w * 2 ^ 8 + (bit_and b 127 + 127)} {v = from_le_bytes w * 2 ^ 8 + b}
      (front_sum b w p) (omega arith)
    ∙ ap (λ (s : ℕ). bit_and s (mask 128 (length w) * 2 ^ 8 + 128))
        (bit_or_split 8 (summed w) (from_le_bytes w) (bit_and b 127 + 127) b
          (omega (arith, bit_and_127 b)) p)
    ∙ bit_and_split 8 _ (mask 128 (length w)) _ 128 (or_bound b p) (omega arith)
    ∙ omega (arith, high_bits-lane_sum w h, marked_lem b p)

nonzero_bit-le : (b : ℕ) → nonzero_bit b ≤ 1
nonzero_bit-le b = ground arith

-- The multiplication gathers the eight lanes in the top byte.
gather :
    (a b c d e f g h : ℕ)
    → a ≤ 1
    → b ≤ 1
    → c ≤ 1
    → d ≤ 1
    → e ≤ 1
    → f ≤ 1
    → g ≤ 1
    → h ≤ 1
    → (a
          + 256
            * (b + 256 * (c + 256 * (d + 256 * (e + 256 * (f + 256 * (g + 256 * (h + 256 * 0))))))))
        * 0x0102_0408_1020_4080
        % 2 ^ 64
        / 2 ^ 56
      ≡ a + 2 * (b + 2 * (c + 2 * (d + 2 * (e + 2 * (f + 2 * (g + 2 * (h + 2 * 0)))))))
gather a b c d e f g h p q r s t u v w = omega arith

gather_word :
    (w : Bytes) → length w ≡ 8 → lane_sum w * 0x0102_0408_1020_4080 % 2 ^ 64 / 2 ^ 56 ≡ bits w
unfolding lane_sum bits
gather_word (a ∷ b ∷ c ∷ d ∷ e ∷ f ∷ g ∷ h ∷ []) len =
    gather _ _ _ _ _ _ _ _ (nonzero_bit-le a) (nonzero_bit-le b) (nonzero_bit-le c)
      (nonzero_bit-le d) (nonzero_bit-le e) (nonzero_bit-le f) (nonzero_bit-le g) (nonzero_bit-le h)
gather_word _ len = absurd (omega arith)

masks :
    (w : Bytes)
    → length w ≡ 8
    → (mask 127 (length w) ≡ 0x7f7f_7f7f_7f7f_7f7f) × (mask 128 (length w) ≡ 0x8080_8080_8080_8080)
unfolding mask
masks w len = (ap (mask 127) len, ap (mask 128) len)

pub word_tag_slice-bits : (w : Bytes) → IsWord w → word_tag_slice w ≡ bits w
unfolding word_tag_slice
word_tag_slice-bits w (len, bytes) =
    ap (λ (t : ℕ). t / 2 ^ 7 * 0x0102_0408_1020_4080 % 2 ^ 64 / 2 ^ 56) marks
    ∙ ap (λ (t : ℕ). t * 0x0102_0408_1020_4080 % 2 ^ 64 / 2 ^ 56) {x = lane_sum w * 128 / 2 ^ 7}
        (omega arith)
    ∙ gather_word w len
  where
    low : mask 127 (length w) ≡ 0x7f7f_7f7f_7f7f_7f7f
    low = (masks w len).0

    high : mask 128 (length w) ≡ 0x8080_8080_8080_8080
    high = (masks w len).1

    no_carry : summed w < 2 ^ 64
    no_carry = omega (arith, summed-lt w bytes, ap (λ (n : ℕ). 256 ^ n) len)

    marks :
        bit_and
          (bit_or
            ((bit_and (from_le_bytes w) 0x7f7f_7f7f_7f7f_7f7f + 0x7f7f_7f7f_7f7f_7f7f) % 2 ^ 64)
            (from_le_bytes w))
          0x8080_8080_8080_8080
        ≡ lane_sum w * 128
    marks =
        ap₂
          (λ (l g : ℕ).
            bit_and (bit_or ((bit_and (from_le_bytes w) l + l) % 2 ^ 64) (from_le_bytes w)) g)
          (sym low) (sym high)
        ∙ ap (λ (t : ℕ). bit_and (bit_or t (from_le_bytes w)) (mask 128 (length w)))
            {x = summed w % 2 ^ 64} (omega (arith, no_carry))
        ∙ high_bits-lane_sum w bytes

-- The test on the whole word, too, is the test of the tag.
pub word_is_zero-bits : (w : Bytes) → word_is_zero w ≡ (bits w == 0)
unfolding word_is_zero from_le_bytes bits
word_is_zero-bits [] = refl
word_is_zero-bits (b ∷ w) = ground (arith, word_is_zero-bits w)

-- On every word the two computations of the tag agree: the multiplication on the whole word and the
-- fold over its bytes.
pub word_tag_slice-word_tag : (w : Bytes) → IsWord w → word_tag_slice w ≡ word_tag w
word_tag_slice-word_tag w h = word_tag_slice-bits w h ∙ sym (word_tag-bits w h.0)
