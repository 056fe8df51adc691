-- ===== src/Io/Packed/Pack/Lanes.antt =====
-- The loop over the set bits of a tag writes the word's nonzero bytes in order.
use capnp_rs_experiment.Prelude.{
  ℕ, zero, suc, ◌+◌, ◌*◌, ◌/◌, ◌%◌, ◌^◌, ◌<◌, ◌≡◌, refl, sym, ap, ap₂, ◌∙◌, true, List, [], ◌∷◌,
  ◌++◌, map, length, get_or, ◌==◌, if◌then◌else◌, Bool-cases, inl, inr, arith, append_assoc,
  length-append,
}
use capnp_rs_experiment.Prelude.Bytes.{Bytes}
use capnp_rs_experiment.Prelude.Tables.{all_below, all_below_sound, same_list, same_list→eq}
use capnp_rs_experiment.Io.Packed.Pack.{trailing_zeros, lanes_of}
use capnp_rs_experiment.Io.Packed.Tags.{bits, bits-lt, nonzero}

-- The set bits from `lane` on, in order.
lanes_up : ℕ → ℕ → ℕ → List ℕ
lanes_up zero lane tag = []
lanes_up (suc left) lane tag =
    if tag % 2 == 0
    then lanes_up left (lane + 1) (tag / 2)
    else lane ∷ lanes_up left (lane + 1) (tag / 2)

lanes_table : all_below 256 (λ tag. same_list (lanes_of 8 tag) (lanes_up 8 0 tag)) ≡ true
unfolding all_below lanes_of trailing_zeros lanes_up
lanes_table = refl

lanes_of-lanes_up : (tag : ℕ) → tag < 256 → lanes_of 8 tag ≡ lanes_up 8 0 tag
lanes_of-lanes_up tag h = same_list→eq _ _ (all_below_sound 256 tag _ h lanes_table)

get_or-append :
    (front : Bytes) (b : ℕ) (back : Bytes) → get_or (front ++ (b ∷ back)) (length front) 0 ≡ b
get_or-append [] b back = refl
get_or-append (x ∷ front) b back = get_or-append front b back

lanes_up_clear :
    (left lane half : ℕ) → lanes_up (suc left) lane (0 + 2 * half) ≡ lanes_up left (lane + 1) half
unfolding lanes_up
lanes_up_clear left lane half =
    ap₂
      (λ (m d : ℕ).
        if m == 0 then lanes_up left (lane + 1) d else lane ∷ lanes_up left (lane + 1) d)
      {y = 0} {v = half} (omega arith) (omega arith)

lanes_up_set :
    (left lane half : ℕ)
    → lanes_up (suc left) lane (1 + 2 * half) ≡ lane ∷ lanes_up left (lane + 1) half
unfolding lanes_up
lanes_up_set left lane half =
    ap₂
      (λ (m d : ℕ).
        if m == 0 then lanes_up left (lane + 1) d else lane ∷ lanes_up left (lane + 1) d)
      {y = 1} {v = half} (omega arith) (omega arith)

lanes_up-nonzero :
    (v front : Bytes) (lane : ℕ)
    → length front ≡ lane
    → map (λ l. get_or (front ++ v) l 0) (lanes_up (length v) lane (bits v)) ≡ nonzero v
lanes_up-nonzero [] front lane h = unfold lanes_up nonzero in refl
lanes_up-nonzero (b ∷ v) front lane h = split (
    lanes_up-nonzero v (front ++ (b ∷ [])) (lane + 1) (omega (arith, length-append front (b ∷ []))))
  where
    at : ℕ → ℕ
    at = λ l. get_or (front ++ (b ∷ v)) l 0

    split :
        map (λ l. get_or ((front ++ (b ∷ [])) ++ v) l 0) (lanes_up (length v) (lane + 1) (bits v))
          ≡ nonzero v
        → map at (lanes_up (suc (length v)) lane (bits (b ∷ v))) ≡ nonzero (b ∷ v)
    split later =
        let later' =
          ap (λ (t : Bytes). map (λ l. get_or t l 0) (lanes_up (length v) (lane + 1) (bits v)))
            (sym (append_assoc front (b ∷ []) v))
          ∙ later in
        elim (Bool-cases (b == 0)) [
          | inl z ↦
              unfold bits nonzero in
              rw z (ap (map at) (lanes_up_clear (length v) lane (bits v)) ∙ later')
          | inr nz ↦
              unfold bits nonzero in
              rw nz (
                ap (map at) (lanes_up_set (length v) lane (bits v))
                ∙ ap₂ ◌∷◌
                    (ap (λ (l : ℕ). get_or (front ++ (b ∷ v)) l 0) (sym h)
                      ∙ get_or-append front b v)
                    later')
        ]

-- The bytes that the loop writes for a word of eight are its nonzero bytes, in order.
pub lanes_of-nonzero :
    (w : Bytes) → length w ≡ 8 → map (λ lane. get_or w lane 0) (lanes_of 8 (bits w)) ≡ nonzero w
lanes_of-nonzero w h =
    ap (map (λ lane. get_or w lane 0)) (
      lanes_of-lanes_up (bits w) (omega (arith, bits-lt w, ap (λ (n : ℕ). 2 ^ n) h))
      ∙ ap (λ (n : ℕ). lanes_up n 0 (bits w)) (sym h))
    ∙ lanes_up-nonzero w [] 0 refl
