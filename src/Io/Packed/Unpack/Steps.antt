-- ===== src/Io/Packed/Unpack/Steps.antt =====
-- `unpack` one item at a time: what each kind of item leaves and appends, and that fuel for each
-- byte is enough.
use capnp_rs_experiment.Prelude.{
  ℕ, zero, suc, ◌+◌, ◌-◌, ◌*◌, ◌≤◌, ◌≡◌, refl, [], ◌∷◌, ◌++◌, length, Result, ok, err, panic, ◌>>=◌,
  ltb, ◌==◌, if◌then◌else◌, arith, Ensures, Ensures-bind, Ensures-then, Ensures-if, length-drop,
}
use capnp_rs_experiment.Prelude.Bytes.{Bytes}
use capnp_rs_experiment.Io.Packed.{
  PackedError, truncated_word, check_output_limit, ensure_output_limit, count_ones, lane_set,
}
use capnp_rs_experiment.Io.Packed.Unpack.{
  spread, unpack_zeros, unpack_raw, unpack_word, unpack_item, unpack_loop, unpack,
}

-- The rest of the input, beside a word or an output, has at most `n` bytes.
abbrev Leaves : ℕ → Result PackedError (Bytes × Bytes) → Type 0
Leaves n = Ensures (λ r. length (r.0) ≤ n)

abbrev Spreads : ℕ → Result PackedError (Bytes × Bytes) → Type 0
Spreads n = Ensures (λ r. length (r.1) ≤ n)

spread_shorter :
    (left lane tag n : ℕ) (input : Bytes)
    → length input ≤ n
    → Spreads n (spread left lane tag input)
unfolding spread
spread_shorter zero lane tag n input h = record { holds = h }
spread_shorter (suc left) lane tag n [] h =
    Ensures-bind _ (spread left (lane + 1) tag []) _ (spread_shorter left (lane + 1) tag n [] h)
      λ r k. Ensures-if (lane_set tag lane) (record { holds = tt }) (record { holds = k })
spread_shorter (suc left) lane tag n (b ∷ input) h =
    Ensures-bind _ (spread left (lane + 1) tag (if lane_set tag lane then input else b ∷ input)) _
      (spread_shorter left (lane + 1) tag n (if lane_set tag lane then input else b ∷ input)
        (ground arith))
      λ r k. record { holds = k }

unpack_raw_shorter :
    (n : ℕ) (input output : Bytes) (limit : ℕ)
    → length input ≤ n
    → Leaves n (unpack_raw input output limit)
unfolding unpack_raw check_output_limit
unpack_raw_shorter n [] output limit h = record { holds = tt }
unpack_raw_shorter n (k ∷ input) output limit h = record {
  holds = ground (arith, length-drop (k * 8) input);
}

unpack_zeros_shorter :
    (n : ℕ) (input output : Bytes) (limit : ℕ)
    → length input ≤ n
    → Leaves n (unpack_zeros input output limit)
unfolding unpack_zeros check_output_limit
unpack_zeros_shorter n [] output limit h = record { holds = tt }
unpack_zeros_shorter n (k ∷ input) output limit h = record { holds = ground arith }

unpack_word_shorter :
    (n tag : ℕ) (input output : Bytes) (limit : ℕ)
    → length input ≤ n
    → Leaves n (unpack_word tag input output limit)
unfolding unpack_word
unpack_word_shorter n tag input output limit h =
    let missing = truncated_word tag (count_ones tag - length input) in
    Ensures-then (if ltb (length input) (count_ones tag) then err missing else ok tt) _ λ _.
      Ensures-bind _ (spread 8 0 tag input) _ (spread_shorter 8 0 tag n input h) λ r k.
        Ensures-if (tag == 255) (unpack_raw_shorter n r.1 (output ++ r.0) limit k)
          (record { holds = k })

unpack_item_shorter :
    (tag : ℕ) (input output : Bytes) (limit : ℕ)
    → Leaves (length input) (unpack_item tag input output limit)
unfolding unpack_item
unpack_item_shorter tag input output limit =
    Ensures-then (ensure_output_limit (length output) 8 limit) _ λ _.
      Ensures-if (tag == 0) (unpack_zeros_shorter _ input _ limit (omega arith))
        (unpack_word_shorter _ tag input output limit (omega arith))

-- Any fuel for each byte gives the same result.
unpack_loop_fuel :
    (f g : ℕ) (input output : Bytes) (limit : ℕ)
    → length input ≤ f
    → length input ≤ g
    → unpack_loop f input output limit ≡ unpack_loop g input output limit
unfolding unpack_loop
unpack_loop_fuel zero zero [] output limit h k = refl
unpack_loop_fuel zero (suc g) [] output limit h k = refl
unpack_loop_fuel (suc f) zero [] output limit h k = refl
unpack_loop_fuel (suc f) (suc g) [] output limit h k = refl
unpack_loop_fuel zero g (tag ∷ input) output limit h k = absurd (omega arith)
unpack_loop_fuel (suc f) zero (tag ∷ input) output limit h k = absurd (omega arith)
unpack_loop_fuel (suc f) (suc g) (tag ∷ input) output limit h k =
    same (unpack_item tag input output limit) (unpack_item_shorter tag input output limit)
      (λ rest out le. unpack_loop_fuel f g rest out limit (omega arith) (omega arith))
  where
    same :
        (m : Result PackedError (Bytes × Bytes))
        → Leaves (length input) m
        → ((rest out : Bytes)
            → length rest ≤ length input
            → unpack_loop f rest out limit ≡ unpack_loop g rest out limit)
        → (m >>= λ r. unpack_loop f r.0 r.1 limit) ≡ (m >>= λ r. unpack_loop g r.0 r.1 limit)
    same (ok (rest, out)) l ih = ih rest out l.holds
    same (err e) l ih = refl
    same panic l ih = refl

-- `unpack` in the middle of its input.
unfoldable pub unpack_on : Bytes → Bytes → ℕ → Result PackedError Bytes
unpack_on input output limit = unpack_loop (length input) input output limit

pub unpack-unpack_on : (input : Bytes) (limit : ℕ) → unpack input limit ≡ unpack_on input [] limit
unfolding unpack unpack_on
unpack-unpack_on input limit = refl

pub unpack_on-nil : (output : Bytes) (limit : ℕ) → unpack_on [] output limit ≡ ok output
unfolding unpack_on unpack_loop
unpack_on-nil output limit = refl

-- One item, then the rest.
pub unpack_on-cons :
    (tag : ℕ) (input output : Bytes) (limit : ℕ)
    → unpack_on (tag ∷ input) output limit
      ≡ (unpack_item tag input output limit >>= λ r. unpack_on r.0 r.1 limit)
unfolding unpack_on unpack_loop
unpack_on-cons tag input output limit =
    go (unpack_item tag input output limit) (unpack_item_shorter tag input output limit)
  where
    go :
        (m : Result PackedError (Bytes × Bytes))
        → Leaves (length input) m
        → (m >>= λ r. unpack_loop (length input) r.0 r.1 limit)
          ≡ (m >>= λ r. unpack_loop (length r.0) r.0 r.1 limit)
    go (ok (rest, out)) l =
        unpack_loop_fuel (length input) (length rest) rest out limit l.holds (omega arith)
    go (err e) l = refl
    go panic l = refl
