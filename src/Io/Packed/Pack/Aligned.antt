-- ===== src/Io/Packed/Pack/Aligned.antt =====
-- `pack_aligned_into` and `pack` as wholes.
use capnp_rs_experiment.Prelude.{
  ℕ, zero, suc, ◌+◌, ◌-◌, ◌/◌, ◌≤◌, ◌<◌, ◌≡◌, refl, sym, ap, ap₂, ◌∙◌, true, false, List, [], ◌∷◌,
  ◌++◌, length, drop, All, All-drop, append-nil, append_assoc, length-append, length-drop,
  take-append, drop-append, chunks_exact, Result, ok, err, panic, ◌>>=◌, usize_max, min, leb, ◌==◌,
  Bool-cases, leb→le, inl, inr, arith,
}
use capnp_rs_experiment.Prelude.Bytes.{Bytes}
use capnp_rs_experiment.Io.Packed.{PackedError, check_output_limit}
use capnp_rs_experiment.Io.Packed.Tags.{bits}
use capnp_rs_experiment.Io.Packed.Format.{IsWord, no_run, close, packed, joined}
use capnp_rs_experiment.Io.Packed.Pack.{
  all_zero, is_all_zero, write_zero_runs, leading_zeros, pack_word, pack_item, pack_loop,
  pack_aligned_into,
}
use capnp_rs_experiment.Io.Packed.Pack.Swar.{word_tag_slice-bits, word_is_zero-bits}
use capnp_rs_experiment.Io.Packed.Pack.Runs.{
  length-joined, chunks_exact-joined, packed-zeros, packed-start_zeros,
}
use capnp_rs_experiment.Io.Packed.Pack.Format.{
  IsError, Limited, Limited-cong, check_output_limit-Limited, Round, word-Round,
}

-- A limited step, then a limited rest that needs more.
Limited-bind :
    {A B : Type 0} (limit needed total : ℕ) (a : A) (b : B) (m : Result PackedError A)
    (f : A → Result PackedError B)
    → Limited limit needed a m
    → needed ≤ total
    → (needed ≤ limit → Limited limit total b (f a))
    → Limited limit total b (m >>= f)
Limited-bind {A} {B} limit needed total a b m f l le later = elim (Bool-cases (leb needed limit)) [
  | inl yes_fits ↦ rw (l.fits (leb→le _ _ yes_fits)) (later (leb→le _ _ yes_fits))
  | inr too_long ↦ record {
    fits = λ h. absurd (ground arith);
    exceeds = λ h. failed m (l.exceeds (ground arith));
  }
]
  where
    failed : (r : Result PackedError A) → IsError r → IsError (r >>= f)
    failed (ok x) h = absurd h
    failed (err e) h = tt
    failed panic h = absurd h

pack_item-word :
    (w : Bytes) (ws : List Bytes) (output : Bytes) (limit : ℕ)
    → IsWord w
    → pack_item (joined (w ∷ ws)) output limit ≡ pack_word (bits w) w (joined ws) output limit
unfolding pack_item joined
pack_item-word w ws output limit hw =
    rw
      (take-append 8 w (joined ws) hw.0, drop-append 8 w (joined ws) hw.0, word_tag_slice-bits w hw)

pack_loop_cons :
    (fuel : ℕ) (input output : Bytes) (limit : ℕ)
    → 0 < length input
    → pack_loop (suc fuel) input output limit
      ≡ (pack_item input output limit >>= λ r. pack_loop fuel r.0 r.1 limit)
unfolding pack_loop
pack_loop_cons fuel [] output limit h = absurd (omega arith)
pack_loop_cons fuel (b ∷ bs) output limit h = refl

abbrev Writes : ℕ → Bytes → Bytes → Result PackedError Bytes → Type 0
Writes limit output bytes r = Limited limit (length output + length bytes) (output ++ bytes) r

-- Nothing more to write.
Writes-nil :
    (limit : ℕ) (output : Bytes) → length output ≤ limit → Writes limit output [] (ok output)
Writes-nil limit output room = record {
  fits = λ h. ap ok (sym (append-nil output));
  exceeds = λ h. absurd (omega arith);
}

-- What a round emits, and then the rest.
Writes-append :
    (limit : ℕ) (output emitted more bytes : Bytes) (r : Result PackedError Bytes)
    → bytes ≡ emitted ++ more
    → Writes limit (output ++ emitted) more r
    → Writes limit output bytes r
Writes-append limit output emitted more bytes r e l =
    Limited-cong limit
      (omega (arith, ap length e, length-append output emitted, length-append emitted more))
      (append_assoc output emitted more ∙ ap (◌++◌ output) (sym e)) refl l

packed-nil : packed no_run [] ≡ []
unfolding packed close
packed-nil = refl

pack_loop-packed :
    (fuel : ℕ) (ws : List Bytes) (output : Bytes) (limit : ℕ)
    → All IsWord ws
    → length ws ≤ fuel
    → length output ≤ limit
    → limit ≤ usize_max
    → Writes limit output (packed no_run ws) (pack_loop fuel (joined ws) output limit)
unfolding joined
pack_loop-packed zero [] output limit h f room small =
    rw packed-nil (unfold pack_loop in Writes-nil limit output room)
pack_loop-packed (suc fuel) [] output limit h f room small =
    rw packed-nil (unfold pack_loop in Writes-nil limit output room)
pack_loop-packed zero (w ∷ ws) output limit h f room small = absurd (omega arith)
pack_loop-packed (suc fuel) (w ∷ ws) output limit (hw, h) f room small = one (λ room'.
    pack_loop-packed fuel (drop r.taken ws) (output ++ r.emitted) limit
      (All-drop IsWord r.taken ws h) (omega (arith, length-drop r.taken ws)) room' small)
  where
    r : Round w ws output limit
    r = word-Round w ws output limit hw h small

    total :
        length output + length (packed no_run (w ∷ ws))
        ≡ length output + length r.emitted + length (packed no_run (drop r.taken ws))
    total =
        omega (arith, ap length r.splits, length-append r.emitted (packed no_run (drop r.taken ws)))

    one :
        (length (output ++ r.emitted) ≤ limit
          → Writes limit
              (output ++ r.emitted)
              (packed no_run (drop r.taken ws))
              (pack_loop fuel (joined (drop r.taken ws)) (output ++ r.emitted) limit))
        → Writes limit output
            (packed no_run (w ∷ ws))
            (pack_loop (suc fuel) (joined (w ∷ ws)) output limit)
    one later =
        rw
          (
            pack_loop_cons fuel (joined (w ∷ ws)) output limit
                (omega (arith, length-joined (w ∷ ws) (hw, h))),
            pack_item-word w ws output limit hw,
          )
          (Limited-bind limit (length output + length r.emitted) _ _ _ _ _ r.item
            (omega (arith, total))
            λ room'.
              Writes-append limit output r.emitted (packed no_run (drop r.taken ws)) _ _ r.splits
                (later (omega (arith, length-append output r.emitted))))

abbrev AllZero : List Bytes → Type 0
AllZero = All (λ w. (bits w == 0) ≡ true)

leading_zeros-AllZero :
    (left : ℕ) (ws : List Bytes) → AllZero ws → leading_zeros left ws ≡ min left (length ws)
unfolding leading_zeros
leading_zeros-AllZero zero ws h = omega arith
leading_zeros-AllZero (suc left) [] h = omega arith
leading_zeros-AllZero (suc left) (w ∷ ws) (z, h) =
    ground (arith, word_is_zero-bits w, leading_zeros-AllZero left ws h)

zero_run_round :
    (fuel n : ℕ) (output : Bytes) (limit : ℕ)
    → (n == 0) ≡ false
    → write_zero_runs (suc fuel) n output limit ≡ (
        check_output_limit (length output) 2 limit >>= λ _.
        write_zero_runs fuel
          (n - min n (255 + 1))
          (output ++ (0 ∷ (min n (255 + 1) - 1) ∷ []))
          limit)
unfolding write_zero_runs
zero_run_round fuel n output limit some = rw some

write_zero_runs_step :
    (fuel n : ℕ) (output : Bytes) (limit : ℕ)
    → write_zero_runs (suc fuel) (suc n) output limit ≡ (
        check_output_limit (length output) 2 limit >>= λ _.
        write_zero_runs fuel (n - min 255 n) (output ++ (0 ∷ min 255 n ∷ [])) limit)
write_zero_runs_step fuel n output limit =
    zero_run_round fuel (suc n) output limit (ground arith)
    ∙ ap₂
        (λ (r v : ℕ). check_output_limit (length output) 2 limit >>= λ _.
          write_zero_runs fuel r (output ++ (0 ∷ v ∷ [])) limit)
        {x = suc n - min (suc n) (255 + 1)} {u = min (suc n) (255 + 1) - 1} (omega arith)
        (omega arith)

write_zero_runs-packed :
    (fuel : ℕ) (ws : List Bytes) (output : Bytes) (limit : ℕ)
    → AllZero ws
    → length ws ≤ fuel
    → length output ≤ limit
    → limit ≤ usize_max
    → Writes limit output (packed no_run ws) (write_zero_runs fuel (length ws) output limit)
write_zero_runs-packed zero [] output limit h f room small =
    rw packed-nil (unfold write_zero_runs in Writes-nil limit output room)
write_zero_runs-packed (suc fuel) [] output limit h f room small =
    rw packed-nil (unfold write_zero_runs in Writes-nil limit output room)
write_zero_runs-packed zero (w ∷ ws) output limit h f room small = absurd (omega arith)
write_zero_runs-packed (suc fuel) (w ∷ ws) output limit (z, h) f room small =
    rw (write_zero_runs_step fuel (length ws) output limit) (
      Limited-bind limit (length output + 2) _ _ _ _ _
        (check_output_limit-Limited (length output) 2 limit small) (omega (arith, ap length splits))
        λ room'. Writes-append limit output (0 ∷ n ∷ []) (packed no_run (drop n ws)) _ _ splits (
          rw (← left_over) (
            write_zero_runs-packed fuel (drop n ws) (output ++ (0 ∷ n ∷ [])) limit
              (All-drop _ n ws h) (omega (arith, left_over))
              (omega (arith, length-append output (0 ∷ n ∷ []))) small)))
  where
    n : ℕ
    n = min 255 (length ws)

    left_over : length (drop n ws) ≡ length ws - n
    left_over = length-drop n ws

    splits : packed no_run (w ∷ ws) ≡ (0 ∷ n ∷ []) ++ packed no_run (drop n ws)
    splits =
        packed-start_zeros w ws z
        ∙ packed-zeros 255 0 ws refl
        ∙ ap₂ (λ (c d : ℕ). (0 ∷ c ∷ []) ++ packed no_run (drop d ws))
            (omega (arith, leading_zeros-AllZero 255 ws h)) (leading_zeros-AllZero 255 ws h)

all_zero-AllZero : (ws : List Bytes) → all_zero ws ≡ true → AllZero ws
unfolding all_zero
all_zero-AllZero [] h = tt
all_zero-AllZero (w ∷ ws) h =
    (ground (arith, word_is_zero-bits w), all_zero-AllZero ws (ground arith))

is_all_zero_chunks :
    (input : Bytes) → 0 < length input → is_all_zero input ≡ all_zero (chunks_exact 8 input)
unfolding is_all_zero
is_all_zero_chunks [] h = absurd (omega arith)
is_all_zero_chunks (b ∷ bs) h = refl

is_all_zero-joined : (ws : List Bytes) → All IsWord ws → is_all_zero (joined ws) ≡ true → AllZero ws
is_all_zero-joined [] h e = tt
is_all_zero-joined (w ∷ ws) h e = all_zero-AllZero (w ∷ ws) (
    ap all_zero (sym (chunks_exact-joined (w ∷ ws) h))
    ∙ sym (is_all_zero_chunks (joined (w ∷ ws)) (omega (arith, length-joined (w ∷ ws) h)))
    ∙ e)

pub pack_aligned_into-packed :
    (ws : List Bytes) (output : Bytes) (limit : ℕ)
    → All IsWord ws
    → length output ≤ limit
    → limit ≤ usize_max
    → Writes limit output (packed no_run ws) (pack_aligned_into (joined ws) output limit)
unfolding pack_aligned_into
pack_aligned_into-packed ws output limit h room small =
    elim (Bool-cases (is_all_zero (joined ws))) [
      | inl z ↦
          rw (z, words)
            (write_zero_runs-packed (length ws) ws output limit (is_all_zero-joined ws h z)
              (omega arith) room small)
      | inr nz ↦
          rw (nz, words) (pack_loop-packed (length ws) ws output limit h (omega arith) room small)
    ]
  where
    words : length (joined ws) / 8 ≡ length ws
    words = omega (arith, length-joined ws h)
