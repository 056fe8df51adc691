-- ===== src/Io/Packed/RoundTrip.antt =====
-- `pack` on any bytes, and `unpack` on what it returns.
use capnp_rs_experiment.Prelude.{
  ℕ, zero, suc, ◌+◌, ◌*◌, ◌/◌, ◌%◌, ◌≤◌, ◌≡◌, ◌≢◌, refl, sym, ap, ◌∙◌, List, [], ◌∷◌, ◌++◌, length,
  take, drop, take_all, take-append-drop, length-take, length-drop, All, All-take, All-drop, chunks,
  Result, ok, err, panic, ◌>>=◌, usize_max, leb, leb→le, ◌==◌, Bool-cases, inl, inr, arith, ◌⊎◌,
  ◌↔◌,
}
use capnp_rs_experiment.Prelude.Bytes.{Bytes, IsByte, AreBytes}
use capnp_rs_experiment.Io.Packed.{PackedError, unaligned_input}
use capnp_rs_experiment.Io.Packed.Format.{IsWord, no_run, packed, joined}
use capnp_rs_experiment.Io.Packed.Unpack.{unpack}
use capnp_rs_experiment.Io.Packed.Unpack.Format.{unpack-packed}
use capnp_rs_experiment.Io.Packed.Pack.{pack_aligned_into, pack}
use capnp_rs_experiment.Io.Packed.Pack.Format.{
  IsError, ok-IsError, Limited, Limited-cong, Limited-cases,
}
use capnp_rs_experiment.Io.Packed.Pack.Aligned.{pack_aligned_into-packed}

joined-chunks : (k : ℕ) (input : Bytes) → length input ≡ k * 8 → joined (chunks k 8 input) ≡ input
unfolding joined
joined-chunks zero [] h = refl
joined-chunks zero (b ∷ bs) h = absurd (omega arith)
joined-chunks (suc k) input h =
    ap (◌++◌ (take 8 input)) (joined-chunks k (drop 8 input) (omega (arith, length-drop 8 input)))
    ∙ take-append-drop 8 input

chunks-IsWord :
    (k : ℕ) (input : Bytes) → AreBytes input → length input ≡ k * 8 → All IsWord (chunks k 8 input)
chunks-IsWord zero input b h = tt
chunks-IsWord (suc k) input b h = (
  (omega (arith, length-take 8 input), All-take IsByte 8 input b),
  chunks-IsWord k (drop 8 input) (All-drop IsByte 8 input b) (omega (arith, length-drop 8 input)),
)

-- The words of the input.
abbrev pub input_words : Bytes → List Bytes
input_words input = chunks (length input / 8) 8 input

joined-input_words : (input : Bytes) → length input % 8 ≡ 0 → joined (input_words input) ≡ input
joined-input_words input whole = joined-chunks (length input / 8) input (omega arith)

pack_whole :
    (input : Bytes) (limit : ℕ)
    → length input % 8 ≡ 0
    → pack input limit ≡ (pack_aligned_into input [] limit >>= λ output. ok output)
unfolding pack
pack_whole input limit h = ground (arith, take_all (length input / 8 * 8) input (omega arith))

pack_rest :
    (input : Bytes) (limit : ℕ)
    → length input % 8 ≢ 0
    → pack input limit ≡ (
        pack_aligned_into (take (length input / 8 * 8) input) [] limit >>= λ output.
        err (unaligned_input (length input % 8)))
unfolding pack
pack_rest input limit h = ground arith

bind-ok : {A : Type 0} (m : Result PackedError A) → (m >>= λ a. ok a) ≡ m
bind-ok (ok a) = refl
bind-ok (err e) = refl
bind-ok panic = refl

aligned_packed :
    (ws : List Bytes) (limit : ℕ)
    → All IsWord ws
    → limit ≤ usize_max
    → Limited limit
        (length (packed no_run ws))
        (packed no_run ws)
        (pack_aligned_into (joined ws) [] limit)
aligned_packed ws limit h small =
    Limited-cong limit {needed = length {A = ℕ} [] + length (packed no_run ws)} (omega arith) refl
      refl (pack_aligned_into-packed ws [] limit h (omega arith) small)

-- The whole words at the front of any input.
front_packed :
    (input : Bytes) (limit : ℕ)
    → AreBytes input
    → limit ≤ usize_max
    → Limited limit
        (length (packed no_run (chunks (length input / 8) 8 (take (length input / 8 * 8) input))))
        (packed no_run (chunks (length input / 8) 8 (take (length input / 8 * 8) input)))
        (pack_aligned_into (take (length input / 8 * 8) input) [] limit)
front_packed input limit b small =
    Limited-cong limit refl refl
      (ap (λ (i : Bytes). pack_aligned_into i [] limit)
        (sym (joined-chunks (length input / 8) front len)))
      (aligned_packed (chunks (length input / 8) 8 front) limit
        (chunks-IsWord (length input / 8) front (All-take IsByte _ input b) len) small)
  where
    front : Bytes
    front = take (length input / 8 * 8) input

    len : length front ≡ length input / 8 * 8
    len = omega (arith, length-take (length input / 8 * 8) input)

pub pack-packed :
    (input : Bytes) (limit : ℕ)
    → AreBytes input
    → length input % 8 ≡ 0
    → limit ≤ usize_max
    → Limited limit
        (length (packed no_run (input_words input)))
        (packed no_run (input_words input))
        (pack input limit)
pack-packed input limit b whole small =
    Limited-cong limit refl refl
      (pack_whole input limit whole
        ∙ bind-ok (pack_aligned_into input [] limit)
        ∙ ap (λ (i : Bytes). pack_aligned_into i [] limit) (sym (joined-input_words input whole)))
      (aligned_packed (input_words input) limit
        (chunks-IsWord (length input / 8) input b (omega arith)) small)

-- On bytes that are whole words, with a `usize` limit, `pack` succeeds exactly when the packed format of
-- the words is within the limit, and what it returns is that format.
pub pack_iff :
    (input output : Bytes) (limit : ℕ)
    → AreBytes input
    → length input % 8 ≡ 0
    → limit ≤ usize_max
    → (pack input limit ≡ ok output)
      ↔ ((output ≡ packed no_run (input_words input)) × (length output ≤ limit))
pack_iff input output limit b whole small = (forth, back)
  where
    l :
        Limited limit
          (length (packed no_run (input_words input)))
          (packed no_run (input_words input))
          (pack input limit)
    l = pack-packed input limit b whole small

    written :
        {r : Result PackedError Bytes}
        → r ≡ ok (packed no_run (input_words input))
        → r ≡ ok output
        → output ≡ packed no_run (input_words input)
    written e e' = cc

    forth :
        pack input limit ≡ ok output
        → (output ≡ packed no_run (input_words input)) × (length output ≤ limit)
    forth packs = elim (Bool-cases (leb (length (packed no_run (input_words input))) limit)) [
      | inl fit ↦
          let same = written (l.fits (leb→le _ _ fit)) packs in
          (same, omega (arith, ap length same, leb→le _ _ fit))
      | inr long ↦ absurd (ok-IsError packs (l.exceeds (ground arith)))
    ]

    back :
        (output ≡ packed no_run (input_words input)) × (length output ≤ limit)
        → pack input limit ≡ ok output
    back (same, room) =
        (pack-packed input limit b whole small).fits (omega (arith, ap length same))
        ∙ ap ok (sym same)

-- Bytes that are not whole words are an error, and not a panic, whatever the `usize` limit.
pub pack_unaligned :
    (input : Bytes) (limit : ℕ)
    → AreBytes input
    → length input % 8 ≢ 0
    → limit ≤ usize_max
    → IsError (pack input limit)
pack_unaligned input limit b part small =
    rw (pack_rest input limit part) (failed _ (Limited-cases (front_packed input limit b small)))
  where
    failed :
        {value : Bytes} (r : Result PackedError Bytes)
        → (r ≡ ok value) ⊎ IsError r
        → IsError {A = Bytes} (r >>= λ output. err (unaligned_input (length input % 8)))
    failed (ok x) n = tt
    failed (err e) n = tt
    failed panic (inl e) = cc
    failed panic (inr n) = absurd n

-- From whatever `pack` returns for some bytes, `unpack` gives the bytes back, when its own limit has
-- room for them; both limits are a `usize`.
pub unpack-pack :
    (input output : Bytes) (limit unpack_limit : ℕ)
    → AreBytes input
    → limit ≤ usize_max
    → pack input limit ≡ ok output
    → length input ≤ unpack_limit
    → unpack_limit ≤ usize_max
    → unpack output unpack_limit ≡ ok input
unpack-pack input output limit unpack_limit b small packs room small' =
    elim (Bool-cases (length input % 8 == 0)) [
      | inl whole ↦ elim (Limited-cases (pack-packed input limit b (ground arith) small)) [
        | inl packs' ↦ rw (written packs') (read (ground arith))
        | inr fails ↦ absurd (ok-IsError packs fails)
      ]
      | inr part ↦ absurd (ok-IsError packs (pack_unaligned input limit b (ground arith) small))
    ]
  where
    written :
        pack input limit ≡ ok (packed no_run (input_words input))
        → output ≡ packed no_run (input_words input)
    written e = cc

    read : length input % 8 ≡ 0 → unpack (packed no_run (input_words input)) unpack_limit ≡ ok input
    read whole =
        unpack-packed (input_words input) unpack_limit
          (chunks-IsWord (length input / 8) input b (omega arith))
          (omega (arith, ap length (joined-input_words input whole))) small'
        ∙ ap ok (joined-input_words input whole)
