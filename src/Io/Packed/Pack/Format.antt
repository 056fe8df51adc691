-- ===== src/Io/Packed/Pack/Format.antt =====
-- `pack` writes the packed format of its words, exactly when the limit has room for it.
use capnp_rs_experiment.Prelude.{
  ℕ, ◌+◌, ◌*◌, ◌≤◌, ◌<◌, ◌≡◌, refl, ap, ap₂, ◌∙◌, true, false, List, [], ◌∷◌, ◌++◌, map, length,
  take, drop, get_or, All, length-append, chunks_exact, Result, ok, err, panic, ◌>>=◌, usize_max,
  leb, ◌==◌, Bool-cases, inl, inr, arith, ◌⊎◌, leb→le,
}
use capnp_rs_experiment.Prelude.Bytes.{Bytes}
use capnp_rs_experiment.Io.Packed.{
  PackedError, check_output_limit, check_raw_output_limit, count_ones,
}
use capnp_rs_experiment.Io.Packed.Tags.{bits, nonzero, count_ones-bits}
use capnp_rs_experiment.Io.Packed.Format.{IsWord, no_run, start, feed, packed, joined}
use capnp_rs_experiment.Io.Packed.Pack.{leading_zeros, leading_raws, lanes_of, pack_word}
use capnp_rs_experiment.Io.Packed.Pack.Lanes.{lanes_of-nonzero}
use capnp_rs_experiment.Io.Packed.Pack.Runs.{
  chunks_exact-joined, drop-joined, take-joined, packed-zeros, packed-raws, leading_raws-le,
  length-joined-take, close-raws, packed-start_zeros, packed-start_raws,
}

abbrev pub IsError : {A : Type 0} → Result PackedError A → Type 0
IsError (ok a) = ⊥
IsError (err e) = Unit
IsError panic = ⊥

pub ok-IsError : {A : Type 0} {r : Result PackedError A} {a : A} → r ≡ ok a → ¬ (IsError r)
ok-IsError {r = ok x} e fails = fails
ok-IsError {r = err x} e fails = cc
ok-IsError {r = panic} e fails = fails

-- The result is `bytes` if the limit has room for them, and an error if not.
pub record Limited {A : Type 0} (limit needed : ℕ) (value : A) (r : Result PackedError A)
    : Type 0 where
  pub fits : needed ≤ limit → r ≡ ok value
  pub exceeds : limit < needed → IsError r

pub Limited-cases :
    {A : Type 0} {limit needed : ℕ} {value : A} {r : Result PackedError A}
    → Limited limit needed value r
    → (r ≡ ok value) ⊎ IsError r
Limited-cases {limit = limit} {needed = needed} l = elim (Bool-cases (leb needed limit)) [
  | inl fit ↦ inl (l.fits (leb→le _ _ fit))
  | inr long ↦ inr (l.exceeds (ground arith))
]

pub check_output_limit-Limited :
    (current additional limit : ℕ)
    → limit ≤ usize_max
    → Limited limit (current + additional) tt (check_output_limit current additional limit)
unfolding check_output_limit
check_output_limit-Limited current additional limit small = record {
  fits = λ h. ground arith;
  exceeds = λ h. ground arith;
}

pub check_raw_output_limit-Limited :
    (current encoded_len limit : ℕ)
    → limit ≤ usize_max
    → 10 ≤ encoded_len
    → Limited limit (current + encoded_len) tt (check_raw_output_limit current encoded_len limit)
unfolding check_raw_output_limit
check_raw_output_limit-Limited current encoded_len limit small long = record {
  fits = λ h. ground arith;
  exceeds = λ h. ground arith;
}

-- A checked step followed by its value.
pub Limited-then :
    {A : Type 0} (limit needed : ℕ) (value : A) (m : Result PackedError (Unit {0}))
    → Limited limit needed tt m
    → Limited limit needed value (m >>= λ _. ok value)
Limited-then limit needed value (ok u) l = record { fits = λ h. refl; exceeds = l.exceeds }
Limited-then limit needed value (err e) l = record { fits = λ h. cc (l.fits h); exceeds = λ h. tt }
Limited-then limit needed value panic l = record { fits = λ h. cc (l.fits h); exceeds = l.exceeds }

-- A round of the loop writes `emitted` and passes `taken` words behind the first.
pub record Round (w : Bytes) (ws : List Bytes) (output : Bytes) (limit : ℕ) : Type 0 where
  pub emitted : Bytes
  pub taken : ℕ
  pub splits : packed no_run (w ∷ ws) ≡ emitted ++ packed no_run (drop taken ws)
  pub item :
      Limited limit
        (length output + length emitted)
        (joined (drop taken ws), output ++ emitted)
        (pack_word (bits w) w (joined ws) output limit)

-- The value and the room that a round needs, in the form that the code has them.
pub Limited-cong :
    {A : Type 0} (limit : ℕ) {needed needed' : ℕ} {value value' : A} {r r' : Result PackedError A}
    → needed ≡ needed'
    → value ≡ value'
    → r' ≡ r
    → Limited limit needed value r
    → Limited limit needed' value' r'
Limited-cong limit n v e l = record {
  fits = λ h. e ∙ l.fits (omega arith) ∙ ap ok v;
  exceeds = λ h. rw e (l.exceeds (omega arith));
}

module _ (tag : ℕ) (word following output : Bytes) (limit : ℕ) where
  pack_word_zeros :
      (n : ℕ)
      → (tag == 0) ≡ true
      → leading_zeros 255 (chunks_exact 8 following) ≡ n
      → pack_word tag word following output limit ≡ (
          check_output_limit (length output) 2 limit >>= λ _.
          ok (drop (n * 8) following, output ++ (0 ∷ n ∷ [])))
  unfolding pack_word
  pack_word_zeros n z e = rw (z, ← e)

  pack_word_raws :
      (n : ℕ)
      → (tag == 0) ≡ false
      → (tag == 255) ≡ true
      → leading_raws 255 following ≡ n
      → pack_word tag word following output limit ≡ (
          check_raw_output_limit (length output) (2 + 8 + n * 8) limit >>= λ _.
          ok (drop (n * 8) following, output ++ (255 ∷ (word ++ (n ∷ take (n * 8) following)))))
  unfolding pack_word
  pack_word_raws n nz f e = rw (nz, f, ← e)

  pack_word_ordinary :
      (payload : Bytes)
      → (tag == 0) ≡ false
      → (tag == 255) ≡ false
      → map (λ lane. get_or word lane 0) (lanes_of 8 tag) ≡ payload
      → pack_word tag word following output limit ≡ (
          check_output_limit (length output) (1 + count_ones tag) limit >>= λ _.
          ok (following, output ++ (tag ∷ payload)))
  unfolding pack_word
  pack_word_ordinary payload nz nf e = rw (nz, nf, ← e)

module _ (w : Bytes) (ws : List Bytes) (output : Bytes) (limit : ℕ) (hw : IsWord w)
    (h : All IsWord ws) (small : limit ≤ usize_max) where
  zeros-Round : (bits w == 0) ≡ true → Round w ws output limit
  zeros-Round z = record {
    emitted = 0 ∷ leading_zeros 255 ws ∷ [];
    taken = leading_zeros 255 ws;
    splits =
        packed-start_zeros w ws z
        ∙ packed-zeros 255 0 ws refl
        ∙ ap (λ (n : ℕ). (0 ∷ n ∷ []) ++ packed no_run (drop (leading_zeros 255 ws) ws))
            (omega arith);
    item =
        Limited-cong limit refl
          (ap (λ (t : Bytes). (t, output ++ (0 ∷ leading_zeros 255 ws ∷ [])))
            (drop-joined (leading_zeros 255 ws) ws h))
          (pack_word_zeros (bits w) w (joined ws) output limit (leading_zeros 255 ws) z
            (ap (leading_zeros 255) (chunks_exact-joined ws h)))
          (Limited-then limit _ _ _ (check_output_limit-Limited (length output) 2 limit small));
  }

  abbrev raw_count : ℕ
  raw_count = leading_raws 255 (joined ws)

  abbrev raw_bytes : Bytes
  raw_bytes = 255 ∷ (w ++ (raw_count ∷ joined (take raw_count ws)))

  raw_len : length (joined (take raw_count ws)) ≡ raw_count * 8
  raw_len = length-joined-take raw_count ws h (leading_raws-le 255 ws h)

  raw_value :
      ◌≡◌ {A = Bytes × Bytes}
        (
          drop (raw_count * 8) (joined ws),
          output ++ (255 ∷ (w ++ (raw_count ∷ take (raw_count * 8) (joined ws)))),
        )
        (joined (drop raw_count ws), output ++ raw_bytes)
  raw_value =
      ap₂ {B = Bytes} {C = Bytes × Bytes} (λ d t. (d, output ++ (255 ∷ (w ++ (raw_count ∷ t)))))
        (drop-joined raw_count ws h) (take-joined raw_count ws h)

  raws-Round : (bits w == 0) ≡ false → (bits w == 255) ≡ true → Round w ws output limit
  raws-Round nz f = record {
    emitted = raw_bytes;
    taken = raw_count;
    splits =
        packed-start_raws w ws nz f
        ∙ packed-raws 255 0 w ws h (omega (arith, hw.0)) refl
        ∙ ap (λ (t : Bytes). t ++ packed no_run (drop raw_count ws))
            (close-raws w (joined (take raw_count ws)) raw_count hw.0 raw_len);
    item =
        Limited-cong limit
          (omega (arith, hw.0, raw_len, length-append w (raw_count ∷ joined (take raw_count ws))))
          raw_value (pack_word_raws (bits w) w (joined ws) output limit raw_count nz f refl)
          (Limited-then limit _ _ _ (
            check_raw_output_limit-Limited (length output) (2 + 8 + raw_count * 8) limit small
              (omega arith)));
  }

  ordinary-Round : (bits w == 0) ≡ false → (bits w == 255) ≡ false → Round w ws output limit
  ordinary-Round nz nf = record {
    emitted = bits w ∷ nonzero w;
    taken = 0;
    splits = unfold packed feed start in rw (nz, nf);
    item =
        Limited-cong limit (omega (arith, count_ones-bits w hw.0)) refl
          (pack_word_ordinary (bits w) w (joined ws) output limit (nonzero w) nz nf
            (lanes_of-nonzero w hw.0))
          (Limited-then limit _ _ _
            (check_output_limit-Limited (length output) (1 + count_ones (bits w)) limit small));
  }

  pub word-Round : Round w ws output limit
  word-Round = elim (Bool-cases (bits w == 0)) [
    | inl z ↦ zeros-Round z
    | inr nz ↦ elim (Bool-cases (bits w == 255)) [
      | inl f ↦ raws-Round nz f
      | inr nf ↦ ordinary-Round nz nf
    ]
  ]
