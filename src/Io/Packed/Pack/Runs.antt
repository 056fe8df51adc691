-- ===== src/Io/Packed/Pack/Runs.antt =====
-- Where a run ends: the look-ahead of `pack_aligned_into` against the format, which goes word by word.
use capnp_rs_experiment.Prelude.{
  ℕ, zero, suc, ◌+◌, ◌-◌, ◌*◌, ◌/◌, ◌≤◌, ◌<◌, ◌≡◌, refl, sym, ap, ap₂, ◌∙◌, Bool, true, false, List,
  [], ◌∷◌, ◌++◌, length, take, drop, chunks, chunks_exact, All, All-take, length-take, append-nil,
  append_assoc, length-append, take-append, drop-append, drop-add, take-add, leb, ◌==◌,
  if◌then◌else◌, Bool-cases, inl, inr, arith,
}
use capnp_rs_experiment.Prelude.Bytes.{Bytes}
use capnp_rs_experiment.Io.Packed.{zero_byte_count}
use capnp_rs_experiment.Io.Packed.Tags.{bits}
use capnp_rs_experiment.Io.Packed.Format.{
  IsWord, Run, no_run, zeros, raws, close, start, feed, packed, joined,
}
use capnp_rs_experiment.Io.Packed.Pack.{leading_zeros, leading_raws}
use capnp_rs_experiment.Io.Packed.Pack.Swar.{word_is_zero-bits}

pub length-joined : (ws : List Bytes) → All IsWord ws → length (joined ws) ≡ length ws * 8
unfolding joined
length-joined [] h = omega arith
length-joined (w ∷ ws) ((len, b), h) =
    omega (arith, length-append w (joined ws), length-joined ws h)

chunks-joined : (ws : List Bytes) → All IsWord ws → chunks (length ws) 8 (joined ws) ≡ ws
unfolding joined
chunks-joined [] h = refl
chunks-joined (w ∷ ws) ((len, b), h) =
    ap₂ ◌∷◌ (take-append 8 w (joined ws) len)
      (ap (chunks (length ws) 8) (drop-append 8 w (joined ws) len) ∙ chunks-joined ws h)

pub chunks_exact-joined : (ws : List Bytes) → All IsWord ws → chunks_exact 8 (joined ws) ≡ ws
chunks_exact-joined ws h =
    ap (λ (k : ℕ). chunks k 8 (joined ws)) (omega (arith, length-joined ws h)) ∙ chunks-joined ws h

pub drop-joined :
    (n : ℕ) (ws : List Bytes) → All IsWord ws → drop (n * 8) (joined ws) ≡ joined (drop n ws)
unfolding joined
drop-joined zero ws h = refl
drop-joined (suc n) [] h =
    ap (λ (k : ℕ). drop k []) {x = suc n * 8} {y = suc (n * 8 + 7)} (omega arith)
drop-joined (suc n) (w ∷ ws) ((len, b), h) =
    ap (λ (k : ℕ). drop k (w ++ joined ws)) {y = 8 + n * 8} (omega arith)
    ∙ drop-add 8 (n * 8) (w ++ joined ws)
    ∙ ap (drop (n * 8)) (drop-append 8 w (joined ws) len)
    ∙ drop-joined n ws h

pub take-joined :
    (n : ℕ) (ws : List Bytes) → All IsWord ws → take (n * 8) (joined ws) ≡ joined (take n ws)
unfolding joined
take-joined zero ws h = refl
take-joined (suc n) [] h =
    ap (λ (k : ℕ). take k []) {x = suc n * 8} {y = suc (n * 8 + 7)} (omega arith)
take-joined (suc n) (w ∷ ws) ((len, b), h) =
    ap (λ (k : ℕ). take k (w ++ joined ws)) {y = 8 + n * 8} (omega arith)
    ∙ take-add 8 (n * 8) (w ++ joined ws)
    ∙ ap₂ ◌++◌ (take-append 8 w (joined ws) len)
        (ap (take (n * 8)) (drop-append 8 w (joined ws) len) ∙ take-joined n ws h)

-- A run that the next word ends.
ends :
    (run : Run) (w : Bytes) (ws : List Bytes)
    → feed run w ≡ (close run ++ (start w).0, (start w).1)
    → packed run (w ∷ ws) ≡ close run ++ packed no_run (w ∷ ws)
unfolding packed feed
ends run w ws e =
    ap (λ (t : Bytes × Run). t.0 ++ packed t.1 ws) e
    ∙ append_assoc (close run) (start w).0 (packed (start w).1 ws)

longer_zeros :
    (k : ℕ) (w : Bytes) (ws : List Bytes)
    → (bits w == 0) ≡ true
    → k < 255
    → packed (zeros k) (w ∷ ws) ≡ packed (zeros (k + 1)) ws
unfolding packed feed
longer_zeros k w ws z less = ground arith

leading_zeros_cons :
    (left : ℕ) (w : Bytes) (ws : List Bytes)
    → leading_zeros (suc left) (w ∷ ws) ≡ (if bits w == 0 then suc (leading_zeros left ws) else 0)
unfolding leading_zeros
leading_zeros_cons left w ws =
    ap (λ (b : Bool). if b then suc (leading_zeros left ws) else 0) (word_is_zero-bits w)

pub packed-zeros :
    (left k : ℕ) (ws : List Bytes)
    → k + left ≡ 255
    → packed (zeros k) ws
      ≡ (0 ∷ (k + leading_zeros left ws) ∷ []) ++ packed no_run (drop (leading_zeros left ws) ws)
unfolding close
packed-zeros zero k [] h = unfold packed leading_zeros in ap (λ (t : ℕ). 0 ∷ t ∷ []) (omega arith)
packed-zeros (suc left) k [] h =
    unfold packed leading_zeros in ap (λ (t : ℕ). 0 ∷ t ∷ []) (omega arith)
packed-zeros zero k (w ∷ ws) h =
    ends (zeros k) w ws (unfold feed in ground arith)
    ∙ (unfold leading_zeros in ap (λ (t : ℕ). (0 ∷ t ∷ []) ++ packed no_run (w ∷ ws)) (omega arith))
packed-zeros (suc left) k (w ∷ ws) h = elim (Bool-cases (bits w == 0)) [
  | inl z ↦
      longer_zeros k w ws z (omega arith)
      ∙ packed-zeros left (k + 1) ws (omega arith)
      ∙ ap₂ (λ (n d : ℕ). (0 ∷ n ∷ []) ++ packed no_run (drop d (w ∷ ws)))
          {u = suc (leading_zeros left ws)} (omega (arith, leading_zeros_cons left w ws, z_suc z))
          (sym (leading_zeros_cons left w ws ∙ z_suc z))
  | inr nz ↦
      ends (zeros k) w ws (unfold feed in rw nz)
      ∙ ap₂ (λ (n d : ℕ). (0 ∷ n ∷ []) ++ packed no_run (drop d (w ∷ ws))) {u = 0}
          (omega (arith, leading_zeros_cons left w ws, z_none nz))
          (sym (leading_zeros_cons left w ws ∙ z_none nz))
]
  where
    z_suc :
        (bits w == 0) ≡ true
        → (if bits w == 0 then suc (leading_zeros left ws) else 0) ≡ suc (leading_zeros left ws)
    z_suc z = rw z

    z_none : (bits w == 0) ≡ false → (if bits w == 0 then suc (leading_zeros left ws) else 0) ≡ 0
    z_none z = rw z

longer_raws :
    (words : Bytes) (w : Bytes) (ws : List Bytes)
    → leb (zero_byte_count w) 1 ≡ true
    → length words / 8 - 1 < 255
    → packed (raws words) (w ∷ ws) ≡ packed (raws (words ++ w)) ws
unfolding packed feed
longer_raws words w ws few more = ground arith

leading_raws_cons :
    (left : ℕ) (w rest : Bytes)
    → IsWord w
    → leading_raws (suc left) (w ++ rest)
      ≡ (if leb (zero_byte_count w) 1 then suc (leading_raws left rest) else 0)
unfolding leading_raws
leading_raws_cons left [] rest (len, h) = absurd (omega arith)
leading_raws_cons left (b ∷ w) rest (len, h) =
    ap₂ (λ (t d : Bytes). if leb (zero_byte_count t) 1 then suc (leading_raws left d) else 0)
      (take-append 8 (b ∷ w) rest len) (drop-append 8 (b ∷ w) rest len)

abbrev raw_run : Bytes → List Bytes → ℕ → Bytes
raw_run words ws n = close (raws (words ++ joined (take n ws))) ++ packed no_run (drop n ws)

raw_run_none :
    (words : Bytes) (ws : List Bytes) → raw_run words ws 0 ≡ close (raws words) ++ packed no_run ws
unfolding joined
raw_run_none words ws = ap (λ (t : Bytes). close (raws t) ++ packed no_run ws) (append-nil words)

raw_run_cons :
    (words w : Bytes) (ws : List Bytes) (n : ℕ)
    → raw_run (words ++ w) ws n ≡ raw_run words (w ∷ ws) (suc n)
unfolding joined
raw_run_cons words w ws n =
    ap (λ (t : Bytes). close (raws t) ++ packed no_run (drop n ws))
      (append_assoc words w (joined (take n ws)))

raw_ends_full :
    (words w : Bytes) (ws : List Bytes)
    → length words ≡ 256 * 8
    → packed (raws words) (w ∷ ws) ≡ close (raws words) ++ packed no_run (w ∷ ws)
raw_ends_full words w ws len = ends (raws words) w ws (unfold feed in ground arith)

raw_ends_other :
    (words w : Bytes) (ws : List Bytes)
    → leb (zero_byte_count w) 1 ≡ false
    → packed (raws words) (w ∷ ws) ≡ close (raws words) ++ packed no_run (w ∷ ws)
raw_ends_other words w ws other = ends (raws words) w ws (unfold feed in ground arith)

raw_ends_nil : (words : Bytes) → packed (raws words) [] ≡ close (raws words) ++ packed no_run []
unfolding packed close
raw_ends_nil words = sym (append-nil (close (raws words)))

pub packed-raws :
    (left m : ℕ) (words : Bytes) (ws : List Bytes)
    → All IsWord ws
    → length words ≡ (m + 1) * 8
    → m + left ≡ 255
    → packed (raws words) ws ≡ raw_run words ws (leading_raws left (joined ws))
packed-raws zero m words [] h len k =
    raw_ends_nil words ∙ sym (raw_run_none words []) ∙ (unfold leading_raws in refl)
packed-raws (suc left) m words [] h len k =
    raw_ends_nil words ∙ sym (raw_run_none words []) ∙ (unfold leading_raws joined in refl)
packed-raws zero m words (w ∷ ws) h len k =
    raw_ends_full words w ws (omega arith)
    ∙ sym (raw_run_none words (w ∷ ws))
    ∙ (unfold leading_raws in refl)
packed-raws (suc left) m words (w ∷ ws) (hw, h) len k =
    elim (Bool-cases (leb (zero_byte_count w) 1)) [
      | inl few ↦
          longer_raws words w ws few (omega arith)
          ∙ packed-raws left (m + 1) (words ++ w) ws h (omega (arith, length-append words w, hw.0))
              (omega arith)
          ∙ raw_run_cons words w ws (leading_raws left (joined ws))
          ∙ ap (raw_run words (w ∷ ws)) (sym (count ∙ grows few))
      | inr other ↦
          raw_ends_other words w ws other
          ∙ sym (raw_run_none words (w ∷ ws))
          ∙ ap (raw_run words (w ∷ ws)) (sym (count ∙ stops other))
    ]
  where
    count :
        leading_raws (suc left) (joined (w ∷ ws))
        ≡ (if leb (zero_byte_count w) 1 then suc (leading_raws left (joined ws)) else 0)
    count = unfold joined in leading_raws_cons left w (joined ws) hw

    grows :
        leb (zero_byte_count w) 1 ≡ true
        → (if leb (zero_byte_count w) 1 then suc (leading_raws left (joined ws)) else 0)
          ≡ suc (leading_raws left (joined ws))
    grows e = rw e

    stops :
        leb (zero_byte_count w) 1 ≡ false
        → (if leb (zero_byte_count w) 1 then suc (leading_raws left (joined ws)) else 0) ≡ 0
    stops e = rw e

-- The look-ahead counts words that are there.
pub leading_raws-le :
    (left : ℕ) (ws : List Bytes) → All IsWord ws → leading_raws left (joined ws) ≤ length ws
leading_raws-le zero ws h = unfold leading_raws in omega arith
leading_raws-le (suc left) [] h = unfold leading_raws joined in omega arith
leading_raws-le (suc left) (w ∷ ws) (hw, h) = rw counted (ground (arith, leading_raws-le left ws h))
  where
    counted :
        leading_raws (suc left) (joined (w ∷ ws))
        ≡ (if leb (zero_byte_count w) 1 then suc (leading_raws left (joined ws)) else 0)
    counted = unfold joined in leading_raws_cons left w (joined ws) hw

pub length-joined-take :
    (n : ℕ) (ws : List Bytes) → All IsWord ws → n ≤ length ws → length (joined (take n ws)) ≡ n * 8
length-joined-take n ws h le =
    length-joined (take n ws) (All-take IsWord n ws h) ∙ omega (arith, length-take n ws)

pub close-raws :
    (w more : Bytes) (n : ℕ)
    → length w ≡ 8
    → length more ≡ n * 8
    → close (raws (w ++ more)) ≡ 255 ∷ (w ++ (n ∷ more))
unfolding close
close-raws w more n len len_more =
    ap (λ (c : ℕ). 255 ∷ (take 8 (w ++ more) ++ (c ∷ drop 8 (w ++ more)))) {y = n}
      (omega (arith, length-append w more))
    ∙ ap₂ (λ (f d : Bytes). 255 ∷ (f ++ (n ∷ d))) (take-append 8 w more len)
        (drop-append 8 w more len)

-- The first word of the input, outside any run.
pub packed-start_zeros :
    (w : Bytes) (ws : List Bytes)
    → (bits w == 0) ≡ true
    → packed no_run (w ∷ ws) ≡ packed (zeros 0) ws
unfolding packed feed start
packed-start_zeros w ws z = rw z

pub packed-start_raws :
    (w : Bytes) (ws : List Bytes)
    → (bits w == 0) ≡ false
    → (bits w == 255) ≡ true
    → packed no_run (w ∷ ws) ≡ packed (raws w) ws
unfolding packed feed start
packed-start_raws w ws nz f = rw (nz, f)
