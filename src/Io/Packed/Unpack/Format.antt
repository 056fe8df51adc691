-- ===== src/Io/Packed/Unpack/Format.antt =====
-- `unpack` undoes the packed format.
use capnp_rs_experiment.Prelude.{
  ℕ, ◌+◌, ◌-◌, ◌*◌, ◌/◌, ◌≤◌, ◌≡◌, ◌≢◌, refl, sym, ap, ap₂, ◌∙◌, List, [], ◌∷◌, ◌++◌, length, take,
  drop, replicate, Result, ok, ◌>>=◌, usize_max, ltb, leb, ◌==◌, ◌&&◌, arith, append_assoc,
  append-nil, length-append, length-replicate, replicate-append, take-append, take-append_le,
  take_all, drop-append, length-take, length-drop, take-append-drop, All, Bool-cases, inl, inr,
}
use capnp_rs_experiment.Prelude.Bytes.{Bytes}
use capnp_rs_experiment.Io.Packed.{PackedError, check_output_limit, count_ones, zero_byte_count}
use capnp_rs_experiment.Io.Packed.Tags.{
  bits, nonzero, spread-nonzero, count_ones-bits, nonzero_full, bits_zero,
}
use capnp_rs_experiment.Io.Packed.Format.{
  IsWord, Run, no_run, zeros, raws, IsRun, close, start, feed, packed, pending, joined,
}
use capnp_rs_experiment.Io.Packed.Unpack.{
  spread, unpack_zeros, unpack_raw, unpack_word, unpack_item, unpack,
}
use capnp_rs_experiment.Io.Packed.Unpack.Steps.{
  unpack_on, unpack-unpack_on, unpack_on-nil, unpack_on-cons,
}

unpack_item-zeros :
    (k : ℕ) (rest output : Bytes) (limit : ℕ)
    → length output + (k + 1) * 8 ≤ limit
    → limit ≤ usize_max
    → unpack_item 0 (k ∷ rest) output limit ≡ ok (rest, output ++ replicate ((k + 1) * 8) 0)
unfolding unpack_item unpack_zeros check_output_limit
unpack_item-zeros k rest output limit room small =
    ground (arith, length-append output (replicate 8 0), length-replicate {A = ℕ} 8 0, joined-zeros)
  where
    joined-zeros :
        (output ++ replicate 8 0) ++ replicate (k * 8) 0 ≡ output ++ replicate ((k + 1) * 8) 0
    joined-zeros =
        append_assoc output (replicate 8 0) (replicate (k * 8) 0)
        ∙ ap (◌++◌ output)
            (replicate-append 8 (k * 8) 0 ∙ ap (λ (n : ℕ). replicate n 0) (omega arith))

unpack_item-word :
    (w rest output : Bytes) (limit : ℕ)
    → length w ≡ 8
    → bits w ≢ 0
    → bits w ≢ 255
    → length output + 8 ≤ limit
    → limit ≤ usize_max
    → unpack_item (bits w) (nonzero w ++ rest) output limit ≡ ok (rest, output ++ w)
unfolding unpack_item unpack_word check_output_limit
unpack_item-word w rest output limit len some_set some_clear room small =
    ground (arith, count_ones-bits w len, length-append (nonzero w) rest, spread-nonzero w rest len)

unpack_item-raws :
    (first more rest output : Bytes) (m limit : ℕ)
    → length first ≡ 8
    → bits first ≡ 255
    → length more ≡ m * 8
    → length output + (m + 1) * 8 ≤ limit
    → limit ≤ usize_max
    → unpack_item 255 (first ++ (m ∷ (more ++ rest))) output limit
      ≡ ok (rest, (output ++ first) ++ more)
unfolding unpack_item unpack_word unpack_raw check_output_limit
unpack_item-raws first more rest output m limit len full len_more room small = ground (
  arith,
  length-append first (m ∷ (more ++ rest)),
  length-append more rest,
  length-append output first,
  take-append (m * 8) more rest len_more,
  drop-append (m * 8) more rest len_more,
  counted,
  read,
)
  where
    all : nonzero first ≡ first
    all = nonzero_full first (rw (len, full) refl)

    counted : count_ones 255 ≡ 8
    counted = ap count_ones (sym full) ∙ count_ones-bits first len ∙ ap length all ∙ len

    read : spread 8 0 255 (first ++ (m ∷ (more ++ rest))) ≡ ok (first, m ∷ (more ++ rest))
    read =
        ap₂ (λ (t : ℕ) (b : Bytes). spread 8 0 t (b ++ (m ∷ (more ++ rest)))) (sym full) (sym all)
        ∙ spread-nonzero first _ len

-- What is written when a run ends is read back as the run's words.
unpack_on-close :
    (run : Run) (rest output : Bytes) (limit : ℕ)
    → IsRun run
    → length output + length (pending run) ≤ limit
    → limit ≤ usize_max
    → unpack_on (close run ++ rest) output limit ≡ unpack_on rest (output ++ pending run) limit
unfolding close
unpack_on-close no_run rest output limit r room small =
    ap (λ (t : Bytes). unpack_on rest t limit) (sym (append-nil output))
unpack_on-close (zeros k) rest output limit r room small =
    unpack_on-cons 0 (k ∷ rest) output limit
    ∙ ap (λ (t : Result PackedError (Bytes × Bytes)). t >>= λ r. unpack_on r.0 r.1 limit)
        (unpack_item-zeros k rest output limit
          (omega (arith, length-replicate {A = ℕ} ((k + 1) * 8) 0)) small)
unpack_on-close (raws words) rest output limit (m, len, few, full) room small =
    ap (λ (t : Bytes). unpack_on t output limit) shape
    ∙ unpack_on-cons 255 _ output limit
    ∙ ap (λ (t : Result PackedError (Bytes × Bytes)). t >>= λ r. unpack_on r.0 r.1 limit)
        (unpack_item-raws (take 8 words) (drop 8 words) rest output m limit
          (omega (arith, length-take 8 words)) full (omega (arith, length-drop 8 words))
          (omega arith) small)
    ∙ ap (λ (t : Bytes). unpack_on rest t limit)
        (append_assoc output (take 8 words) (drop 8 words)
          ∙ ap (◌++◌ output) (take-append-drop 8 words))
  where
    count : length words / 8 - 1 ≡ m
    count = omega arith

    shape :
        (255 ∷ (take 8 words ++ ((length words / 8 - 1) ∷ drop 8 words))) ++ rest
        ≡ 255 ∷ (take 8 words ++ (m ∷ (drop 8 words ++ rest)))
    shape = ap (◌∷◌ 255) (
        append_assoc (take 8 words) _ rest
        ∙ ap (λ (t : ℕ). take 8 words ++ (t ∷ (drop 8 words ++ rest))) count)

-- A step of the format from `run` on the word `w`: what it writes is read back as `done`, the part of
-- the words so far that the next run does not hold back.
record Fed (run : Run) (w emitted : Bytes) (next : Run) : Type 0 where
  done : Bytes
  splits : pending run ++ w ≡ done ++ pending next
  next_ok : IsRun next
  decodes :
      (rest output : Bytes) (limit : ℕ)
      → length output + length done ≤ limit
      → limit ≤ usize_max
      → unpack_on (emitted ++ rest) output limit ≡ unpack_on rest (output ++ done) limit

-- A step that writes nothing.
Fed-held :
    (run : Run) (w : Bytes) (next : Run)
    → pending run ++ w ≡ pending next
    → IsRun next
    → Fed run w [] next
Fed-held run w next same ok_next = record {
  done = [];
  splits = same;
  next_ok = ok_next;
  decodes = λ rest output limit room small.
      ap (λ (t : Bytes). unpack_on rest t limit) (sym (append-nil output));
}

zero_word :
    (k : ℕ) (w : Bytes)
    → IsWord w
    → bits w ≡ 0
    → replicate ((k + 1) * 8) 0 ++ w ≡ replicate ((k + 1 + 1) * 8) 0
zero_word k w (len, bytes) z =
    ap (◌++◌ (replicate ((k + 1) * 8) 0)) (bits_zero w z ∙ ap (λ (n : ℕ). replicate n 0) len)
    ∙ replicate-append ((k + 1) * 8) 8 0
    ∙ ap (λ (n : ℕ). replicate n 0) (omega arith)

start-Fed : (w : Bytes) → IsWord w → Fed no_run w (start w).0 (start w).1
unfolding start
start-Fed w (len, bytes) = elim (Bool-cases (bits w == 0)) [
  | inl z ↦ rw z (
      Fed-held no_run w (zeros 0) (bits_zero w (ground arith) ∙ ap (λ (n : ℕ). replicate n 0) len)
        (omega arith))
  | inr nz ↦ elim (Bool-cases (bits w == 255)) [
    | inl f ↦
        rw (nz, f)
          (Fed-held no_run w (raws w) refl
            (0, len, omega arith, ground (arith, take_all 8 w (omega arith))))
    | inr nf ↦
        rw (nz, nf)
          (record {
            done = w;
            splits = sym (append-nil w);
            next_ok = tt;
            decodes = λ rest output limit room small.
                unpack_on-cons (bits w) (nonzero w ++ rest) output limit
                ∙ ap
                    (λ (t : Result PackedError (Bytes × Bytes)). t >>= λ r. unpack_on r.0 r.1 limit)
                    (unpack_item-word w rest output limit len (ground arith) (ground arith)
                      (omega arith) small);
          })
  ]
]

-- A run that ends before `w`.
closing-Fed :
    (run : Run) (w emitted : Bytes) (next : Run)
    → IsRun run
    → Fed no_run w emitted next
    → Fed run w (close run ++ emitted) next
closing-Fed run w emitted next r f = record {
  done = pending run ++ f.done;
  splits =
      ap (◌++◌ (pending run)) f.splits ∙ sym (append_assoc (pending run) f.done (pending next));
  next_ok = f.next_ok;
  decodes = λ rest output limit room small.
      ap (λ (t : Bytes). unpack_on t output limit) (append_assoc (close run) emitted rest)
      ∙ unpack_on-close run (emitted ++ rest) output limit r
          (omega (arith, length-append (pending run) f.done)) small
      ∙ f.decodes rest (output ++ pending run) limit
          (omega (arith, length-append (pending run) f.done, length-append output (pending run)))
          small
      ∙ ap (λ (t : Bytes). unpack_on rest t limit) (append_assoc output (pending run) f.done);
}

feed-Fed : (run : Run) (w : Bytes) → IsRun run → IsWord w → Fed run w (feed run w).0 (feed run w).1
unfolding feed
feed-Fed no_run w r h = start-Fed w h
feed-Fed (zeros k) w r h = elim (Bool-cases (bits w == 0 && ltb k 255)) [
  | inl longer ↦
      rw longer
        (Fed-held (zeros k) w (zeros (k + 1)) (zero_word k w h (ground arith)) (ground arith))
  | inr ends ↦ rw ends (closing-Fed (zeros k) w _ _ r (start-Fed w h))
]
feed-Fed (raws words) w (m, len, few, full) h =
    elim (Bool-cases (leb (zero_byte_count w) 1 && ltb (length words / 8 - 1) 255)) [
      | inl longer ↦ rw longer (
          Fed-held (raws words) w (raws (words ++ w)) refl (
            m + 1,
            omega (arith, length-append words w, h.0),
            ground arith,
            ap bits (take-append_le 8 words w (omega arith)) ∙ full,
          ))
      | inr ends ↦ rw ends (closing-Fed (raws words) w _ _ (m, len, few, full) (start-Fed w h))
    ]

unpack_on-packed :
    (ws : List Bytes) (run : Run) (output : Bytes) (limit : ℕ)
    → All IsWord ws
    → IsRun run
    → length output + length (pending run ++ joined ws) ≤ limit
    → limit ≤ usize_max
    → unpack_on (packed run ws) output limit ≡ ok (output ++ (pending run ++ joined ws))
unfolding packed joined
unpack_on-packed [] run output limit h r room small =
    ap (λ (t : Bytes). unpack_on t output limit) (sym (append-nil (close run)))
    ∙ unpack_on-close run [] output limit r (omega (arith, length-append (pending run) [])) small
    ∙ unpack_on-nil (output ++ pending run) limit
    ∙ ap (λ (t : Bytes). ok (output ++ t)) (sym (append-nil (pending run)))
unpack_on-packed (w ∷ ws) run output limit (hw, h) r room small =
    f.decodes (packed (feed run w).1 ws) output limit (omega (arith, lengths)) small
    ∙ unpack_on-packed ws (feed run w).1 (output ++ f.done) limit h f.next_ok
        (omega (arith, lengths, length-append output f.done)) small
    ∙ ap ok (append_assoc output f.done _ ∙ ap (◌++◌ output) (sym split))
  where
    f : Fed run w (feed run w).0 (feed run w).1
    f = feed-Fed run w r hw

    split : pending run ++ (w ++ joined ws) ≡ f.done ++ (pending (feed run w).1 ++ joined ws)
    split =
        sym (append_assoc (pending run) w (joined ws))
        ∙ ap (λ (t : Bytes). t ++ joined ws) f.splits
        ∙ append_assoc f.done (pending (feed run w).1) (joined ws)

    lengths :
        length (pending run ++ (w ++ joined ws))
        ≡ length f.done + length (pending (feed run w).1 ++ joined ws)
    lengths = ap length split ∙ length-append f.done _

-- The packed format of any words is unpacked as those words, if the limit, a `usize`, has room for them.
pub unpack-packed :
    (ws : List Bytes) (limit : ℕ)
    → All IsWord ws
    → length (joined ws) ≤ limit
    → limit ≤ usize_max
    → unpack (packed no_run ws) limit ≡ ok (joined ws)
unpack-packed ws limit h room small =
    unpack-unpack_on _ limit ∙ unpack_on-packed ws no_run [] limit h tt (omega arith) small
