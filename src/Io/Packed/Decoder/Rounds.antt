-- ===== src/Io/Packed/Decoder/Rounds.antt =====
-- Every round of the decoder's loop keeps what the state makes of the input, and the loop ends.
use capnp_rs_experiment.Prelude.{
  ℕ, zero, suc, ◌+◌, ◌-◌, ◌*◌, ◌≤◌, ◌<◌, ◌≡◌, refl, sym, ap, ◌∙◌, Bool, true, false, not, [], ◌∷◌,
  ◌++◌, length, length-drop, drop, replicate, Result, ok, err, panic, ◌>>=◌, Settled, Settled-ok,
  Settled-err, Settled-bind, Settled-if, ◌/◌, ◌^◌, ltb, leb, leb→le, ◌==◌, if◌then◌else◌, arith,
  Bool-cases, inl, inr, ◌⊎◌, drop_all,
}
use capnp_rs_experiment.Prelude.Bytes.{Bytes, AreBytes}
use capnp_rs_experiment.Io.Packed.{
  PackedError, check_output_limit, count_ones, ones, truncated_word,
}
use capnp_rs_experiment.Io.Packed.Unpack.{spread, unpack_raw, unpack_word, unpack_item}
use capnp_rs_experiment.Io.Packed.Unpack.Steps.{unpack_on, unpack_on-cons}
use capnp_rs_experiment.Io.Packed.Decoder.{
  DecodeState, at_tag, in_word, at_zero_count, at_raw_count, in_raw, Progress, fill_lanes, step_tag,
  step_word, step_zero_count, step_raw_count, step_raw, decode_complete_item, decode_round,
}
use capnp_rs_experiment.Io.Packed.Decoder.Meaning.{
  items, word_rest, meaning, after, meaning_of, zero_count-meaning, raw_count-meaning, raw_ends,
  raw_goes_on,
}
use capnp_rs_experiment.Io.Packed.Decoder.Lanes.{
  word_rest_on, word_rest-whole, Partial, Filled, fill_lanes-Filled, word_end,
}
use capnp_rs_experiment.Io.Packed.Decoder.Complete.{Completes, decode_complete_item-Completes}
use capnp_rs_experiment.Io.Packed.Decoder.States.{
  IsState, cost, Advances, check_output_limit-Settled, ones_pos, AreBytes-drop, fill_lanes-AreBytes,
}

first_word :
    (tag : ℕ) (input output : Bytes) (limit : ℕ)
    → items (unpack_word tag input output limit) limit
      ≡ word_rest tag 0 (count_ones tag) (replicate 8 0) input output limit
unfolding unpack_word
first_word tag input output limit =
    go (ltb (length input) (count_ones tag)) (spread 8 0 tag input)
    ∙ sym (word_rest_on 8 tag 0 (count_ones tag) (replicate 8 0) input output limit refl)
  where
    go :
        (short : Bool) (m : Result PackedError (Bytes × Bytes))
        → items
            ((if short then err (truncated_word tag (count_ones tag - length input)) else ok tt)
              >>= λ _. m >>= λ r.
                  if tag == 255
                  then unpack_raw r.1 (output ++ r.0) limit
                  else ok (r.1, output ++ r.0))
            limit
          ≡ (if short
              then err (truncated_word tag (count_ones tag - length input))
              else word_end tag output [] limit m)
    go true m = refl
    go false (ok r) = elim (Bool-cases (tag == 255)) [ inl f ↦ rw f refl | inr nf ↦ rw nf refl ]
    go false (err e) = refl
    go false panic = refl

step_tag-meaning :
    (tag : ℕ) (input output more : Bytes) (limit : ℕ)
    → after (step_tag (tag ∷ input) output limit) more limit
      ≡ unpack_on (tag ∷ (input ++ more)) output limit
unfolding step_tag unpack_item meaning check_output_limit
step_tag-meaning tag input output more limit = ground (
  arith,
  unpack_on-cons tag (input ++ more) output limit,
  first_word tag (input ++ more) output limit,
)

-- A round that does not panic, keeps the meaning and advances.
pub record Round (state : DecodeState) (input output more : Bytes) (limit : ℕ)
    (r : Result PackedError Progress) : Type 0 where
  pub same : after r more limit ≡ meaning state (input ++ more) output limit
  pub advances : Settled (Advances (cost state + 2 * length input)) r

tag_next :
    (tag : ℕ) (input : Bytes) (output : Bytes) (limit : ℕ)
    → (ℕ × Bytes)
    → Result PackedError Progress
unfolding step_tag
tag_next tag input output limit (consumed, output') =
    if not (consumed == 0)
    then ok ((at_tag, output'), drop consumed (tag ∷ input))
    else step_tag (tag ∷ input) output' limit

step_tag-Advances :
    (tag : ℕ) (input output : Bytes) (limit : ℕ)
    → AreBytes (tag ∷ input)
    → Settled (Advances (0 + 2 * length (tag ∷ input))) (step_tag (tag ∷ input) output limit)
unfolding step_tag check_output_limit
step_tag-Advances tag input output limit h =
    Settled-bind (λ _. Unit {0}) (check_output_limit (length output) 8 limit) _
      (check_output_limit-Settled (length output) 8 limit)
      λ _ _.
        Settled-if (tag == 0) (λ _. Settled-ok _ (tt, inr (omega arith), h.1))
          (λ full. Settled-ok _ (
            (new_word, ones_pos 8 tag (omega (arith, h.0)) (ground (arith, full))),
            inr (omega arith),
            h.1,
          ))
  where
    new_word : Partial tag 0 (count_ones tag) (replicate 8 0)
    new_word = record {
      bounded = omega arith;
      counts = ap (ones 8) {x = tag} {y = tag / 2 ^ 0} (omega arith);
      len = refl;
      clear = refl;
    }

tag_next-suc :
    (tag : ℕ) (input output : Bytes) (limit n : ℕ) (out : Bytes)
    → tag_next tag input output limit (suc n, out) ≡ ok ((at_tag, out), drop n input)
unfolding tag_next
tag_next-suc tag input output limit n out = ground arith

at_tag-Round :
    (tag : ℕ) (input output more : Bytes) (limit : ℕ) (r : Result PackedError (ℕ × Bytes))
    → AreBytes (tag ∷ input)
    → Completes tag input more output limit r
    → Round at_tag (tag ∷ input) output more limit (r >>= tag_next tag input output limit)
unfolding tag_next meaning
at_tag-Round tag input output more limit (ok (zero, out)) h c = rw c (record {
  same = step_tag-meaning tag input output more limit;
  advances = step_tag-Advances tag input output limit h;
})
at_tag-Round tag input output more limit (ok (suc n, out)) h c =
    rw (tag_next-suc tag input output limit n out) (record {
      same = sym (unpack_on-cons tag (input ++ more) output limit ∙ ap (λ m. items m limit) c);
      advances =
          Settled-ok _ (tt, inr (omega (arith, length-drop n input)), AreBytes-drop n input h.1);
    })
at_tag-Round tag input output more limit (err e) h c = record {
  same = sym (unpack_on-cons tag (input ++ more) output limit ∙ ap (λ m. items m limit) c);
  advances = Settled-err e;
}
at_tag-Round tag input output more limit panic h c = absurd c

raw-Round :
    (remaining : ℕ) (input output more : Bytes) (limit : ℕ)
    → 0 < remaining
    → 0 < length input
    → AreBytes input
    → Round (in_raw remaining) input output more limit (ok (step_raw remaining input output))
raw-Round remaining input output more limit some long bytes =
    elim (Bool-cases (leb remaining (length input))) [
      | inl e ↦ record {
        same = raw_ends remaining input output more limit (leb→le _ _ e);
        advances = Settled-ok _ (ended (leb→le _ _ e));
      }
      | inr g ↦ record {
        same =
            ap (λ (k : ℕ). meaning_of (step_raw k input output) more limit)
              {y = length input + (remaining - length input)} (ground arith)
            ∙ raw_goes_on (remaining - length input) input output more limit (ground arith)
            ∙ ap (λ (k : ℕ). meaning (in_raw k) (input ++ more) output limit) (ground arith);
        advances = Settled-ok _ (going (ground arith));
      }
    ]
  where
    ended :
        remaining ≤ length input → Advances (1 + 2 * length input) (step_raw remaining input output)
    ended h =
        unfold step_raw in
        (
          ground (arith, length-drop remaining input),
          ground (arith, length-drop remaining input),
          AreBytes-drop _ input bytes,
        )

    going :
        length input < remaining → Advances (1 + 2 * length input) (step_raw remaining input output)
    going h =
        unfold step_raw in
        (
          ground (arith, drop_all (length input) input (omega arith)),
          ground (arith, drop_all (length input) input (omega arith)),
          AreBytes-drop _ input bytes,
        )

in_word-Round :
    (tag lane remaining : ℕ) (word input output more : Bytes) (limit : ℕ)
    → Partial tag lane remaining word
    → 0 < length input
    → AreBytes input
    → Round
        (in_word tag lane remaining word)
        input
        output
        more
        limit
        (ok (step_word tag lane remaining word input output))
unfolding step_word meaning
in_word-Round tag lane remaining word input output more limit p long bytes =
    go (fill_lanes (8 - lane) tag lane remaining word input)
      (fill_lanes-AreBytes (8 - lane) tag lane remaining word input bytes)
      (fill_lanes-Filled (8 - lane) tag lane remaining word input more output limit
        (omega (arith, p.bounded)) p)
  where
    go :
        (f : ((ℕ × ℕ) × Bytes) × Bytes)
        → AreBytes f.1
        → Filled tag lane remaining word input more output limit f
        → Round (in_word tag lane remaining word) input output more limit (
            ok (
              if ((f.0).0).0 == 8
              then (((if tag == 255 then at_raw_count else at_tag), output ++ (f.0).1), f.1)
              else ((in_word tag (((f.0).0).0) (((f.0).0).1) ((f.0).1), output), f.1)))
    go (((lane', remaining'), word'), rest) proper f = elim (Bool-cases (lane' == 8)) [
      | inl all ↦ rw all (whole lane' (ground arith) proper f)
      | inr some ↦ rw some (record {
        same = sym f.same;
        advances = Settled-ok _ (stopped lane' remaining' rest word' some f.partial f.ends proper);
      })
    ]
      where
        stopped :
            (l r : ℕ) (i w : Bytes)
            → (l == 8) ≡ false
            → Partial tag l r w
            → (l ≡ 8) ⊎ (i ≡ []) × (0 < r)
            → AreBytes i
            → Advances (1 + 2 * length input) ((in_word tag l r w, output), i)
        stopped l r i w some q (inl e) b = absurd (ground arith)
        stopped l r i w some q (inr (e, left)) b = ((q, left), inl e, b)

        whole :
            (l : ℕ)
            → l ≡ 8
            → AreBytes rest
            → Filled tag lane remaining word input more output limit
                (((l, remaining'), word'), rest)
            → Round
                (in_word tag lane remaining word)
                input
                output
                more
                limit
                (ok (((if tag == 255 then at_raw_count else at_tag), output ++ word'), rest))
        whole l e b g =
            let g' = rw e at g in
            record {
              same = sym (
                  g'.same
                  ∙ word_rest-whole tag remaining' word' (rest ++ more) output limit g'.partial);
              advances = Settled-ok _ (ground arith, ground (arith, g'.shorter), b);
            }

pub decode_round-Round :
    (state : DecodeState) (byte : ℕ) (input output more : Bytes) (limit : ℕ)
    → AreBytes (byte ∷ input)
    → IsState state
    → Round state (byte ∷ input) output more limit (decode_round state (byte ∷ input) output limit)
unfolding decode_round
decode_round-Round at_tag byte input output more limit b h =
    unfold tag_next in
    at_tag-Round byte input output more limit (decode_complete_item (byte ∷ input) output limit) b
      (decode_complete_item-Completes byte input more output limit)
decode_round-Round (in_word tag lane remaining word) byte input output more limit b h =
    in_word-Round tag lane remaining word (byte ∷ input) output more limit h.0 (omega arith) b
decode_round-Round at_zero_count byte input output more limit b h = record {
  same = zero_count-meaning byte input output more limit;
  advances =
      unfold step_zero_count in
      Settled-bind (λ _. Unit {0}) (check_output_limit (length output) (byte * 8) limit) _
        (check_output_limit-Settled (length output) (byte * 8) limit)
        λ _ _. Settled-ok _ (tt, inr (omega arith), b.1);
}
decode_round-Round at_raw_count byte input output more limit b h = record {
  same = raw_count-meaning byte input output more limit;
  advances =
      unfold step_raw_count in
      Settled-bind (λ _. Unit {0}) (check_output_limit (length output) (byte * 8) limit) _
        (check_output_limit-Settled (length output) (byte * 8) limit)
        λ _ _. Settled-ok _ (ground arith, ground arith, b.1);
}
decode_round-Round (in_raw remaining) byte input output more limit b h =
    raw-Round remaining (byte ∷ input) output more limit h (omega arith) b
