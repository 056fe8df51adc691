-- ===== src/Io/Packed/Decoder/Lanes.antt =====
-- A word of the decoder in progress: filling its lanes keeps what `spread` makes of the payload.
use capnp_rs_experiment.Prelude.{
  ℕ, zero, suc, ◌+◌, ◌-◌, ◌/◌, ◌^◌, ◌≤◌, ◌<◌, ◌≡◌, refl, sym, ap, ◌∙◌, Bool, true, false, [], ◌∷◌,
  ◌++◌, length, take, drop, set, replicate, Result, ok, err, panic, ◌>>=◌, ltb, ◌==◌, if◌then◌else◌,
  arith, append-nil, append_assoc, length-set, take-set, drop-set, take-drop_front, take_all,
  Bool-cases, inl, inr, ◌⊎◌,
}
use capnp_rs_experiment.Prelude.Bytes.{Bytes}
use capnp_rs_experiment.Io.Packed.{PackedError, truncated_word, lane_set, ones}
use capnp_rs_experiment.Io.Packed.Tags.{lane_set_lem, next_bit}
use capnp_rs_experiment.Io.Packed.Unpack.{spread, unpack_raw}
use capnp_rs_experiment.Io.Packed.Unpack.Steps.{unpack_on}
use capnp_rs_experiment.Io.Packed.Decoder.{at_tag, at_raw_count, fill_lanes}
use capnp_rs_experiment.Io.Packed.Decoder.Meaning.{items, word_rest, meaning}

-- What a word in progress keeps: the payload bytes still missing, and zeros from the lane on.
pub record Partial (tag lane remaining : ℕ) (word : Bytes) : Type 0 where
  pub bounded : lane ≤ 8
  pub counts : remaining ≡ ones (8 - lane) (tag / 2 ^ lane)
  pub len : length word ≡ 8
  pub clear : drop lane word ≡ replicate (8 - lane) 0

-- What follows the lanes of a word.
abbrev pub word_end :
    ℕ → Bytes → Bytes → ℕ → Result PackedError (Bytes × Bytes) → Result PackedError Bytes
word_end tag output front limit m = m >>= λ r.
    if tag == 255
    then items (unpack_raw r.1 (output ++ (front ++ r.0)) limit) limit
    else unpack_on r.1 (output ++ (front ++ r.0)) limit

word_end-cons :
    (tag byte : ℕ) (output front : Bytes) (limit : ℕ) (m : Result PackedError (Bytes × Bytes))
    → word_end tag output front limit (m >>= λ r. ok (byte ∷ r.0, r.1))
      ≡ word_end tag output (front ++ (byte ∷ [])) limit m
word_end-cons tag byte output front limit (ok (w, rest)) =
    ap (λ (t : Bytes). word_end tag output [] limit (ok (t, rest)))
      (sym (append_assoc front (byte ∷ []) w))
word_end-cons tag byte output front limit (err e) = refl
word_end-cons tag byte output front limit panic = refl

pub spread_set :
    (left lane tag byte : ℕ) (input : Bytes)
    → lane_set tag lane ≡ true
    → spread (suc left) lane tag (byte ∷ input)
      ≡ (spread left (lane + 1) tag input >>= λ r. ok (byte ∷ r.0, r.1))
unfolding spread
spread_set left lane tag byte input h = rw h refl

pub spread_clear :
    (left lane tag : ℕ) (input : Bytes)
    → lane_set tag lane ≡ false
    → spread (suc left) lane tag input
      ≡ (spread left (lane + 1) tag input >>= λ r. ok (0 ∷ r.0, r.1))
unfolding spread
spread_clear left lane tag [] h = rw h refl
spread_clear left lane tag (byte ∷ input) h = rw h refl

-- The same with the lanes left in view.
pub word_rest_on :
    (left tag lane remaining : ℕ) (word input output : Bytes) (limit : ℕ)
    → left + lane ≡ 8
    → word_rest tag lane remaining word input output limit ≡ (
        if ltb (length input) remaining
        then err (truncated_word tag (remaining - length input))
        else word_end tag output (take lane word) limit (spread left lane tag input))
unfolding word_rest
word_rest_on left tag lane remaining word input output limit h =
    ap
      (λ (k : ℕ).
        if ltb (length input) remaining
        then err (truncated_word tag (remaining - length input))
        else word_end tag output (take lane word) limit (spread k lane tag input))
      {x = 8 - lane} (omega arith)

pub lane_bit :
    (tag lane left : ℕ)
    → ones (suc left) (tag / 2 ^ lane)
      ≡ (if lane_set tag lane then 1 else 0) + ones left (tag / 2 ^ (lane + 1))
unfolding ones
lane_bit tag lane left = ground (arith, lane_set_lem tag lane, next_bit tag lane)

-- The state after a byte of the payload, and after a lane that has none.
Partial-set :
    (left tag lane remaining : ℕ) (word : Bytes) (byte : ℕ)
    → suc left + lane ≡ 8
    → lane_set tag lane ≡ true
    → Partial tag lane remaining word
    → (0 < remaining) × Partial tag (lane + 1) (remaining - 1) (set word lane byte)
Partial-set left tag lane remaining word byte at h p = (
  omega (arith, p.counts, count),
  record {
    bounded = omega arith;
    counts = omega (
      arith,
      p.counts,
      count,
      ap (λ (k : ℕ). ones k (tag / 2 ^ (lane + 1))) {x = left} {y = 8 - (lane + 1)} (omega arith),
    );
    len = length-set word lane byte ∙ p.len;
    clear = next;
  },
)
  where
    count : ones (8 - lane) (tag / 2 ^ lane) ≡ 1 + ones left (tag / 2 ^ (lane + 1))
    count =
        ap (λ (k : ℕ). ones k (tag / 2 ^ lane)) {y = suc left} (omega arith)
        ∙ lane_bit tag lane left
        ∙ ap (λ (b : Bool). (if b then 1 else 0) + ones left (tag / 2 ^ (lane + 1))) h

    front : drop lane word ≡ 0 ∷ replicate left 0
    front = p.clear ∙ ap (λ (k : ℕ). replicate k 0) {y = suc left} (omega arith)

    next : drop (lane + 1) (set word lane byte) ≡ replicate (8 - (lane + 1)) 0
    next =
        ap (λ (k : ℕ). drop k (set word lane byte)) {y = suc lane} (omega arith)
        ∙ drop-set word lane byte
        ∙ (take-drop_front word lane 0 (replicate left 0) front).1
        ∙ ap (λ (k : ℕ). replicate k 0) (omega arith)

Partial-clear :
    (left tag lane remaining : ℕ) (word : Bytes)
    → suc left + lane ≡ 8
    → lane_set tag lane ≡ false
    → Partial tag lane remaining word
    → Partial tag (lane + 1) remaining word × (take (lane + 1) word ≡ take lane word ++ (0 ∷ []))
Partial-clear left tag lane remaining word at h p = (
  record {
    bounded = omega arith;
    counts = p.counts ∙ count;
    len = p.len;
    clear =
        ap (λ (k : ℕ). drop k word) {y = suc lane} (omega arith)
        ∙ (take-drop_front word lane 0 (replicate left 0) front).1
        ∙ ap (λ (k : ℕ). replicate k 0) (omega arith);
  },
  ap (λ (k : ℕ). take k word) {y = suc lane} (omega arith)
      ∙ (take-drop_front word lane 0 (replicate left 0) front).0,
)
  where
    count : ones (8 - lane) (tag / 2 ^ lane) ≡ ones (8 - (lane + 1)) (tag / 2 ^ (lane + 1))
    count =
        ap (λ (k : ℕ). ones k (tag / 2 ^ lane)) {y = suc left} (omega arith)
        ∙ lane_bit tag lane left
        ∙ ap (λ (b : Bool). (if b then 1 else 0) + ones left (tag / 2 ^ (lane + 1))) h
        ∙ omega (
          arith,
          ap (λ (k : ℕ). ones k (tag / 2 ^ (lane + 1))) {x = left} {y = 8 - (lane + 1)}
              (omega arith),
        )

    front : drop lane word ≡ 0 ∷ replicate left 0
    front = p.clear ∙ ap (λ (k : ℕ). replicate k 0) {y = suc left} (omega arith)

-- One lane of the word.
lane-set-meaning :
    (left tag lane remaining byte : ℕ) (word input output : Bytes) (limit : ℕ)
    → suc left + lane ≡ 8
    → lane_set tag lane ≡ true
    → length word ≡ 8
    → 0 < remaining
    → word_rest tag lane remaining word (byte ∷ input) output limit
      ≡ word_rest tag (lane + 1) (remaining - 1) (set word lane byte) input output limit
lane-set-meaning left tag lane remaining byte word input output limit at h len some =
    word_rest_on (suc left) tag lane remaining word (byte ∷ input) output limit at
    ∙ ap
        (λ (t : Result PackedError Bytes).
          if ltb (suc (length input)) remaining
          then err (truncated_word tag (remaining - suc (length input)))
          else t)
        (ap (word_end tag output (take lane word) limit) (spread_set left lane tag byte input h)
          ∙ word_end-cons tag byte output (take lane word) limit (spread left (lane + 1) tag input)
          ∙ ap (λ (f : Bytes). word_end tag output f limit (spread left (lane + 1) tag input))
              (sym front))
    ∙ ground arith
    ∙ sym (
        word_rest_on left tag (lane + 1) (remaining - 1) (set word lane byte) input output limit
          (omega arith))
  where
    front : take (lane + 1) (set word lane byte) ≡ take lane word ++ (byte ∷ [])
    front =
        ap (λ (k : ℕ). take k (set word lane byte)) {y = suc lane} (omega arith)
        ∙ take-set word lane byte (omega arith)

lane-clear-meaning :
    (left tag lane remaining : ℕ) (word input output : Bytes) (limit : ℕ)
    → suc left + lane ≡ 8
    → lane_set tag lane ≡ false
    → take (lane + 1) word ≡ take lane word ++ (0 ∷ [])
    → word_rest tag lane remaining word input output limit
      ≡ word_rest tag (lane + 1) remaining word input output limit
lane-clear-meaning left tag lane remaining word input output limit at h front =
    word_rest_on (suc left) tag lane remaining word input output limit at
    ∙ ap
        (λ (t : Result PackedError Bytes).
          if ltb (length input) remaining
          then err (truncated_word tag (remaining - length input))
          else t)
        (ap (word_end tag output (take lane word) limit) (spread_clear left lane tag input h)
          ∙ word_end-cons tag 0 output (take lane word) limit (spread left (lane + 1) tag input)
          ∙ ap (λ (f : Bytes). word_end tag output f limit (spread left (lane + 1) tag input))
              (sym front))
    ∙ sym (word_rest_on left tag (lane + 1) remaining word input output limit (omega arith))

-- The lanes that are filled with what the input has.
pub record Filled (tag lane remaining : ℕ) (word input more output : Bytes) (limit : ℕ)
    (f : ((ℕ × ℕ) × Bytes) × Bytes) : Type 0 where
  pub same :
      word_rest tag lane remaining word (input ++ more) output limit
      ≡ word_rest tag (((f.0).0).0) (((f.0).0).1) ((f.0).1) (f.1 ++ more) output limit
  pub partial : Partial tag (((f.0).0).0) (((f.0).0).1) ((f.0).1)
  pub shorter : length (f.1) ≤ length input
  pub ends : ((((f.0).0).0) ≡ 8) ⊎ (f.1 ≡ []) × (0 < ((f.0).0).1)

Filled-first :
    {tag lane lane' remaining remaining' : ℕ} {word word' input input' more output : Bytes}
    {limit : ℕ} {f : ((ℕ × ℕ) × Bytes) × Bytes}
    → word_rest tag lane remaining word (input ++ more) output limit
      ≡ word_rest tag lane' remaining' word' (input' ++ more) output limit
    → length input' ≤ length input
    → Filled tag lane' remaining' word' input' more output limit f
    → Filled tag lane remaining word input more output limit f
Filled-first e le g = record {
  same = e ∙ g.same;
  partial = g.partial;
  shorter = omega (arith, g.shorter);
  ends = g.ends;
}

Filled-none :
    (tag lane remaining : ℕ) (word input more output : Bytes) (limit : ℕ)
    → Partial tag lane remaining word
    → (lane ≡ 8) ⊎ (input ≡ []) × (0 < remaining)
    → Filled tag lane remaining word input more output limit (((lane, remaining), word), input)
Filled-none tag lane remaining word input more output limit p e = record {
  same = refl;
  partial = p;
  shorter = omega arith;
  ends = e;
}

-- A payload byte is missing while a lane waits for one.
Partial-pending :
    (left tag lane remaining : ℕ) (word : Bytes)
    → suc left + lane ≡ 8
    → lane_set tag lane ≡ true
    → Partial tag lane remaining word
    → 0 < remaining
Partial-pending left tag lane remaining word at h p =
    let here =
      ap (λ (k : ℕ). ones k (tag / 2 ^ lane)) {x = 8 - lane} {y = suc left} (omega arith) in
    let bit = ap {B = ℕ} (λ (b : Bool). if b then 1 else 0) h in
    omega (arith, p.counts, here, lane_bit tag lane left, bit)

pub fill_lanes-Filled :
    (left tag lane remaining : ℕ) (word input more output : Bytes) (limit : ℕ)
    → left + lane ≡ 8
    → Partial tag lane remaining word
    → Filled tag lane remaining word input more output limit
        (fill_lanes left tag lane remaining word input)
unfolding fill_lanes
fill_lanes-Filled zero tag lane remaining word input more output limit at p =
    Filled-none tag lane remaining word input more output limit p (inl (omega arith))
fill_lanes-Filled (suc left) tag lane remaining word [] more output limit at p =
    elim (Bool-cases (lane_set tag lane)) [
      | inl h ↦ rw h (
          Filled-none tag lane remaining word [] more output limit p
            (inr (refl, Partial-pending left tag lane remaining word at h p)))
      | inr h ↦
          let (next, front) = Partial-clear left tag lane remaining word at h p in
          rw h (
            Filled-first
              (lane-clear-meaning left tag lane remaining word more output limit at h front)
              (omega arith)
              (fill_lanes-Filled left tag (lane + 1) remaining word [] more output limit
                (omega arith) next))
    ]
fill_lanes-Filled (suc left) tag lane remaining word (byte ∷ input) more output limit at p =
    elim (Bool-cases (lane_set tag lane)) [
      | inl h ↦
          let (some, next) = Partial-set left tag lane remaining word byte at h p in
          rw h (
            Filled-first
              (lane-set-meaning left tag lane remaining byte word (input ++ more) output limit at h
                p.len some)
              (omega arith)
              (fill_lanes-Filled left tag (lane + 1) (remaining - 1) (set word lane byte) input more
                output limit (omega arith) next))
      | inr h ↦
          let (next, front) = Partial-clear left tag lane remaining word at h p in
          rw h (
            Filled-first
              (lane-clear-meaning left tag lane remaining word (byte ∷ (input ++ more)) output limit
                at h front)
              (omega arith)
              (fill_lanes-Filled left tag (lane + 1) remaining word (byte ∷ input) more output limit
                (omega arith) next))
    ]

-- A whole word.
pub word_rest-whole :
    (tag remaining : ℕ) (word input output : Bytes) (limit : ℕ)
    → Partial tag 8 remaining word
    → word_rest tag 8 remaining word input output limit
      ≡ meaning (if tag == 255 then at_raw_count else at_tag) input (output ++ word) limit
unfolding meaning
word_rest-whole tag remaining word input output limit p =
    word_rest_on 0 tag 8 remaining word input output limit refl
    ∙ (unfold spread in ground (arith, none, front))
  where
    none : remaining ≡ 0
    none = p.counts ∙ (unfold ones in refl)

    front : output ++ (take 8 word ++ []) ≡ output ++ word
    front = ap (◌++◌ output) (append-nil (take 8 word) ∙ take_all 8 word (omega (arith, p.len)))
