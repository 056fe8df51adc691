-- ===== src/Io/Packed/Decoder/Complete.antt =====
-- `decode_complete_item` does what `unpack` does with an item, or nothing.
use capnp_rs_experiment.Prelude.{
  ℕ, zero, suc, ◌+◌, ◌*◌, ◌/◌, ◌^◌, ◌≤◌, ◌<◌, ◌≡◌, refl, sym, ap, ◌∙◌, true, false, ◌||◌, [], ◌∷◌,
  ◌++◌, length, drop, get_elem?, some, replicate, replicate-append, length-replicate, Result, ok,
  err, panic, ◌>>=◌, ltb, ◌==◌, if◌then◌else◌, arith, append_assoc, length-append, length-drop,
  take-append_le, drop-append_le, drop-add, Bool-cases, inl, inr,
}
use capnp_rs_experiment.Prelude.Bytes.{Bytes}
use capnp_rs_experiment.Io.Packed.{PackedError, check_output_limit, count_ones, lane_set, ones}
use capnp_rs_experiment.Io.Packed.Unpack.{
  spread, unpack_zeros, unpack_raw, unpack_word, unpack_item,
}
use capnp_rs_experiment.Io.Packed.Decoder.{
  complete_zeros, complete_raw, complete_word, decode_complete_item,
}
use capnp_rs_experiment.Io.Packed.Decoder.Lanes.{lane_bit, spread_set, spread_clear}

abbrev pub Completes : ℕ → Bytes → Bytes → Bytes → ℕ → Result PackedError (ℕ × Bytes) → Type 0
Completes tag input more output limit (ok (zero, out)) = out ≡ output
Completes tag input more output limit (ok (suc n, out)) =
    unpack_item tag (input ++ more) output limit ≡ ok (drop n input ++ more, out)
Completes tag input more output limit (err e) = unpack_item tag (input ++ more) output limit ≡ err e
Completes tag input more output limit panic = ⊥

zeros-Completes :
    (count : ℕ) (input more output : Bytes) (limit : ℕ)
    → Completes 0
        (count ∷ input)
        more
        output
        limit
        (decode_complete_item (0 ∷ (count ∷ input)) output limit)
unfolding decode_complete_item complete_zeros unpack_item unpack_zeros check_output_limit
zeros-Completes count input more output limit =
    ground (arith, length-append output (replicate 8 0), length-replicate {A = ℕ} 8 0, all)
  where
    all :
        (output ++ replicate 8 0) ++ replicate (count * 8) 0 ≡ output ++ replicate (8 + count * 8) 0
    all =
        append_assoc output (replicate 8 0) (replicate (count * 8) 0)
        ∙ ap (◌++◌ output) (replicate-append 8 (count * 8) 0)

-- A payload that is all there.
record Payload (left lane tag : ℕ) (input more : Bytes) : Type 0 where
  word : Bytes
  here : spread left lane tag input ≡ ok (word, drop (ones left (tag / 2 ^ lane)) input)
  with_more :
      spread left lane tag (input ++ more)
      ≡ ok (word, drop (ones left (tag / 2 ^ lane)) input ++ more)
  len : length word ≡ left

Payload-set :
    (left lane tag byte : ℕ) (input more : Bytes)
    → ones (suc left) (tag / 2 ^ lane) ≡ 1 + ones left (tag / 2 ^ (lane + 1))
    → lane_set tag lane ≡ true
    → Payload left (lane + 1) tag input more
    → Payload (suc left) lane tag (byte ∷ input) more
Payload-set left lane tag byte input more count s p = record {
  word = byte ∷ p.word;
  here =
      spread_set left lane tag byte input s
      ∙ ap (λ m. m >>= λ r. ok (byte ∷ r.0, r.1)) p.here
      ∙ ap (λ (k : ℕ). ok (byte ∷ p.word, drop k (byte ∷ input)))
          {x = suc (ones left (tag / 2 ^ (lane + 1)))} (omega (arith, count));
  with_more =
      spread_set left lane tag byte (input ++ more) s
      ∙ ap (λ m. m >>= λ r. ok (byte ∷ r.0, r.1)) p.with_more
      ∙ ap (λ (k : ℕ). ok (byte ∷ p.word, drop k (byte ∷ input) ++ more))
          {x = suc (ones left (tag / 2 ^ (lane + 1)))} (omega (arith, count));
  len = omega (arith, p.len);
}

Payload-clear :
    (left lane tag : ℕ) (input more : Bytes)
    → ones (suc left) (tag / 2 ^ lane) ≡ ones left (tag / 2 ^ (lane + 1))
    → lane_set tag lane ≡ false
    → Payload left (lane + 1) tag input more
    → Payload (suc left) lane tag input more
Payload-clear left lane tag input more count c p = record {
  word = 0 ∷ p.word;
  here =
      spread_clear left lane tag input c
      ∙ ap (λ m. m >>= λ r. ok (0 ∷ r.0, r.1)) p.here
      ∙ ap (λ (k : ℕ). ok (0 ∷ p.word, drop k input)) (sym count);
  with_more =
      spread_clear left lane tag (input ++ more) c
      ∙ ap (λ m. m >>= λ r. ok (0 ∷ r.0, r.1)) p.with_more
      ∙ ap (λ (k : ℕ). ok (0 ∷ p.word, drop k input ++ more)) (sym count);
  len = omega (arith, p.len);
}

lane_bit-set :
    (left lane tag : ℕ)
    → lane_set tag lane ≡ true
    → ones (suc left) (tag / 2 ^ lane) ≡ 1 + ones left (tag / 2 ^ (lane + 1))
lane_bit-set left lane tag s = ground (arith, lane_bit tag lane left)

lane_bit-clear :
    (left lane tag : ℕ)
    → lane_set tag lane ≡ false
    → ones (suc left) (tag / 2 ^ lane) ≡ ones left (tag / 2 ^ (lane + 1))
lane_bit-clear left lane tag c = ground (arith, lane_bit tag lane left)

spread-Payload :
    (left lane tag : ℕ) (input more : Bytes)
    → ones left (tag / 2 ^ lane) ≤ length input
    → Payload left lane tag input more
spread-Payload zero lane tag input more h = record {
  word = [];
  here = unfold spread ones in refl;
  with_more = unfold spread ones in refl;
  len = refl;
}
spread-Payload (suc left) lane tag [] more h = elim (Bool-cases (lane_set tag lane)) [
  | inl s ↦ absurd (omega (arith, lane_bit-set left lane tag s))
  | inr c ↦
      Payload-clear left lane tag [] more (lane_bit-clear left lane tag c) c
        (spread-Payload left (lane + 1) tag [] more (omega (arith, lane_bit-clear left lane tag c)))
]
spread-Payload (suc left) lane tag (byte ∷ input) more h = elim (Bool-cases (lane_set tag lane)) [
  | inl s ↦
      Payload-set left lane tag byte input more (lane_bit-set left lane tag s) s (
        spread-Payload left (lane + 1) tag input more (omega (arith, lane_bit-set left lane tag s)))
  | inr c ↦ Payload-clear left lane tag (byte ∷ input) more (lane_bit-clear left lane tag c) c (
      spread-Payload left (lane + 1) tag (byte ∷ input) more
        (omega (arith, lane_bit-clear left lane tag c)))
]

payload :
    (tag : ℕ) (input more : Bytes)
    → count_ones tag ≤ length input
    → (word : Bytes) × (spread 8 0 tag input ≡ ok (word, drop (count_ones tag) input))
      × (spread 8 0 tag (input ++ more) ≡ ok (word, drop (count_ones tag) input ++ more))
      × (length word ≡ 8)
payload tag input more h =
    let whole = ap (ones 8) {x = tag / 2 ^ 0} {y = tag} (omega arith) in
    let p = spread-Payload 8 0 tag input more (omega (arith, whole)) in
    (
      p.word,
      p.here ∙ ap (λ (k : ℕ). ok (p.word, drop k input)) whole,
      p.with_more ∙ ap (λ (k : ℕ). ok (p.word, drop k input ++ more)) whole,
      p.len,
    )

-- An item whose header has not all come.
short-Completes :
    (tag : ℕ) (input more output : Bytes) (limit : ℕ)
    → length input < count_ones tag + (if tag == 0 || tag == 255 then 1 else 0)
    → Completes tag input more output limit (decode_complete_item (tag ∷ input) output limit)
unfolding decode_complete_item
short-Completes tag input more output limit short = ground arith

-- An item of one word, without a run.
word-Completes :
    (tag : ℕ) (input more output : Bytes) (limit : ℕ)
    → (tag == 0) ≡ false
    → (tag == 255) ≡ false
    → count_ones tag ≤ length input
    → Completes tag input more output limit (decode_complete_item (tag ∷ input) output limit)
unfolding decode_complete_item complete_word complete_raw unpack_item unpack_word check_output_limit
word-Completes tag input more output limit nz nf all =
    let (word, here, with_more, len) = payload tag input more all in
    ground (arith, here, with_more, length-append input more)

get_elem-drop :
    (n : ℕ) (xs : Bytes) (x : ℕ) (ys : Bytes)
    → drop n xs ≡ x ∷ ys
    → (get_elem? xs n ≡ some x) × (drop (suc n) xs ≡ ys)
get_elem-drop zero [] x ys h = absurd (omega (arith, ap length h))
get_elem-drop (suc n) [] x ys h = absurd (omega (arith, ap length h))
get_elem-drop zero (y ∷ xs) x ys h = (cc, cc)
get_elem-drop (suc n) (y ∷ xs) x ys h = get_elem-drop n xs x ys h

count_ones_full : count_ones 255 ≡ 8
unfolding ones
count_ones_full = refl

-- A full word with its raw run.
raw-Completes :
    (input more output rest : Bytes) (count limit : ℕ)
    → drop 8 input ≡ count ∷ rest
    → Completes 255 input more output limit (decode_complete_item (255 ∷ input) output limit)
unfolding decode_complete_item complete_word complete_raw unpack_item unpack_word unpack_raw
    check_output_limit
raw-Completes input more output rest count limit at =
    let (word, here, with_more, len) =
      payload 255 input more (omega (arith, count_ones_full, ap length at, length-drop 8 input)) in
    let (elem, behind) = get_elem-drop 8 input count rest at in
    ground (
      arith,
      here,
      with_more,
      elem,
      at,
      behind,
      count_ones_full,
      length-drop 8 input,
      ap length at,
      length-append input more,
      length-append output word,
      length-append rest more,
      take-append_le (count * 8) rest more,
      drop-append_le (count * 8) rest more,
      drop-add 9 (count * 8) input,
    )

zero-Completes :
    (tag : ℕ) (input more output : Bytes) (limit : ℕ)
    → (tag == 0) ≡ true
    → 0 < length input
    → Completes tag input more output limit (decode_complete_item (tag ∷ input) output limit)
zero-Completes zero [] more output limit z h = absurd (omega arith)
zero-Completes zero (count ∷ input) more output limit z h =
    zeros-Completes count input more output limit
zero-Completes (suc tag) input more output limit z h = absurd (ground arith)

full-Completes :
    (tag : ℕ) (input rest more output : Bytes) (limit : ℕ)
    → (tag == 255) ≡ true
    → drop 8 input ≡ rest
    → 0 < length rest
    → Completes tag input more output limit (decode_complete_item (tag ∷ input) output limit)
full-Completes tag input [] more output limit f at h = absurd (omega arith)
full-Completes tag input (count ∷ rest) more output limit f at h =
    let same : tag ≡ 255 = ground arith in
    rw same (raw-Completes input more output rest count limit at)

pub decode_complete_item-Completes :
    (tag : ℕ) (input more output : Bytes) (limit : ℕ)
    → Completes tag input more output limit (decode_complete_item (tag ∷ input) output limit)
decode_complete_item-Completes tag input more output limit =
    elim (Bool-cases
      (ltb (length input) (count_ones tag + (if tag == 0 || tag == 255 then 1 else 0)))) [
        | inl short ↦ short-Completes tag input more output limit (ground arith)
        | inr all ↦ elim (Bool-cases (tag == 0)) [
          | inl z ↦ zero-Completes tag input more output limit z (ground arith)
          | inr nz ↦ elim (Bool-cases (tag == 255)) [
            | inl f ↦
                full-Completes tag input (drop 8 input) more output limit f refl
                  (ground (arith, length-drop 8 input, full f))
            | inr nf ↦ word-Completes tag input more output limit nz nf (ground arith)
          ]
        ]
      ]
  where
    full : (tag == 255) ≡ true → count_ones tag ≡ 8
    full f = ap count_ones {y = 255} (ground arith) ∙ count_ones_full
