-- ===== src/Io/Framing/Layout.antt =====
-- The bytes of a frame in plain form, and that both encoders write them.
use capnp_rs_experiment.Prelude.{
  ℕ, zero, suc, ◌+◌, ◌-◌, ◌*◌, ◌%◌, ◌^◌, ◌≤◌, ◌<◌, ◌≡◌, refl, sym, ap, ap₂, ◌∙◌, List, [], ◌∷◌,
  ◌++◌, map, length, take, drop, replicate, append-nil, append_assoc, length-append,
  take-append-drop, length-take, length-drop, ltb, ◌==◌, if◌then◌else◌, Bool-cases, inl, inr, All,
  arith,
}
use capnp_rs_experiment.Prelude.Bytes.{Bytes, to_le_bytes, length-to_le_bytes}
use capnp_rs_experiment.Io.Framing.Encode.{
  le_u32, append_each, fill_batch, append_batches, append_sizes, batch_segments, words_of,
  extend_all, write_frame,
}

-- The size table's entries, and the segments one after the other.
unfoldable pub entries : List ℕ → Bytes
entries [] = []
entries (w ∷ ws) = le_u32 w ++ entries ws

unfoldable pub concat : List Bytes → Bytes
concat [] = []
concat (s ∷ ss) = s ++ concat ss

-- Four zero bytes make the table a whole number of words when the count is even.
abbrev pub padding : ℕ → Bytes
padding count = if count % 2 == 0 then replicate 4 0 else []

unfoldable pub layout : ℕ → List ℕ → List Bytes → Bytes
layout count words segments =
    to_le_bytes 4 (count - 1) ++ (entries words ++ (padding count ++ concat segments))

pub length-entries : (ws : List ℕ) → length (entries ws) ≡ length ws * 4
unfolding entries
length-entries [] = omega arith
length-entries (w ∷ ws) = omega (
  arith,
  length-append (le_u32 w) (entries ws),
  length-to_le_bytes 4 (w % 2 ^ 32),
  length-entries ws,
)

append_each_lem : (output : Bytes) (ws : List ℕ) → append_each output ws ≡ output ++ entries ws
unfolding append_each entries
append_each_lem output [] = sym (append-nil output)
append_each_lem output (w ∷ ws) =
    append_each_lem (output ++ le_u32 w) ws ∙ append_assoc output (le_u32 w) (entries ws)

entries-append : (xs ys : List ℕ) → entries (xs ++ ys) ≡ entries xs ++ entries ys
unfolding entries
entries-append [] ys = refl
entries-append (x ∷ xs) ys =
    ap (◌++◌ (le_u32 x)) (entries-append xs ys)
    ∙ sym (append_assoc (le_u32 x) (entries xs) (entries ys))

four_more : (n : ℕ) → suc n * 4 ≡ suc (suc (suc (suc (n * 4))))
four_more n = omega arith

-- A buffer with room for a batch gets the batch's entries at its front.
fill_batch-entries :
    (k : ℕ) (ws : List ℕ)
    → length ws ≤ k
    → take (length ws * 4) (fill_batch (replicate (k * 4) 0) ws) ≡ entries ws
unfolding fill_batch entries to_le_bytes
fill_batch-entries k [] h = refl
fill_batch-entries zero (w ∷ ws) h = absurd (omega arith)
fill_batch-entries (suc k) (w ∷ ws) h =
    ap₂ (λ (n m : ℕ). take n (fill_batch (replicate m 0) (w ∷ ws))) (four_more (length ws))
      (four_more k)
    ∙ ap (◌++◌ (le_u32 w)) (fill_batch-entries k ws (omega arith))

append_batches_lem :
    (fuel : ℕ) (output : Bytes) (ws : List ℕ)
    → length ws ≤ fuel
    → append_batches fuel output ws ≡ output ++ entries ws
unfolding append_batches entries
append_batches_lem zero output [] h = sym (append-nil output)
append_batches_lem zero output (w ∷ ws) h = absurd (omega arith)
append_batches_lem (suc fuel) output [] h = sym (append-nil output)
append_batches_lem (suc fuel) output (w ∷ ws) h =
    append_batches_lem fuel _ (drop batch_segments (w ∷ ws)) shorter
    ∙ ap (λ (b : Bytes). (output ++ b) ++ entries (drop batch_segments (w ∷ ws))) batch
    ∙ append_assoc output (entries (take batch_segments (w ∷ ws))) _
    ∙ ap (◌++◌ output) (
        sym (entries-append (take batch_segments (w ∷ ws)) (drop batch_segments (w ∷ ws)))
        ∙ ap entries (take-append-drop batch_segments (w ∷ ws)))
  where
    shorter : length (drop batch_segments (w ∷ ws)) ≤ fuel
    shorter = omega (arith, length-drop batch_segments (w ∷ ws))

    batch :
        take
          (length (take batch_segments (w ∷ ws)) * 4)
          (fill_batch (replicate (batch_segments * 4) 0) (take batch_segments (w ∷ ws)))
        ≡ entries (take batch_segments (w ∷ ws))
    batch =
        fill_batch-entries batch_segments (take batch_segments (w ∷ ws))
          (omega (arith, length-take batch_segments (w ∷ ws)))

-- The batched writer and the plain one write the same table.
pub append_sizes_lem :
    (output : Bytes) (ws : List ℕ) → append_sizes output ws ≡ output ++ entries ws
unfolding append_sizes
append_sizes_lem output ws = elim (Bool-cases (ltb (length ws) 8)) [
  | inl few ↦ rw few (append_each_lem output ws)
  | inr many ↦ rw many (append_batches_lem (length ws) output ws (omega arith))
]

extend_all_lem : (output : Bytes) (ss : List Bytes) → extend_all output ss ≡ output ++ concat ss
unfolding concat
extend_all_lem output [] = sym (append-nil output)
extend_all_lem output (s ∷ ss) = extend_all_lem (output ++ s) ss ∙ append_assoc output s (concat ss)

pub write_frame-layout :
    (count : ℕ) (words : List ℕ) (segments : List Bytes)
    → write_frame count words segments ≡ layout count words segments
unfolding write_frame layout
write_frame-layout count words segments =
    extend_all_lem _ segments ∙ elim (Bool-cases (count % 2 == 0)) [
      | inl even ↦ rw even (simp (append_sizes_lem, append_assoc))
      | inr odd ↦ rw odd (simp (append_sizes_lem, append_assoc))
    ]

unfoldable pub sum : List ℕ → ℕ
sum [] = 0
sum (w ∷ ws) = w + sum ws

abbrev pub IsAligned : Bytes → Type 0
IsAligned s = length s % 8 ≡ 0

abbrev pub IsU32 : ℕ → Type 0
IsU32 w = w < 2 ^ 32

pub length-concat :
    (ss : List Bytes) → All IsAligned ss → length (concat ss) ≡ sum (map words_of ss) * 8
unfolding concat sum
length-concat [] h = omega arith
length-concat (s ∷ ss) (a, h) = omega (arith, length-append s (concat ss), length-concat ss h)
