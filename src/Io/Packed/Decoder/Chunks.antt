-- ===== src/Io/Packed/Decoder/Chunks.antt =====
-- The decoder on input that comes in chunks, against `unpack` on the whole.
use capnp_rs_experiment.Prelude.{
  ℕ, zero, suc, ◌+◌, ◌*◌, ◌≤◌, ◌<◌, ◌≡◌, refl, sym, ap, ◌∙◌, List, [], ◌∷◌, ◌++◌, length, Result,
  ok, err, panic, ◌>>=◌, Settled, Settled-ok, Settled-err, All, subst, arith, inl, inr, ◌⊎◌, Bool,
  false, if◌then◌else◌,
}
use capnp_rs_experiment.Prelude.Bytes.{Bytes, AreBytes}
use capnp_rs_experiment.Io.Packed.{PackedError, previous_failure}
use capnp_rs_experiment.Io.Packed.Format.{joined}
use capnp_rs_experiment.Io.Packed.Unpack.{unpack, unpack_zeros, unpack_raw}
use capnp_rs_experiment.Io.Packed.Unpack.Steps.{unpack-unpack_on, unpack_on-nil}
use capnp_rs_experiment.Io.Packed.Decoder.{
  DecodeState, at_tag, in_word, at_zero_count, at_raw_count, in_raw, PackedDecoder, new_decoder,
  Progress, decode_loop, push_inner, after_push, push, finish_state, finish, decode_chunks,
}
use capnp_rs_experiment.Io.Packed.Decoder.Meaning.{meaning, word_rest}
use capnp_rs_experiment.Io.Packed.Decoder.States.{IsState, cost, Advances}
use capnp_rs_experiment.Io.Packed.Decoder.Rounds.{Round, decode_round-Round}

-- What the loop leaves.
record Ran (state : DecodeState) (input output more : Bytes) (limit : ℕ)
    (r : Result PackedError (DecodeState × Bytes)) : Type 0 where
  same : (r >>= λ q. meaning q.0 more q.1 limit) ≡ meaning state (input ++ more) output limit
  proper : Settled (λ q. IsState q.0) r

Round-Ran :
    (fuel : ℕ) (state : DecodeState) (byte : ℕ) (input output more : Bytes) (limit : ℕ)
    (r : Result PackedError Progress)
    → Round state (byte ∷ input) output more limit r
    → ((state' : DecodeState) (output' rest : Bytes)
        → Advances (cost state + 2 * length (byte ∷ input)) ((state', output'), rest)
        → Ran state' rest output' more limit (decode_loop fuel state' rest output' limit))
    → Ran state
        (byte ∷ input)
        output
        more
        limit
        (r >>= λ q. decode_loop fuel ((q.0).0) q.1 ((q.0).1) limit)
Round-Ran fuel state byte input output more limit (ok ((state', output'), rest)) r next =
    let later = next state' output' rest r.advances.settled in
    record { same = later.same ∙ r.same; proper = later.proper }
Round-Ran fuel state byte input output more limit (err e) r next = record {
  same = r.same;
  proper = Settled-err e;
}
Round-Ran fuel state byte input output more limit panic r next = absurd r.advances.settled

decode_loop-Ran :
    (fuel : ℕ) (state : DecodeState) (input output more : Bytes) (limit : ℕ)
    → AreBytes input
    → IsState state
    → (input ≡ []) ⊎ (cost state + 2 * length input ≤ fuel)
    → Ran state input output more limit (decode_loop fuel state input output limit)
unfolding decode_loop
decode_loop-Ran zero state [] output more limit b h e = record {
  same = refl;
  proper = Settled-ok (state, output) h;
}
decode_loop-Ran (suc fuel) state [] output more limit b h e = record {
  same = refl;
  proper = Settled-ok (state, output) h;
}
decode_loop-Ran zero state (byte ∷ input) output more limit b h (inl e) =
    absurd (omega (arith, ap length e))
decode_loop-Ran zero state (byte ∷ input) output more limit b h (inr e) = absurd (omega arith)
decode_loop-Ran (suc fuel) state (byte ∷ input) output more limit b h (inl e) =
    absurd (omega (arith, ap length e))
decode_loop-Ran (suc fuel) state (byte ∷ input) output more limit b h (inr e) =
    Round-Ran fuel state byte input output more limit _
      (decode_round-Round state byte input output more limit b h)
      λ state' output' rest a.
        decode_loop-Ran fuel state' rest output' more limit a.2 a.0 (enough state' rest a.1)
  where
    enough :
        (s : DecodeState) (rest : Bytes)
        → (rest ≡ []) ⊎ (cost s + 2 * length rest < cost state + 2 * length (byte ∷ input))
        → (rest ≡ []) ⊎ (cost s + 2 * length rest ≤ fuel)
    enough s rest (inl none) = inl none
    enough s rest (inr less) = inr (omega arith)

cost-le : (state : DecodeState) → cost state ≤ 1
cost-le state = ground arith

push_inner-Ran :
    (d : PackedDecoder) (chunk more : Bytes)
    → AreBytes chunk
    → IsState d.state
    → Ran d.state chunk d.output more d.max_output_bytes (push_inner d chunk)
unfolding push_inner
push_inner-Ran d chunk more b h =
    decode_loop-Ran (2 * length chunk + 1) d.state chunk d.output more d.max_output_bytes b h
      (inr (omega (arith, cost-le d.state)))

finish_state-meaning :
    (state : DecodeState) (output : Bytes) (limit : ℕ)
    → IsState state
    → finish_state state output ≡ meaning state [] output limit
unfolding finish_state meaning word_rest unpack_zeros unpack_raw
finish_state-meaning at_tag output limit h = sym (unpack_on-nil output limit)
finish_state-meaning (in_word tag lane remaining word) output limit h = ground (arith, h.1)
finish_state-meaning at_zero_count output limit h = refl
finish_state-meaning at_raw_count output limit h = refl
finish_state-meaning (in_raw remaining) output limit h = ground (arith, h)

finish_state-Settled :
    (state : DecodeState) (output : Bytes) → Settled (λ _. Unit {0}) (finish_state state output)
unfolding finish_state
finish_state-Settled state output = ground arith

push-live :
    (d : PackedDecoder) (chunk : Bytes)
    → d.failed ≡ false
    → push d chunk ≡ after_push d (push_inner d chunk)
unfolding push
push-live d chunk live =
    ap (λ (b : Bool). if b then (d, err previous_failure) else after_push d (push_inner d chunk))
      live

decode_chunks_step :
    (d : PackedDecoder) (chunk : Bytes) (chunks : List Bytes)
    → d.failed ≡ false
    → decode_chunks d (chunk ∷ chunks) ≡ (
        (after_push d (push_inner d chunk)).1 >>= λ u.
        decode_chunks (after_push d (push_inner d chunk)).0 chunks)
unfolding decode_chunks
decode_chunks_step d chunk chunks live =
    ap
      (λ (t : PackedDecoder × Result PackedError (Unit {0})). t.1 >>= λ u. decode_chunks t.0 chunks)
      (push-live d chunk live)

-- A decoder, with the chunks that it is still given, does not panic and returns what its state makes of
-- them.
record Decodes (d : PackedDecoder) (chunks : List Bytes) : Type 0 where
  same : decode_chunks d chunks ≡ meaning d.state (joined chunks) d.output d.max_output_bytes
  no_panic : Settled (λ _. Unit {0}) (decode_chunks d chunks)

record Pushes (d : PackedDecoder) (chunks : List Bytes)
    (r : Result PackedError (DecodeState × Bytes)) : Type 0 where
  same :
      ((after_push d r).1 >>= λ u. decode_chunks (after_push d r).0 chunks)
      ≡ (r >>= λ q. meaning q.0 (joined chunks) q.1 d.max_output_bytes)
  no_panic :
      Settled (λ _. Unit {0}) ((after_push d r).1 >>= λ u. decode_chunks (after_push d r).0 chunks)

push-Pushes :
    (d : PackedDecoder) (chunks : List Bytes) (r : Result PackedError (DecodeState × Bytes))
    → Settled (λ q. IsState q.0) r
    → ((q : DecodeState × Bytes) → IsState q.0 → Decodes (after_push d (ok q)).0 chunks)
    → Pushes d chunks r
push-Pushes d chunks (ok q) p next =
    let later = next q p.settled in record { same = later.same; no_panic = later.no_panic }
push-Pushes d chunks (err x) p next = record { same = refl; no_panic = Settled-err x }
push-Pushes d chunks panic p next = absurd p.settled

finish-live :
    (d : PackedDecoder) → d.failed ≡ false → decode_chunks d [] ≡ finish_state d.state d.output
unfolding decode_chunks finish
finish-live d live =
    ap (λ (b : Bool). if b then err previous_failure else finish_state d.state d.output) live

decode_chunks-Decodes :
    (chunks : List Bytes) (d : PackedDecoder)
    → All AreBytes chunks
    → IsState d.state
    → d.failed ≡ false
    → Decodes d chunks
unfolding joined
decode_chunks-Decodes [] d b h live = record {
  same = finish-live d live ∙ finish_state-meaning d.state d.output d.max_output_bytes h;
  no_panic =
      subst (Settled (λ _. Unit {0})) (sym (finish-live d live))
        (finish_state-Settled d.state d.output);
}
decode_chunks-Decodes (chunk ∷ chunks) d b h live =
    let ran = push_inner-Ran d chunk (joined chunks) b.0 h in
    let pushed =
      push-Pushes d chunks (push_inner d chunk) ran.proper
        (λ q proper. decode_chunks-Decodes chunks (after_push d (ok q)).0 b.1 proper live) in
    let steps = decode_chunks_step d chunk chunks live in
    record {
      same = steps ∙ pushed.same ∙ ran.same;
      no_panic = subst (Settled (λ _. Unit {0})) (sym steps) pushed.no_panic;
    }

-- When the decoder is given an input of bytes in any chunks, it does not panic, and it ends with exactly
-- what `unpack` of the whole input returns under the same limit: the same output or the same error.
pub decode_chunks-unpack :
    (chunks : List Bytes) (limit : ℕ)
    → All AreBytes chunks
    → (decode_chunks (new_decoder limit) chunks ≡ unpack (joined chunks) limit)
      × Settled (λ _. Unit {0}) (decode_chunks (new_decoder limit) chunks)
decode_chunks-unpack chunks limit bytes =
    let decodes = decode_chunks-Decodes chunks (new_decoder limit) bytes tt refl in
    (
      decodes.same ∙ sym (unfold meaning in unpack-unpack_on (joined chunks) limit),
      decodes.no_panic,
    )
