-- ===== src/Io/Packed/Decoder/States.antt =====
-- The states that the decoder passes through, what a round is to leave, and that what is left of an input
-- of bytes are bytes.
use capnp_rs_experiment.Prelude.{
  ℕ, zero, suc, ◌+◌, ◌-◌, ◌*◌, ◌<◌, ◌≡◌, [], ◌∷◌, length, drop, Settled, set, ◌/◌, ◌^◌, arith,
  Bool-cases, inl, inr, ◌⊎◌,
}
use capnp_rs_experiment.Prelude.Bytes.{Bytes, AreBytes}
use capnp_rs_experiment.Io.Packed.{check_output_limit, ones, lane_set}
use capnp_rs_experiment.Io.Packed.Decoder.{
  DecodeState, at_tag, in_word, at_zero_count, at_raw_count, in_raw, Progress, fill_lanes,
}
use capnp_rs_experiment.Io.Packed.Decoder.Lanes.{Partial}

abbrev pub IsState : DecodeState → Type 0
IsState at_tag = Unit
IsState (in_word tag lane remaining word) = Partial tag lane remaining word × (0 < remaining)
IsState at_zero_count = Unit
IsState at_raw_count = Unit
IsState (in_raw remaining) = 0 < remaining

abbrev pub cost : DecodeState → ℕ
cost at_tag = 0
cost (in_word tag lane remaining word) = 1
cost at_zero_count = 0
cost at_raw_count = 0
cost (in_raw remaining) = 1

-- A round leaves a proper state, nothing of the input or less to do, and bytes.
abbrev pub Advances : ℕ → Progress → Type 0
Advances n ((state, output), rest) =
    IsState state × ((rest ≡ []) ⊎ (cost state + 2 * length rest < n)) × AreBytes rest

pub check_output_limit-Settled :
    (len more limit : ℕ) → Settled (λ _. Unit {0}) (check_output_limit len more limit)
unfolding check_output_limit
check_output_limit-Settled len more limit = ground arith

-- A tag other than zero announces a payload.
pub ones_pos : (k tag : ℕ) → tag < 2 ^ k → 0 < tag → 0 < ones k tag
unfolding ones
ones_pos zero tag small some = omega arith
ones_pos (suc k) tag small some = ground (arith, ones_pos k (tag / 2))

pub AreBytes-drop : (n : ℕ) (input : Bytes) → AreBytes input → AreBytes (drop n input)
AreBytes-drop zero input h = h
AreBytes-drop (suc n) [] h = h
AreBytes-drop (suc n) (b ∷ input) h = AreBytes-drop n input h.1

pub fill_lanes-AreBytes :
    (left tag lane remaining : ℕ) (word input : Bytes)
    → AreBytes input
    → AreBytes ((fill_lanes left tag lane remaining word input).1)
unfolding fill_lanes
fill_lanes-AreBytes zero tag lane remaining word input h = h
fill_lanes-AreBytes (suc left) tag lane remaining word [] h =
    elim (Bool-cases (lane_set tag lane)) [
      | inl e ↦ rw e tt
      | inr e ↦ rw e (fill_lanes-AreBytes left tag (lane + 1) remaining word [] h)
    ]
fill_lanes-AreBytes (suc left) tag lane remaining word (b ∷ input) h =
    elim (Bool-cases (lane_set tag lane)) [
      | inl e ↦
          rw e (fill_lanes-AreBytes left tag (lane + 1) (remaining - 1) (set word lane b) input h.1)
      | inr e ↦ rw e (fill_lanes-AreBytes left tag (lane + 1) remaining word (b ∷ input) h)
    ]
