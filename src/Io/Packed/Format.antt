-- ===== src/Io/Packed/Format.antt =====
-- The packed format itself, word by word, apart from any encoder: the reference that the encoders of
-- packed.rs are proved against.
use capnp_rs_experiment.Prelude.{
  ℕ, ◌+◌, ◌-◌, ◌*◌, ◌/◌, ◌≤◌, ◌≡◌, ◌&&◌, List, [], ◌∷◌, ◌++◌, length, take, drop, replicate, ltb,
  leb, ◌==◌, if◌then◌else◌,
}
use capnp_rs_experiment.Prelude.Bytes.{Bytes, IsArray}
use capnp_rs_experiment.Io.Packed.{zero_byte_count}
use capnp_rs_experiment.Io.Packed.Tags.{bits, nonzero}

abbrev pub IsWord : Bytes → Type 0
IsWord w = IsArray 8 w

-- `none` between runs, a run of zero words with the count beyond the first, or the words of a raw run.
pub data Run : Type 0 where
  no_run : Run
  zeros : ℕ → Run
  raws : Bytes → Run

-- What a run is written as when it ends.
unfoldable pub close : Run → Bytes
close no_run = []
close (zeros k) = 0 ∷ k ∷ []
close (raws words) = 255 ∷ (take 8 words ++ ((length words / 8 - 1) ∷ drop 8 words))

-- A word outside any run: what is written at once, and the run that it starts.
unfoldable pub start : Bytes → Bytes × Run
start w =
    if bits w == 0
    then ([], zeros 0)
    else if bits w == 255
    then ([], raws w)
    else (bits w ∷ nonzero w, no_run)

abbrev closing : Run → Bytes × Run → Bytes × Run
closing run (out, next) = (close run ++ out, next)

-- A run goes on while the word fits it and it has at most 255 words beyond the first.
unfoldable pub feed : Run → Bytes → Bytes × Run
feed no_run w = start w
feed (zeros k) w =
    if bits w == 0 && ltb k 255 then ([], zeros (k + 1)) else closing (zeros k) (start w)
feed (raws words) w =
    if leb (zero_byte_count w) 1 && ltb (length words / 8 - 1) 255
    then ([], raws (words ++ w))
    else closing (raws words) (start w)

unfoldable pub packed : Run → List Bytes → Bytes
packed run [] = close run
packed run (w ∷ ws) = let (out, next) = feed run w in out ++ packed next ws

-- The bytes that a run holds back.
abbrev pub pending : Run → Bytes
pending no_run = []
pending (zeros k) = replicate ((k + 1) * 8) 0
pending (raws words) = words

unfoldable pub joined : List Bytes → Bytes
joined [] = []
joined (w ∷ ws) = w ++ joined ws

-- A run as the encoders make it.
abbrev pub IsRun : Run → Type 0
IsRun no_run = Unit
IsRun (zeros k) = k ≤ 255
IsRun (raws words) =
    (m : ℕ) × (length words ≡ (m + 1) * 8) × (m ≤ 255) × (bits (take 8 words) ≡ 255)
