-- ===== src/Prelude/Int.antt =====
-- Signed integers over the native numbers, under the library's names.
use Prim.Native.Nat.{ℕ, suc, ◌+◌, ◌-◌, ◌/◌, ◌≤◌}
use mathlib.Core.Bool.{Bool}
use capnp_rs_experiment.Prelude.Tests.{leb, ltb, if◌then◌else◌}

-- `negsuc n` is -(n + 1).
pub data ℤ : Type 0 where
  pos : ℕ → ℤ
  negsuc : ℕ → ℤ

abbrev pub pos_part : ℤ → ℕ
pos_part (pos n) = n
pos_part (negsuc n) = 0

abbrev pub neg_part : ℤ → ℕ
neg_part (pos n) = 0
neg_part (negsuc n) = suc n

-- a - b, as an integer.
abbrev pub sub_ℕ : ℕ → ℕ → ℤ
sub_ℕ a b = if leb b a then pos (a - b) else negsuc (b - a - 1)

infix 50 ◌≤ℤ◌
abbrev pub ◌≤ℤ◌ : ℤ → ℤ → Type 0
a ≤ℤ b = pos_part a + neg_part b ≤ pos_part b + neg_part a

abbrev pub leb_ℤ : ℤ → ℤ → Bool
leb_ℤ a b = leb (pos_part a + neg_part b) (pos_part b + neg_part a)

abbrev two_31 : ℕ
two_31 = 0x8000_0000

abbrev two_32 : ℕ
two_32 = 0x1_0000_0000

-- `z as u32`, for an `i32`.
abbrev pub as_u32 : ℤ → ℕ
as_u32 (pos n) = n
as_u32 (negsuc n) = two_32 - 1 - n

-- `w as i32`, for a `u32`.
abbrev pub as_i32 : ℕ → ℤ
as_i32 w = if ltb w two_31 then pos w else negsuc (two_32 - 1 - w)

-- `z >> 2` on an `i32`: the sign is shifted in, so the quotient is rounded down.
abbrev pub shr_two : ℤ → ℤ
shr_two (pos n) = pos (n / 4)
shr_two (negsuc n) = negsuc (n / 4)
