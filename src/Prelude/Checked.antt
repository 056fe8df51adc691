-- ===== src/Prelude/Checked.antt =====
-- Rust's machine integers: `usize` and `u64` have 64 bits, `u32` has 32.
use Prim.Native.Nat.{ℕ, ◌+◌, ◌-◌, ◌*◌}
use mathlib.Core.Option.{Option, none, some}
use capnp_rs_experiment.Prelude.Tests.{leb, if◌then◌else◌}

abbrev pub u32_max : ℕ
u32_max = 0xffff_ffff

abbrev pub u64_max : ℕ
u64_max = 0xffff_ffff_ffff_ffff

-- A 64-bit target.
abbrev pub usize_max : ℕ
usize_max = 0xffff_ffff_ffff_ffff

-- `value` if it is at most `max`, as the checked operations and `try_from` return it.
abbrev pub fit : ℕ → ℕ → Option ℕ
fit max value = if leb value max then some value else none

-- `usize::checked_add`; `u64::checked_add` is the same.
abbrev pub checked_add : ℕ → ℕ → Option ℕ
checked_add a b = fit usize_max (a + b)

abbrev pub checked_mul : ℕ → ℕ → Option ℕ
checked_mul a b = fit usize_max (a * b)

abbrev pub checked_sub : ℕ → ℕ → Option ℕ
checked_sub a b = if leb b a then some (a - b) else none
