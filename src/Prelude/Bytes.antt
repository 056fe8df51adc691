-- ===== src/Prelude/Bytes.antt =====
-- Bytes, and `to_le_bytes` and `from_le_bytes` at every width.
use Prim.Native.Nat.{ℕ, zero, suc, ◌+◌, ◌*◌, ◌/◌, ◌%◌, ◌^◌, ◌<◌}
use mathlib.Core.Path.{◌≡◌, refl, ap, ap₂, ◌∙◌}
use mathlib.Core.List.{List, [], ◌∷◌}
use native.Mathlib.Omega.{arith}
use native.Mathlib.Nat.{pow-suc}
use capnp_rs_experiment.Prelude.Lists.{length, All}

abbrev pub Bytes : Type 0
Bytes = List ℕ

abbrev pub IsByte : ℕ → Type 0
IsByte b = b < 256

abbrev pub AreBytes : Bytes → Type 0
AreBytes = All IsByte

-- A `[u8; N]`.
abbrev pub IsArray : ℕ → Bytes → Type 0
IsArray n bytes = (length bytes ≡ n) × AreBytes bytes

unfoldable pub to_le_bytes : ℕ → ℕ → Bytes
to_le_bytes zero v = []
to_le_bytes (suc n) v = (v % 256) ∷ to_le_bytes n (v / 256)

unfoldable pub from_le_bytes : Bytes → ℕ
from_le_bytes [] = 0
from_le_bytes (b ∷ bs) = b + 256 * from_le_bytes bs

pub to_le_bytes-IsArray : (n v : ℕ) → IsArray n (to_le_bytes n v)
unfolding to_le_bytes
to_le_bytes-IsArray zero v = (refl, tt)
to_le_bytes-IsArray (suc n) v =
    let (len, bytes) = to_le_bytes-IsArray n (v / 256) in (ap suc len, (omega arith, bytes))

pub length-to_le_bytes : (n v : ℕ) → length (to_le_bytes n v) ≡ n
length-to_le_bytes n v = (to_le_bytes-IsArray n v).0

pub from_le_bytes-to_le_bytes : (n v : ℕ) → v < 256 ^ n → from_le_bytes (to_le_bytes n v) ≡ v
unfolding from_le_bytes to_le_bytes
from_le_bytes-to_le_bytes zero v h = omega arith
from_le_bytes-to_le_bytes (suc n) v h =
    omega (arith, from_le_bytes-to_le_bytes n (v / 256) (omega (arith, pow-suc 256 n)))

pub from_le_bytes-lt : (bytes : Bytes) → AreBytes bytes → from_le_bytes bytes < 256 ^ length bytes
unfolding from_le_bytes
from_le_bytes-lt [] h = omega arith
from_le_bytes-lt (b ∷ bs) (p, h) = omega (arith, from_le_bytes-lt bs h, pow-suc 256 (length bs))

pub to_le_bytes-from_le_bytes :
    (bytes : Bytes) → AreBytes bytes → to_le_bytes (length bytes) (from_le_bytes bytes) ≡ bytes
unfolding from_le_bytes to_le_bytes
to_le_bytes-from_le_bytes [] h = refl
to_le_bytes-from_le_bytes (b ∷ bs) (p, h) =
    ap₂ ◌∷◌ (omega arith)
      (ap (to_le_bytes (length bs)) (omega arith) ∙ to_le_bytes-from_le_bytes bs h)
