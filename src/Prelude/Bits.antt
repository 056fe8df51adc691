-- ===== src/Prelude/Bits.antt =====
-- Laws of `|` and `&` on numbers: fields that do not overlap, and masks.
use Prim.Native.Nat.{
  ℕ, zero, suc, ◌+◌, ◌*◌, ◌/◌, ◌%◌, ◌^◌, ◌≤◌, ◌<◌, min, max, bit_and, bit_or, digits,
  bit_and-bitwise, bit_or-bitwise,
}
use mathlib.Core.Path.{◌≡◌, refl, ap, ap₂, ◌∙◌}
use native.Mathlib.Omega.{arith}
use native.Mathlib.Nat.{pow-suc}

-- Both operations go digit by digit, on fuel that the first number bounds.
module _ (ends : ℕ → ℕ) (op : ℕ → ℕ → ℕ) where
  fuel_irrelevant : (a b n m : ℕ) → a ≤ n → a ≤ m → digits ends op n a b ≡ digits ends op m a b
  fuel_irrelevant zero b zero zero h k = refl
  fuel_irrelevant zero b zero (suc m) h k = refl
  fuel_irrelevant zero b (suc n) zero h k = refl
  fuel_irrelevant zero b (suc n) (suc m) h k = refl
  fuel_irrelevant (suc a) b zero m h k = absurd (omega arith)
  fuel_irrelevant (suc a) b (suc n) zero h k = absurd (omega arith)
  fuel_irrelevant (suc a) b (suc n) (suc m) h k =
      ap (λ (t : ℕ). t * 2 + op (suc a % 2) (b % 2))
        (fuel_irrelevant (suc a / 2) (b / 2) n m (omega arith) (omega arith))

  last_digit :
      (a b : ℕ)
      → digits ends op (suc a) (suc a) b
        ≡ digits ends op (suc a / 2) (suc a / 2) (b / 2) * 2 + op (suc a % 2) (b % 2)
  last_digit a b =
      ap (λ (t : ℕ). t * 2 + op (suc a % 2) (b % 2))
        (fuel_irrelevant (suc a / 2) (b / 2) a (suc a / 2) (omega arith) (omega arith))

zero-bit_and : (b : ℕ) → bit_and 0 b ≡ 0
zero-bit_and b = bit_and-bitwise 0 b

zero-bit_or : (b : ℕ) → bit_or 0 b ≡ b
zero-bit_or b = bit_or-bitwise 0 b

bit_and_half : (a b : ℕ) → bit_and a b ≡ bit_and (a / 2) (b / 2) * 2 + min (a % 2) (b % 2)
bit_and_half zero b = omega (arith, zero-bit_and (b / 2), zero-bit_and b)
bit_and_half (suc a) b =
    bit_and-bitwise (suc a) b
    ∙ last_digit (λ t. zero) min a b
    ∙ ap (λ (t : ℕ). t * 2 + min (suc a % 2) (b % 2)) {y = bit_and (suc a / 2) (b / 2)}
        (omega (arith, bit_and-bitwise (suc a / 2) (b / 2)))

bit_or_half : (a b : ℕ) → bit_or a b ≡ bit_or (a / 2) (b / 2) * 2 + max (a % 2) (b % 2)
bit_or_half zero b = omega (arith, zero-bit_or (b / 2), zero-bit_or b)
bit_or_half (suc a) b =
    bit_or-bitwise (suc a) b
    ∙ last_digit (λ t. t) max a b
    ∙ ap (λ (t : ℕ). t * 2 + max (suc a % 2) (b % 2)) {y = bit_or (suc a / 2) (b / 2)}
        (omega (arith, bit_or-bitwise (suc a / 2) (b / 2)))

-- A mask without bits, by the number of the other's binary places.
or_none_below : (places a : ℕ) → a < 2 ^ places → bit_or a 0 ≡ a
or_none_below zero a h =
    ap (λ (t : ℕ). bit_or t 0) {y = 0} (omega arith) ∙ omega (arith, zero-bit_or 0)
or_none_below (suc places) a h = omega (
  arith,
  bit_or_half a 0,
  pow-suc 2 places,
  or_none_below places (a / 2) (omega (arith, pow-suc 2 places)),
)

and_none_below : (places a : ℕ) → a < 2 ^ places → bit_and a 0 ≡ 0
and_none_below zero a h = ap (λ (t : ℕ). bit_and t 0) {y = 0} (omega arith) ∙ zero-bit_and 0
and_none_below (suc places) a h =
    omega (arith, bit_and_half a 0, and_none_below places (a / 2) (omega (arith, pow-suc 2 places)))

below_power : (a : ℕ) → a < 2 ^ a
below_power zero = omega arith
below_power (suc a) = omega (arith, below_power a, pow-suc 2 a)

pub bit_or-zero : (a : ℕ) → bit_or a 0 ≡ a
bit_or-zero a = or_none_below a a (below_power a)

pub bit_and-zero : (a : ℕ) → bit_and a 0 ≡ 0
bit_and-zero a = and_none_below a a (below_power a)

-- The halves of a number with its fields above and below bit `n + 1`.
half_split : (n a x : ℕ) → (a * 2 ^ suc n + x) / 2 ≡ a * 2 ^ n + x / 2
half_split n a x = omega (arith, ap (λ (t : ℕ). a * t) (pow-suc 2 n))

parity_split : (n a x : ℕ) → (a * 2 ^ suc n + x) % 2 ≡ x % 2
parity_split n a x = omega (arith, ap (λ (t : ℕ). a * t) (pow-suc 2 n))

half_lt : (n x : ℕ) → x < 2 ^ suc n → x / 2 < 2 ^ n
half_lt n x h = omega (arith, pow-suc 2 n)

-- The operations work on the bits above `n` and below it apart.
pub bit_or_split :
    (n a b x y : ℕ)
    → x < 2 ^ n
    → y < 2 ^ n
    → bit_or (a * 2 ^ n + x) (b * 2 ^ n + y) ≡ bit_or a b * 2 ^ n + bit_or x y
bit_or_split zero a b zero zero hx hy =
    ap₂ bit_or {y = a} {v = b} (omega arith) (omega arith) ∙ omega (arith, zero-bit_or 0)
bit_or_split zero a b _ _ hx hy = absurd (omega arith)
bit_or_split (suc n) a b x y hx hy = omega (
  arith,
  bit_or_half (a * 2 ^ suc n + x) (b * 2 ^ suc n + y),
  bit_or_half x y,
  ap₂ bit_or (half_split n a x) (half_split n b y),
  parity_split n a x,
  parity_split n b y,
  bit_or_split n a b (x / 2) (y / 2) (half_lt n x hx) (half_lt n y hy),
  ap (λ (t : ℕ). bit_or a b * t) (pow-suc 2 n),
)

pub bit_and_split :
    (n a b x y : ℕ)
    → x < 2 ^ n
    → y < 2 ^ n
    → bit_and (a * 2 ^ n + x) (b * 2 ^ n + y) ≡ bit_and a b * 2 ^ n + bit_and x y
bit_and_split zero a b zero zero hx hy =
    ap₂ bit_and {y = a} {v = b} (omega arith) (omega arith) ∙ omega (arith, zero-bit_and 0)
bit_and_split zero a b _ _ hx hy = absurd (omega arith)
bit_and_split (suc n) a b x y hx hy = omega (
  arith,
  bit_and_half (a * 2 ^ suc n + x) (b * 2 ^ suc n + y),
  bit_and_half x y,
  ap₂ bit_and (half_split n a x) (half_split n b y),
  parity_split n a x,
  parity_split n b y,
  bit_and_split n a b (x / 2) (y / 2) (half_lt n x hx) (half_lt n y hy),
  ap (λ (t : ℕ). bit_and a b * t) (pow-suc 2 n),
)

-- `|` of two fields, the first `n` bits higher than the second, or the other way round.
pub bit_or_high : (n a b : ℕ) → b < 2 ^ n → bit_or (a * 2 ^ n) b ≡ a * 2 ^ n + b
bit_or_high n a b h =
    ap₂ bit_or {y = a * 2 ^ n + 0} {v = 0 * 2 ^ n + b} (omega arith) (omega arith)
    ∙ bit_or_split n a 0 0 b (omega arith) h
    ∙ ap₂ (λ (s t : ℕ). s * 2 ^ n + t) (bit_or-zero a) (zero-bit_or b)

pub bit_or_low : (n a b : ℕ) → b < 2 ^ n → bit_or b (a * 2 ^ n) ≡ a * 2 ^ n + b
bit_or_low n a b h =
    ap₂ bit_or {y = 0 * 2 ^ n + b} {v = a * 2 ^ n + 0} (omega arith) (omega arith)
    ∙ bit_or_split n 0 a b 0 h (omega arith)
    ∙ ap₂ (λ (s t : ℕ). s * 2 ^ n + t) (zero-bit_or a) (bit_or-zero b)

-- A mask of ones.
pub bit_and-one : (a : ℕ) → bit_and a 1 ≡ a % 2
bit_and-one a = omega (arith, bit_and_half a 1, bit_and-zero (a / 2))

pub bit_and_three : (a : ℕ) → bit_and a 3 ≡ a % 4
bit_and_three a = omega (arith, bit_and_half a 3, bit_and-one (a / 2))

pub bit_and_seven : (a : ℕ) → bit_and a 7 ≡ a % 8
bit_and_seven a = omega (arith, bit_and_half a 7, bit_and_three (a / 2))

pub bit_and_127 : (a : ℕ) → bit_and a 127 ≡ a % 128
bit_and_127 a = omega (
  arith,
  bit_and_half a 127,
  bit_and_half (a / 2) 63,
  bit_and_half (a / 2 / 2) 31,
  bit_and_half (a / 2 / 2 / 2) 15,
  bit_and_seven (a / 2 / 2 / 2 / 2),
)
