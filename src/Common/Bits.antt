-- ===== src/Common/Bits.antt =====
-- The binary digits of a number: `testbit x i` is `(x >> i) & 1`, and the bit operations act on
-- it one digit at a time.
mod Step
use Step.{or_digit, and_digit, xor_digit}
use Prim.Native.Nat.{
  ℕ, zero, suc, ◌+◌, ◌-◌, ◌*◌, ◌/◌, ◌%◌, ◌^◌, ◌≤◌, ◌<◌, min, max, differ, bit_and, bit_or, bit_xor,
}
use mathlib.Core.Path.{◌≡◌, refl, sym, ap, ap₂, ◌∙◌}
use mathlib.Core.Logic.{◌⊎◌, inl, inr}
use mathlib.Core.Bool.{Bool, true, false, ◌&&◌, ◌||◌}
use native.Mathlib.Nat.{
  pow-suc, pow-succ', one-le-pow, div-div-eq-div-mul, mul-div_cancel, div-add-mod,
}
use native.Mathlib.Omega.{arith}
use libmonome.Common.Tests.{◌==◌, xor}

abbrev pub odd : ℕ → Bool
odd x = x % 2 == 1

unfoldable pub testbit : ℕ → ℕ → Bool
testbit x zero = odd x
testbit x (suc i) = testbit (x / 2) i

pub testbit-zero_left : (i : ℕ) → testbit 0 i ≡ false
unfolding testbit
testbit-zero_left zero = refl
testbit-zero_left (suc i) = testbit-zero_left i

-- What is left of a number whose digits come as a half and a last digit.
half : (q r : ℕ) → r < 2 → (q * 2 + r) / 2 ≡ q
half q r h = omega arith

pub testbit-bit_and : (a b i : ℕ) → testbit (bit_and a b) i ≡ (testbit a i && testbit b i)
unfolding testbit
testbit-bit_and a b zero = ground (arith, and_digit a b)
testbit-bit_and a b (suc i) =
    ap (λ t. testbit t i) (omega (arith, and_digit a b)) ∙ testbit-bit_and (a / 2) (b / 2) i

pub testbit-bit_or : (a b i : ℕ) → testbit (bit_or a b) i ≡ (testbit a i || testbit b i)
unfolding testbit
testbit-bit_or a b zero = ground (arith, or_digit a b)
testbit-bit_or a b (suc i) =
    ap (λ t. testbit t i) (omega (arith, or_digit a b)) ∙ testbit-bit_or (a / 2) (b / 2) i

digit_cases : (x : ℕ) → (x % 2 ≡ 0) ⊎ (x % 2 ≡ 1)
digit_cases x = omega arith

differ_digits : (a b : ℕ) → differ (a % 2) (b % 2) ≡ (a + b) % 2
differ_digits a b = elim (digit_cases a) [
  | inl p ↦ rw p (omega arith)
  | inr p ↦ elim (digit_cases b) [
    | inl q ↦ rw (p, q) (omega arith)
    | inr q ↦ rw (p, q) (omega arith)
  ]
]

bit_xor_digit : (a b : ℕ) → odd (bit_xor a b) ≡ xor (odd a) (odd b)
bit_xor_digit a b = ground (arith, xor_digit a b, differ_digits a b)

pub testbit-bit_xor : (a b i : ℕ) → testbit (bit_xor a b) i ≡ xor (testbit a i) (testbit b i)
unfolding testbit
testbit-bit_xor a b zero = bit_xor_digit a b
testbit-bit_xor a b (suc i) =
    ap (λ t. testbit t i) (omega (arith, xor_digit a b, differ_digits a b))
    ∙ testbit-bit_xor (a / 2) (b / 2) i

div_pow : (x f : ℕ) → x / 2 ^ suc f ≡ x / 2 / 2 ^ f
div_pow x f = rw (pow-succ' 2 f) (sym (div-div-eq-div-mul x 2 (2 ^ f)))

pub testbit-shr : (x f i : ℕ) → testbit (x / 2 ^ f) i ≡ testbit x (i + f)
unfolding testbit
testbit-shr x zero i =
    ap₂ testbit {x = x / 2 ^ 0} {y = x} {u = i} {v = i + 0} (omega arith) (omega arith)
testbit-shr x (suc f) i =
    ap (λ t. testbit t i) (div_pow x f) ∙ testbit-shr (x / 2) f i ∙ ap (testbit x) (shift i f)
  where
    shift : (a b : ℕ) → suc (a + b) ≡ a + suc b
    shift a b = omega arith

pow-pos : (k : ℕ) → 0 < 2 ^ k
pow-pos k = one-le-pow k 2 (omega arith)

pub testbit-shl : (x f i : ℕ) → testbit (x * 2 ^ f) (i + f) ≡ testbit x i
testbit-shl x f i =
    sym (testbit-shr (x * 2 ^ f) f i) ∙ ap (λ t. testbit t i) (mul-div_cancel x (pow-pos f))

double_pow : (x f : ℕ) → x * 2 ^ suc f ≡ x * 2 ^ f * 2
double_pow x f = omega (arith, ap (λ (t : ℕ). x * t) (pow-suc 2 f))

pub testbit-shl_low : (x f i : ℕ) → i < f → testbit (x * 2 ^ f) i ≡ false
unfolding testbit
testbit-shl_low x zero i h = elim h [ ]
testbit-shl_low x (suc f) zero h = ground (arith, double_pow x f)
testbit-shl_low x (suc f) (suc i) h =
    ap (λ t. testbit t i) (omega (arith, double_pow x f)) ∙ testbit-shl_low x f i (omega arith)

mod_double : (h r p : ℕ) → 0 < p → r < 2 → (h * 2 + r) % (p * 2) ≡ h % p * 2 + r
mod_double h r p hp hr = grind (arith, div-add-mod h p)

mod_pow : (x k : ℕ) → x % 2 ^ suc k ≡ x / 2 % 2 ^ k * 2 + x % 2
mod_pow x k =
    ap₂ ◌%◌ {x = x} {y = x / 2 * 2 + x % 2} (omega arith) (pow-suc 2 k)
    ∙ mod_double (x / 2) (x % 2) (2 ^ k) (pow-pos k) (omega arith)

pub testbit-mod : (x k i : ℕ) → i < k → testbit (x % 2 ^ k) i ≡ testbit x i
unfolding testbit
testbit-mod x zero i h = elim h [ ]
testbit-mod x (suc k) zero h = ground (arith, mod_pow x k)
testbit-mod x (suc k) (suc i) h =
    ap (λ t. testbit t i) (omega (arith, mod_pow x k)) ∙ testbit-mod (x / 2) k i (omega arith)

-- A shift to the left in a word of `k` digits.
pub testbit-shl_mod :
    (k x f i : ℕ) → i < k → f ≤ i → testbit (x * 2 ^ f % 2 ^ k) i ≡ testbit x (i - f)
testbit-shl_mod k x f i h le =
    testbit-mod (x * 2 ^ f) k i h ∙ ap (testbit (x * 2 ^ f)) (omega arith) ∙ testbit-shl x f (i - f)

pub testbit-shl_mod_low : (k x f i : ℕ) → i < k → i < f → testbit (x * 2 ^ f % 2 ^ k) i ≡ false
testbit-shl_mod_low k x f i h lt = testbit-mod (x * 2 ^ f) k i h ∙ testbit-shl_low x f i lt

half_pow : (x k : ℕ) → x < 2 ^ suc k → x / 2 < 2 ^ k
half_pow x k h = omega (arith, pow-suc 2 k)

-- A number of `k` digits has none from the `k`th on.
pub testbit_high : (x k i : ℕ) → x < 2 ^ k → k ≤ i → testbit x i ≡ false
unfolding testbit
testbit_high x zero i h le = ap (λ t. testbit t i) (omega arith) ∙ testbit-zero_left i
testbit_high x (suc k) zero h le = absurd (omega arith)
testbit_high x (suc k) (suc i) h le = testbit_high (x / 2) k i (half_pow x k h) (omega arith)

odd_inj : (a b : ℕ) → odd a ≡ odd b → a % 2 ≡ b % 2
odd_inj a b h = ground arith

-- Numbers of `k` digits are equal if they agree in each.
pub testbit_ext :
    (k a b : ℕ) → a < 2 ^ k → b < 2 ^ k → ((i : ℕ) → i < k → testbit a i ≡ testbit b i) → a ≡ b
unfolding testbit
testbit_ext zero a b ha hb h = omega arith
testbit_ext (suc k) a b ha hb h = omega (
  arith,
  odd_inj a b (h 0 (omega arith)),
  testbit_ext k (a / 2) (b / 2) (half_pow a k ha) (half_pow b k hb)
      (λ i lt. h (suc i) (omega arith)),
)

bit_and-zero_fuel : (n a : ℕ) → a ≤ n → bit_and a 0 ≡ 0
bit_and-zero_fuel n zero h = omega (arith, and_digit 0 0)
bit_and-zero_fuel zero (suc a) h = absurd (omega arith)
bit_and-zero_fuel (suc n) (suc a) h =
    omega (arith, and_digit (suc a) 0, bit_and-zero_fuel n (suc a / 2) (omega arith))

-- A mask of `k` ones is a remainder.
pub bit_and_ones : (k a : ℕ) → bit_and a (2 ^ k - 1) ≡ a % 2 ^ k
bit_and_ones zero a = omega (arith, bit_and-zero_fuel a a (omega arith))
bit_and_ones (suc k) a = ground (
  arith,
  and_digit a (2 ^ suc k - 1),
  pow-suc 2 k,
  pow-pos k,
  mod_pow a k,
  ap (bit_and (a / 2)) (half_ones k),
  bit_and_ones k (a / 2),
)
  where
    half_ones : (j : ℕ) → (2 ^ suc j - 1) / 2 ≡ 2 ^ j - 1
    half_ones j = omega (arith, pow-suc 2 j, pow-pos j)

bit_or-zero_fuel : (n a : ℕ) → a ≤ n → bit_or a 0 ≡ a
bit_or-zero_fuel n zero h = omega (arith, or_digit 0 0)
bit_or-zero_fuel zero (suc a) h = absurd (omega arith)
bit_or-zero_fuel (suc n) (suc a) h =
    omega (arith, or_digit (suc a) 0, bit_or-zero_fuel n (suc a / 2) (omega arith))

-- Two fields that do not overlap: `(q << k) | r` is a sum.
pub bit_or_fields : (k q r : ℕ) → r < 2 ^ k → bit_or (q * 2 ^ k) r ≡ q * 2 ^ k + r
bit_or_fields zero q r h = ground (arith, bit_or-zero_fuel q q)
bit_or_fields (suc k) q r h =
    ground (
      arith,
      or_digit (q * 2 ^ suc k) r,
      double_pow q k,
      bit_or_fields k q (r / 2) (half_pow r k h),
    )

-- A byte of two nybbles, the lower cut from a number.
pub nybble_pair : (q a : ℕ) → q < 16 → bit_or (q * 2 ^ 4) (bit_and a 0x0F) % 2 ^ 8 ≡ q * 16 + a % 16
nybble_pair q a h = ground (arith, bit_and_ones 4 a, bit_or_fields 4 q (a % 16))

-- A property of all numbers below a bound, checked by evaluation.
unfoldable pub all_below : ℕ → (ℕ → Bool) → Bool
all_below zero p = true
all_below (suc n) p = p n && all_below n p

pub holds_below :
    (bound : ℕ) (test : ℕ → Bool) (i : ℕ) → i < bound → all_below bound test ≡ true → test i ≡ true
unfolding all_below
holds_below zero test i below all = absurd (omega arith)
holds_below (suc bound) test i below all = ground (arith, holds_below bound test i)
