-- ===== src/Common/Bits/Step.antt =====
-- Each native bit operation as an equation between a number's last digit and its half.
use Prim.Native.Nat.{
  ℕ, zero, suc, ◌+◌, ◌*◌, ◌/◌, ◌%◌, ◌≤◌, min, max, differ, digits, bitwise, bit_and, bit_or,
  bit_xor, bit_and-bitwise, bit_or-bitwise, bit_xor-bitwise,
}
use mathlib.Core.Path.{◌≡◌, refl}
use native.Mathlib.Omega.{arith}

module _ (rest : ℕ → ℕ) (op : ℕ → ℕ → ℕ) where
  -- Once there is fuel for every digit, more of it does not show.
  ample :
      (x y less more : ℕ)
      → x ≤ less
      → less ≤ more
      → digits rest op more x y ≡ digits rest op less x y
  ample zero y zero zero low high = refl
  ample zero y zero (suc more) low high = refl
  ample zero y (suc less) zero low high = absurd (omega arith)
  ample zero y (suc less) (suc more) low high = refl
  ample (suc x) y zero more low high = absurd (omega arith)
  ample (suc x) y (suc less) zero low high = absurd (omega arith)
  ample (suc x) y (suc less) (suc more) low high =
      let halved = ample (suc x / 2) (y / 2) less more (omega arith) (omega arith) in rw halved refl

  last_digit :
      (x y : ℕ)
      → bitwise rest op (suc x) y ≡ op (suc x % 2) (y % 2) + 2 * bitwise rest op (suc x / 2) (y / 2)
  last_digit x y =
      let halved = ample (suc x / 2) (y / 2) (suc x / 2) x (omega arith) (omega arith) in
      omega (arith, halved)

pub or_digit : (x y : ℕ) → bit_or x y ≡ max (x % 2) (y % 2) + 2 * bit_or (x / 2) (y / 2)
or_digit zero y = simp bit_or-bitwise (omega arith)
or_digit (suc x) y = simp bit_or-bitwise (last_digit (λ t. t) max x y)

pub and_digit : (x y : ℕ) → bit_and x y ≡ min (x % 2) (y % 2) + 2 * bit_and (x / 2) (y / 2)
and_digit zero y = simp bit_and-bitwise (omega arith)
and_digit (suc x) y = simp bit_and-bitwise (last_digit (λ t. 0) min x y)

pub xor_digit : (x y : ℕ) → bit_xor x y ≡ differ (x % 2) (y % 2) + 2 * bit_xor (x / 2) (y / 2)
xor_digit zero y = simp bit_xor-bitwise (omega arith)
xor_digit (suc x) y = simp bit_xor-bitwise (last_digit (λ t. t) differ x y)
