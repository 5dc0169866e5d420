-- ===== src/Rotation/Reverse.antt =====
-- REVERSE_BYTE of src/private/rotation.h.
use libmonome.Common.{ℕ, ◌-◌, ◌*◌, ◌<◌, ◌≡◌, refl, Bool, true, xor, not, arith}
use libmonome.Common.{bit_and, bit_or, u8, u32, ◌>>>◌}
use libmonome.Common.Bits.{testbit, all_below, holds_below}

-- The product is taken in `unsigned int`.
unfoldable pub reverse_byte : ℕ → ℕ
reverse_byte x =
    u32 (bit_or (bit_and (x * 0x0802) 0x22110) (bit_and (x * 0x8020) 0x88440) * 0x10101) >>> 16

same : Bool → Bool → Bool
same a b = not (xor a b)

same→eq : (a b : Bool) → same a b ≡ true → a ≡ b
unfolding same
same→eq a b h = ground arith

abbrev mirrored : ℕ → Bool
mirrored x = all_below 8 (λ c. same (testbit (u8 (reverse_byte x)) c) (testbit x (7 - c)))

mirrored_table : all_below 256 mirrored ≡ true
unfolding all_below same testbit reverse_byte
mirrored_table = refl

-- REVERSE_BYTE mirrors a byte: for a number below 256, bit `c` of the result's low byte is bit
-- `7 - c` of the number, for every `c` below 8.
pub testbit-reverse_byte :
    (x c : ℕ) → x < 256 → c < 8 → testbit (u8 (reverse_byte x)) c ≡ testbit x (7 - c)
testbit-reverse_byte x c hx hc = same→eq _ _ (
    holds_below 8 (λ k. same (testbit (u8 (reverse_byte x)) k) (testbit x (7 - k))) c hc
      (holds_below 256 mirrored x hx mirrored_table))
