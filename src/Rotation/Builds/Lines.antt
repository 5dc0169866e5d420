-- ===== src/Rotation/Builds/Lines.antt =====
-- The last two lines of the 32-bit map callbacks of src/rotation.c, which bring the nybbles of two
-- words together.
use libmonome.Common.{
  ℕ, ◌+◌, ◌-◌, ◌<◌, ◌≡◌, refl, ◌∙◌, Bool, true, false, xor, ltb, if◌then◌else◌, arith, bit_and,
  bit_or, u32, ◌<<<◌, ◌>>>◌, Bool-cases, inl, inr,
}
use libmonome.Common.Bits.{
  testbit, testbit-bit_and, testbit-bit_or, testbit-shr, testbit-shl_mod, testbit-shl_mod_low,
  all_below, holds_below,
}

-- The nybbles that come from the other word: those above, moved down, or those below, moved up.
abbrev pub stays : Bool → ℕ → Bool
stays up i = if up then testbit 0xF0F0F0F0 i else testbit 0x0F0F0F0F i

abbrev pub moved : Bool → ℕ → ℕ
moved up i = if stays up i then i else if up then i + 4 else i - 4

abbrev pub line : Bool → ℕ → ℕ → ℕ
line up same other =
    if up
    then bit_or (bit_and other 0xF0F0F0F0 >>> 4) (bit_and same 0xF0F0F0F0)
    else bit_or (u32 (bit_and other 0x0F0F0F0F <<< 4)) (bit_and same 0x0F0F0F0F)

pub testbit-bit_or_comm : (a b i : ℕ) → testbit (bit_or a b) i ≡ testbit (bit_or b a) i
testbit-bit_or_comm a b i = ground (arith, testbit-bit_or a b i, testbit-bit_or b a i)

abbrev is_cut : Bool → ℕ → Bool
is_cut up i =
    if up
    then xor (testbit 0xF0F0F0F0 i) (testbit 0xF0F0F0F0 (i + 4))
    else if ltb i 4
    then testbit 0x0F0F0F0F i
    else xor (testbit 0x0F0F0F0F i) (testbit 0x0F0F0F0F (i - 4))

cut : (up : Bool) (i : ℕ) → i < 32 → is_cut up i ≡ true
unfolding all_below testbit
cut true i h = holds_below 32 (is_cut true) i h refl
cut false i h = holds_below 32 (is_cut false) i h refl

pub testbit-line :
    (up : Bool) (same other i : ℕ)
    → i < 32
    → testbit (line up same other) i
      ≡ (if stays up i then testbit same i else testbit other (moved up i))
testbit-line true same other i h = ground (
  arith,
  cut true i h,
  testbit-bit_or (bit_and other 0xF0F0F0F0 >>> 4) (bit_and same 0xF0F0F0F0) i,
  testbit-shr (bit_and other 0xF0F0F0F0) 4 i,
  testbit-bit_and other 0xF0F0F0F0 (i + 4),
  testbit-bit_and same 0xF0F0F0F0 i,
)
testbit-line false same other i h = ground (
  arith,
  cut false i h,
  testbit-bit_or (u32 (bit_and other 0x0F0F0F0F <<< 4)) (bit_and same 0x0F0F0F0F) i,
  testbit-shl_mod 32 (bit_and other 0x0F0F0F0F) 4 i h,
  testbit-shl_mod_low 32 (bit_and other 0x0F0F0F0F) 4 i h,
  testbit-bit_and other 0x0F0F0F0F (i - 4),
  testbit-bit_and same 0x0F0F0F0F i,
)

pub testbit-line-moved :
    (up : Bool) (same other i : ℕ)
    → i < 32
    → testbit (line up same other) i ≡ testbit (if stays up i then same else other) (moved up i)
testbit-line-moved up same other i h =
    testbit-line up same other i h
    ∙ elim (Bool-cases (stays up i)) [ inl here ↦ rw here refl | inr there ↦ rw there refl ]
