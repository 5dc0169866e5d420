-- ===== src/Rotation/Map/Swap.antt =====
-- How one `swap(f, c)` of the map callbacks of src/rotation.c moves bits.
use libmonome.Common.{ℕ, ◌+◌, ◌-◌, ◌%◌, ◌^◌, ◌<◌, ◌≡◌, refl, ◌∙◌}
use libmonome.Common.{Bool, true, not, xor, ◌&&◌, ◌||◌, leb, if◌then◌else◌, arith}
use libmonome.Common.{List, [], ◌∷◌, ◌<<<◌}
use libmonome.Common.Bits.{
  testbit, testbit-bit_and, testbit-bit_xor, testbit-shr, testbit-shl, testbit-shl_mod, testbit-mod,
  testbit_high, all_below, holds_below,
}
use libmonome.Rotation.Map.{swap}

abbrev pub from : ℕ → ℕ → ℕ → ℕ
from f c i = if testbit c i then i - f else if testbit c (i + f) then i + f else i

-- The mask selects digits that have a partner `f` below, and never both of a pair.
unfoldable pub is_pairing : ℕ → ℕ → ℕ → Bool
is_pairing f c i = not (testbit c i) || (leb f i && not (testbit c (i + f)))

pub record IsMask (width f c : ℕ) : Type 0 where
  pub narrow : c < 2 ^ width
  pub paired : all_below width (is_pairing f c) ≡ true

testbit-swap_digits :
    (w f c x i : ℕ)
    → testbit (swap w f c x) i
      ≡ xor (testbit x i) (
          xor
            (xor (testbit x i) (testbit (x <<< f % 2 ^ w) i) && testbit c i)
            (xor (testbit x (i + f)) (testbit (x <<< f % 2 ^ w) (i + f)) && testbit c (i + f)))
unfolding swap
testbit-swap_digits w f c x i = simp (testbit-bit_xor, testbit-bit_and, testbit-shr)

shl_partner : (w x f i : ℕ) → i + f < w → testbit (x <<< f % 2 ^ w) (i + f) ≡ testbit x i
shl_partner w x f i h = testbit-mod (x <<< f) w (i + f) h ∙ testbit-shl x f i

pub testbit-swap :
    (w f c x i : ℕ) → IsMask w f c → i < w → testbit (swap w f c x) i ≡ testbit x (from f c i)
unfolding is_pairing
testbit-swap w f c x i m h =
    testbit-swap_digits w f c x i
    ∙ ground (
      arith,
      holds_below w (is_pairing f c) i h m.paired,
      testbit-shl_mod w x f i h,
      shl_partner w x f i,
      testbit_high c w (i + f) m.narrow,
    )

pub from-lt : (w f c i : ℕ) → IsMask w f c → i < w → from f c i < w
unfolding is_pairing
from-lt w f c i m h = ground (arith, testbit_high c w (i + f) m.narrow)

-- A run of swaps, each a shift and a mask.
abbrev pub run : (width : ℕ) → List (ℕ × ℕ) → ℕ → ℕ
run w [] x = x
run w ((f, c) ∷ ss) x = run w ss (swap w f c x)

-- Where a run takes digit `i` from.
abbrev pub source : List (ℕ × ℕ) → ℕ → ℕ
source [] i = i
source ((f, c) ∷ ss) i = from f c (source ss i)

abbrev pub AreMasks : (width : ℕ) → List (ℕ × ℕ) → Type 0
AreMasks w [] = Unit {0}
AreMasks w ((f, c) ∷ ss) = IsMask w f c × AreMasks w ss

pub source-lt : (w : ℕ) (ss : List (ℕ × ℕ)) (i : ℕ) → AreMasks w ss → i < w → source ss i < w
source-lt w [] i ms h = h
source-lt w ((f, c) ∷ ss) i ms h = from-lt w f c (source ss i) ms.0 (source-lt w ss i ms.1 h)

pub testbit-run :
    (w : ℕ) (ss : List (ℕ × ℕ)) (x i : ℕ)
    → AreMasks w ss
    → i < w
    → testbit (run w ss x) i ≡ testbit x (source ss i)
testbit-run w [] x i ms h = refl
testbit-run w ((f, c) ∷ ss) x i ms h =
    testbit-run w ss (swap w f c x) i ms.1 h
    ∙ testbit-swap w f c x (source ss i) ms.0 (source-lt w ss i ms.1 h)
