-- ===== src/Rotation/Map/Exchange.antt =====
-- How one line of `r180_map_cb` of src/rotation.c moves bits.
use libmonome.Common.{ℕ, ◌+◌, ◌-◌, ◌%◌, ◌^◌, ◌<◌, ◌≡◌, refl, ◌∙◌}
use libmonome.Common.{Bool, true, not, ◌&&◌, ◌||◌, ltb, leb, if◌then◌else◌, arith}
use libmonome.Common.{List, [], ◌∷◌, bit_and, bit_or, ◌<<<◌, ◌>>>◌}
use libmonome.Common.Bits.{
  testbit, testbit-bit_and, testbit-bit_or, testbit-shr, testbit-shl_mod, testbit-shl_mod_low,
  testbit_high, all_below, holds_below,
}
use libmonome.Rotation.Map.{exchange}

abbrev pub partner : ℕ → ℕ → ℕ → ℕ
partner f m i = if testbit m (i + f) then i + f else i - f

-- At each digit exactly one of the two shifted halves has its mask set.
unfoldable pub is_split : ℕ → ℕ → ℕ → ℕ → Bool
is_split f m n i =
    if testbit m (i + f) then ltb i f || not (testbit n (i - f)) else leb f i && testbit n (i - f)

pub testbit-exchange :
    (w f m n x i : ℕ)
    → all_below w (is_split f m n) ≡ true
    → i < w
    → testbit (exchange w f m n x) i ≡ testbit x (partner f m i)
unfolding exchange is_split
testbit-exchange w f m n x i split h =
    simp (testbit-bit_or, testbit-shr)
      (ground (
        arith,
        holds_below w (is_split f m n) i h split,
        testbit-bit_and x m (i + f),
        testbit-bit_and x n (i - f),
        testbit-shl_mod w (bit_and x n) f i h,
        testbit-shl_mod_low w (bit_and x n) f i h,
      ))

pub record IsLine (width f m n : ℕ) : Type 0 where
  pub narrow : m < 2 ^ width
  pub split : all_below width (is_split f m n) ≡ true

abbrev pub exchange_run : (width : ℕ) → List (ℕ × ℕ × ℕ) → ℕ → ℕ
exchange_run w [] x = x
exchange_run w ((f, m, n) ∷ ls) x = exchange_run w ls (exchange w f m n x)

-- Where a run of lines takes digit `i` from.
abbrev pub origin : List (ℕ × ℕ × ℕ) → ℕ → ℕ
origin [] i = i
origin ((f, m, n) ∷ ls) i = partner f m (origin ls i)

abbrev pub AreLines : (width : ℕ) → List (ℕ × ℕ × ℕ) → Type 0
AreLines w [] = Unit {0}
AreLines w ((f, m, n) ∷ ls) = IsLine w f m n × AreLines w ls

pub origin-lt : (w : ℕ) (ls : List (ℕ × ℕ × ℕ)) (i : ℕ) → AreLines w ls → i < w → origin ls i < w
origin-lt w [] i h lt = lt
origin-lt w ((f, m, n) ∷ ls) i h lt =
    ground (arith, testbit_high m w (origin ls i + f) h.0.narrow, origin-lt w ls i h.1 lt)

pub testbit-exchange_run :
    (w : ℕ) (ls : List (ℕ × ℕ × ℕ)) (x i : ℕ)
    → AreLines w ls
    → i < w
    → testbit (exchange_run w ls x) i ≡ testbit x (origin ls i)
testbit-exchange_run w [] x i h lt = refl
testbit-exchange_run w ((f, m, n) ∷ ls) x i h lt =
    testbit-exchange_run w ls (exchange w f m n x) i h.1 lt
    ∙ testbit-exchange w f m n x (origin ls i) h.0.split (origin-lt w ls i h.1 lt)

abbrev pub halves : ℕ → ℕ → ℕ
halves half i = if ltb i half then i + half else i - half

-- The first line has no masks, and needs none on the digits of a word.
pub testbit-halves :
    (half x i : ℕ)
    → x < 2 ^ (half + half)
    → i < half + half
    → testbit (bit_or (x >>> half) (x <<< half % 2 ^ (half + half))) i ≡ testbit x (halves half i)
testbit-halves half x i narrow h =
    testbit-bit_or (x >>> half) (x <<< half % 2 ^ (half + half)) i
    ∙ ground (
      arith,
      testbit-shr x half i,
      testbit-shl_mod (half + half) x half i h,
      testbit-shl_mod_low (half + half) x half i h,
      testbit_high x (half + half) (i + half) narrow,
    )
