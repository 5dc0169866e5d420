-- ===== src/Rotation/Map/Laws.antt =====
-- The map callbacks of src/rotation.c as rotations of the 8 by 8 picture of bits.
use libmonome.Common.{ℕ, ◌+◌, ◌-◌, ◌*◌, ◌/◌, ◌%◌, ◌^◌, ◌<◌, ◌≡◌, refl, ap, ◌∙◌}
use libmonome.Common.{Bool, true, ◌==◌, ==_iff, arith}
use libmonome.Common.{List, [], ◌∷◌, length, get_or, bit_or, u64, ◌<<<◌, ◌>>>◌}
use libmonome.Common.Bits.{testbit, all_below, holds_below}
use libmonome.Device.{Rotate, rotate_0, rotate_90, rotate_180, rotate_270}
use libmonome.Rotation.Map.{load64, map_cb}
use libmonome.Rotation.Map.Swap.{run, source, IsMask, AreMasks, testbit-run, is_pairing}
use libmonome.Rotation.Map.Exchange.{
  is_split, IsLine, AreLines, exchange_run, origin, origin-lt, halves, testbit-exchange_run,
  testbit-halves,
}
use libmonome.Rotation.Map.Bytes.{AreBytes, testbit-load64, testbit-store64, load64-lt}

-- The LED at row `r` and column `c` of a picture of eight bytes.
abbrev pub pixel : List ℕ → ℕ → ℕ → Bool
pixel rows r c = testbit (get_or rows r 0) c

-- Where the turned picture takes its row `r` and column `c` from.
abbrev pub turn : Rotate → ℕ → ℕ → ℕ × ℕ
turn rotate_0 r c = (r, c)
turn rotate_90 r c = (c, 7 - r)
turn rotate_180 r c = (7 - r, 7 - c)
turn rotate_270 r c = (7 - c, r)

abbrev pub masks_90 : List (ℕ × ℕ)
masks_90 =
    (8, 0xFF00FF00FF00FF00)
    ∷ (9, 0xAA00AA00AA00AA00)
    ∷ (16, 0xFFFF0000FFFF0000)
    ∷ (18, 0xCCCC0000CCCC0000)
    ∷ (32, 0xFFFFFFFF00000000)
    ∷ (36, 0xF0F0F0F000000000)
    ∷ []

abbrev pub masks_270 : List (ℕ × ℕ)
masks_270 =
    (8, 0xFF00FF00FF00FF00)
    ∷ (7, 0x5500550055005500)
    ∷ (16, 0xFFFF0000FFFF0000)
    ∷ (14, 0x3333000033330000)
    ∷ (32, 0xFFFFFFFF00000000)
    ∷ (28, 0x0F0F0F0F00000000)
    ∷ []

mask : (f c : ℕ) → c < 2 ^ 64 → all_below 64 (is_pairing f c) ≡ true → IsMask 64 f c
mask f c narrow paired = record { narrow = narrow; paired = paired }

pub masks_90-AreMasks : AreMasks 64 masks_90
unfolding all_below is_pairing testbit
masks_90-AreMasks = (
  mask 8 0xFF00FF00FF00FF00 (omega arith) refl,
  (
    mask 9 0xAA00AA00AA00AA00 (omega arith) refl,
    (
      mask 16 0xFFFF0000FFFF0000 (omega arith) refl,
      (
        mask 18 0xCCCC0000CCCC0000 (omega arith) refl,
        (
          mask 32 0xFFFFFFFF00000000 (omega arith) refl,
          (mask 36 0xF0F0F0F000000000 (omega arith) refl, tt),
        ),
      ),
    ),
  ),
)

pub masks_270-AreMasks : AreMasks 64 masks_270
unfolding all_below is_pairing testbit
masks_270-AreMasks = (
  mask 8 0xFF00FF00FF00FF00 (omega arith) refl,
  (
    mask 7 0x5500550055005500 (omega arith) refl,
    (
      mask 16 0xFFFF0000FFFF0000 (omega arith) refl,
      (
        mask 14 0x3333000033330000 (omega arith) refl,
        (
          mask 32 0xFFFFFFFF00000000 (omega arith) refl,
          (mask 28 0x0F0F0F0F00000000 (omega arith) refl, tt),
        ),
      ),
    ),
  ),
)

-- What the six swaps do to all 64 positions, by evaluation.
pub source_90 : (i : ℕ) → i < 64 → source masks_90 i ≡ 8 * (i % 8) + (7 - i / 8)
source_90 i h =
    (==_iff _ _).0 (holds_below 64 (λ j. source masks_90 j == 8 * (j % 8) + (7 - j / 8)) i h table)
  where
    table : all_below 64 (λ j. source masks_90 j == 8 * (j % 8) + (7 - j / 8)) ≡ true
    table = unfold all_below testbit in refl

pub source_270 : (i : ℕ) → i < 64 → source masks_270 i ≡ 8 * (7 - i % 8) + i / 8
source_270 i h =
    (==_iff _ _).0 (holds_below 64 (λ j. source masks_270 j == 8 * (7 - j % 8) + j / 8) i h table)
  where
    table : all_below 64 (λ j. source masks_270 j == 8 * (7 - j % 8) + j / 8) ≡ true
    table = unfold all_below testbit in refl

turn_90 :
    (rows : List ℕ) (r c : ℕ)
    → AreBytes rows
    → r < 8
    → c < 8
    → pixel (map_cb rotate_90 rows) r c ≡ pixel rows c (7 - r)
unfolding map_cb
turn_90 rows r c bytes hr hc =
    testbit-store64 (run 64 masks_90 (load64 rows)) r c hr hc
    ∙ testbit-run 64 masks_90 (load64 rows) (8 * r + c) masks_90-AreMasks (omega arith)
    ∙ ap (testbit (load64 rows)) (source_90 (8 * r + c) (omega arith) ∙ omega arith)
    ∙ testbit-load64 rows c (7 - r) bytes (omega arith)

turn_270 :
    (rows : List ℕ) (r c : ℕ)
    → AreBytes rows
    → r < 8
    → c < 8
    → pixel (map_cb rotate_270 rows) r c ≡ pixel rows (7 - c) r
unfolding map_cb
turn_270 rows r c bytes hr hc =
    testbit-store64 (run 64 masks_270 (load64 rows)) r c hr hc
    ∙ testbit-run 64 masks_270 (load64 rows) (8 * r + c) masks_270-AreMasks (omega arith)
    ∙ ap (testbit (load64 rows)) (source_270 (8 * r + c) (omega arith) ∙ omega arith)
    ∙ testbit-load64 rows (7 - c) r bytes (omega arith)

-- The five masked lines of the reversal.
abbrev pub lines_180 : List (ℕ × ℕ × ℕ)
lines_180 =
    (16, 0xFFFF0000FFFF0000, 0x0000FFFF0000FFFF)
    ∷ (8, 0xFF00FF00FF00FF00, 0x00FF00FF00FF00FF)
    ∷ (4, 0xF0F0F0F0F0F0F0F0, 0x0F0F0F0F0F0F0F0F)
    ∷ (2, 0xCCCCCCCCCCCCCCCC, 0x3333333333333333)
    ∷ (1, 0xAAAAAAAAAAAAAAAA, 0x5555555555555555)
    ∷ []

line : (f m n : ℕ) → m < 2 ^ 64 → all_below 64 (is_split f m n) ≡ true → IsLine 64 f m n
line f m n narrow split = record { narrow = narrow; split = split }

pub lines_180-AreLines : AreLines 64 lines_180
unfolding all_below is_split testbit
lines_180-AreLines = (
  line 16 0xFFFF0000FFFF0000 0x0000FFFF0000FFFF (omega arith) refl,
  (
    line 8 0xFF00FF00FF00FF00 0x00FF00FF00FF00FF (omega arith) refl,
    (
      line 4 0xF0F0F0F0F0F0F0F0 0x0F0F0F0F0F0F0F0F (omega arith) refl,
      (
        line 2 0xCCCCCCCCCCCCCCCC 0x3333333333333333 (omega arith) refl,
        (line 1 0xAAAAAAAAAAAAAAAA 0x5555555555555555 (omega arith) refl, tt),
      ),
    ),
  ),
)

pub source_180 : (i : ℕ) → i < 64 → halves 32 (origin lines_180 i) ≡ 63 - i
source_180 i h =
    (==_iff _ _).0 (holds_below 64 (λ j. halves 32 (origin lines_180 j) == 63 - j) i h table)
  where
    table : all_below 64 (λ j. halves 32 (origin lines_180 j) == 63 - j) ≡ true
    table = unfold all_below testbit in refl

turn_180 :
    (rows : List ℕ) (r c : ℕ)
    → AreBytes rows
    → length rows ≡ 8
    → r < 8
    → c < 8
    → pixel (map_cb rotate_180 rows) r c ≡ pixel rows (7 - r) (7 - c)
unfolding map_cb
turn_180 rows r c bytes eight hr hc =
    testbit-store64 (exchange_run 64 lines_180 (swapped rows)) r c hr hc
    ∙ testbit-exchange_run 64 lines_180 (swapped rows) (8 * r + c) lines_180-AreLines (omega arith)
    ∙ testbit-halves 32 (load64 rows) (origin lines_180 (8 * r + c)) (load64-lt rows bytes eight)
        (origin-lt 64 lines_180 (8 * r + c) lines_180-AreLines (omega arith))
    ∙ ap (testbit (load64 rows)) (source_180 (8 * r + c) (omega arith) ∙ omega arith)
    ∙ testbit-load64 rows (7 - r) (7 - c) bytes (omega arith)
  where
    swapped : List ℕ → ℕ
    swapped bs = bit_or (load64 bs >>> 32) (u64 (load64 bs <<< 32))

-- Each map callback is a rotation of the picture of 64 LEDs: row `r` and column `c` of its
-- result, both below 8, is the LED of the argument that `turn` names, for every eight bytes.
pub pixel-map_cb :
    (rot : Rotate) (rows : List ℕ) (r c : ℕ)
    → AreBytes rows
    → length rows ≡ 8
    → r < 8
    → c < 8
    → pixel (map_cb rot rows) r c ≡ pixel rows (turn rot r c).0 (turn rot r c).1
unfolding map_cb
pixel-map_cb rotate_0 rows r c bytes eight hr hc = refl
pixel-map_cb rotate_90 rows r c bytes eight hr hc = turn_90 rows r c bytes hr hc
pixel-map_cb rotate_180 rows r c bytes eight hr hc = turn_180 rows r c bytes eight hr hc
pixel-map_cb rotate_270 rows r c bytes eight hr hc = turn_270 rows r c bytes hr hc
