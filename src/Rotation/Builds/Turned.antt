-- ===== src/Rotation/Builds/Turned.antt =====
-- The bit map callbacks of src/rotation.c on 32-bit machines turn the picture.
use libmonome.Common.{
  ℕ, zero, suc, ◌-◌, ◌%◌, ◌^◌, ◌<◌, ◌≡◌, refl, ap, ap₂, ◌∙◌, arith, List, [], ◌∷◌, length, drop,
  Bool, true, false, ltb, ◌==◌, ==_iff, if◌then◌else◌, bit_and, bit_or, u32, ◌<<<◌, ◌>>>◌,
}
use libmonome.Common.Bits.{testbit, all_below, holds_below}
use libmonome.Device.{rotate_90, rotate_180, rotate_270}
use libmonome.Rotation.Map.Bytes.{AreBytes}
use libmonome.Rotation.Map.Swap.{run}
use libmonome.Rotation.Map.Exchange.{
  is_split, IsLine, AreLines, origin, origin-lt, halves, testbit-exchange_run, testbit-halves,
}
use libmonome.Rotation.Map.Laws.{pixel, turn}
use libmonome.Rotation.Builds.{
  Endian, little, big, ilp32, both, low, high, r90_swaps, r270_swaps, swaps_9_18, swaps_7_14,
  reversed, map_cb_on,
}
use libmonome.Rotation.Builds.Words.{load-lt, drop-AreBytes}
use libmonome.Rotation.Builds.Lines.{line, testbit-bit_or_comm}
use libmonome.Rotation.Builds.Short.{
  word, row_of, place, place-lt, pixel-both, testbit-word, r90_masks, r270_masks,
  r90_masks-AreMasks, r270_masks-AreMasks, table_90, table_270, turn_lines,
}

r90_swaps-run : (e : Endian) (x : ℕ) → r90_swaps e x ≡ run 32 (r90_masks e) x
unfolding swaps_9_18 swaps_7_14
r90_swaps-run little x = refl
r90_swaps-run big x = refl

r270_swaps-run : (e : Endian) (x : ℕ) → r270_swaps e x ≡ run 32 (r270_masks e) x
unfolding swaps_9_18 swaps_7_14
r270_swaps-run little x = refl
r270_swaps-run big x = refl

-- The second words are written with their parts in the other order.
turn_over :
    (first : Bool) (w a b p : ℕ)
    → testbit (if first then w else bit_or a b) p ≡ testbit (if first then w else bit_or b a) p
turn_over true w a b p = refl
turn_over false w a b p = testbit-bit_or_comm a b p

module _ (e : Endian) (rows : List ℕ) (r c : ℕ) (bytes : AreBytes rows) (hr : r < 8)
    (hc : c < 8) where
  pub turned_90 : pixel (map_cb_on (ilp32 e) rotate_90 rows) r c ≡ pixel rows c (7 - r)
  unfolding map_cb_on
  turned_90 =
      ap₂
        (λ x y.
          pixel
            (both e (line true y x)
              (bit_or (bit_and x 0x0F0F0F0F) (u32 (bit_and y 0x0F0F0F0F <<< 4))))
            r c)
        (r90_swaps-run e (low e rows)) (r90_swaps-run e (high e rows))
      ∙ pixel-both e _ _ r c hr hc
      ∙ turn_over (ltb r 4) _ _ _ (place e r c)
      ∙ turn_lines e true (r90_masks e) (turn rotate_90) rows r c (r90_masks-AreMasks e)
          (table_90 e) bytes hr hc

  pub turned_270 : pixel (map_cb_on (ilp32 e) rotate_270 rows) r c ≡ pixel rows (7 - c) r
  unfolding map_cb_on
  turned_270 =
      ap₂
        (λ x y.
          pixel
            (both e (line false y x) (bit_or (bit_and x 0xF0F0F0F0) (bit_and y 0xF0F0F0F0 >>> 4))) r
            c)
        (r270_swaps-run e (low e rows)) (r270_swaps-run e (high e rows))
      ∙ pixel-both e _ _ r c hr hc
      ∙ turn_over (ltb r 4) _ _ _ (place e r c)
      ∙ turn_lines e false (r270_masks e) (turn rotate_270) rows r c (r270_masks-AreMasks e)
          (table_270 e) bytes hr hc

-- The four masked lines of the reversal of one word.
abbrev lines_32 : List (ℕ × ℕ × ℕ)
lines_32 =
    (8, 0xFF00FF00, 0x00FF00FF)
    ∷ (4, 0xF0F0F0F0, 0x0F0F0F0F)
    ∷ (2, 0xCCCCCCCC, 0x33333333)
    ∷ (1, 0xAAAAAAAA, 0x55555555)
    ∷ []

masked : (f m n : ℕ) → m < 2 ^ 32 → all_below 32 (is_split f m n) ≡ true → IsLine 32 f m n
masked f m n narrow split = record { narrow = narrow; split = split }

lines_32-AreLines : AreLines 32 lines_32
unfolding all_below is_split testbit
lines_32-AreLines = (
  masked 8 0xFF00FF00 0x00FF00FF (omega arith) refl,
  (
    masked 4 0xF0F0F0F0 0x0F0F0F0F (omega arith) refl,
    (
      masked 2 0xCCCCCCCC 0x33333333 (omega arith) refl,
      (masked 1 0xAAAAAAAA 0x55555555 (omega arith) refl, tt),
    ),
  ),
)

origin_32 : (i : ℕ) → i < 32 → halves 16 (origin lines_32 i) ≡ 31 - i
origin_32 i h =
    (==_iff _ _).0 (holds_below 32 (λ j. halves 16 (origin lines_32 j) == 31 - j) i h table)
  where
    table : all_below 32 (λ j. halves 16 (origin lines_32 j) == 31 - j) ≡ true
    table = unfold all_below testbit in refl

testbit-reversed : (x i : ℕ) → x < 2 ^ 32 → i < 32 → testbit (reversed x) i ≡ testbit x (31 - i)
unfolding reversed
testbit-reversed x i narrow h =
    testbit-exchange_run 32 lines_32 (bit_or (x >>> 16) (u32 (x <<< 16))) i lines_32-AreLines h
    ∙ testbit-halves 16 x (origin lines_32 i) narrow (origin-lt 32 lines_32 i lines_32-AreLines h)
    ∙ ap (testbit x) (origin_32 i h)

length-drop : (n : ℕ) (bs : List ℕ) → length (drop n bs) ≡ length bs - n
length-drop zero bs = omega arith
length-drop (suc n) [] = omega arith
length-drop (suc n) (b ∷ bs) = length-drop n bs ∙ omega arith

word-lt :
    (e : Endian) (second : Bool) (rows : List ℕ)
    → AreBytes rows
    → length rows ≡ 8
    → word e second rows < 2 ^ 32
word-lt e true rows h eight =
    omega (
      arith,
      load-lt e 4 (drop 4 rows) (drop-AreBytes 4 rows h) (omega (arith, length-drop 4 rows)),
    )
word-lt e false rows h eight = omega (arith, load-lt e 4 rows h (omega arith))

-- A reversed word shows its rows and columns backwards.
reversed-word :
    (e : Endian) (second : Bool) (rows : List ℕ) (r c : ℕ)
    → AreBytes rows
    → length rows ≡ 8
    → c < 8
    → testbit (reversed (word e second rows)) (place e r c)
      ≡ pixel rows (row_of e second (31 - place e r c)) (7 - c)
reversed-word e second rows r c h eight hc =
    testbit-reversed (word e second rows) (place e r c) (word-lt e second rows h eight)
      (place-lt e r c hc)
    ∙ testbit-word e second rows (31 - place e r c) h (omega arith)
    ∙ ap (pixel rows (row_of e second (31 - place e r c))) (last_column e r c hc)
  where
    last_column : (e : Endian) (r c : ℕ) → c < 8 → (31 - place e r c) % 8 ≡ 7 - c
    last_column little r c h = omega arith
    last_column big r c h = omega arith

opposite : (e : Endian) (r c : ℕ) → r < 8 → c < 8 → row_of e (ltb r 4) (31 - place e r c) ≡ 7 - r
opposite little r c hr hc = ground arith
opposite big r c hr hc = ground arith

pub turned_180 :
    (e : Endian) (rows : List ℕ) (r c : ℕ)
    → AreBytes rows
    → length rows ≡ 8
    → r < 8
    → c < 8
    → pixel (map_cb_on (ilp32 e) rotate_180 rows) r c ≡ pixel rows (7 - r) (7 - c)
unfolding map_cb_on
turned_180 e rows r c h eight hr hc =
    pixel-both e (reversed (high e rows)) (reversed (low e rows)) r c hr hc
    ∙ chosen (ltb r 4)
    ∙ reversed-word e (ltb r 4) rows r c h eight hc
    ∙ ap (λ k. pixel rows k (7 - c)) (opposite e r c hr hc)
  where
    chosen :
        (first : Bool)
        → testbit (if first then reversed (high e rows) else reversed (low e rows)) (place e r c)
          ≡ testbit (reversed (word e first rows)) (place e r c)
    chosen true = refl
    chosen false = refl
