-- ===== src/Rotation/Builds/Short.antt =====
-- The bit map callbacks of src/rotation.c on 32-bit machines, as rotations.
use libmonome.Common.{
  ℕ, zero, suc, ◌+◌, ◌-◌, ◌*◌, ◌/◌, ◌%◌, ◌^◌, ◌<◌, ◌≡◌, refl, ap, ap₂, ◌∙◌, arith, List, [], ◌∷◌,
  ◌++◌, length, drop, get_or, get_or-drop, Bool, true, false, not, xor, ◌&&◌, ltb, ◌==◌, ==_iff,
  if◌then◌else◌, Bool-cases, inl, inr,
}
use libmonome.Common.Bits.{testbit, all_below, holds_below}
use libmonome.Device.{rotate_90, rotate_270}
use libmonome.Rotation.Map.Bytes.{AreBytes}
use libmonome.Rotation.Map.Swap.{IsMask, AreMasks, is_pairing, run, source, source-lt, testbit-run}
use libmonome.Rotation.Map.Laws.{pixel, turn}
use libmonome.Rotation.Builds.{Endian, little, big, store, low, high, both}
use libmonome.Rotation.Builds.Words.{byte_at, testbit-load, testbit-store, drop-AreBytes}
use libmonome.Rotation.Builds.Lines.{stays, moved, line, testbit-line-moved}

abbrev pub masks_9_18 : List (ℕ × ℕ)
masks_9_18 = (8, 0xFF00FF00) ∷ (9, 0xAA00AA00) ∷ (16, 0xFFFF0000) ∷ (18, 0xCCCC0000) ∷ []

abbrev pub masks_7_14 : List (ℕ × ℕ)
masks_7_14 = (8, 0xFF00FF00) ∷ (7, 0x55005500) ∷ (16, 0xFFFF0000) ∷ (14, 0x33330000) ∷ []

mask : (f c : ℕ) → c < 2 ^ 32 → all_below 32 (is_pairing f c) ≡ true → IsMask 32 f c
mask f c narrow paired = record { narrow = narrow; paired = paired }

masks_9_18-AreMasks : AreMasks 32 masks_9_18
unfolding all_below is_pairing testbit
masks_9_18-AreMasks = (
  mask 8 0xFF00FF00 (omega arith) refl,
  (
    mask 9 0xAA00AA00 (omega arith) refl,
    (mask 16 0xFFFF0000 (omega arith) refl, (mask 18 0xCCCC0000 (omega arith) refl, tt)),
  ),
)

masks_7_14-AreMasks : AreMasks 32 masks_7_14
unfolding all_below is_pairing testbit
masks_7_14-AreMasks = (
  mask 8 0xFF00FF00 (omega arith) refl,
  (
    mask 7 0x55005500 (omega arith) refl,
    (mask 16 0xFFFF0000 (omega arith) refl, (mask 14 0x33330000 (omega arith) refl, tt)),
  ),
)

-- The second word of the map, or the first.
abbrev pub word : Endian → Bool → List ℕ → ℕ
word e second rows = if second then high e rows else low e rows

-- The row that holds digit `k` of a word.
abbrev pub row_of : Endian → Bool → ℕ → ℕ
row_of e second k = if second then 4 + byte_at e 4 (k / 8) else byte_at e 4 (k / 8)

pub testbit-word :
    (e : Endian) (second : Bool) (rows : List ℕ) (k : ℕ)
    → AreBytes rows
    → k < 32
    → testbit (word e second rows) k ≡ pixel rows (row_of e second k) (k % 8)
testbit-word e true rows k h lt =
    ap (testbit (high e rows)) (omega arith)
    ∙ testbit-load e 4 (drop 4 rows) (k / 8) (k % 8) (drop-AreBytes 4 rows h) (omega arith)
        (omega arith)
    ∙ ap (λ b. testbit b (k % 8)) (get_or-drop 4 rows (byte_at e 4 (k / 8)) 0)
testbit-word e false rows k h lt =
    ap (testbit (low e rows)) (omega arith)
    ∙ testbit-load e 4 rows (k / 8) (k % 8) h (omega arith) (omega arith)

get_or-append :
    (xs ys : List ℕ) (i : ℕ)
    → get_or (xs ++ ys) i 0
      ≡ (if ltb i (length xs) then get_or xs i 0 else get_or ys (i - length xs) 0)
get_or-append [] ys i = ground arith
get_or-append (x ∷ xs) ys zero = ground arith
get_or-append (x ∷ xs) ys (suc i) = ground (arith, get_or-append xs ys i)

length-store : (e : Endian) (x : ℕ) → length (store e 4 x) ≡ 4
unfolding store
length-store little x = refl
length-store big x = refl

-- The digit of a result that is row `r` and column `c`.
abbrev pub place : Endian → ℕ → ℕ → ℕ
place e r c = 8 * byte_at e 4 (r % 4) + c

pub pixel-both :
    (e : Endian) (x y r c : ℕ)
    → r < 8
    → c < 8
    → pixel (both e x y) r c ≡ testbit (if ltb r 4 then x else y) (place e r c)
pixel-both e x y r c hr hc = elim (Bool-cases (ltb r 4)) [
  | inl first ↦ rw first (
      ap (λ b. testbit b c)
        (get_or-append (store e 4 x) (store e 4 y) r ∙ ground (arith, length-store e x))
      ∙ testbit-store e 4 x r c (ground arith) hc
      ∙ ap (λ k. testbit x (8 * byte_at e 4 k + c)) (ground arith))
  | inr second ↦ rw second (
      ap (λ b. testbit b c)
        (get_or-append (store e 4 x) (store e 4 y) r
          ∙ ground (
            arith,
            length-store e x,
            ap (λ k. get_or (store e 4 y) (r - k) 0) (length-store e x),
          ))
      ∙ testbit-store e 4 y (r - 4) c (ground arith) hc
      ∙ ap (λ k. testbit y (8 * byte_at e 4 k + c)) (ground arith))
]

moved-lt : (up : Bool) (i : ℕ) → i < 32 → moved up i < 32
unfolding all_below testbit
moved-lt true i h = ground (arith, holds_below 32 (λ j. ltb (moved true j) 32) i h refl)
moved-lt false i h = ground (arith, holds_below 32 (λ j. ltb (moved false j) 32) i h refl)

-- Where a digit of the second word of a result, or of the first, comes from.
pub turn_line :
    (e : Endian) (second up : Bool) (masks : List (ℕ × ℕ)) (rows : List ℕ) (i : ℕ)
    → AreMasks 32 masks
    → AreBytes rows
    → i < 32
    → let from = source masks (moved up i) in
      testbit
        (line up (run 32 masks (word e (not second) rows)) (run 32 masks (word e second rows)))
        i
      ≡ pixel rows (row_of e (xor (stays up i) second) from) (from % 8)
turn_line e second up masks rows i ms h lt =
    testbit-line-moved up (of (not second)) (of second) i lt
    ∙ ap (λ w. testbit w (moved up i)) (chosen (stays up i) second)
    ∙ testbit-run 32 masks (word e (xor (stays up i) second) rows) (moved up i) ms
        (moved-lt up i lt)
    ∙ testbit-word e (xor (stays up i) second) rows (source masks (moved up i)) h
        (source-lt 32 masks (moved up i) ms (moved-lt up i lt))
  where
    of : Bool → ℕ
    of b = run 32 masks (word e b rows)

    chosen : (here b : Bool) → (if here then of (not b) else of b) ≡ of (xor here b)
    chosen true b = refl
    chosen false b = refl

abbrev pub r90_masks : Endian → List (ℕ × ℕ)
r90_masks little = masks_9_18
r90_masks big = masks_7_14

abbrev pub r270_masks : Endian → List (ℕ × ℕ)
r270_masks little = masks_7_14
r270_masks big = masks_9_18

pub r90_masks-AreMasks : (e : Endian) → AreMasks 32 (r90_masks e)
r90_masks-AreMasks little = masks_9_18-AreMasks
r90_masks-AreMasks big = masks_7_14-AreMasks

pub r270_masks-AreMasks : (e : Endian) → AreMasks 32 (r270_masks e)
r270_masks-AreMasks little = masks_7_14-AreMasks
r270_masks-AreMasks big = masks_9_18-AreMasks

-- Whether digit `i` of a word of a result comes from the place `at`.
abbrev pub is_from : Endian → Bool → Bool → List (ℕ × ℕ) → ℕ → ℕ × ℕ → Bool
is_from e second up masks i at =
    let from = source masks (moved up i) in
    row_of e (xor (stays up i) second) from == at.0 && from % 8 == at.1

-- Whether row `r` and column `c` of a result come from the place that is meant.
abbrev pub is_turned : Endian → Bool → List (ℕ × ℕ) → (ℕ → ℕ → ℕ × ℕ) → ℕ → ℕ → Bool
is_turned e first_up masks meant r c =
    if ltb r 4
    then is_from e false first_up masks (place e r c) (meant r c)
    else is_from e true (not first_up) masks (place e r c) (meant r c)

abbrev pub all_turned : Endian → Bool → List (ℕ × ℕ) → (ℕ → ℕ → ℕ × ℕ) → Bool
all_turned e first_up masks meant =
    all_below 64 (λ p. is_turned e first_up masks meant (p / 8) (p % 8))

pub table_90 : (e : Endian) → all_turned e true (r90_masks e) (turn rotate_90) ≡ true
unfolding all_below testbit
table_90 little = refl
table_90 big = refl

pub table_270 : (e : Endian) → all_turned e false (r270_masks e) (turn rotate_270) ≡ true
unfolding all_below testbit
table_270 little = refl
table_270 big = refl

turn_line_at :
    (e : Endian) (second up : Bool) (masks : List (ℕ × ℕ)) (rows : List ℕ) (i : ℕ) (at : ℕ × ℕ)
    → AreMasks 32 masks
    → AreBytes rows
    → i < 32
    → is_from e second up masks i at ≡ true
    → testbit
        (line up (run 32 masks (word e (not second) rows)) (run 32 masks (word e second rows)))
        i
      ≡ pixel rows at.0 at.1
turn_line_at e second up masks rows i at ms h lt same =
    turn_line e second up masks rows i ms h lt
    ∙ ap₂ (pixel rows) ((==_iff _ _).0 (both_true _ _ same).0)
        ((==_iff _ _).0 (both_true _ _ same).1)
  where
    both_true : (a b : Bool) → (a && b) ≡ true → (a ≡ true) × (b ≡ true)
    both_true a b t = ground arith

pub place-lt : (e : Endian) (r c : ℕ) → c < 8 → place e r c < 32
place-lt little r c h = omega arith
place-lt big r c h = omega arith

-- Both words of a result, from a table of all 64 places.
pub turn_lines :
    (e : Endian) (first_up : Bool) (masks : List (ℕ × ℕ)) (meant : ℕ → ℕ → ℕ × ℕ) (rows : List ℕ)
    (r c : ℕ)
    → AreMasks 32 masks
    → all_turned e first_up masks meant ≡ true
    → AreBytes rows
    → r < 8
    → c < 8
    → let of = λ (b : Bool). run 32 masks (word e b rows) in
      testbit
        (if ltb r 4
          then line first_up (of true) (of false)
          else line (not first_up) (of false) (of true))
        (place e r c)
      ≡ pixel rows (meant r c).0 (meant r c).1
turn_lines e first_up masks meant rows r c ms table h hr hc = elim (Bool-cases (ltb r 4)) [
  | inl first ↦ rw first (
      turn_line_at e false first_up masks rows (place e r c) (meant r c) ms h (place-lt e r c hc)
        (rw first at turned))
  | inr second ↦ rw second (
      turn_line_at e true (not first_up) masks rows (place e r c) (meant r c) ms h
        (place-lt e r c hc) (rw second at turned))
]
  where
    turned : is_turned e first_up masks meant r c ≡ true
    turned =
        ap₂ (is_turned e first_up masks meant) {x = r} {y = (8 * r + c) / 8} {u = c}
          {v = (8 * r + c) % 8} (omega arith) (omega arith)
        ∙ holds_below 64 (λ p. is_turned e first_up masks meant (p / 8) (p % 8)) (8 * r + c)
            (omega arith) table
