-- ===== src/Rotation/Levels/Laws.antt =====
-- The level map callbacks of src/rotation.c as rotations of the 8 by 8 picture of levels.
use libmonome.Common.{ℕ, zero, suc, ◌+◌, ◌-◌, ◌*◌, ◌≤◌, ◌<◌, ◌≡◌, refl, ap, ◌∙◌}
use libmonome.Common.{List, length, get_or, set, length-set, get_or-set_self, get_or-set_ne}
use libmonome.Common.{◌≢◌, arith, bit_and, ◌⊎◌, inl, inr}
use libmonome.Common.Bits.{bit_and_ones}
use libmonome.Device.{Rotate, rotate_0, rotate_90, rotate_180, rotate_270}
use libmonome.Rotation.Levels.{copy_loop, from_90, from_270, level_map_cb}
use libmonome.Rotation.Map.Laws.{turn}

module _ (to from : ℕ → ℕ) (src : List ℕ) where
  pub length-copy_loop :
      (left i : ℕ) (dst : List ℕ) → length (copy_loop to from src left i dst) ≡ length dst
  unfolding copy_loop
  length-copy_loop zero i dst = refl
  length-copy_loop (suc left) i dst =
      length-copy_loop left (suc i) (set dst (to i) (get_or src (from i) 0))
      ∙ length-set dst (to i) (get_or src (from i) 0)

  -- A cell that no round writes keeps its value.
  copy_outside :
      (left i p : ℕ) (dst : List ℕ)
      → ((j : ℕ) → i ≤ j → j < i + left → to j ≢ p)
      → get_or (copy_loop to from src left i dst) p 0 ≡ get_or dst p 0
  unfolding copy_loop
  copy_outside zero i p dst h = refl
  copy_outside (suc left) i p dst h =
      copy_outside left (suc i) p (set dst (to i) (get_or src (from i) 0))
        (λ j lo hi. h j (omega arith) (omega arith))
      ∙ get_or-set_ne dst (to i) p (get_or src (from i) 0) 0 (h i (omega arith) (omega arith))

  -- If no cell is written twice, the cell of round `j` holds what that round copied.
  copy_inside :
      (left i j : ℕ) (dst : List ℕ)
      → ((a b : ℕ) → a < i + left → b < i + left → to a ≡ to b → a ≡ b)
      → i ≤ j
      → j < i + left
      → to j < length dst
      → get_or (copy_loop to from src left i dst) (to j) 0 ≡ get_or src (from j) 0
  unfolding copy_loop
  copy_inside zero i j dst inj lo hi room = absurd (omega arith)
  copy_inside (suc left) i j dst inj lo hi room = elim (first_or_later i j lo) [
    | inl e ↦
        copy_outside left (suc i) (to j) (set dst (to i) (get_or src (from i) 0))
          (λ k klo khi same. absurd (omega (arith, inj k j (omega arith) hi same)))
        ∙ rw (← e) (get_or-set_self dst (to i) (get_or src (from i) 0) 0 (rw e room))
    | inr later ↦
        copy_inside left (suc i) j (set dst (to i) (get_or src (from i) 0))
          (λ a b ha hb same. inj a b (omega arith) (omega arith) same) later (omega arith)
          (rw (length-set dst (to i) (get_or src (from i) 0)) room)
  ]
    where
      first_or_later : (a b : ℕ) → a ≤ b → (a ≡ b) ⊎ (a < b)
      first_or_later a b h = omega arith

-- The level at row `r` and column `c` of a picture of 64.
abbrev pub level : List ℕ → ℕ → ℕ → ℕ
level levels r c = get_or levels (8 * r + c) 0

column : (r c : ℕ) → c < 8 → bit_and (8 * r + c) 7 ≡ c
column r c h = bit_and_ones 3 (8 * r + c) ∙ omega arith

copied :
    (from : ℕ → ℕ) (src dst : List ℕ) (p q : ℕ)
    → length dst ≡ 64
    → p < 64
    → from p ≡ q
    → get_or (copy_loop (λ i. i) from src 64 0 dst) p 0 ≡ get_or src q 0
copied from src dst p q full lt e =
    copy_inside (λ i. i) from src 64 0 p dst (λ a b _ _ same. same) (omega arith) lt (rw full lt)
    ∙ ap (λ t. get_or src t 0) e

level_180 :
    (src dst : List ℕ) (p : ℕ)
    → length dst ≡ 64
    → p < 64
    → get_or (level_map_cb rotate_180 dst src) p 0 ≡ get_or src (63 - p) 0
unfolding level_map_cb
level_180 src dst p full lt =
    ap (λ t. get_or (copy_loop (λ i. 63 - i) (λ i. i) src 64 0 dst) t 0) (twice p lt)
    ∙ copy_inside (λ i. 63 - i) (λ i. i) src 64 0 (63 - p) dst (λ a b ha hb same. omega arith)
        (omega arith) (omega arith) (omega arith)
  where
    twice : (a : ℕ) → a < 64 → a ≡ 63 - (63 - a)
    twice a h = omega arith

-- Each level map callback turns the picture of 64 levels as the map callback of the same
-- rotation turns bits: row `r` and column `c` of its result, both below 8, is the level of the
-- source that `turn` names, whatever the 64 cells of the destination held.
pub level-level_map_cb :
    (rot : Rotate) (dst src : List ℕ) (r c : ℕ)
    → length dst ≡ 64
    → r < 8
    → c < 8
    → level (level_map_cb rot dst src) r c ≡ level src (turn rot r c).0 (turn rot r c).1
unfolding level_map_cb
level-level_map_cb rotate_0 dst src r c full hr hc =
    copied (λ i. i) src dst (8 * r + c) (8 * r + c) full (omega arith) refl
level-level_map_cb rotate_90 dst src r c full hr hc =
    copied from_90 src dst (8 * r + c) (8 * c + (7 - r)) full (omega arith)
      (omega (arith, column r c hc))
level-level_map_cb rotate_180 dst src r c full hr hc =
    level_180 src dst (8 * r + c) full (omega arith) ∙ ap (λ t. get_or src t 0) (omega arith)
level-level_map_cb rotate_270 dst src r c full hr hc =
    copied from_270 src dst (8 * r + c) (8 * (7 - c) + r) full (omega arith)
      (omega (arith, column r c hc))

pub length-level_map_cb :
    (rot : Rotate) (dst src : List ℕ) → length (level_map_cb rot dst src) ≡ length dst
unfolding level_map_cb
length-level_map_cb rotate_0 dst src = length-copy_loop (λ i. i) (λ i. i) src 64 0 dst
length-level_map_cb rotate_90 dst src = length-copy_loop (λ i. i) from_90 src 64 0 dst
length-level_map_cb rotate_180 dst src = length-copy_loop (λ i. 63 - i) (λ i. i) src 64 0 dst
length-level_map_cb rotate_270 dst src = length-copy_loop (λ i. i) from_270 src 64 0 dst
