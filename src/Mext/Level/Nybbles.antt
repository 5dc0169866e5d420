-- ===== src/Mext/Level/Nybbles.antt =====
-- What `mext_led_level_map` of src/proto/mext.c packs into its message.
use libmonome.Common.{
  ℕ, zero, suc, ◌+◌, ◌*◌, ◌/◌, ◌%◌, ◌≤◌, ◌<◌, ◌≡◌, refl, sym, ap, ap₂, ◌∙◌, arith, List, [], ◌∷◌,
  length, get_or, set, ◌==◌, if◌then◌else◌, u8, bit_or, bit_and, ◌<<<◌, replicate, length-set,
  get_or-set_self, get_or-set_ne, Bool-cases, inl, inr, take, take-append, get_or-take, ◌++◌,
}
use libmonome.Common.Bits.{bit_and_ones, bit_or_fields}
use libmonome.Device.{Device, platform_write}
use libmonome.Rotation.Coords.{rotate_coords}
use libmonome.Rotation.Map.Laws.{turn}
use libmonome.Rotation.Levels.{level_map_cb}
use libmonome.Rotation.Levels.Laws.{level, level-level_map_cb, length-level_map_cb}
use libmonome.Frame.Draws.{sending}
use libmonome.Mext.Message.{mext_write_msg}
use libmonome.Mext.Level.{nybbles, pack_loop, pack_nybbles, mext_led_level_map}

-- The k-th nybble of a run of bytes, the high one of each byte first.
abbrev pub nybble : List ℕ → ℕ → ℕ
nybble bytes k = if k % 2 == 0 then get_or bytes (k / 2) 0 / 16 else get_or bytes (k / 2) 0 % 16

packed : (a b : ℕ) → u8 (bit_or (a <<< 4) (bit_and b 0x0F)) ≡ u8 (a * 16 + b % 16)
packed a b =
    ap u8 (ap (bit_or (a <<< 4)) (bit_and_ones 4 b) ∙ bit_or_fields 4 a (b % 16) (omega arith))

-- Packing in place reads no level that it has overwritten.
pack_loop-below :
    (left i : ℕ) (levels : List ℕ) (k : ℕ)
    → k < i
    → get_or (pack_loop left i levels) k 0 ≡ get_or levels k 0
unfolding pack_loop
pack_loop-below zero i levels k h = refl
pack_loop-below (suc left) i levels k h =
    pack_loop-below left (suc i) (set levels i (nybbles levels i)) k (omega arith)
    ∙ get_or-set_ne levels i k (nybbles levels i) 0 (λ e. omega (arith, e))

pack_loop-nybbles :
    (left i : ℕ) (levels : List ℕ) (k : ℕ)
    → i + left ≤ length levels
    → i ≤ k
    → k < i + left
    → get_or (pack_loop left i levels) k 0 ≡ nybbles levels k
unfolding pack_loop
pack_loop-nybbles zero i levels k fits above below = absurd (omega arith)
pack_loop-nybbles (suc left) i levels k fits above below = elim (Bool-cases (k == i)) [
  | inl first ↦
      pack_loop-below left (suc i) (set levels i (nybbles levels i)) k (ground (arith, first))
      ∙ ap (λ j. get_or (set levels i (nybbles levels i)) j 0) {y = i} (ground (arith, first))
      ∙ get_or-set_self levels i (nybbles levels i) 0 (omega arith)
      ∙ ap (nybbles levels) {x = i} (ground (arith, first))
  | inr later ↦
      pack_loop-nybbles left (suc i) (set levels i (nybbles levels i)) k
        (omega (arith, length-set levels i (nybbles levels i))) (ground (arith, later))
        (omega arith)
      ∙ ap₂ (λ a b. u8 (bit_or (a <<< 4) (bit_and b 0x0F)))
          (get_or-set_ne levels i (k * 2) (nybbles levels i) 0 (λ e. ground (arith, later)))
          (get_or-set_ne levels i (k * 2 + 1) (nybbles levels i) 0 (λ e. ground (arith, later)))
]

nybble-pack_nybbles :
    (levels : List ℕ) (n k : ℕ)
    → n ≤ length levels
    → k < 2 * n
    → nybble (pack_nybbles levels n) k ≡ get_or levels k 0 % 16
unfolding pack_nybbles
nybble-pack_nybbles levels n k fits h = elim (Bool-cases (k % 2 == 0)) [
  | inl even ↦ ground (
    arith,
    even,
    pack_loop-nybbles n 0 levels (k / 2) (omega arith) (omega arith) (omega arith),
    packed (get_or levels (k / 2 * 2) 0) (get_or levels (k / 2 * 2 + 1) 0),
    ap (λ j. get_or levels j 0) {x = k / 2 * 2} {y = k} (ground (arith, even)),
  )
  | inr odd ↦ ground (
    arith,
    odd,
    pack_loop-nybbles n 0 levels (k / 2) (omega arith) (omega arith) (omega arith),
    packed (get_or levels (k / 2 * 2) 0) (get_or levels (k / 2 * 2 + 1) 0),
    ap (λ j. get_or levels j 0) {x = k / 2 * 2 + 1} {y = k} (ground (arith, odd)),
  )
]

length-pack_loop : (left i : ℕ) (levels : List ℕ) → length (pack_loop left i levels) ≡ length levels
unfolding pack_loop
length-pack_loop zero i levels = refl
length-pack_loop (suc left) i levels =
    length-pack_loop left (suc i) (set levels i (nybbles levels i))
    ∙ length-set levels i (nybbles levels i)

length-take : (n : ℕ) (xs : List ℕ) → n ≤ length xs → length (take n xs) ≡ n
length-take zero xs h = refl
length-take (suc n) [] h = absurd (omega arith)
length-take (suc n) (x ∷ xs) h = ap suc (length-take n xs (omega arith))

nybble-take :
    (n : ℕ) (bytes : List ℕ) (k : ℕ) → k < 2 * n → nybble (take n bytes) k ≡ nybble bytes k
nybble-take n bytes k h =
    ap (λ b. if k % 2 == 0 then b / 16 else b % 16) (get_or-take n bytes (k / 2) 0 (omega arith))

-- `mext_led_level_map` writes one message, with the rotated offset and 32 bytes, and changes
-- nothing else; the nybble of the bytes for row `r` and column `c` of the block, both below 8,
-- is the low half of the level that the device's rotation puts there. So packing two levels to a
-- byte, in place, reads no level that it has overwritten.
pub mext_led_level_map-nybble :
    (d : Device) (x_off y_off : ℕ) (levels : List ℕ) (r c : ℕ)
    → r < 8
    → c < 8
    → let p = rotate_coords d (x_off, y_off) in
      let t = turn d.rotation r c in
      (payload : List ℕ) × ((mext_led_level_map x_off y_off levels d).1
        ≡ sending d ((0x1A ∷ u8 p.0 ∷ u8 p.1 ∷ payload) ∷ []))
      × (length payload ≡ 32)
      × (nybble payload (8 * r + c) ≡ level levels t.0 t.1 % 16)
unfolding mext_led_level_map mext_write_msg platform_write
mext_led_level_map-nybble d x_off y_off levels r c hr hc = (
  take 32 bytes,
  ap (λ (t : List ℕ). sending d ((0x1A ∷ u8 p.0 ∷ u8 p.1 ∷ take 32 t) ∷ []))
      (ap (λ k. take k (bytes ++ replicate 66 0)) (sym full) ∙ take-append bytes (replicate 66 0)),
  length-take 32 bytes (omega (arith, full)),
  nybble-take 32 bytes (8 * r + c) (omega arith)
      ∙ nybble-pack_nybbles turned 32 (8 * r + c)
          (omega (arith, length-level_map_cb d.rotation (replicate 64 0) levels)) (omega arith)
      ∙ ap (λ l. l % 16) (level-level_map_cb d.rotation (replicate 64 0) levels r c refl hr hc),
)
  where
    p : ℕ × ℕ
    p = rotate_coords d (x_off, y_off)

    turned : List ℕ
    turned = level_map_cb d.rotation (replicate 64 0) levels

    bytes : List ℕ
    bytes = pack_nybbles turned 32

    full : length bytes ≡ 64
    full =
        unfold pack_nybbles in
        length-pack_loop 32 0 turned ∙ length-level_map_cb d.rotation (replicate 64 0) levels
