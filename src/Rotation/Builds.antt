-- ===== src/Rotation/Builds.antt =====
-- The bit map callbacks of src/rotation.c as the preprocessor leaves them on the other machines: on
-- a 64-bit big-endian one, and on 32-bit ones of either order.
pub mod Words
pub mod Lines
pub mod Long
pub mod Short
pub mod Turned
pub mod Laws
use libmonome.Common.{
  ℕ, ◌+◌, ◌-◌, ◌*◌, ◌%◌, List, [], ◌∷◌, ◌++◌, take, drop, get_or, tabulate, bit_and, bit_or, u32,
  u64, ◌<<<◌, ◌>>>◌,
}
use libmonome.Device.{Rotate, rotate_0, rotate_90, rotate_180, rotate_270}
use libmonome.Rotation.Map.{load64, swap, exchange, map_cb}

-- LM_BIG_ENDIAN
pub data Endian : Type 0 where
  little big : Endian

-- A load of `n` bytes; the lowest is the first in memory, or the last.
unfoldable pub load : Endian → ℕ → List ℕ → ℕ
unfolding load64
load little n bytes = load64 (take n bytes)
load big n bytes = load64 (tabulate n 0 (λ i. get_or bytes (n - 1 - i) 0))

unfoldable pub store : Endian → ℕ → ℕ → List ℕ
store little n x = tabulate n 0 (λ i. x >>> (8 * i) % 256)
store big n x = tabulate n 0 (λ i. x >>> (8 * (n - 1 - i)) % 256)

-- The two words of `data`, and the two that are stored there.
abbrev pub low : Endian → List ℕ → ℕ
low e bytes = load e 4 bytes

abbrev pub high : Endian → List ℕ → ℕ
high e bytes = load e 4 (drop 4 bytes)

abbrev pub both : Endian → ℕ → ℕ → List ℕ
both e x y = store e 4 x ++ store e 4 y

unfoldable pub r90_map_cb_be64 : List ℕ → List ℕ
unfolding load store swap
r90_map_cb_be64 bytes =
    let x = load big 8 bytes in
    let x = swap 64 8 0xFF00FF00FF00FF00 x in
    let x = swap 64 7 0x5500550055005500 x in
    let x = swap 64 16 0xFFFF0000FFFF0000 x in
    let x = swap 64 14 0x3333000033330000 x in
    let x = swap 64 32 0xFFFFFFFF00000000 x in
    let x = swap 64 28 0x0F0F0F0F00000000 x in store big 8 x

unfoldable pub r180_map_cb_be64 : List ℕ → List ℕ
unfolding load store exchange
r180_map_cb_be64 bytes =
    let x = load big 8 bytes in
    let x = bit_or (x >>> 32) (u64 (x <<< 32)) in
    let x = exchange 64 16 0xFFFF0000FFFF0000 0x0000FFFF0000FFFF x in
    let x = exchange 64 8 0xFF00FF00FF00FF00 0x00FF00FF00FF00FF x in
    let x = exchange 64 4 0xF0F0F0F0F0F0F0F0 0x0F0F0F0F0F0F0F0F x in
    let x = exchange 64 2 0xCCCCCCCCCCCCCCCC 0x3333333333333333 x in
    let x = exchange 64 1 0xAAAAAAAAAAAAAAAA 0x5555555555555555 x in store big 8 x

unfoldable pub r270_map_cb_be64 : List ℕ → List ℕ
unfolding load store swap
r270_map_cb_be64 bytes =
    let x = load big 8 bytes in
    let x = swap 64 8 0xFF00FF00FF00FF00 x in
    let x = swap 64 9 0xAA00AA00AA00AA00 x in
    let x = swap 64 16 0xFFFF0000FFFF0000 x in
    let x = swap 64 18 0xCCCC0000CCCC0000 x in
    let x = swap 64 32 0xFFFFFFFF00000000 x in
    let x = swap 64 36 0xF0F0F0F000000000 x in store big 8 x

-- The four swaps of one word, with the masks of either half of the `#ifdef`.
pub swaps_9_18 : ℕ → ℕ
unfolding swap
swaps_9_18 x =
    let x = swap 32 8 0xFF00FF00 x in
    let x = swap 32 9 0xAA00AA00 x in let x = swap 32 16 0xFFFF0000 x in swap 32 18 0xCCCC0000 x

pub swaps_7_14 : ℕ → ℕ
unfolding swap
swaps_7_14 x =
    let x = swap 32 8 0xFF00FF00 x in
    let x = swap 32 7 0x55005500 x in let x = swap 32 16 0xFFFF0000 x in swap 32 14 0x33330000 x

abbrev pub r90_swaps : Endian → ℕ → ℕ
r90_swaps little = swaps_9_18
r90_swaps big = swaps_7_14

abbrev pub r270_swaps : Endian → ℕ → ℕ
r270_swaps little = swaps_7_14
r270_swaps big = swaps_9_18

unfoldable pub r90_map_cb_32 : Endian → List ℕ → List ℕ
unfolding load store swaps_9_18 swaps_7_14
r90_map_cb_32 e bytes =
    let x = r90_swaps e (low e bytes) in
    let y = r90_swaps e (high e bytes) in
    both e (bit_or (bit_and x 0xF0F0F0F0 >>> 4) (bit_and y 0xF0F0F0F0))
      (bit_or (bit_and x 0x0F0F0F0F) (u32 (bit_and y 0x0F0F0F0F <<< 4)))

-- The reversal of one word.
pub reversed : ℕ → ℕ
unfolding exchange
reversed x =
    let x = bit_or (x >>> 16) (u32 (x <<< 16)) in
    let x = exchange 32 8 0xFF00FF00 0x00FF00FF x in
    let x = exchange 32 4 0xF0F0F0F0 0x0F0F0F0F x in
    let x = exchange 32 2 0xCCCCCCCC 0x33333333 x in exchange 32 1 0xAAAAAAAA 0x55555555 x

unfoldable pub r180_map_cb_32 : Endian → List ℕ → List ℕ
unfolding load store reversed
r180_map_cb_32 e bytes =
    let x = low e bytes in
    let y = high e bytes in let x = reversed x in let y = reversed y in both e y x

unfoldable pub r270_map_cb_32 : Endian → List ℕ → List ℕ
unfolding load store swaps_9_18 swaps_7_14
r270_map_cb_32 e bytes =
    let x = r270_swaps e (low e bytes) in
    let y = r270_swaps e (high e bytes) in
    both e (bit_or (u32 (bit_and x 0x0F0F0F0F <<< 4)) (bit_and y 0x0F0F0F0F))
      (bit_or (bit_and x 0xF0F0F0F0) (bit_and y 0xF0F0F0F0 >>> 4))

-- The machines that the source tells apart: `__LP64__` and the order of the bytes.
pub data Build : Type 0 where
  lp64 ilp32 : Endian → Build

-- The `map_cb` of an entry of `rotspec`, on each machine.
unfoldable pub map_cb_on : Build → Rotate → List ℕ → List ℕ
unfolding map_cb r90_map_cb_be64 r180_map_cb_be64 r270_map_cb_be64 r90_map_cb_32 r180_map_cb_32
    r270_map_cb_32
map_cb_on (lp64 little) rot bytes = map_cb rot bytes
map_cb_on (lp64 big) rotate_0 bytes = bytes
map_cb_on (lp64 big) rotate_90 bytes = r90_map_cb_be64 bytes
map_cb_on (lp64 big) rotate_180 bytes = r180_map_cb_be64 bytes
map_cb_on (lp64 big) rotate_270 bytes = r270_map_cb_be64 bytes
map_cb_on (ilp32 e) rotate_0 bytes = bytes
map_cb_on (ilp32 e) rotate_90 bytes = r90_map_cb_32 e bytes
map_cb_on (ilp32 e) rotate_180 bytes = r180_map_cb_32 e bytes
map_cb_on (ilp32 e) rotate_270 bytes = r270_map_cb_32 e bytes
