-- ===== src/Rotation/Levels.antt =====
-- The level map callbacks of src/rotation.c: 64 levels copied one by one.
pub mod Laws
use libmonome.Common.{ℕ, zero, suc, ◌+◌, ◌-◌, List, get_or, set, bit_and, ◌<<<◌, ◌>>>◌}
use libmonome.Device.{Rotate, rotate_0, rotate_90, rotate_180, rotate_270}

-- `for( …; i++ ) dst[to(i)] = src[from(i)]` with `left` rounds to go.
unfoldable pub copy_loop : (ℕ → ℕ) → (ℕ → ℕ) → List ℕ → ℕ → ℕ → List ℕ → List ℕ
copy_loop to from src zero i dst = dst
copy_loop to from src (suc left) i dst =
    copy_loop to from src left (suc i) (set dst (to i) (get_or src (from i) 0))

pub r0_level_map_cb : List ℕ → List ℕ → List ℕ
unfolding copy_loop
r0_level_map_cb dst src = copy_loop (λ i. i) (λ i. i) src 64 0 dst

-- The index of `src` in the two turns by a right angle.
abbrev pub from_90 : ℕ → ℕ
from_90 i = (7 - i >>> 3) + (bit_and i 7 <<< 3)

abbrev pub from_270 : ℕ → ℕ
from_270 i = (i >>> 3) + ((7 - bit_and i 7) <<< 3)

pub r90_level_map_cb : List ℕ → List ℕ → List ℕ
unfolding copy_loop
r90_level_map_cb dst src = copy_loop (λ i. i) from_90 src 64 0 dst

pub r180_level_map_cb : List ℕ → List ℕ → List ℕ
unfolding copy_loop
r180_level_map_cb dst src = copy_loop (λ i. 63 - i) (λ i. i) src 64 0 dst

pub r270_level_map_cb : List ℕ → List ℕ → List ℕ
unfolding copy_loop
r270_level_map_cb dst src = copy_loop (λ i. i) from_270 src 64 0 dst

-- The `level_map_cb` of an entry of `rotspec`.
unfoldable pub level_map_cb : Rotate → List ℕ → List ℕ → List ℕ
unfolding r0_level_map_cb r90_level_map_cb r180_level_map_cb r270_level_map_cb
level_map_cb rotate_0 = r0_level_map_cb
level_map_cb rotate_90 = r90_level_map_cb
level_map_cb rotate_180 = r180_level_map_cb
level_map_cb rotate_270 = r270_level_map_cb
