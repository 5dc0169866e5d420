-- ===== src/Monobright.antt =====
-- src/monobright.c and src/private/monobright.h: levels reduced to bits for devices that know
-- only on and off.
pub mod Laws
use libmonome.Common.{ℕ, zero, suc, ◌+◌, List, get_or, Bool, ltb, bit_or, u8, ◌<<<◌, if◌then◌else◌}

abbrev pub reduce_level_to_bit : ℕ → ℕ
reduce_level_to_bit level = if ltb 7 level then 1 else 0

-- The loop of `reduce_levels_to_bitmask` at index `i`, with `left` rounds to go.
pub reduce_loop : List ℕ → ℕ → ℕ → ℕ → ℕ
reduce_loop levels zero i byte = byte
reduce_loop levels (suc left) i byte =
    reduce_loop levels left (suc i)
      (u8 (bit_or byte (reduce_level_to_bit (get_or levels i 0) <<< i)))

unfoldable pub reduce_levels_to_bitmask : List ℕ → ℕ
unfolding reduce_loop
reduce_levels_to_bitmask levels = reduce_loop levels 8 0 0
