-- ===== src/Mext/Level.antt =====
-- The led level functions of src/proto/mext.c.
pub mod Nybbles
use libmonome.Common.{ℕ, zero, suc, ◌+◌, ◌-◌, ◌*◌, List, get_or, set, drop, replicate}
use libmonome.Common.{Bool, bit_and, bit_or, if◌then◌else◌, u8, u32, ◌<<<◌, ◌>>>◌}
use libmonome.Common.Int.{ℤ, pos}
use libmonome.Device.{Io, pure, ◌>>◌, rotspec_flags}
use libmonome.Rotation.Coords.{rotate_coords}
use libmonome.Rotation.Levels.{level_map_cb}
use libmonome.Mext.Message.{
  ss_led_grid, cmd_led_level_set, cmd_led_level_all, cmd_led_level_map, cmd_led_level_row,
  cmd_led_level_column, level_set, level_all, level_map, level_row_col, mext_write_msg,
}
use libmonome.Mext.Led.{other_of, eight}

-- `while( i-- ) dst[7 - i] = src[i];`
unfoldable pub revcopy : ℕ → List ℕ → List ℕ → List ℕ
revcopy zero dst src = dst
revcopy (suc i) dst src = revcopy i (set dst (7 - i) (get_or src i 0)) src

abbrev pub nybbles : List ℕ → ℕ → ℕ
nybbles levels i =
    u8 (bit_or (get_or levels (i * 2) 0 <<< 4) (bit_and (get_or levels (i * 2 + 1) 0) 0x0F))

-- The loop of `pack_nybbles` at index `i`, with `left` rounds to go; it works in place.
unfoldable pub pack_loop : ℕ → ℕ → List ℕ → List ℕ
pack_loop zero i levels = levels
pack_loop (suc left) i levels = pack_loop left (suc i) (set levels i (nybbles levels i))

unfoldable pub pack_nybbles : List ℕ → ℕ → List ℕ
unfolding pack_loop
pack_nybbles levels nbyte = pack_loop nbyte 0 levels

unfoldable pub mext_led_level_row_col : ℕ → Bool → ℕ → ℕ → List ℕ → Io ℤ
unfolding revcopy
mext_led_level_row_col cmd rev x y levels d =
    let cmd' =
      if (rotspec_flags d.rotation).row_col_swap then other_of cmd_led_level_row cmd else cmd in
    let p = rotate_coords d (x, y) in
    let copied = if rev then revcopy 8 (replicate 8 0) levels else eight levels in
    mext_write_msg ss_led_grid cmd' (level_row_col p.0 p.1 (pack_nybbles copied 4)) d

unfoldable pub mext_led_level_set : ℕ → ℕ → ℕ → Io ℤ
mext_led_level_set x y level d =
    let p = rotate_coords d (x, y) in
    mext_write_msg ss_led_grid cmd_led_level_set (level_set p.0 p.1 level) d

unfoldable pub mext_led_level_all : ℕ → Io ℤ
mext_led_level_all level = mext_write_msg ss_led_grid cmd_led_level_all (level_all level)

unfoldable pub mext_led_level_map : ℕ → ℕ → List ℕ → Io ℤ
mext_led_level_map x_off y_off levels d =
    let p = rotate_coords d (x_off, y_off) in
    let turned = level_map_cb d.rotation (replicate 64 0) levels in
    mext_write_msg ss_led_grid cmd_led_level_map (level_map p.0 p.1 (pack_nybbles turned 32)) d

-- The loops over the groups of eight levels.
unfoldable pub level_row_loop : Bool → ℕ → ℕ → ℕ → List ℕ → Io (Unit {0})
level_row_loop rev x_off row zero levels = pure tt
level_row_loop rev x_off row (suc count) levels = do
  mext_led_level_row_col cmd_led_level_row rev x_off row levels
  level_row_loop rev (u32 (x_off + 8)) row count (drop 8 levels)

unfoldable pub level_col_loop : Bool → ℕ → ℕ → ℕ → List ℕ → Io (Unit {0})
level_col_loop rev col y_off zero levels = pure tt
level_col_loop rev col y_off (suc count) levels = do
  mext_led_level_row_col cmd_led_level_column rev col y_off levels
  level_col_loop rev col (u32 (y_off + 8)) count (drop 8 levels)

unfoldable pub mext_led_level_row : ℕ → ℕ → ℕ → List ℕ → Io ℤ
unfolding level_row_loop
mext_led_level_row x_off row count levels d =
    let rev = (rotspec_flags d.rotation).row_revbits in
    (pos 1, (level_row_loop rev x_off row (count >>> 3) levels d).1)

unfoldable pub mext_led_level_col : ℕ → ℕ → ℕ → List ℕ → Io ℤ
unfolding level_col_loop
mext_led_level_col col y_off count levels d =
    let rev = (rotspec_flags d.rotation).col_revbits in
    (pos 1, (level_col_loop rev col y_off (count >>> 3) levels d).1)
