-- ===== src/Mext/Led.antt =====
-- The led functions of src/proto/mext.c.
use libmonome.Common.{
  ℕ, zero, suc, ◌+◌, List, get_or, drop, tabulate, bit_and, ◌==◌, if◌then◌else◌, u8, u32,
}
use libmonome.Common.Int.{ℤ, pos}
use libmonome.Device.{Io, pure, ◌>>◌, rotspec_flags}
use libmonome.Rotation.Coords.{rotate_coords}
use libmonome.Rotation.Map.{map_cb}
use libmonome.Rotation.Reverse.{reverse_byte}
use libmonome.Mext.Message.{
  ss_led_grid, cmd_led_off, cmd_led_on, cmd_led_all_off, cmd_led_all_on, cmd_led_map, cmd_led_row,
  cmd_led_column, cmd_led_intensity, untouched, led, led_map, row_col, intensity, mext_write_msg,
}

-- `!(cmd - base) + base`: the other one of `base` and the command after it.
abbrev pub other_of : ℕ → ℕ → ℕ
other_of base cmd = (if cmd == base then 1 else 0) + base

unfoldable pub mext_led_row_col : ℕ → ℕ → ℕ → ℕ → Io ℤ
mext_led_row_col cmd x y bits d =
    let cmd' = if (rotspec_flags d.rotation).row_col_swap then other_of cmd_led_row cmd else cmd in
    let p = rotate_coords d (x, y) in mext_write_msg ss_led_grid cmd' (row_col p.0 p.1 (u8 bits)) d

unfoldable pub mext_led_set : ℕ → ℕ → ℕ → Io ℤ
mext_led_set x y on d =
    let p = rotate_coords d (x, y) in
    mext_write_msg ss_led_grid (if on == 0 then cmd_led_off else cmd_led_on) (led p.0 p.1) d

unfoldable pub mext_led_all : ℕ → Io ℤ
mext_led_all status =
    mext_write_msg ss_led_grid (if status == 0 then cmd_led_all_off else cmd_led_all_on) untouched

-- `memcpy` of eight bytes.
abbrev pub eight : List ℕ → List ℕ
eight bytes = tabulate 8 0 (λ i. get_or bytes i 0)

unfoldable pub mext_led_map : ℕ → ℕ → List ℕ → Io ℤ
mext_led_map x_off y_off bytes d =
    let p = rotate_coords d (x_off, y_off) in
    mext_write_msg ss_led_grid cmd_led_map (led_map p.0 p.1 (map_cb d.rotation (eight bytes))) d

-- The loops of `mext_led_row` and `mext_led_col`; `count` bytes are there to be read.
unfoldable pub row_loop : (ℕ → ℕ) → ℕ → ℕ → ℕ → List ℕ → Io (Unit {0})
row_loop f x_off y zero bytes = pure tt
row_loop f x_off y (suc count) bytes = do
  mext_led_row_col cmd_led_row x_off y (f (get_or bytes 0 0))
  row_loop f (u32 (x_off + 8)) y count (drop 1 bytes)

unfoldable pub col_loop : (ℕ → ℕ) → ℕ → ℕ → ℕ → List ℕ → Io (Unit {0})
col_loop f x y_off zero bytes = pure tt
col_loop f x y_off (suc count) bytes = do
  mext_led_row_col cmd_led_column x y_off (f (get_or bytes 0 0))
  col_loop f x (u32 (y_off + 8)) count (drop 1 bytes)

-- Both answer 1 whatever the writes answered.
unfoldable pub mext_led_row : ℕ → ℕ → ℕ → List ℕ → Io ℤ
unfolding row_loop
mext_led_row x_off y count bytes d =
    let f = λ (b : ℕ). if (rotspec_flags d.rotation).row_revbits then reverse_byte b else b in
    (pos 1, (row_loop f x_off y count bytes d).1)

unfoldable pub mext_led_col : ℕ → ℕ → ℕ → List ℕ → Io ℤ
unfolding col_loop
mext_led_col x y_off count bytes d =
    let f = λ (b : ℕ). if (rotspec_flags d.rotation).col_revbits then reverse_byte b else b in
    (pos 1, (col_loop f x y_off count bytes d).1)

unfoldable pub mext_led_intensity : ℕ → Io ℤ
mext_led_intensity i = mext_write_msg ss_led_grid cmd_led_intensity (intensity (bit_and i 0xF))
