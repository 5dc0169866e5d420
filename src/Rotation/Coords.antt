-- ===== src/Rotation/Coords.antt =====
-- The coordinate callbacks of src/rotation.c. `uint_t` is 32 bits wide and wraps.
pub mod Laws
use libmonome.Common.{ℕ, ◌+◌, ◌-◌, ◌%◌, ◌^◌, sub32}
use libmonome.Device.{
  Device, Rotate, rotate_0, rotate_90, rotate_180, rotate_270, get_rows, get_cols,
}

-- ROWS and COLS, as they are converted to `uint_t`.
abbrev pub last_row : Device → ℕ
last_row d = sub32 (get_rows d) 1

abbrev pub last_col : Device → ℕ
last_col d = sub32 (get_cols d) 1

pub r0_cb : Device → ℕ × ℕ → ℕ × ℕ
r0_cb d (x, y) = (x, y)

pub r90_output_cb : Device → ℕ × ℕ → ℕ × ℕ
r90_output_cb d (x, y) = (y, sub32 (last_col d) x)

-- The divisor is `COLS + 1` in `int`, which is the number of columns.
pub r90_input_cb : Device → ℕ × ℕ → ℕ × ℕ
r90_input_cb d (x, y) = (sub32 (last_col d) y % get_cols d, x)

pub r180_output_cb : Device → ℕ × ℕ → ℕ × ℕ
r180_output_cb d (x, y) = (sub32 (last_col d) x, sub32 (last_row d) y)

pub r180_input_cb : Device → ℕ × ℕ → ℕ × ℕ
r180_input_cb d (x, y) = (sub32 (last_col d) x % get_cols d, sub32 (last_row d) y % get_rows d)

pub r270_output_cb : Device → ℕ × ℕ → ℕ × ℕ
r270_output_cb d (x, y) = (sub32 (last_row d) y, x)

pub r270_input_cb : Device → ℕ × ℕ → ℕ × ℕ
r270_input_cb d (x, y) = (y, sub32 (last_row d) x % get_rows d)

output_by : Rotate → Device → ℕ × ℕ → ℕ × ℕ
unfolding r0_cb r90_output_cb r180_output_cb r270_output_cb
output_by rotate_0 = r0_cb
output_by rotate_90 = r90_output_cb
output_by rotate_180 = r180_output_cb
output_by rotate_270 = r270_output_cb

input_by : Rotate → Device → ℕ × ℕ → ℕ × ℕ
unfolding r0_cb r90_input_cb r180_input_cb r270_input_cb
input_by rotate_0 = r0_cb
input_by rotate_90 = r90_input_cb
input_by rotate_180 = r180_input_cb
input_by rotate_270 = r270_input_cb

-- ROTATE_COORDS and UNROTATE_COORDS.
unfoldable pub rotate_coords : Device → ℕ × ℕ → ℕ × ℕ
unfolding output_by
rotate_coords d = output_by d.rotation d

unfoldable pub unrotate_coords : Device → ℕ × ℕ → ℕ × ℕ
unfolding input_by
unrotate_coords d = input_by d.rotation d
