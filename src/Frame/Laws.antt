-- ===== src/Frame/Laws.antt =====
-- An update of the user's view is an update of the device's picture, at rotated coordinates.
use libmonome.Common.{ℕ, ◌-◌, ◌%◌, ◌<◌, ◌≡◌, ap, arith}
use libmonome.Common.{List, length, Bool, if◌then◌else◌, u8}
use libmonome.Common.Bits.{testbit}
use libmonome.Device.{Device, Rotate, rotspec_flags, get_rows, get_cols}
use libmonome.Rotation.Coords.{rotate_coords}
use libmonome.Rotation.Reverse.{reverse_byte, testbit-reverse_byte}
use libmonome.Frame.{Frame, set_led, set_row8, set_col8, set_map, view, IsGrid}
use libmonome.Rotation.Map.{map_cb}
use libmonome.Rotation.Map.Bytes.{AreBytes}
use libmonome.Rotation.Map.Laws.{pixel-map_cb}

-- One LED: the device sets the LED at the rotated coordinates.
pub view-set_led :
    (d : Device) (x y u v : ℕ) (on : Bool) (f : Frame)
    → IsGrid d
    → x < get_cols d
    → y < get_rows d
    → u < get_cols d
    → v < get_rows d
    → view d (set_led (u8 (rotate_coords d (x, y)).0) (u8 (rotate_coords d (x, y)).1) on f) u v
      ≡ set_led x y on (view d f) u v
unfolding view rotate_coords get_rows get_cols
view-set_led d x y u v on f grid hx hy hu hv = ground arith

abbrev pub turned_row : Rotate → ℕ → ℕ → ℕ → Frame → Frame
turned_row r x y bits =
    if (rotspec_flags r).row_col_swap then set_col8 x y bits else set_row8 x y bits

abbrev pub turned_col : Rotate → ℕ → ℕ → ℕ → Frame → Frame
turned_col r x y bits =
    if (rotspec_flags r).row_col_swap then set_row8 x y bits else set_col8 x y bits

abbrev pub row_bits : Rotate → ℕ → ℕ
row_bits r b = if (rotspec_flags r).row_revbits then reverse_byte b else b

abbrev pub col_bits : Rotate → ℕ → ℕ
col_bits r b = if (rotspec_flags r).col_revbits then reverse_byte b else b

-- Eight LEDs of a row: the device sets a row or a column, with the bits in order or reversed.
pub view-turned_row :
    (d : Device) (x_off y bits u v : ℕ) (f : Frame)
    → IsGrid d
    → bits < 256
    → x_off % 8 ≡ 0
    → x_off < get_cols d
    → y < get_rows d
    → u < get_cols d
    → v < get_rows d
    → view d
        (turned_row d.rotation
          (u8 (rotate_coords d (x_off, y)).0)
          (u8 (rotate_coords d (x_off, y)).1)
          (u8 (row_bits d.rotation bits))
          f)
        u
        v
      ≡ set_row8 x_off y bits (view d f) u v
unfolding view rotate_coords get_rows get_cols
view-turned_row d x_off y bits u v f grid byte al hx hy hu hv =
    ground (arith, testbit-reverse_byte bits (7 - u % 8), ap (testbit bits) (back u))
  where
    back : (a : ℕ) → 7 - (7 - a % 8) ≡ a % 8
    back a = omega arith

-- Eight LEDs of a column.
pub view-turned_col :
    (d : Device) (x y_off bits u v : ℕ) (f : Frame)
    → IsGrid d
    → bits < 256
    → y_off % 8 ≡ 0
    → x < get_cols d
    → y_off < get_rows d
    → u < get_cols d
    → v < get_rows d
    → view d
        (turned_col d.rotation
          (u8 (rotate_coords d (x, y_off)).0)
          (u8 (rotate_coords d (x, y_off)).1)
          (u8 (col_bits d.rotation bits))
          f)
        u
        v
      ≡ set_col8 x y_off bits (view d f) u v
unfolding view rotate_coords get_rows get_cols
view-turned_col d x y_off bits u v f grid byte al hx hy hu hv =
    ground (arith, testbit-reverse_byte bits (7 - v % 8), ap (testbit bits) (back v))
  where
    back : (a : ℕ) → 7 - (7 - a % 8) ≡ a % 8
    back a = omega arith

-- A block of 8 by 8 LEDs: the device sets a block, with the picture turned.
pub view-set_map :
    (d : Device) (x_off y_off u v : ℕ) (rows : List ℕ) (f : Frame)
    → IsGrid d
    → AreBytes rows
    → length rows ≡ 8
    → x_off % 8 ≡ 0
    → y_off % 8 ≡ 0
    → x_off < get_cols d
    → y_off < get_rows d
    → u < get_cols d
    → v < get_rows d
    → view d
        (set_map
          (u8 (rotate_coords d (x_off, y_off)).0)
          (u8 (rotate_coords d (x_off, y_off)).1)
          (map_cb d.rotation rows)
          f)
        u
        v
      ≡ set_map x_off y_off rows (view d f) u v
unfolding view rotate_coords get_rows get_cols
view-set_map d x_off y_off u v rows f grid bytes eight ax ay hx hy hu hv = ground (
  arith,
  pixel-map_cb d.rotation rows ((rotate_coords d (u, v)).1 % 8) ((rotate_coords d (u, v)).0 % 8)
      bytes eight (omega arith) (omega arith),
)
