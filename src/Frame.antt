-- ===== src/Frame.antt =====
-- What a grid shows, as a specification: the picture of LEDs, the updates that the led functions
-- of public/monome.h ask for, and the picture as the user of a rotated grid sees it.
pub mod Laws
pub mod Draws
use libmonome.Common.{
  ℕ, ◌+◌, ◌-◌, ◌*◌, ◌/◌, ◌%◌, ◌^◌, ◌≤◌, ◌<◌, ◌≡◌, List, [], ◌∷◌, get_or, drop, suc, zero,
}
use libmonome.Common.{Bool, true, false, not, ◌&&◌, leb, ltb, ◌==◌, if◌then◌else◌}
use libmonome.Common.Bits.{testbit}
use libmonome.Device.{Device, get_rows, get_cols}
use libmonome.Rotation.Coords.{rotate_coords}

-- The LED in column `x` and row `y`.
abbrev pub Frame : Type 0
Frame = ℕ → ℕ → Bool

-- `on` is any number that is not 0.
abbrev pub is_on : ℕ → Bool
is_on on = not (on == 0)

abbrev pub set_led : ℕ → ℕ → Bool → Frame → Frame
set_led x y on f u v = if u == x && v == y then on else f u v

abbrev pub set_all : Bool → Frame → Frame
set_all on f u v = on

-- Eight LEDs of a row; the offset counts as the multiple of 8 below it.
abbrev pub set_row8 : ℕ → ℕ → ℕ → Frame → Frame
set_row8 x_off y bits f u v = if v == y && u / 8 == x_off / 8 then testbit bits (u % 8) else f u v

abbrev pub set_col8 : ℕ → ℕ → ℕ → Frame → Frame
set_col8 x y_off bits f u v = if u == x && v / 8 == y_off / 8 then testbit bits (v % 8) else f u v

-- A block of 8 by 8 LEDs, given by its rows.
abbrev pub set_map : ℕ → ℕ → List ℕ → Frame → Frame
set_map x_off y_off rows f u v =
    if u / 8 == x_off / 8 && v / 8 == y_off / 8
    then testbit (get_or rows (v % 8) 0) (u % 8)
    else f u v

-- `count` bytes of a row, from a multiple of 8.
unfoldable pub set_row : ℕ → ℕ → ℕ → List ℕ → Frame → Frame
set_row x_off y zero bytes f = f
set_row x_off y (suc count) bytes f =
    set_row (x_off + 8) y count (drop 1 bytes) (set_row8 x_off y (get_or bytes 0 0) f)

unfoldable pub set_col : ℕ → ℕ → ℕ → List ℕ → Frame → Frame
set_col x y_off zero bytes f = f
set_col x y_off (suc count) bytes f =
    set_col x (y_off + 8) count (drop 1 bytes) (set_col8 x y_off (get_or bytes 0 0) f)

-- The device's picture as the user sees it.
unfoldable pub view : Device → Frame → Frame
view d f u v = f (rotate_coords d (u, v)).0 (rotate_coords d (u, v)).1

-- The dimensions of a grid: multiples of 8, up to 256.
abbrev pub IsGrid : Device → Type 0
IsGrid d =
    (0 < d.rows)
    × (0 < d.cols)
    × (d.rows ≤ 256)
    × (d.cols ≤ 256)
    × (d.rows % 8 ≡ 0)
    × (d.cols % 8 ≡ 0)

-- Two pictures that the user cannot tell apart.
abbrev pub SameOn : Device → Frame → Frame → Type 0
SameOn d f g = (u v : ℕ) → u < get_cols d → v < get_rows d → f u v ≡ g u v
