-- ===== src/Rotation/Coords/Laws.antt =====
-- The coordinate callbacks of src/rotation.c on the user's grid and the device's.
use native.Mathlib.Nat.{mod-eq_of_lt}
use libmonome.Common.{ℕ, ◌-◌, ◌%◌, ◌^◌, ◌<◌, ◌≡◌, arith, sub32}
use libmonome.Device.{Device, get_rows, get_cols}
use libmonome.Rotation.Coords.{rotate_coords, unrotate_coords}

-- The dimensions are those of a C `int`, and not empty.
abbrev pub HasDims : Device → Type 0
HasDims d = (0 < d.rows) × (0 < d.cols) × (d.rows < 2 ^ 31) × (d.cols < 2 ^ 31)

abbrev pub OnUserGrid : Device → ℕ × ℕ → Type 0
OnUserGrid d (x, y) = (x < get_cols d) × (y < get_rows d)

abbrev pub OnDeviceGrid : Device → ℕ × ℕ → Type 0
OnDeviceGrid d (x, y) = (x < d.cols) × (y < d.rows)

-- A point of the user's grid goes to a point of the device's grid.
pub rotate_coords-OnDeviceGrid :
    (d : Device) (p : ℕ × ℕ) → HasDims d → OnUserGrid d p → OnDeviceGrid d (rotate_coords d p)
unfolding rotate_coords get_rows get_cols
rotate_coords-OnDeviceGrid d (x, y) dims on = ground arith

-- Mirroring a coordinate below `n` stays below `n`, and mirroring it back with the reduction of
-- the input callbacks, or the other way round, gives it again.
mirror-mirror : (n a : ℕ) → a < n → n < 2 ^ 31 → sub32 (sub32 n 1) (sub32 (sub32 n 1) a) % n ≡ a
mirror-mirror n a lt fits = ground (arith, mod-eq_of_lt {n = a} {m = n} lt)

mirror_mod : (n a : ℕ) → a < n → n < 2 ^ 31 → sub32 (sub32 n 1) a % n ≡ n - 1 - a
mirror_mod n a lt fits = ground (arith, mod-eq_of_lt {n = n - 1 - a} {m = n} (omega arith))

-- The input callback undoes the output callback: for a point of the user's grid, in each of the
-- four rotations, and for dimensions that are positive and fit an `int`, turning it to the
-- device's grid and back gives the point again.
pub unrotate_coords-rotate_coords :
    (d : Device) (p : ℕ × ℕ)
    → HasDims d
    → OnUserGrid d p
    → unrotate_coords d (rotate_coords d p) ≡ p
unfolding rotate_coords unrotate_coords get_rows get_cols
unrotate_coords-rotate_coords d (x, y) dims on =
    ground (arith, mirror-mirror (get_cols d) x, mirror-mirror (get_rows d) y)

-- The output callback undoes the input callback: a point of the device's grid, whose dimensions
-- are positive and fit an `int`, is read as a point of the user's grid, and turning that to the
-- device's grid gives the point again, in each of the four rotations.
pub rotate_coords-unrotate_coords :
    (d : Device) (p : ℕ × ℕ)
    → HasDims d
    → OnDeviceGrid d p
    → OnUserGrid d (unrotate_coords d p) × (rotate_coords d (unrotate_coords d p) ≡ p)
unfolding rotate_coords unrotate_coords get_rows get_cols
rotate_coords-unrotate_coords d (x, y) dims on =
    ground (arith, mirror_mod d.cols x, mirror_mod d.rows y)
