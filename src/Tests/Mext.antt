-- ===== src/Tests/Mext.antt =====
-- Runs of src/proto/mext.c.
use libmonome.Common.{ℕ, List, [], ◌∷◌, ◌≡◌, length, tabulate, refl, arith}
use libmonome.Device.{get_rows, get_cols}
use libmonome.Frame.{set_map, set_row, set_col}
use libmonome.Frame.Draws.{Draws, sending}
use libmonome.Rotation.Coords.{rotate_coords}
use libmonome.Mext.Level.{mext_led_level_map}
use libmonome.Mext.Level.Nybbles.{nybble, mext_led_level_map-nybble}
use libmonome.Mext.Led.{mext_led_map, mext_led_row, mext_led_col}
use libmonome.Mext.Draws.{show, mext_led_map-Draws}
use libmonome.Mext.Rows.{mext_led_row-Draws}
use libmonome.Mext.Cols.{mext_led_col-Draws}
use libmonome.Tests.Devices.{turned_128, picture}

mext_led_map-Draws_example : Draws show (mext_led_map 0 8 picture) turned_128 (set_map 0 8 picture)
unfolding get_rows get_cols
mext_led_map-Draws_example =
    mext_led_map-Draws turned_128 (omega arith) 0 8 picture (omega arith) refl refl refl
      (omega arith) (omega arith)

mext_led_row-Draws_example :
    Draws show (mext_led_row 0 10 1 picture) turned_128 (set_row 0 10 1 picture)
unfolding get_rows get_cols
mext_led_row-Draws_example =
    mext_led_row-Draws turned_128 0 10 1 picture (omega arith) (omega arith) (omega arith) refl
      (omega arith) (omega arith)

mext_led_col-Draws_example :
    Draws show (mext_led_col 3 0 2 picture) turned_128 (set_col 3 0 2 picture)
unfolding get_rows get_cols
mext_led_col-Draws_example =
    mext_led_col-Draws turned_128 3 0 2 picture (omega arith) (omega arith) (omega arith) refl
      (omega arith) (omega arith)

mext_led_level_map-nybble_example :
    (payload : List ℕ) × ((mext_led_level_map 0 8 (tabulate 64 0 (λ i. i)) turned_128).1
      ≡ sending turned_128 ((0x1A ∷ 8 ∷ 7 ∷ payload) ∷ []))
    × (length payload ≡ 32)
    × (nybble payload 21 ≡ 13)
unfolding rotate_coords get_rows get_cols
mext_led_level_map-nybble_example =
    mext_led_level_map-nybble turned_128 0 8 (tabulate 64 0 (λ i. i)) 2 5 (omega arith)
      (omega arith)
