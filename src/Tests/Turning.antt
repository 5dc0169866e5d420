-- ===== src/Tests/Turning.antt =====
-- Runs of src/rotation.c and src/monobright.c.
use libmonome.Common.{◌≡◌, refl, arith, replicate}
use libmonome.Device.{get_rows, get_cols, rotate_90, rotate_270}
use libmonome.Rotation.Coords.{rotate_coords, unrotate_coords}
use libmonome.Rotation.Coords.Laws.{unrotate_coords-rotate_coords}
use libmonome.Rotation.Map.{map_cb}
use libmonome.Rotation.Builds.{ilp32, big, map_cb_on}
use libmonome.Rotation.Builds.Laws.{map_cb_on-eq-map_cb}
use libmonome.Rotation.Map.Laws.{pixel, turn, pixel-map_cb}
use libmonome.Rotation.Levels.{level_map_cb}
use libmonome.Rotation.Levels.Laws.{level, level-level_map_cb}
use libmonome.Tests.Devices.{turned_128, picture}

unrotate_coords-rotate_coords_example :
    unrotate_coords turned_128 (rotate_coords turned_128 (3, 10)) ≡ (3, 10)
unfolding get_rows get_cols
unrotate_coords-rotate_coords_example =
    unrotate_coords-rotate_coords turned_128 (3, 10) (omega arith) (omega arith)

pixel-map_cb_example :
    pixel (map_cb rotate_90 picture) 2 5
    ≡ pixel picture (turn rotate_90 2 5).0 (turn rotate_90 2 5).1
pixel-map_cb_example =
    pixel-map_cb rotate_90 picture 2 5 (omega arith) refl (omega arith) (omega arith)

level-level_map_cb_example :
    level (level_map_cb rotate_270 (replicate 64 0) picture) 1 6
    ≡ level picture (turn rotate_270 1 6).0 (turn rotate_270 1 6).1
level-level_map_cb_example =
    level-level_map_cb rotate_270 (replicate 64 0) picture 1 6 refl (omega arith) (omega arith)

map_cb_on-eq-map_cb_example : map_cb_on (ilp32 big) rotate_270 picture ≡ map_cb rotate_270 picture
map_cb_on-eq-map_cb_example = map_cb_on-eq-map_cb (ilp32 big) rotate_270 picture (ground arith) refl
