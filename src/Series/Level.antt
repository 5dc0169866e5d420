-- ===== src/Series/Level.antt =====
-- The led level functions of src/proto/series.c: levels are reduced to on and off.
use libmonome.Common.{ℕ, ◌*◌, ◌/◌, List, tabulate, replicate, drop}
use libmonome.Common.Int.{ℤ}
use libmonome.Device.{Io}
use libmonome.Rotation.Levels.{level_map_cb}
use libmonome.Monobright.{reduce_level_to_bit, reduce_levels_to_bitmask}
use libmonome.Series.Led.{
  proto_series_led_set, proto_series_led_all, proto_series_led_map, proto_series_led_row,
  proto_series_led_col,
}

unfoldable pub proto_series_led_level_set : ℕ → ℕ → ℕ → Io ℤ
proto_series_led_level_set x y level = proto_series_led_set x y (reduce_level_to_bit level)

unfoldable pub proto_series_led_level_all : ℕ → Io ℤ
proto_series_led_level_all level = proto_series_led_all (reduce_level_to_bit level)

-- `masks[i] = reduce_levels_to_bitmask(&levels[i * 8])` for `n` rounds.
abbrev pub masks_of : ℕ → List ℕ → List ℕ
masks_of n levels = tabulate n 0 (λ i. reduce_levels_to_bitmask (drop (i * 8) levels))

unfoldable pub proto_series_led_level_map : ℕ → ℕ → List ℕ → Io ℤ
proto_series_led_level_map x_off y_off bytes d =
    let levels = level_map_cb d.rotation (replicate 64 0) bytes in
    proto_series_led_map x_off y_off (masks_of 8 levels) d

-- `masks` has room for 16 bytes, so for 128 levels.
unfoldable pub proto_series_led_level_row : ℕ → ℕ → ℕ → List ℕ → Io ℤ
proto_series_led_level_row x_off row count bytes =
    let chunks = count / 8 in proto_series_led_row x_off row chunks (masks_of chunks bytes)

unfoldable pub proto_series_led_level_col : ℕ → ℕ → ℕ → List ℕ → Io ℤ
proto_series_led_level_col col y_off count bytes =
    let chunks = count / 8 in proto_series_led_col col y_off chunks (masks_of chunks bytes)
