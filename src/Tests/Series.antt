-- ===== src/Tests/Series.antt =====
-- Runs of src/proto/series.c.
use libmonome.Common.{[], ◌∷◌, ◌≡◌, refl, arith, false, some}
use libmonome.Common.Int.{pos}
use libmonome.Device.{get_rows, get_cols}
use libmonome.Frame.{set_map}
use libmonome.Frame.Draws.{Draws}
use libmonome.Posix.{stream}
use libmonome.Posix.Ready.{IsReady}
use libmonome.Rotation.Coords.{rotate_coords}
use libmonome.Series.Led.{proto_series_led_row, proto_series_led_col, proto_series_led_map}
use libmonome.Series.Show.{show, asked_row, asked_col}
use libmonome.Series.Draws.{proto_series_led_row-Draws}
use libmonome.Series.Cols.{proto_series_led_col-Draws}
use libmonome.Series.Blocks.{proto_series_led_map-Draws}
use libmonome.Series.Event.{proto_series_next_event}
use libmonome.Series.Event.Laws.{key_event, proto_series_next_event-key}
use libmonome.Tests.Devices.{turned_128, pressed_serial, picture}

proto_series_led_row-Draws_example :
    Draws show (proto_series_led_row 0 10 1 picture) turned_128 (asked_row turned_128 10 1 picture)
unfolding get_rows get_cols
proto_series_led_row-Draws_example =
    proto_series_led_row-Draws turned_128 (omega arith) 0 10 1 picture (omega arith) (omega arith)
      (omega arith)

proto_series_led_col-Draws_example :
    Draws show (proto_series_led_col 3 0 2 picture) turned_128 (asked_col turned_128 3 2 picture)
unfolding get_rows get_cols
proto_series_led_col-Draws_example =
    proto_series_led_col-Draws turned_128 (omega arith) 3 0 2 picture (omega arith) (omega arith)
      (omega arith)

proto_series_led_map-Draws_example :
    Draws show (proto_series_led_map 0 8 picture) turned_128 (set_map 0 8 picture)
unfolding get_rows get_cols
proto_series_led_map-Draws_example =
    proto_series_led_map-Draws turned_128 (omega arith) 0 8 picture (omega arith) refl refl refl
      (omega arith) (omega arith)

pressed_serial-IsReady : IsReady (pressed_serial 0x10 0x64).monome
pressed_serial-IsReady = ((0x10, []) ∷ (0x64, []) ∷ [], 2, refl, refl, omega arith)

proto_series_next_event-key_example :
    ((proto_series_next_event (pressed_serial 0x10 0x64)).0 ≡ (pos 1, some (key_event false 3 6)))
    × (stream (proto_series_next_event (pressed_serial 0x10 0x64)).1.monome.port.arrivals ≡ [])
    × IsReady (proto_series_next_event (pressed_serial 0x10 0x64)).1.monome
unfolding stream rotate_coords get_rows get_cols
proto_series_next_event-key_example =
    proto_series_next_event-key 3 6 false [] (pressed_serial 0x10 0x64) (omega arith) (omega arith)
      (omega arith) pressed_serial-IsReady refl
