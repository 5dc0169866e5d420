-- ===== src/Tests/Forty.antt =====
-- Runs of src/proto/40h.c.
use libmonome.Common.{[], ◌∷◌, ◌≡◌, refl, arith, true, some, get_or}
use libmonome.Common.Int.{pos}
use libmonome.Device.{get_rows, get_cols, rotate_90, failed}
use libmonome.Frame.{set_row8, set_map}
use libmonome.Frame.Draws.{Draws}
use libmonome.Posix.{stream}
use libmonome.Posix.Ready.{IsReady}
use libmonome.Rotation.Coords.{rotate_coords}
use libmonome.Rotation.Map.{map_cb}
use libmonome.Serial.{Serial}
use libmonome.Forty.Led.{proto_40h_led_row, proto_40h_led_map}
use libmonome.Forty.Draws.{show, proto_40h_led_row-Draws}
use libmonome.Forty.Map.{proto_40h_led_map-Draws}
use libmonome.Forty.Event.{proto_40h_next_event}
use libmonome.Forty.Event.Laws.{key_event, proto_40h_next_event-key}
use libmonome.Tests.Devices.{turned_40h, pressed_serial, picture}

proto_40h_led_row-Draws_example :
    Draws show (proto_40h_led_row 0 6 1 picture) turned_40h (set_row8 0 6 (get_or picture 0 0))
unfolding get_rows get_cols
proto_40h_led_row-Draws_example =
    proto_40h_led_row-Draws turned_40h (refl, refl) 0 6 1 picture (omega arith) (omega arith)

proto_40h_led_map-Draws_example :
    Draws show (proto_40h_led_map 0 0 picture) turned_40h (set_map 0 0 (map_cb rotate_90 picture))
proto_40h_led_map-Draws_example =
    proto_40h_led_map-Draws turned_40h 0 0 picture (refl, refl) (omega arith) refl

pressed_serial-IsReady : IsReady (pressed_serial 0x01 0x64).monome
pressed_serial-IsReady = ((0x01, []) ∷ (0x64, []) ∷ [], 2, refl, refl, omega arith)

proto_40h_next_event-key_example :
    ((proto_40h_next_event (pressed_serial 0x01 0x64)).0 ≡ (pos 1, some (key_event true 3 6)))
    × (stream (proto_40h_next_event (pressed_serial 0x01 0x64)).1.monome.port.arrivals ≡ [])
    × IsReady (proto_40h_next_event (pressed_serial 0x01 0x64)).1.monome
unfolding stream rotate_coords get_rows get_cols
proto_40h_next_event-key_example =
    proto_40h_next_event-key 3 6 true [] (pressed_serial 0x01 0x64) (omega arith) (omega arith)
      (omega arith) pressed_serial-IsReady refl

-- A 40h that has been unplugged.
abbrev unplugged : Serial
unplugged = record {
  monome = record turned_40h {
    port = record { sent = []; accept = λ log. pos 1; arrivals = failed ∷ []; polls = [] };
  };
  tilt_x = 0;
  tilt_y = 0;
}
