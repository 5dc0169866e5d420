-- ===== src/Tests/Core.antt =====
-- Runs of src/libmonome.c.
use libmonome.Common.{[], ◌∷◌, ◌≡◌, ◌≢◌, refl, arith, true, false, some, length, replicate}
use libmonome.Common.Int.{pos}
use libmonome.Device.{get_rows, get_cols}
use libmonome.Event.{event_type, button_down}
use libmonome.Frame.{set_led}
use libmonome.Frame.Draws.{Draws}
use libmonome.Mext.Draws as MextDraws
use libmonome.Series.Show as SeriesShow
use libmonome.Forty.Draws as FortyDraws
use libmonome.Core.Map.{map_serial_to_device, i2c}
use libmonome.Core.Map.Laws.{map_serial_to_device-mext}
use libmonome.Core.Handlers.{
  no_handler, event_max, monome_register_handler, monome_event_handle_next,
}
use libmonome.Core.Handlers.Laws.{monome_register_handler-handle_next}
use libmonome.Core.Dispatch.{monome_led_on, monome_led_off}
use libmonome.Core.Dispatch.Tables.{
  mext_capabilities, proto_series_capabilities, proto_40h_capabilities,
}
use libmonome.Core.Dispatch.Tables.Laws.{monome_led_on-Draws}
use libmonome.Tests.Devices.{turned_40h}

map_serial_to_device-mext_example :
    map_serial_to_device (109 ∷ 49 ∷ 48 ∷ 48 ∷ 48 ∷ 49 ∷ 50 ∷ 51 ∷ []) ≡ some i2c
map_serial_to_device-mext_example =
    map_serial_to_device-mext 49 48 48 48 (49 ∷ 50 ∷ 51 ∷ []) refl refl refl refl

monome_register_handler-handle_next_example :
    ((monome_register_handler 1 (some 7) 9 (replicate 6 no_handler)).0 ≡ 0)
    × (length (monome_register_handler 1 (some 7) 9 (replicate 6 no_handler)).1 ≡ event_max)
    × (event_type (button_down 3 4) ≡ 1
        → monome_event_handle_next
            (pos 1)
            (button_down 3 4)
            (monome_register_handler 1 (some 7) 9 (replicate 6 no_handler)).1
          ≡ (pos 1, some (record { function = 7; event = button_down 3 4; user_data = 9 })))
    × (event_type (button_down 3 4) ≢ 1
        → monome_event_handle_next
            (pos 1)
            (button_down 3 4)
            (monome_register_handler 1 (some 7) 9 (replicate 6 no_handler)).1
          ≡ monome_event_handle_next (pos 1) (button_down 3 4) (replicate 6 no_handler))
monome_register_handler-handle_next_example =
    monome_register_handler-handle_next 7 9 0 (button_down 3 4) 1 (replicate 6 no_handler) refl
      (omega arith)

monome_led_on-Draws_example :
    Draws MextDraws.show (monome_led_on mext_capabilities 3 6) turned_40h (set_led 3 6 true)
    × Draws SeriesShow.show
        (monome_led_on proto_series_capabilities 3 6)
        turned_40h
        (set_led 3 6 true)
    × Draws FortyDraws.show (monome_led_on proto_40h_capabilities 3 6) turned_40h (set_led 3 6 true)
    × Draws MextDraws.show (monome_led_off mext_capabilities 3 6) turned_40h (set_led 3 6 false)
    × Draws SeriesShow.show
        (monome_led_off proto_series_capabilities 3 6)
        turned_40h
        (set_led 3 6 false)
    × Draws FortyDraws.show
        (monome_led_off proto_40h_capabilities 3 6)
        turned_40h
        (set_led 3 6 false)
unfolding get_rows get_cols
monome_led_on-Draws_example =
    monome_led_on-Draws turned_40h 3 6 (refl, refl) (omega arith) (omega arith)
