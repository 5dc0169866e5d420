-- ===== src/Tests/Monomeserial.antt =====
-- Runs of src/monomeserial.c on a mext grid.
use mathlib.Core.List.{Perm}
use libmonome.Common.{
  is_some, ◌≡◌, ◌↔◌, ◌⊎◌, inl, refl, List, [], ◌∷◌, map, true, false, none, some, arith,
}
use libmonome.Common.Int.{ℤ, pos}
use libmonome.Device.{Device, get_rows, get_cols, Rotate}
use libmonome.Event.{Event, button_down}
use libmonome.Frame.{set_led, set_all, set_map, set_row, set_col}
use libmonome.Liblo.{Text, codes, text_eq, strstr, find, Message, Method, Link}
use libmonome.Liblo.Laws.{route_exactly, route_exactly-IsRouting}
use libmonome.Core.Dispatch.Tables.{mext_capabilities}
use libmonome.Monomeserial.{
  Handler, led_handler, led_all_handler, led_col_row_handler, led_map_handler, handler_function,
}
use libmonome.Monomeserial.Methods.{
  register_osc_methods, unregister_osc_methods, key, unregister_osc_methods-register,
}
use libmonome.Monomeserial.Safety.{handler_function-registered}
use libmonome.Monomeserial.Draws.{HandlerDraws}
use libmonome.Monomeserial.Paths.{at, handler_function-HandlerDraws}
use libmonome.Monomeserial.Options.{is_numstr, AreDigits, IsLoose, is_numstr-IsLoose, parse_options}
use libmonome.Monomeserial.Loop.{State, Round, turn, main_loop}
use libmonome.Monomeserial.Run.{Run, AreButtons, press_message}
use libmonome.Monomeserial.Run.Total.{main_loop-Run}
use libmonome.Monomeserial.Main.{World, success, main, main-can_start}
use libmonome.Posix.{stream}
use libmonome.Posix.Ready.{IsReady}
use libmonome.Rotation.Coords.{rotate_coords}
use libmonome.Mext.Receive.{Mext}
use libmonome.Core.Dispatch.{Capabilities}
use libmonome.Mext.Receive.Next.{mext_event}
use libmonome.Monomeserial.Bridge.{asked_alone, turn-key_event}
use libmonome.Tests.Devices.{turned_128, picture, pressed}

abbrev name : Text
name = codes "box"

abbrev methods : List (Method Handler)
methods = register_osc_methods (λ k. true) name []

unregister_osc_methods-register_example :
    Perm (unregister_osc_methods (λ k. true) name []) (map key methods)
unregister_osc_methods-register_example = unregister_osc_methods-register name

abbrev led_on : Message
led_on = record {
  path = at name (codes "/led");
  types = codes "iii";
  argv = pos 3 ∷ pos 4 ∷ pos 1 ∷ [];
}

handler_function-registered_example :
    is_some (
      handler_function mext_capabilities led_handler
        (at name (codes "/led"))
        (codes "iii")
        (pos 3 ∷ pos 4 ∷ pos 1 ∷ [])
        turned_128)
    ≡ true
unfolding route_exactly find text_eq register_osc_methods
handler_function-registered_example =
    handler_function-registered mext_capabilities (at name (codes "/led")) (codes "iii") (λ k. true)
      name led_on led_handler turned_128
      (route_exactly-IsRouting.arity methods led_on led_handler refl)

handler_function-HandlerDraws_example :
    let d = turned_128 in
    let clear = at name (codes "/clear") in
    let frame = at name (codes "/frame") in
    HandlerDraws led_handler
      (at name (codes "/led"))
      (codes "iii")
      (pos 3 ∷ pos 10 ∷ pos 1 ∷ [])
      d
      (set_led 3 10 true)
    × HandlerDraws led_all_handler clear (codes "i") (pos 1 ∷ []) d (set_all true)
    × HandlerDraws led_all_handler clear [] [] d (set_all false)
    × HandlerDraws led_map_handler frame
        (codes "iiiiiiii")
        (map pos picture)
        d
        (set_map 0 0 picture)
    × HandlerDraws led_map_handler frame
        (codes "iiiiiiiiii")
        (pos 0 ∷ pos 8 ∷ map pos picture)
        d
        (set_map 0 8 picture)
    × HandlerDraws led_col_row_handler
        (at name (codes "/led_row"))
        (codes "ii")
        (pos 10 ∷ pos 255 ∷ [])
        d
        (set_row 0 10 1 (255 ∷ []))
    × HandlerDraws led_col_row_handler
        (at name (codes "/led_col"))
        (codes "ii")
        (pos 3 ∷ pos 255 ∷ [])
        d
        (set_col 3 0 1 (255 ∷ []))
unfolding strstr get_rows get_cols
handler_function-HandlerDraws_example =
    handler_function-HandlerDraws turned_128 name 3 10 1 0 1 picture (255 ∷ [])
      (omega arith, omega arith, omega arith, omega arith, refl, refl) (omega arith, omega arith)
      (omega arith, omega arith) (omega arith, omega arith, omega arith) (ground arith, refl)
      (ground arith, inl refl) (omega arith, omega arith) refl

is_numstr-IsLoose_example :
    (is_numstr (codes "80a") ≡ true) ↔ (AreDigits (codes "80a") ⊎ IsLoose (codes "80a"))
is_numstr-IsLoose_example = is_numstr-IsLoose (codes "80a")

-- A device on which a key goes down each time that it is asked.
abbrev pressing : Device → (ℤ × Event) × Device
pressing d = ((pos 1, button_down 3 10), d)

abbrev busy : List Round
busy =
    record { hangup = false; monome_ready = true; osc_ready = true; memory = true }
    ∷ record { hangup = false; monome_ready = true; osc_ready = true; memory = false }
    ∷ record { hangup = true; monome_ready = true; osc_ready = false; memory = true }
    ∷ []

abbrev link : Link
link = record { sent = []; answer = λ log. pos 0 }

abbrev begun : State Device
begun = record { monome = turned_128; link = link; packets = (led_on ∷ []) ∷ [] }

main_loop-Run_example :
    (t : State Device) × (es : List Event) × (main_loop mext_capabilities pressing route_exactly
        methods name busy begun
      ≡ some (some 1, t))
    × Run mext_capabilities pressing route_exactly methods name t begun es
    × AreButtons es
    × (t.link.sent ≡ map (press_message name) es)
main_loop-Run_example =
    main_loop-Run mext_capabilities pressing route_exactly methods name busy begun
      (record { routes = route_exactly-IsRouting; asprintf = λ k. true; registered = refl })

abbrev world : World Device
world = record {
  args = (b's', codes "80!") ∷ (b'd', codes "/dev/ttyACM0") ∷ (b'r', codes "90") ∷ [];
  operand = some name;
  monome_open = λ path. some turned_128;
  server_new = λ port. true;
  address_new = λ host port. link;
  packets = (led_on ∷ []) ∷ [];
  rounds = busy;
  asprintf = λ k. true;
  asprintf_end = λ k. true;
}

abbrev turned_by : Device → Rotate → Device
turned_by d rotate = record d { rotation = rotate }

main-can_start_example :
    main mext_capabilities turned_by pressing route_exactly world
    ≡ some (success (unregister_osc_methods (λ k. true) name []))
unfolding parse_options
main-can_start_example =
    main-can_start mext_capabilities turned_by pressing route_exactly world route_exactly-IsRouting

-- A mext device of which the led functions are not used.
abbrev on_mext : Capabilities Mext
on_mext = record { led = none; led_level = none; led_ring = none; tilt = none }

-- The key at column 3, row 10, on a bridge of which nothing else is asked.
turn-key_event_example :
    (s' : State Mext) × (turn on_mext
        (mext_event (button_down 0 0))
        route_exactly
        methods
        name
        asked_alone
        (record { monome = pressed; link = link; packets = [] })
      ≡ some s')
    × (s'.link.sent ≡ press_message name (button_down 3 10) ∷ [])
    × (stream s'.monome.monome.port.arrivals ≡ 0x20 ∷ [])
    × IsReady s'.monome.monome
    × (s'.packets ≡ [])
unfolding stream rotate_coords get_rows get_cols
turn-key_event_example =
    turn-key_event on_mext route_exactly methods name 3 10 true (0x20 ∷ []) (button_down 0 0)
      (record { monome = pressed; link = link; packets = [] }) (omega arith) (omega arith)
      ((0x21, []) ∷ (10, 4 ∷ 0x20 ∷ []) ∷ [], 2, refl, refl, omega arith) refl
