-- ===== src/Tests/Osc.antt =====
-- Runs of src/proto/osc.c on a device that `proto_osc_open` has opened.
use libmonome.Common.{◌≡◌, inr, refl, List, [], ◌∷◌, true, false, some, arith}
use libmonome.Common.Int.{pos}
use libmonome.Event.{button_up, button_down, encoder_delta}
use libmonome.Frame.{set_led, set_all, set_map, set_row, set_col}
use libmonome.Liblo.{codes, text_eq, Message, Link, find}
use libmonome.Liblo.Laws.{route_exactly, route_exactly-IsRouting}
use libmonome.Core.Dispatch.{
  monome_led_set, monome_led_all, monome_led_map, monome_led_row, monome_led_col,
}
use libmonome.Osc.{Osc, press_handler, delta_handler, proto_osc_next_event}
use libmonome.Osc.Led.{proto_osc_capabilities}
use libmonome.Osc.Open.{
  Setting, monome_protocol_osc_new, proto_osc_open, opened_methods, opened_paths, IsOpen,
}
use libmonome.Osc.Receive.{message_of, proto_osc_next_event-event_after, proto_osc_open-next_event}
use libmonome.Osc.Draws.{Draws, proto_osc_capabilities-Draws}
use libmonome.Tests.Devices.{picture}

abbrev link : Link
link = record { sent = []; answer = λ log. pos 0 }

abbrev setting : Setting
setting = record {
  server_new = true;
  socket_fd = pos 5;
  url_path = codes "/monome";
  port_number = pos 9000;
  asprintf = λ k. true;
  undefined = [];
}

-- A bundle of a key, of a message that no method takes, and of an encoder.
abbrev bundle : List Message
bundle =
    message_of (codes "/monome") press_handler (pos 3 ∷ pos 4 ∷ pos 1 ∷ [])
    ∷ record { path = codes "/other"; types = []; argv = [] }
    ∷ message_of (codes "/monome") delta_handler (pos 2 ∷ pos 7 ∷ [])
    ∷ []

abbrev opened : Osc
opened = record {
  link = link;
  methods = opened_methods (codes "/monome");
  packets = bundle ∷ [];
  prefix = codes "/monome";
  have_event = false;
  e_ptr = some (button_up 0 0);
  paths = opened_paths (codes "/monome");
  fd = pos 5;
  freed = false;
}

opened-IsOpen : IsOpen (codes "/monome") opened
opened-IsOpen = record { registered = refl; cached = refl; live = refl }

proto_osc_next_event-event_after_example :
    proto_osc_next_event route_exactly (button_up 0 0) opened
    ≡ some (
      (pos 1, some (encoder_delta 2 (pos 7))),
      record opened { packets = []; e_ptr = some (encoder_delta 2 (pos 7)); have_event = true },
    )
unfolding route_exactly find text_eq
proto_osc_next_event-event_after_example =
    proto_osc_next_event-event_after route_exactly (codes "/monome") bundle [] (button_up 0 0)
      opened route_exactly-IsRouting opened-IsOpen refl

proto_osc_open-next_event_example :
    let packets =
      (message_of (codes "/monome") press_handler (pos 3 ∷ pos 4 ∷ pos 1 ∷ []) ∷ [])
      ∷ bundle
      ∷ [] in
    let self = (proto_osc_open setting (monome_protocol_osc_new link packets)).1 in
    (self' : Osc) × (proto_osc_next_event route_exactly (button_up 0 0) self
      ≡ some ((pos 1, some (button_down 3 4)), self'))
    × (self'.packets ≡ bundle ∷ [])
    × IsOpen (codes "/monome") self'
proto_osc_open-next_event_example =
    proto_osc_open-next_event route_exactly setting link (bundle ∷ []) press_handler
      (pos 3 ∷ pos 4 ∷ pos 1 ∷ []) (button_up 0 0) route_exactly-IsRouting
      (record { serves = refl; listens = refl; allocates = λ k. refl }) refl

proto_osc_capabilities-Draws_example :
    let m = proto_osc_capabilities in
    let prefix = codes "/monome" in
    Draws prefix (monome_led_set m 3 4 1) opened (set_led 3 4 true)
    × Draws prefix (monome_led_all m 1) opened (set_all true)
    × Draws prefix (monome_led_map m 3 4 picture) opened (set_map 3 4 picture)
    × Draws prefix (monome_led_row m 3 4 2 (1 ∷ 255 ∷ [])) opened (set_row 3 4 2 (1 ∷ 255 ∷ []))
    × Draws prefix (monome_led_col m 3 4 2 (1 ∷ 255 ∷ [])) opened (set_col 3 4 2 (1 ∷ 255 ∷ []))
proto_osc_capabilities-Draws_example =
    proto_osc_capabilities-Draws (codes "/monome") opened opened-IsOpen 3 4 1 picture (1 ∷ 255 ∷ [])
      (omega arith) (omega arith) (omega arith) (ground arith) refl (ground arith) (inr refl)
