-- ===== src/Event.antt =====
-- `monome_event_t` of public/monome.h: each event type with the member of the union that goes
-- with it.
use libmonome.Common.{ℕ}
use libmonome.Common.Int.{ℤ}

pub data Event : Type 0 where
  button_up button_down : (x y : ℕ) → Event
  encoder_delta encoder_key_up encoder_key_down : (number : ℕ) (delta : ℤ) → Event
  tilt : (sensor : ℕ) (x y z : ℤ) → Event

-- The number of the type, which indexes the handlers.
unfoldable pub event_type : Event → ℕ
event_type (button_up x y) = 0
event_type (button_down x y) = 1
event_type (encoder_delta n d) = 2
event_type (encoder_key_up n d) = 3
event_type (encoder_key_down n d) = 4
event_type (tilt s x y z) = 5
