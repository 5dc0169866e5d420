-- ===== src/Forty/Event.antt =====
-- `proto_40h_next_event` of src/proto/40h.c.
pub mod Laws
use libmonome.Common.{
  ℕ, ◌+◌, ◌/◌, List, get_or, ◌==◌, ◌||◌, leb, ltb, Bool, ◌&&◌, if◌then◌else◌, Option, none, some,
  bit_and, bit_or, ◌>>>◌, ◌<<<◌,
}
use libmonome.Common.Int.{ℤ, pos}
use libmonome.Device.{Device}
use libmonome.Event.{Event, button_up, button_down, tilt}
use libmonome.Posix.{platform_read}
use libmonome.Rotation.Coords.{unrotate_coords}
use libmonome.Serial.{Serial, is_short, filled, key_point}

abbrev pub proto_40h_button_down : ℕ
proto_40h_button_down = 0x01

abbrev pub proto_40h_button_up : ℕ
proto_40h_button_up = 0x00

abbrev pub proto_40h_aux_1 : ℕ
proto_40h_aux_1 = 0x10

abbrev pub proto_40h_aux_2 : ℕ
proto_40h_aux_2 = 0x14

-- The four `case`s from a port's number on.
abbrev is_aux : ℕ → ℕ → Bool
is_aux port b0 = leb port b0 && ltb b0 (port + 4)

-- The reading of a port: ten bits, of which eight are kept.
abbrev aux_reading : ℕ → ℕ → ℕ
aux_reading b0 b1 = bit_or (bit_and b0 0x3 <<< 8) b1 / 4

-- The event of the label `tilt_common`.
abbrev tilt_common : Serial → (ℤ × Option Event) × Serial
tilt_common self = ((pos 1, some (tilt 0 (pos self.tilt_x) (pos self.tilt_y) (pos 0))), self)

-- The `switch` on the two bytes.
unfoldable pub proto_40h_decode : ℕ → ℕ → Serial → (ℤ × Option Event) × Serial
proto_40h_decode b0 b1 self =
    let (x, y) = unrotate_coords self.monome (key_point b1) in
    if b0 == proto_40h_button_down
    then ((pos 1, some (button_down x y)), self)
    else if b0 == proto_40h_button_up
    then ((pos 1, some (button_up x y)), self)
    else if is_aux proto_40h_aux_1 b0
    then tilt_common (record self { tilt_x = aux_reading b0 b1 })
    else if is_aux proto_40h_aux_2 b0
    then tilt_common (record self { tilt_y = aux_reading b0 b1 })
    else ((pos 0, none), self)

-- proto_40h_next_event
unfoldable pub proto_40h_next_event : Serial → (ℤ × Option Event) × Serial
unfolding proto_40h_decode
proto_40h_next_event self =
    let ((read, stored), monome) = platform_read 2 self.monome in
    let self' = record self { monome = monome } in
    if is_short read
    then ((read, none), self')
    else proto_40h_decode (get_or (filled stored) 0 0) (get_or (filled stored) 1 0) self'
