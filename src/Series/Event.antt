-- ===== src/Series/Event.antt =====
-- `proto_series_next_event` of src/proto/series.c.
pub mod Laws
use libmonome.Common.{
  ℕ, ◌+◌, List, get_or, ◌==◌, ◌||◌, if◌then◌else◌, Option, none, some, bit_and, ◌>>>◌,
}
use libmonome.Common.Int.{ℤ, pos}
use libmonome.Device.{Device}
use libmonome.Event.{Event, button_up, button_down, tilt}
use libmonome.Posix.{platform_read}
use libmonome.Rotation.Coords.{unrotate_coords}
use libmonome.Serial.{Serial, is_short, filled, key_point}

abbrev pub proto_series_button_down : ℕ
proto_series_button_down = 0x00

abbrev pub proto_series_button_up : ℕ
proto_series_button_up = 0x10

abbrev pub proto_series_tilt : ℕ
proto_series_tilt = 0xD0

-- The event of the label `tilt_common`.
abbrev tilt_common : Serial → (ℤ × Option Event) × Serial
tilt_common self = ((pos 1, some (tilt 0 (pos self.tilt_x) (pos self.tilt_y) (pos 0))), self)

-- The `switch` on the two bytes.
unfoldable pub proto_series_decode : ℕ → ℕ → Serial → (ℤ × Option Event) × Serial
proto_series_decode b0 b1 self =
    let (x, y) = unrotate_coords self.monome (key_point b1) in
    if b0 == proto_series_button_down
    then ((pos 1, some (button_down x y)), self)
    else if b0 == proto_series_button_up
    then ((pos 1, some (button_up x y)), self)
    else if b0 == proto_series_tilt
    then tilt_common (record self { tilt_x = b1 })
    else if b0 == proto_series_tilt + 1
    then tilt_common (record self { tilt_y = b1 })
    else ((pos 0, none), self)

-- proto_series_next_event
unfoldable pub proto_series_next_event : Serial → (ℤ × Option Event) × Serial
unfolding proto_series_decode
proto_series_next_event self =
    let ((read, stored), monome) = platform_read 2 self.monome in
    let self' = record self { monome = monome } in
    if is_short read
    then ((read, none), self')
    else proto_series_decode (get_or (filled stored) 0 0) (get_or (filled stored) 1 0) self'
