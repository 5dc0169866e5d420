-- ===== src/Series/Event/Laws.antt =====
-- The events of `proto_series_next_event` of src/proto/series.c.
use libmonome.Common.{ℕ, ◌+◌, ◌*◌, ◌≤◌, ◌<◌, ◌≡◌, ap, ◌∙◌, arith, List, ◌∷◌, length, take, drop}
use libmonome.Common.{Bool, true, false, some}
use libmonome.Common.Int.{pos}
use libmonome.Event.{Event, button_up, button_down}
use libmonome.Posix.{platform_read, stream}
use libmonome.Posix.Ready.{IsReady, platform_read-IsReady}
use libmonome.Rotation.Coords.{rotate_coords, unrotate_coords}
use libmonome.Rotation.Coords.Laws.{
  HasDims, OnUserGrid, unrotate_coords-rotate_coords, rotate_coords-OnDeviceGrid,
}
use libmonome.Serial.{Serial, key_point-pair, unrotate_port}
use libmonome.Series.Event.{proto_series_next_event, proto_series_decode}

-- The event and the message of a key.
abbrev pub key_event : Bool → ℕ → ℕ → Event
key_event true = button_down
key_event false = button_up

abbrev pub key_message : Bool → ℕ
key_message true = 0x00
key_message false = 0x10

decode-key :
    (down : Bool) (x y : ℕ) (self : Serial)
    → y < 16
    → proto_series_decode (key_message down) (16 * x + y) self ≡ (
      (
        pos 1,
        some (
            key_event down
              (unrotate_coords self.monome (x, y)).0
              (unrotate_coords self.monome (x, y)).1),
      ),
      self,
    )
unfolding proto_series_decode
decode-key true x y self small =
    ap
      (λ p. (
        (
          pos 1,
          some (button_down (unrotate_coords self.monome p).0 (unrotate_coords self.monome p).1),
        ),
        self,
      ))
      (key_point-pair x y small)
decode-key false x y self small =
    ap
      (λ p. (
        (
          pos 1,
          some (button_up (unrotate_coords self.monome p).0 (unrotate_coords self.monome p).1),
        ),
        self,
      ))
      (key_point-pair x y small)

-- A series device reports the key under the LED that `monome_led_set x y` addresses as an event
-- at `x`, `y`, in every rotation: for a point of the user's grid, dimensions that are positive
-- and fit an `int`, at most 16 rows, a descriptor that keeps up, and that key's message at the
-- front of what arrives, the function answers 1 with that event, and exactly the message is
-- consumed.
pub proto_series_next_event-key :
    (x y : ℕ) (down : Bool) (rest : List ℕ) (self : Serial)
    → HasDims self.monome
    → self.monome.rows ≤ 16
    → OnUserGrid self.monome (x, y)
    → IsReady self.monome
    → let p = rotate_coords self.monome (x, y) in
      stream self.monome.port.arrivals ≡ key_message down ∷ (16 * p.0 + p.1) ∷ rest
      → ((proto_series_next_event self).0 ≡ (pos 1, some (key_event down x y)))
        × (stream (proto_series_next_event self).1.monome.port.arrivals ≡ rest)
        × IsReady (proto_series_next_event self).1.monome
unfolding proto_series_next_event
proto_series_next_event-key x y down rest self dims small on ready front =
    let p = rotate_coords self.monome (x, y) in
    let d = (platform_read 2 self.monome).1 in
    let read =
      platform_read-IsReady 2 self.monome ready (omega arith) (omega (arith, ap length front)) in
    let low = rotate_coords-OnDeviceGrid self.monome (x, y) dims on in
    let decoded =
      decode-key down p.0 p.1 (record self { monome = d }) (omega (arith, low.1, small)) in
    rw (read.0 ∙ ap (λ bs. (pos 2, bs)) (ap (take 2) front), decoded)
      (
        ap (λ q. (pos 1, some (key_event down q.0 q.1)))
            (unrotate_port 2 self.monome p
              ∙ unrotate_coords-rotate_coords self.monome (x, y) dims on),
        read.2 ∙ ap (drop 2) front,
        read.1,
      )
