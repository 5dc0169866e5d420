-- ===== src/Forty/Event/Laws.antt =====
-- The events of `proto_40h_next_event` of src/proto/40h.c.
use libmonome.Common.{
  ℕ, ◌+◌, ◌*◌, ◌≤◌, ◌<◌, ◌≡◌, refl, ap, ◌∙◌, arith, List, [], ◌∷◌, length, take, drop,
}
use libmonome.Common.{Bool, true, false, some}
use libmonome.Common.Int.{pos, minus_one}
use libmonome.Device.{Device, Arrival, failed}
use libmonome.Event.{Event, button_up, button_down}
use libmonome.Posix.{platform_read, stream}
use libmonome.Posix.Ready.{IsReady, platform_read-IsReady}
use libmonome.Rotation.Coords.{rotate_coords, unrotate_coords}
use libmonome.Rotation.Coords.Laws.{
  HasDims, OnUserGrid, unrotate_coords-rotate_coords, rotate_coords-OnDeviceGrid,
}
use libmonome.Serial.{Serial, key_point-pair, unrotate_port}
use libmonome.Forty.Event.{proto_40h_next_event, proto_40h_decode}

-- The event and the message of a key.
abbrev pub key_event : Bool → ℕ → ℕ → Event
key_event true = button_down
key_event false = button_up

abbrev pub key_message : Bool → ℕ
key_message true = 0x01
key_message false = 0x00

decode-key :
    (down : Bool) (x y : ℕ) (self : Serial)
    → y < 16
    → proto_40h_decode (key_message down) (16 * x + y) self ≡ (
      (
        pos 1,
        some (
            key_event down
              (unrotate_coords self.monome (x, y)).0
              (unrotate_coords self.monome (x, y)).1),
      ),
      self,
    )
unfolding proto_40h_decode
decode-key true x y self small =
    ap
      (λ p. (
        (
          pos 1,
          some (button_down (unrotate_coords self.monome p).0 (unrotate_coords self.monome p).1),
        ),
        self,
      ))
      (key_point-pair x y small)
decode-key false x y self small =
    ap
      (λ p. (
        (
          pos 1,
          some (button_up (unrotate_coords self.monome p).0 (unrotate_coords self.monome p).1),
        ),
        self,
      ))
      (key_point-pair x y small)

-- A 40h reports the key under the LED that `monome_led_set x y` addresses as an event at `x`,
-- `y`, in every rotation: for a point of the user's grid, dimensions that are positive and fit
-- an `int`, at most 16 rows, a descriptor that keeps up, and that key's message at the front of
-- what arrives, the function answers 1 with that event, and exactly the message is consumed.
pub proto_40h_next_event-key :
    (x y : ℕ) (down : Bool) (rest : List ℕ) (self : Serial)
    → HasDims self.monome
    → self.monome.rows ≤ 16
    → OnUserGrid self.monome (x, y)
    → IsReady self.monome
    → let p = rotate_coords self.monome (x, y) in
      stream self.monome.port.arrivals ≡ key_message down ∷ (16 * p.0 + p.1) ∷ rest
      → ((proto_40h_next_event self).0 ≡ (pos 1, some (key_event down x y)))
        × (stream (proto_40h_next_event self).1.monome.port.arrivals ≡ rest)
        × IsReady (proto_40h_next_event self).1.monome
unfolding proto_40h_next_event
proto_40h_next_event-key x y down rest self dims small on ready front =
    let p = rotate_coords self.monome (x, y) in
    let d = (platform_read 2 self.monome).1 in
    let read =
      platform_read-IsReady 2 self.monome ready (omega arith) (omega (arith, ap length front)) in
    let low = rotate_coords-OnDeviceGrid self.monome (x, y) dims on in
    let decoded =
      decode-key down p.0 p.1 (record self { monome = d }) (omega (arith, low.1, small)) in
    rw (read.0 ∙ ap (λ bs. (pos 2, bs)) (ap (take 2) front), decoded)
      (
        ap (λ q. (pos 1, some (key_event down q.0 q.1)))
            (unrotate_port 2 self.monome p
              ∙ unrotate_coords-rotate_coords self.monome (x, y) dims on),
        read.2 ∙ ap (drop 2) front,
        read.1,
      )

failed_read :
    (d : Device) (rest : List Arrival)
    → d.port.arrivals ≡ failed ∷ rest
    → (platform_read 2 d).0 ≡ (minus_one, [])
unfolding platform_read
failed_read d rest broken = rw broken refl

-- When read(2) fails, `monome_platform_read` answers -1 with nothing stored, and
-- `proto_40h_next_event` reports a button up at the device's first key all the same, since it
-- compares the -1 with an unsigned 2.
pub proto_40h_next_event-failed :
    (rest : List Arrival) (self : Serial)
    → self.monome.port.arrivals ≡ failed ∷ rest
    → let q = unrotate_coords self.monome (0, 0) in
      ((platform_read 2 self.monome).0 ≡ (minus_one, []))
      × ((proto_40h_next_event self).0 ≡ (pos 1, some (button_up q.0 q.1)))
unfolding proto_40h_next_event
proto_40h_next_event-failed rest self broken =
    let answer = failed_read self.monome rest broken in
    (
      answer,
      rw answer (
          ap (λ (q : ℕ × ℕ). (pos 1, some (button_up q.0 q.1)))
            (unrotate_port 2 self.monome (0, 0))),
    )
