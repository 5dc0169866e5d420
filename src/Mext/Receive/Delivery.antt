-- ===== src/Mext/Receive/Delivery.antt =====
-- The key events of `mext_next_event` of src/proto/mext.c.

use libmonome.Common.{ℕ, suc, ◌+◌, ◌≡◌, refl, ap, ◌∙◌, arith, List, [], ◌∷◌, ◌++◌}
use libmonome.Common.{length, Bool, true, false, some, ◌>>>◌, bit_and}
use libmonome.Common.Int.{pos, leb_ℤ}
use libmonome.Device.{Device, get_rows, get_cols}
use libmonome.Event.{Event, button_up, button_down}
use libmonome.Posix.{stream}
use libmonome.Posix.Ready.{IsReady}
use libmonome.Rotation.Coords.{rotate_coords, unrotate_coords}
use libmonome.Rotation.Coords.Laws.{HasDims, OnUserGrid, unrotate_coords-rotate_coords}
use libmonome.Mext.Receive.{
  Mext, Incoming, incoming_payload_lengths, mext_read_msg, next_event_loop, mext_next_event,
  no_message, handle_message,
}
use libmonome.Mext.Receive.Read.{
  message, length_of, mext_read_msg-Receives, Keeps, mext_read_msg-Keeps,
}

positive : (n : ℕ) → leb_ℤ (pos (1 + n)) (pos 0) ≡ false
positive n = ground arith

-- A whole message whose handler passes an event on ends the loop.
pub next_event_loop-passes :
    (fuel header : ℕ) (payload rest : List ℕ) (msg : Incoming) (self : Mext) (e : Event)
    → IsReady self.monome
    → stream self.monome.port.arrivals ≡ header ∷ payload ++ rest
    → length payload ≡ length_of header
    → let d = (mext_read_msg msg self.monome).1 in
      let m = message (header >>> 4) (bit_and header 0xF) payload msg in
      let r = handle_message (record self { monome = d }) m in
      r.0 ≡ some e → next_event_loop (suc fuel) msg self ≡ some ((pos 1, some e), r.1)
unfolding next_event_loop
next_event_loop-passes fuel header payload rest msg self e ready front whole passes =
    let received = mext_read_msg-Receives header payload rest msg self.monome ready front whole in
    let me = record self { monome = (mext_read_msg msg self.monome).1 } in
    let passed = ap (λ m. (handle_message me m).0) received.1 ∙ passes in
    rw (received.0, positive (length payload), passed)
      (ap (λ m. some ((pos 1, some e), (handle_message me m).1)) received.1)

-- A press or a release of the key behind a LED.
abbrev pub key_event : Bool → ℕ → ℕ → Event
key_event true = button_down
key_event false = button_up

-- The header of the message that reports it.
abbrev pub key_header : Bool → ℕ
key_header true = 0x21
key_header false = 0x20

handle-key :
    (down : Bool) (x y : ℕ) (self : Mext)
    → handle_message self
        (message (key_header down >>> 4) (bit_and (key_header down) 0xF) (x ∷ y ∷ []) no_message)
      ≡ (
        some (
            key_event down
              (unrotate_coords self.monome (x, y)).0
              (unrotate_coords self.monome (x, y)).1),
        self,
      )
unfolding handle_message
handle-key true x y self = refl
handle-key false x y self = refl

key_length : (down : Bool) → 2 ≡ length_of (key_header down)
unfolding incoming_payload_lengths
key_length true = refl
key_length false = refl

unrotate-Keeps :
    (d d' : Device) (p : ℕ × ℕ) → Keeps d d' → unrotate_coords d' p ≡ unrotate_coords d p
unfolding unrotate_coords get_rows get_cols
unrotate-Keeps d d' p keeps = ap (λ e. unrotate_coords e p) keeps ∙ ground arith

-- A mext device reports the key under the LED that `monome_led_set x y` addresses as an event at
-- `x`, `y`, in every rotation: for a point of the user's grid, dimensions that are positive and
-- fit an `int`, a descriptor that keeps up, and that key's message at the front of what arrives,
-- `mext_next_event` answers 1 with that event, and exactly the message is consumed.
pub mext_next_event-key :
    (fuel x y : ℕ) (down : Bool) (rest : List ℕ) (self : Mext)
    → HasDims self.monome
    → OnUserGrid self.monome (x, y)
    → IsReady self.monome
    → let p = rotate_coords self.monome (x, y) in
      stream self.monome.port.arrivals ≡ key_header down ∷ p.0 ∷ p.1 ∷ rest
      → (self' : Mext) × (mext_next_event (suc fuel) self
          ≡ some ((pos 1, some (key_event down x y)), self'))
        × (stream self'.monome.port.arrivals ≡ rest)
        × IsReady self'.monome
unfolding mext_next_event
mext_next_event-key fuel x y down rest self dims on ready front =
    let payload = p.0 ∷ p.1 ∷ [] in
    let received =
      mext_read_msg-Receives (key_header down) payload rest no_message self.monome ready front
        (key_length down) in
    let m = message (key_header down >>> 4) (bit_and (key_header down) 0xF) payload no_message in
    let handled = handle-key down p.0 p.1 (record self { monome = d }) in
    let event =
      ap (λ r. r.0) handled
      ∙ ap (λ q. some (key_event down q.0 q.1))
          (unrotate-Keeps self.monome d p (mext_read_msg-Keeps no_message self.monome)
            ∙ unrotate_coords-rotate_coords self.monome (x, y) dims on) in
    (
      record self { monome = d },
      next_event_loop-passes fuel (key_header down) payload rest no_message self
            (key_event down x y) ready front (key_length down) event
          ∙ ap (λ r. some ((pos 1, some (key_event down x y)), r.1)) handled,
      received.3,
      received.2,
    )
  where
    p : ℕ × ℕ
    p = rotate_coords self.monome (x, y)

    d : Device
    d = (mext_read_msg no_message self.monome).1
