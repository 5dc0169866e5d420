-- ===== src/Mext/Receive/Values.antt =====
-- The signed values of encoders and tilt sensors in `mext_next_event` of src/proto/mext.c.
use libmonome.Common.{ℕ, suc, ◌-◌, ◌/◌, ◌%◌, ◌<◌, ◌≡◌, refl, ap, ◌∙◌, arith, List, [], ◌∷◌, ◌++◌}
use libmonome.Common.{length, some, ◌>>>◌, bit_and}
use libmonome.Common.Int.{ℤ, pos, negsuc}
use libmonome.Event.{Event, encoder_delta, tilt}
use libmonome.Posix.{stream}
use libmonome.Posix.Ready.{IsReady}
use libmonome.Mext.Receive.{
  Mext, incoming_payload_lengths, mext_read_msg, mext_next_event, no_message, handle_message, int8,
  int16,
}
use libmonome.Mext.Receive.Read.{message, length_of, mext_read_msg-Receives}
use libmonome.Mext.Receive.Delivery.{next_event_loop-passes}

-- A message at the front of what arrives is consumed and its event delivered, if its handler passes
-- it on whatever the state.
mext_next_event-delivers :
    (fuel header : ℕ) (payload rest : List ℕ) (self : Mext) (e : Event)
    → IsReady self.monome
    → stream self.monome.port.arrivals ≡ header ∷ payload ++ rest
    → length payload ≡ length_of header
    → ((me : Mext)
        → handle_message me (message (header >>> 4) (bit_and header 0xF) payload no_message)
          ≡ (some e, me))
    → (self' : Mext) × (mext_next_event (suc fuel) self ≡ some ((pos 1, some e), self'))
      × (stream self'.monome.port.arrivals ≡ rest)
      × IsReady self'.monome
unfolding mext_next_event
mext_next_event-delivers fuel header payload rest self e ready front whole handles =
    let received =
      mext_read_msg-Receives header payload rest no_message self.monome ready front whole in
    let handled = handles me in
    (
      me,
      next_event_loop-passes fuel header payload rest no_message self e ready front whole
            (ap (λ r. r.0) handled)
          ∙ ap (λ r. some ((pos 1, some e), r.1)) handled,
      received.3,
      received.2,
    )
  where
    me : Mext
    me = record self { monome = (mext_read_msg no_message self.monome).1 }

-- Two's complement in `w` values, and the numbers that half of them stand for.
abbrev pub encoded : ℕ → ℤ → ℕ
encoded w (pos n) = n
encoded w (negsuc n) = w - 1 - n

abbrev pub Fits : ℕ → ℤ → Type 0
Fits half (pos n) = n < half
Fits half (negsuc n) = n < half

int8-encoded : (v : ℤ) → Fits 128 v → int8 (encoded 256 v) ≡ v
int8-encoded (pos n) fits = ground arith
int8-encoded (negsuc n) fits = ground arith

int16-encoded : (v : ℤ) → Fits 32768 v → int16 (encoded 65536 v % 256) (encoded 65536 v / 256) ≡ v
int16-encoded (pos n) fits = ground arith
int16-encoded (negsuc n) fits = ground arith

-- A turn of an encoder by -128 to 127, sent in two's complement at the front of what arrives on
-- a descriptor that keeps up, is delivered by `mext_next_event` as that number, and exactly the
-- message is consumed.
pub mext_next_event-encoder :
    (fuel number : ℕ) (delta : ℤ) (rest : List ℕ) (self : Mext)
    → Fits 128 delta
    → IsReady self.monome
    → stream self.monome.port.arrivals ≡ 0x50 ∷ number ∷ encoded 256 delta ∷ rest
    → (self' : Mext) × (mext_next_event (suc fuel) self
        ≡ some ((pos 1, some (encoder_delta number delta)), self'))
      × (stream self'.monome.port.arrivals ≡ rest)
      × IsReady self'.monome
unfolding handle_message incoming_payload_lengths
mext_next_event-encoder fuel number delta rest self fits ready front =
    mext_next_event-delivers fuel 0x50 (number ∷ encoded 256 delta ∷ []) rest self
      (encoder_delta number delta) ready front refl
      (λ me. ap (λ v. (some (encoder_delta number v), me)) (int8-encoded delta fits))

-- The three values of a tilt sensor, from -32768 to 32767, sent in two's complement with the low
-- byte first at the front of what arrives on a descriptor that keeps up, are delivered by
-- `mext_next_event` as those numbers, and exactly the message is consumed.
pub mext_next_event-tilt :
    (fuel sensor : ℕ) (x y z : ℤ) (rest : List ℕ) (self : Mext)
    → Fits 32768 x
    → Fits 32768 y
    → Fits 32768 z
    → IsReady self.monome
    → let a = encoded 65536 x in
      let b = encoded 65536 y in
      let c = encoded 65536 z in
      stream self.monome.port.arrivals
        ≡ 0x81
          ∷ sensor
          ∷ (a % 256)
          ∷ (a / 256)
          ∷ (b % 256)
          ∷ (b / 256)
          ∷ (c % 256)
          ∷ (c / 256)
          ∷ rest
      → (self' : Mext) × (mext_next_event (suc fuel) self
          ≡ some ((pos 1, some (tilt sensor x y z)), self'))
        × (stream self'.monome.port.arrivals ≡ rest)
        × IsReady self'.monome
unfolding handle_message incoming_payload_lengths
mext_next_event-tilt fuel sensor x y z rest self hx hy hz ready front =
    let a = encoded 65536 x in
    let b = encoded 65536 y in
    let c = encoded 65536 z in
    mext_next_event-delivers fuel 0x81
      (sensor ∷ (a % 256) ∷ (a / 256) ∷ (b % 256) ∷ (b / 256) ∷ (c % 256) ∷ (c / 256) ∷ []) rest
      self (tilt sensor x y z) ready front refl
      (λ me i. (
        some (tilt sensor (int16-encoded x hx i) (int16-encoded y hy i) (int16-encoded z hz i)),
        me,
      ))
