-- ===== src/Monomeserial/Bridge.antt =====
-- src/monomeserial.c with src/proto/mext.c: from the bytes of a key to the message of a press.
use libmonome.Common.{
  ℕ, ◌≡◌, refl, ap, ◌∙◌, List, [], ◌∷◌, ◌++◌, map, subst, sym, Bool, true, false, Option, some,
}
use libmonome.Common.Int.{ℤ, pos}
use libmonome.Event.{Event}
use libmonome.Rotation.Coords.{rotate_coords}
use libmonome.Rotation.Coords.Laws.{HasDims, OnUserGrid}
use libmonome.Posix.{coming, stream}
use libmonome.Posix.Ready.{IsReady}
use libmonome.Mext.Receive.{Mext}
use libmonome.Mext.Receive.Next.{mext_event, mext_event-answered}
use libmonome.Mext.Receive.Delivery.{key_event, key_header, mext_next_event-key}
use libmonome.Liblo.{Text, Message, Method}
use libmonome.Core.Dispatch.{Capabilities}
use libmonome.Monomeserial.{Handler}
use libmonome.Monomeserial.Loop.{State, Round, handle_next, turn}
use libmonome.Monomeserial.Run.{press_message, forwarded, sent_by}

abbrev pub asked_alone : Round
asked_alone = record { hangup = false; monome_ready = true; osc_ready = false; memory = true }

forwarded-key_event :
    (down : Bool) (x y : ℕ) → forwarded true (pos 1) (key_event down x y) ≡ key_event down x y ∷ []
forwarded-key_event true x y = refl
forwarded-key_event false x y = refl

module _ (capabilities : Capabilities Mext)
    (route : List (Method Handler) → Message → Option Handler) (methods : List (Method Handler))
    (prefix : Text) where
  -- A turn of `main_loop` in which a mext grid alone has something to read, and memory does not
  -- run out, passes a key on: for a point of the user's grid, dimensions that are positive and
  -- fit an `int`, a descriptor that keeps up, and at the front of what arrives the message of
  -- the key under the LED that `monome_led_set x y` addresses, the program sends one press
  -- message, with `x`, `y` and whether the key went down, in every rotation; exactly the key's
  -- message is consumed.
  pub turn-key_event :
      (x y : ℕ) (down : Bool) (rest : List ℕ) (e : Event) (s : State Mext)
      → HasDims s.monome.monome
      → OnUserGrid s.monome.monome (x, y)
      → IsReady s.monome.monome
      → let p = rotate_coords s.monome.monome (x, y) in
        stream s.monome.monome.port.arrivals ≡ key_header down ∷ p.0 ∷ p.1 ∷ rest
        → (s' : State Mext) × (turn capabilities (mext_event e) route methods prefix asked_alone s
            ≡ some s')
          × (s'.link.sent ≡ s.link.sent ++ press_message prefix (key_event down x y) ∷ [])
          × (stream s'.monome.monome.port.arrivals ≡ rest)
          × IsReady s'.monome.monome
          × (s'.packets ≡ s.packets)
  unfolding turn handle_next
  turn-key_event x y down rest e s dims on ready front =
      let (m, answered, left, still) =
        mext_next_event-key (coming s.monome.monome) x y down rest s.monome dims on ready front in
      let event = mext_event-answered e s.monome m (key_event down x y) answered in
      (
        handle_next capabilities (mext_event e) route methods prefix true s,
        refl,
        sent_by capabilities (mext_event e) route methods prefix s true
            ∙ ap
                (λ (r : (ℤ × Event) × Mext).
                  s.link.sent ++ map (press_message prefix) (forwarded true r.0.0 r.0.1))
                event
            ∙ ap (λ (es : List Event). s.link.sent ++ map (press_message prefix) es)
                (forwarded-key_event down x y),
        ap (λ (r : (ℤ × Event) × Mext). stream r.1.monome.port.arrivals) event ∙ left,
        subst (λ (r : (ℤ × Event) × Mext). IsReady r.1.monome) (sym event) still,
        refl,
      )
