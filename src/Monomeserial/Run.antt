-- ===== src/Monomeserial/Run.antt =====
-- What a run of `main_loop` of src/monomeserial.c does: when it ends, and what it sends.
pub mod Total
use mathlib.Core.List.{append_assoc, append-nil, map-append}
use libmonome.Common.{
  ℕ, ◌≡◌, refl, sym, ap, subst, ◌∙◌, List, [], ◌∷◌, ◌++◌, map, Bool, true, false, not, ◌&&◌, ◌||◌,
  if◌then◌else◌, Option, none, some, arith, inl, inr, ◌⊎◌, Bool-cases, Option-cases,
}
use libmonome.Common.Int.{ℤ, pos, leb_ℤ}
use libmonome.Event.{
  Event, event_type, button_up, button_down, encoder_delta, encoder_key_up, encoder_key_down, tilt,
}
use libmonome.Liblo.{Text, codes, Message, Method, Link, int32}
use libmonome.Liblo.Laws.{IsRouting, IsRegistered}
use libmonome.Core.Dispatch.{Capabilities}
use libmonome.Core.Handlers.{Call, monome_event_handle_next}
use libmonome.Monomeserial.{Handler, handler_function}
use libmonome.Monomeserial.Methods.{register_osc_methods}
use libmonome.Monomeserial.Safety.{handler_function-registered}
use libmonome.Monomeserial.Loop.{
  State, Round, main_handlers, monome_handle_press, perform, handle_next, deliver, receive, turn,
  main_loop,
}

-- A key of the grid goes up or down.
abbrev pub is_button : Event → Bool
is_button (button_up x y) = true
is_button (button_down x y) = true
is_button _ = false

abbrev pub x_of : Event → ℕ
x_of (button_up x y) = x
x_of (button_down x y) = x
x_of _ = 0

abbrev pub y_of : Event → ℕ
y_of (button_up x y) = y
y_of (button_down x y) = y
y_of _ = 0

abbrev pub is_down : Event → ℕ
is_down (button_down x y) = 1
is_down _ = 0

-- What the application is told: the key, and 1 for down or 0 for up.
abbrev pub press_message : Text → Event → Message
press_message prefix e = record {
  path = codes "/" ++ (prefix ++ codes "/press");
  types = codes "iii";
  argv = int32 (x_of e) ∷ int32 (y_of e) ∷ pos (is_down e) ∷ [];
}

abbrev pub AreButtons : List Event → Type 0
AreButtons [] = Unit {0}
AreButtons (e ∷ es) = (is_button e ≡ true) × AreButtons es

-- The events that a call of the device's `next_event` makes the program forward.
abbrev pub forwarded : Bool → ℤ → Event → List Event
forwarded memory status e =
    if memory && (not (leb_ℤ status (pos 0)) && is_button e) then e ∷ [] else []

perform-forwarded :
    (prefix : Text) (memory : Bool) (status : ℤ) (e : Event) (link : Link)
    → (perform prefix memory (monome_event_handle_next status e main_handlers).1 link).sent
      ≡ link.sent ++ map (press_message prefix) (forwarded memory status e)
unfolding monome_event_handle_next main_handlers monome_handle_press
perform-forwarded prefix memory status (button_up x y) link = ground (arith, append-nil link.sent)
perform-forwarded prefix memory status (button_down x y) link = ground (arith, append-nil link.sent)
perform-forwarded prefix memory status (encoder_delta n d) link =
    ground (arith, append-nil link.sent)
perform-forwarded prefix memory status (encoder_key_up n d) link =
    ground (arith, append-nil link.sent)
perform-forwarded prefix memory status (encoder_key_down n d) link =
    ground (arith, append-nil link.sent)
perform-forwarded prefix memory status (tilt t x y z) link = ground (arith, append-nil link.sent)

module _ {S : Type 0} (capabilities : Capabilities S) (next_event : S → (ℤ × Event) × S)
    (route : List (Method Handler) → Message → Option Handler) (methods : List (Method Handler))
    (prefix : Text) where
  -- A run of the program, as steps in any order: the device is asked for an event, or a packet is
  -- taken from the server. The run is labelled by the events that are forwarded.
  pub data Run (t : State S) : State S → List Event → Type 0 where
    done : Run t t []
    device :
        {s : State S} {es log : List Event} (memory : Bool)
        → log ≡ forwarded memory (next_event s.monome).0.0 (next_event s.monome).0.1 ++ es
        → Run t (handle_next capabilities next_event route methods prefix memory s) es
        → Run t s log
    server :
        {s u : State S} {es : List Event}
        → receive capabilities next_event route methods prefix s ≡ some u
        → Run t u es
        → Run t s es

  deliver-link :
      (s u : State S)
      → receive capabilities next_event route methods prefix s ≡ some u
      → u.link ≡ s.link
  unfolding receive
  deliver-link s u e = ground arith

  pub sent_by :
      (s : State S) (memory : Bool)
      → (handle_next capabilities next_event route methods prefix memory s).link.sent
        ≡ s.link.sent
          ++ map
              (press_message prefix)
              (forwarded memory (next_event s.monome).0.0 (next_event s.monome).0.1)
  unfolding handle_next
  sent_by s memory =
      perform-forwarded prefix memory (next_event s.monome).0.0 (next_event s.monome).0.1 s.link

  -- Whatever the device and the server do, and however their steps alternate, what is sent is one
  -- press message for each event that is forwarded, in their order.
  pub Run-press_message :
      {t s : State S} {es : List Event}
      → Run t s es
      → t.link.sent ≡ s.link.sent ++ map (press_message prefix) es
  Run-press_message {t} {s} done = sym (append-nil s.link.sent)
  Run-press_message {t} {s} (device {es} memory labels rest) =
      Run-press_message rest
      ∙ ap (λ (sent : List Message). sent ++ map (press_message prefix) es) (sent_by s memory)
      ∙ append_assoc s.link.sent _ (map (press_message prefix) es)
      ∙ ap (λ (sent : List Message). s.link.sent ++ sent)
          (sym (map-append (press_message prefix) _ es)
            ∙ ap (map (press_message prefix)) (sym labels))
  Run-press_message {t} {s} {es} (server {u} received rest) =
      Run-press_message rest
      ∙ ap (λ (l : Link). l.sent ++ map (press_message prefix) es) (deliver-link s u received)

  pub AreButtons-append :
      (es fs : List Event) → AreButtons es → AreButtons fs → AreButtons (es ++ fs)
  AreButtons-append [] fs he hf = hf
  AreButtons-append (e ∷ es) fs he hf = (he.0, AreButtons-append es fs he.1 hf)

  pub Run-AreButtons : {t s : State S} {es : List Event} → Run t s es → AreButtons es
  Run-AreButtons done = tt
  Run-AreButtons (device {es} memory labels rest) =
      subst AreButtons (sym labels) (AreButtons-append _ es (ground arith) (Run-AreButtons rest))
  Run-AreButtons (server received rest) = Run-AreButtons rest
