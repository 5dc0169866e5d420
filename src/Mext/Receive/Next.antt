-- ===== src/Mext/Receive/Next.antt =====
-- `mext_next_event` of src/proto/mext.c as `monome->next_event`, with the event that the caller gives.
use libmonome.Common.{
  ℕ, zero, suc, ◌≡◌, refl, true, false, Option, none, some, arith, Bool-cases, Option-cases, inl,
  inr,
}
use libmonome.Common.Int.{ℤ, pos, minus_one, ltb_ℤ, leb_ℤ}
use libmonome.Event.{Event}
use libmonome.Posix.{coming}
use libmonome.Posix.Loop.{WritesEvents}
use libmonome.Mext.Receive.{
  Mext, Incoming, mext_read_msg, handle_message, next_event_loop, no_message, mext_next_event,
}

-- The event is what it was where none arrives.
unfoldable pub received : Mext → Event → Option ((ℤ × Option Event) × Mext) → (ℤ × Event) × Mext
received self e none = ((minus_one, e), self)
received self e (some ((status, none), self')) = ((status, e), self')
received self e (some ((status, some e'), self')) = ((status, e'), self')

-- The fuel is enough for the bytes that are to come.
unfoldable pub mext_event : Event → Mext → (ℤ × Event) × Mext
unfolding mext_next_event received
mext_event e self = received self e (mext_next_event (suc (coming self.monome)) self)

pub mext_event-answered :
    (e : Event) (self self' : Mext) (e' : Event)
    → mext_next_event (suc (coming self.monome)) self ≡ some ((pos 1, some e'), self')
    → mext_event e self ≡ ((pos 1, e'), self')
unfolding mext_event received
mext_event-answered e self self' e' h = ground (arith, h)

-- An answer above 0 comes with an event.
abbrev HasEvent : Option ((ℤ × Option Event) × Mext) → Type 0
HasEvent none = Unit {0}
HasEvent (some ((status, none), self)) = ltb_ℤ status (pos 1) ≡ true
HasEvent (some ((status, some e), self)) = Unit {0}

not_above : (n : ℤ) → leb_ℤ n (pos 0) ≡ true → ltb_ℤ n (pos 1) ≡ true
not_above n h = ground (arith, h)

next_event_loop-HasEvent :
    (fuel : ℕ) (msg : Incoming) (self : Mext) → HasEvent (next_event_loop fuel msg self)
unfolding next_event_loop
next_event_loop-HasEvent zero msg self = tt
next_event_loop-HasEvent (suc fuel) msg self =
    let ((status, msg'), monome) = mext_read_msg msg self.monome in
    let (event, self') = handle_message (record self { monome = monome }) msg' in
    elim (Bool-cases (leb_ℤ status (pos 0))) [
      | inl nothing ↦ rw nothing (not_above status nothing)
      | inr something ↦ rw something (elim (Option-cases event) [
        | inl silent ↦ rw silent (next_event_loop-HasEvent fuel msg' self')
        | inr (e, loud) ↦ rw loud tt
      ])
    ]

received-writes :
    (self : Mext) (e e' : Event) (r : Option ((ℤ × Option Event) × Mext))
    → HasEvent r
    → ltb_ℤ (received self e r).0.0 (pos 1) ≡ false
    → (received self e r).0.1 ≡ (received self e' r).0.1
unfolding received
received-writes self e e' none h above = absurd (ground arith)
received-writes self e e' (some ((status, none), self')) h above = absurd (ground (arith, h))
received-writes self e e' (some ((status, some e''), self')) h above = refl

received-answers :
    (self : Mext) (e e' : Event) (r : Option ((ℤ × Option Event) × Mext))
    → ((received self e r).0.0 ≡ (received self e' r).0.0)
      × ((received self e r).1 ≡ (received self e' r).1)
unfolding received
received-answers self e e' none = (refl, refl)
received-answers self e e' (some ((status, none), self')) = (refl, refl)
received-answers self e e' (some ((status, some e''), self')) = (refl, refl)

pub mext_event-WritesEvents : WritesEvents mext_event
unfolding mext_event mext_next_event
mext_event-WritesEvents = record {
  answers =
      λ e e' self. (received-answers self e e' (mext_next_event (suc (coming self.monome)) self)).0;
  leaves =
      λ e e' self. (received-answers self e e' (mext_next_event (suc (coming self.monome)) self)).1;
  writes = λ e e' self above.
      received-writes self e e' (mext_next_event (suc (coming self.monome)) self)
        (next_event_loop-HasEvent (suc (coming self.monome)) no_message self) above;
}
