-- ===== src/Core/Handlers/Laws.antt =====
-- Which handler an event is given to.
use libmonome.Common.{
  ℕ, ◌+◌, List, length, get_or, set, length-set, get_or-set_self, get_or-set_ne, ◌≡◌, ◌≢◌, refl,
  sym, ap, ◌∙◌, ◌<◌, arith, leb, false, some,
}
use libmonome.Common.Int.{pos, leb_ℤ}
use libmonome.Event.{Event, event_type}
use libmonome.Core.Handlers.{
  Callback, no_handler, call_handler, event_max, monome_register_handler, monome_event_handle_next,
}

-- The numbers of the event types index the array.
event_type-lt : (e : Event) → event_type e < event_max
unfolding event_type
event_type-lt e = ground arith

-- Registering a handler for one of the six event types succeeds and keeps the array's length; an
-- event of that type that is delivered afterwards is given to that handler with the data
-- registered beside it, and an event of another type is treated as it would have been before.
pub monome_register_handler-handle_next :
    (cb user_data n : ℕ) (e : Event) (kind : ℕ) (handlers : List Callback)
    → length handlers ≡ event_max
    → kind < event_max
    → let (status, handlers') = monome_register_handler kind (some cb) user_data handlers in
      (status ≡ 0)
      × (length handlers' ≡ event_max)
      × (event_type e ≡ kind
          → monome_event_handle_next (pos (1 + n)) e handlers'
            ≡ (pos 1, some (record { function = cb; event = e; user_data = user_data })))
      × (event_type e ≢ kind
          → monome_event_handle_next (pos (1 + n)) e handlers'
            ≡ monome_event_handle_next (pos (1 + n)) e handlers)
unfolding monome_register_handler monome_event_handle_next
monome_register_handler-handle_next cb user_data n e kind handlers six known =
    rw (small, go_on)
      (
        refl,
        length-set handlers kind new ∙ six,
        (λ same. ap (call_handler e) (
            ap (λ k. get_or (set handlers kind new) k no_handler) same
            ∙ get_or-set_self handlers kind new no_handler (omega (arith, six)))),
        λ other.
            ap (call_handler e) (
              get_or-set_ne handlers kind (event_type e) new no_handler (λ same. other (sym same))),
      )
  where
    new : Callback
    new = record { cb = some cb; user_data = user_data }

    small : leb event_max kind ≡ false
    small = ground arith

    go_on : leb_ℤ (pos (1 + n)) (pos 0) ≡ false
    go_on = ground arith
