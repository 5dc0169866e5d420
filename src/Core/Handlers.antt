-- ===== src/Core/Handlers.antt =====
-- The event handlers of src/libmonome.c.
pub mod Laws
use libmonome.Common.{ℕ, List, get_or, set, leb, if◌then◌else◌, Option, none, some}
use libmonome.Common.Int.{ℤ, pos, leb_ℤ}
use libmonome.Event.{Event, event_type}

-- monome_callback_t; functions and pointers are numbers here, and `none` is NULL.
pub record Callback : Type 0 where
  pub cb : Option ℕ
  pub user_data : ℕ

-- MONOME_EVENT_MAX and EINVAL.
abbrev pub event_max : ℕ
event_max = 6

abbrev pub einval : ℕ
einval = 22

abbrev pub no_handler : Callback
no_handler = record { cb = none; user_data = 0 }

-- monome_register_handler, on the array `handlers`.
unfoldable pub monome_register_handler : ℕ → Option ℕ → ℕ → List Callback → ℕ × List Callback
monome_register_handler event_type cb user_data handlers =
    if leb event_max event_type
    then (einval, handlers)
    else (0, set handlers event_type (record { cb = cb; user_data = user_data }))

-- monome_unregister_handler
unfoldable pub monome_unregister_handler : ℕ → List Callback → ℕ × List Callback
unfolding monome_register_handler
monome_unregister_handler event_type = monome_register_handler event_type none 0

-- A call of a handler: the function, the event and the data.
pub record Call : Type 0 where
  pub function : ℕ
  pub event : Event
  pub user_data : ℕ

-- The end of `monome_event_handle_next`.
abbrev pub call_handler : Event → Callback → ℤ × Option Call
call_handler e handler = elim handler.cb [
  | none ↦ (pos 0, none)
  | some f ↦ (pos 1, some (record { function = f; event = e; user_data = handler.user_data }))
]

-- monome_event_handle_next, from the answer of `next_event` and what then stands in `e`: the
-- answer, and the call that is made.
unfoldable pub monome_event_handle_next : ℤ → Event → List Callback → ℤ × Option Call
unfolding event_type
monome_event_handle_next status e handlers =
    if leb_ℤ status (pos 0)
    then (status, none)
    else call_handler e (get_or handlers (event_type e) no_handler)
