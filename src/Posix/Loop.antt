-- ===== src/Posix/Loop.antt =====
-- `monome_event_loop` and `monome_platform_monotonic_milliseconds` of src/platform/posix.c.
use libmonome.Common.{
  map, Bool-cases, inl, inr, ◌∙◌, ℕ, ◌+◌, ◌*◌, ◌/◌, ◌≡◌, refl, List, [], ◌∷◌, ◌++◌, get_or, Bool,
  true, false, if◌then◌else◌, Option, none, some, arith, u64,
}
use libmonome.Common.Int.{ℤ, pos, ltb_ℤ}
use libmonome.Event.{Event, event_type}
use libmonome.Core.Handlers.{Callback, Call, no_handler, monome_event_handle_next}

abbrev calls_of : Option Call → List Call
calls_of none = []
calls_of (some c) = c ∷ []

module _ {S : Type 0} (next_event : Event → S → (ℤ × Event) × S) where
  -- A device whose `next_event` writes the whole event when it answers that there is one, and reads
  -- nothing of what the event held.
  pub record WritesEvents : Type 0 where
    pub answers : (e e' : Event) (s : S) → (next_event e s).0.0 ≡ (next_event e' s).0.0
    pub leaves : (e e' : Event) (s : S) → (next_event e s).1 ≡ (next_event e' s).1
    pub writes :
        (e e' : Event) (s : S)
        → ltb_ℤ (next_event e s).0.0 (pos 1) ≡ false
        → (next_event e s).0.1 ≡ (next_event e' s).0.1

module _ {S : Type 0} (next_event : Event → S → (ℤ × Event) × S) (handlers : List Callback) where
  -- One turn of the loop behind select(2): the call that is made, the event as it then is, and the
  -- device.
  unfoldable pub loop_turn : Event → S → Option Call × Event × S
  unfolding event_type
  loop_turn e s =
      let ((status, e), s) = next_event e s in
      let handler = get_or handlers (event_type e) no_handler in
      if ltb_ℤ status (pos 1) then (none, e, s) else elim handler.cb [
        | none ↦ (none, e, s)
        | some f ↦ (some (record { function = f; event = e; user_data = handler.user_data }), e, s)
      ]

  -- monome_event_loop, over the answers of select(2), of which `false` is an error: the calls that
  -- are made, whether the loop was left, and the device. `e` is what the one event of all turns holds.
  unfoldable pub monome_event_loop : List Bool → Event → S → List Call × Bool × S
  unfolding loop_turn
  monome_event_loop [] e s = ([], false, s)
  monome_event_loop (ready ∷ rest) e s = elim ready [
    | false ↦ ([], true, s)
    | true ↦
        let (call, e, s) = loop_turn e s in
        let (calls, left, t) = monome_event_loop rest e s in (calls_of call ++ calls, left, t)
  ]

  -- A caller that waits for the descriptor itself and calls `monome_event_handle_next` each time: every
  -- call has an event of its own, which holds anything at first.
  unfoldable pub handle_each : List (Bool × Event) → S → List Call × Bool × S
  unfolding monome_event_handle_next
  handle_each [] s = ([], false, s)
  handle_each ((ready, e) ∷ rest) s = elim ready [
    | false ↦ ([], true, s)
    | true ↦
        let ((status, e), s) = next_event e s in
        let (ret, call) = monome_event_handle_next status e handlers in
        let (calls, left, t) = handle_each rest s in (calls_of call ++ calls, left, t)
  ]

  turn-handle_next :
      (e e' : Event) (s : S)
      → WritesEvents next_event
      → (loop_turn e s).0
        ≡ (monome_event_handle_next (next_event e' s).0.0 (next_event e' s).0.1 handlers).1
  unfolding loop_turn monome_event_handle_next
  turn-handle_next e e' s h = elim (Bool-cases (ltb_ℤ (next_event e s).0.0 (pos 1))) [
    | inl nothing ↦ ground (arith, nothing, h.answers e e' s)
    | inr something ↦ ground (arith, something, h.answers e e' s, h.writes e e' s something)
  ]

  turn-leaves : (e : Event) (s : S) → (loop_turn e s).2 ≡ (next_event e s).1
  unfolding loop_turn
  turn-leaves e s = ground arith

  -- `monome_event_loop`, whose one event lives across the turns, makes the calls that a caller
  -- of `monome_event_handle_next` makes, whose event holds anything at first, in the same order;
  -- it ends at the same error of select(2) and leaves the device in the same state. The device's
  -- `next_event` writes the whole event when it answers that there is one, and reads nothing of
  -- what the event held.
  pub monome_event_loop-handle_each :
      (turns : List (Bool × Event)) (e : Event) (s : S)
      → WritesEvents next_event
      → monome_event_loop (map (λ turn. turn.0) turns) e s ≡ handle_each turns s
  unfolding monome_event_loop handle_each
  monome_event_loop-handle_each [] e s h = refl
  monome_event_loop-handle_each ((false, e') ∷ rest) e s h = refl
  monome_event_loop-handle_each ((true, e') ∷ rest) e s h = ground (
    arith,
    turn-handle_next e e' s h,
    turn-leaves e s ∙ h.leaves e e' s,
    monome_event_loop-handle_each rest (loop_turn e s).1 (loop_turn e s).2 h,
  )

-- monome_platform_monotonic_milliseconds, from the seconds and nanoseconds of clock_gettime(2);
-- `none` is an error.
unfoldable pub monotonic_milliseconds : Option (ℕ × ℕ) → ℕ
monotonic_milliseconds none = 0
monotonic_milliseconds (some (tv_sec, tv_nsec)) =
    u64 (u64 (u64 tv_sec * 1000) + u64 tv_nsec / 1000000)
