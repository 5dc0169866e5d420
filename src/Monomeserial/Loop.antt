-- ===== src/Monomeserial/Loop.antt =====
-- `monome_handle_press` and `main_loop` of src/monomeserial.c. Its two variants, over poll(2) and over
-- select(2), differ only in how they read the answer.
use libmonome.Common.{
  ℕ, List, [], ◌∷◌, ◌++◌, Bool, true, false, if◌then◌else◌, Option, none, some, replicate,
}
use libmonome.Common.Int.{ℤ, pos}
use libmonome.Event.{
  Event, event_type, button_up, button_down, encoder_delta, encoder_key_up, encoder_key_down, tilt,
}
use libmonome.Liblo.{Text, codes, Message, Method, Link, int32, lo_send_from}
use libmonome.Core.Dispatch.{Capabilities}
use libmonome.Core.Handlers.{
  Callback, Call, no_handler, monome_register_handler, monome_event_handle_next,
}
use libmonome.Monomeserial.{Handler, handler_function}

-- `grid.x` and `grid.y` of the union.
abbrev pub grid_x : Event → ℕ
grid_x (button_up x y) = x
grid_x (button_down x y) = x
grid_x (encoder_delta n d) = n
grid_x (encoder_key_up n d) = n
grid_x (encoder_key_down n d) = n
grid_x (tilt s x y z) = s

abbrev pub grid_y : Event → ℤ
grid_y (button_up x y) = int32 y
grid_y (button_down x y) = int32 y
grid_y (encoder_delta n d) = d
grid_y (encoder_key_up n d) = d
grid_y (encoder_key_down n d) = d
grid_y (tilt s x y z) = x

-- monome_handle_press; `memory` says whether asprintf(3) succeeds.
unfoldable pub monome_handle_press : Bool → Text → Event → Link → Link
unfolding event_type
monome_handle_press memory prefix e link =
    if memory
    then (lo_send_from (codes "/" ++ (prefix ++ codes "/press")) (codes "iii")
        (int32 (grid_x e) ∷ grid_y e ∷ pos (event_type e) ∷ []) link).1
    else link

-- The handlers that `main` registers: the function is number 1, its data the prefix.
unfoldable pub main_handlers : List Callback
unfolding monome_register_handler
main_handlers =
    (monome_register_handler 0 (some 1) 0
      (monome_register_handler 1 (some 1) 0 (replicate 6 no_handler)).1).1

-- A call of a handler: all are calls of `monome_handle_press`.
abbrev pub perform : Text → Bool → Option Call → Link → Link
perform prefix memory none link = link
perform prefix memory (some call) link = monome_handle_press memory prefix call.event link

-- `state`, with the device as `S` and the packets that wait at the server.
pub record State (S : Type 0) : Type 0 where
  pub monome : S
  pub link : Link
  pub packets : List (List Message)

-- An answer of poll(2) or select(2), by what is tested: POLLHUP and POLLERR or the set of exceptions,
-- and what can be read from the device and from OSC; and whether a press finds memory.
pub record Round : Type 0 where
  pub hangup : Bool
  pub monome_ready : Bool
  pub osc_ready : Bool
  pub memory : Bool

module _ {S : Type 0} (capabilities : Capabilities S) (next_event : S → (ℤ × Event) × S)
    (route : List (Method Handler) → Message → Option Handler) (methods : List (Method Handler))
    (prefix : Text) where
  -- monome_event_handle_next
  unfoldable pub handle_next : Bool → State S → State S
  unfolding monome_event_handle_next main_handlers monome_handle_press
  handle_next memory s =
      let ((status, e), monome) = next_event s.monome in
      record s {
        monome = monome;
        link = perform prefix memory (monome_event_handle_next status e main_handlers).1 s.link;
      }

  -- The messages of a packet; a read behind the arguments has no result.
  unfoldable pub deliver : List Message → S → Option S
  deliver [] m = some m
  deliver (p ∷ ps) m = elim (route methods p) [
    | none ↦ deliver ps m
    | some h ↦ elim (handler_function capabilities h p.path p.types p.argv m) [
      | none ↦ none
      | some (ret, m') ↦ deliver ps m'
    ]
  ]

  -- lo_server_recv_noblock
  unfoldable pub receive : State S → Option (State S)
  unfolding deliver
  receive s = elim s.packets [
    | [] ↦ some s
    | packet ∷ later ↦ elim (deliver packet s.monome) [
      | none ↦ none
      | some m ↦ some (record s { monome = m; packets = later })
    ]
  ]

  -- One turn of the loop behind the test for a hang-up.
  unfoldable pub turn : Round → State S → Option (State S)
  unfolding handle_next receive
  turn r s =
      let s = if r.monome_ready then handle_next r.memory s else s in
      if r.osc_ready then receive s else some s

  -- main_loop: it answers 1 at a hang-up; with no more answers of poll(2) it is still running.
  unfoldable pub main_loop : List Round → State S → Option (Option ℕ × State S)
  unfolding turn
  main_loop [] s = some (none, s)
  main_loop (r ∷ rs) s = elim r.hangup [
    | true ↦ some (some 1, s)
    | false ↦ elim (turn r s) [ none ↦ none | some s' ↦ main_loop rs s' ]
  ]
