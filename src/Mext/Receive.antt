-- ===== src/Mext/Receive.antt =====
-- The incoming half of src/proto/mext.c: `mext_read_msg`, the handlers of the subsystems, and
-- `mext_next_event`.
pub mod Read
pub mod Laws
pub mod Delivery
pub mod Next
pub mod Values
use libmonome.Common.{
  ℕ, zero, suc, ◌+◌, ◌-◌, ◌*◌, ◌==◌, ltb, if◌then◌else◌, Bool, true, false, List, [], ◌∷◌, ◌++◌,
  length, get_or, take, drop, replicate, Option, none, some, bit_and, ◌>>>◌,
}
use libmonome.Common.Int.{ℤ, pos, negsuc, leb_ℤ, eqb_ℤ, minus_one}
use libmonome.Device.{Device, Io}
use libmonome.Event.{
  Event, button_up, button_down, encoder_delta, encoder_key_up, encoder_key_down, tilt,
}
use libmonome.Posix.{platform_read}
use libmonome.Rotation.Coords.{unrotate_coords}
use libmonome.Mext.Message.{payload_length, ss_system, ss_key_grid, ss_encoder, ss_tilt}

-- mext_need_responses_t: a flag for each answer that is still to come.
pub record Need : Type 0 where
  pub query : Bool
  pub id : Bool
  pub grid_size : Bool

-- struct mext, with the 33 bytes of `id`.
pub record Mext : Type 0 where
  pub monome : Device
  pub need_responses : Need
  pub id : List ℕ

-- struct mext_msg as it is read into: the 66 bytes of the union outlive a message.
pub record Incoming : Type 0 where
  pub addr : ℕ
  pub cmd : ℕ
  pub payload : List ℕ

unfoldable pub incoming_payload_lengths : List (List ℕ)
incoming_payload_lengths =
    (2 ∷ 32 ∷ 3 ∷ 2 ∷ 2 ∷ 0 ∷ 0 ∷ 0 ∷ 0 ∷ 0 ∷ 0 ∷ 0 ∷ 0 ∷ 0 ∷ 0 ∷ 8 ∷ [])
    ∷ []
    ∷ (2 ∷ 2 ∷ [])
    ∷ []
    ∷ []
    ∷ (2 ∷ 1 ∷ 1 ∷ [])
    ∷ []
    ∷ []
    ∷ (1 ∷ 7 ∷ [])
    ∷ []

-- The part of `mext_read_msg` behind the header.
unfoldable pub read_payload : ℕ → ℕ → Incoming → Io (ℤ × Incoming)
unfolding incoming_payload_lengths
read_payload addr cmd msg d =
    let n = payload_length incoming_payload_lengths addr cmd in
    let ((read, stored), d') = platform_read n d in
    if n == 0 then ((pos 1, record msg { addr = addr; cmd = cmd }), d) else (
      (
        if eqb_ℤ read (pos n) then pos (1 + n) else minus_one,
        record { addr = addr; cmd = cmd; payload = stored ++ drop (length stored) msg.payload },
      ),
      d',
    )

-- mext_read_msg
unfoldable pub mext_read_msg : Incoming → Io (ℤ × Incoming)
unfolding read_payload
mext_read_msg msg d =
    let ((read, stored), d') = platform_read 1 d in
    let header = get_or stored 0 0 in
    if leb_ℤ read (pos 0)
    then ((read, msg), d')
    else read_payload (header >>> 4) (bit_and header 0xF) msg d'

-- A string of C: what stands before the first NUL.
abbrev pub c_string : List ℕ → List ℕ
c_string [] = []
c_string (c ∷ cs) = if c == 0 then [] else c ∷ c_string cs

-- strncpy(3)
abbrev pub strncpy : List ℕ → ℕ → List ℕ
strncpy src n = take n (c_string (take n src) ++ replicate n 0)

abbrev pub int8 : ℕ → ℤ
int8 b = if ltb b 128 then pos b else negsuc (255 - b)

-- Two bytes, the low one first.
abbrev pub int16 : ℕ → ℕ → ℤ
int16 lo hi = let w = lo + 256 * hi in if ltb w 32768 then pos w else negsuc (65535 - w)

-- A handler answers the event that is passed on, if it passes one on.
abbrev Handler : Type 0
Handler = Mext → Incoming → Option Event × Mext

unfoldable pub mext_handler_noop : Mext → Incoming → Option Event × Mext
mext_handler_noop self msg = (none, self)

unfoldable pub mext_handler_system : Mext → Incoming → Option Event × Mext
mext_handler_system self msg =
    if msg.cmd == 0x0
    then (none, record self { need_responses = record n { query = false } })
    else if msg.cmd == 0x1
    then (
      none,
      record self {
        id = name;
        monome = record m { friendly = some (c_string name) };
        need_responses = record n { id = false };
      },
    )
    else if msg.cmd == 0x3
    then (
      none,
      record self {
        monome = record m { cols = get_or msg.payload 0 0; rows = get_or msg.payload 1 0 };
        need_responses = record n { grid_size = false };
      },
    )
    else (none, self)
  where
    open self use {need_responses as n, monome as m}

    name : List ℕ
    name = strncpy (take 32 msg.payload) 32 ++ 0 ∷ []

unfoldable pub mext_handler_key_grid : Mext → Incoming → Option Event × Mext
mext_handler_key_grid self msg =
    let (x, y) = unrotate_coords self.monome (get_or msg.payload 0 0, get_or msg.payload 1 0) in
    (some (if msg.cmd == 0x1 then button_down x y else button_up x y), self)

unfoldable pub mext_handler_encoder : Mext → Incoming → Option Event × Mext
mext_handler_encoder self msg =
    let number = get_or msg.payload 0 0 in
    if msg.cmd == 0x0
    then (some (encoder_delta number (int8 (get_or msg.payload 1 0))), self)
    else if msg.cmd == 0x2
    then (some (encoder_key_down number (pos 0)), self)
    else if msg.cmd == 0x1
    then (some (encoder_key_up number (pos 0)), self)
    else (none, self)

unfoldable pub mext_handler_tilt : Mext → Incoming → Option Event × Mext
mext_handler_tilt self msg =
    if msg.cmd == 0x1
    then (
      some (
          tilt (get_or p 0 0) (int16 (get_or p 1 0) (get_or p 2 0))
            (int16 (get_or p 3 0) (get_or p 4 0)) (int16 (get_or p 5 0) (get_or p 6 0))),
      self,
    )
    else (none, self)
  where
    p : List ℕ
    p = msg.payload

-- subsystem_event_handlers[addr]
unfoldable pub subsystem_event_handler : ℕ → Mext → Incoming → Option Event × Mext
unfolding mext_handler_noop mext_handler_system mext_handler_key_grid mext_handler_encoder
    mext_handler_tilt
subsystem_event_handler addr =
    if addr == ss_system
    then mext_handler_system
    else if addr == ss_key_grid
    then mext_handler_key_grid
    else if addr == ss_encoder
    then mext_handler_encoder
    else if addr == ss_tilt
    then mext_handler_tilt
    else mext_handler_noop

-- The body of the loop in `mext_next_event`: what a system message answers is not passed on.
unfoldable pub handle_message : Mext → Incoming → Option Event × Mext
unfolding subsystem_event_handler
handle_message self msg =
    let (event, self') = subsystem_event_handler msg.addr self msg in
    (if msg.addr == ss_system then none else event, self')

-- The loop of `mext_next_event`; without fuel it has no answer.
unfoldable pub next_event_loop : ℕ → Incoming → Mext → Option ((ℤ × Option Event) × Mext)
unfolding mext_read_msg handle_message
next_event_loop zero msg self = none
next_event_loop (suc fuel) msg self =
    let ((status, msg'), monome) = mext_read_msg msg self.monome in
    let (event, self') = handle_message (record self { monome = monome }) msg' in
    if leb_ℤ status (pos 0)
    then some ((status, none), record self { monome = monome })
    else elim event [
      | none ↦ next_event_loop fuel msg' self'
      | some e ↦ some ((pos 1, some e), self')
    ]

abbrev pub no_message : Incoming
no_message = record { addr = 0; cmd = 0; payload = replicate 66 0 }

-- mext_next_event
unfoldable pub mext_next_event : ℕ → Mext → Option ((ℤ × Option Event) × Mext)
unfolding next_event_loop
mext_next_event fuel = next_event_loop fuel no_message
