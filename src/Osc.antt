-- ===== src/Osc.antt =====
-- src/proto/osc.c: the module that speaks to another process over OSC instead of a serial line,
-- its state (src/proto/osc.h), its handlers and `proto_osc_next_event`.
pub mod Led
pub mod Open
pub mod Receive
pub mod Draws
use libmonome.Common.{
  ℕ, suc, ◌%◌, List, [], ◌∷◌, Bool, true, false, if◌then◌else◌, Option, none, some, bit_and, ◌==◌,
}
use libmonome.Common.Int.{ℤ, pos, eqb_ℤ}
use libmonome.Event.{
  Event, button_up, button_down, encoder_delta, encoder_key_up, encoder_key_down, tilt,
}
use libmonome.Liblo.{Text, Message, Method, Link, arg, int32, uint32}

-- The functions that `proto_osc_open` registers.
pub data Handler : Type 0 where
  press_handler delta_handler enc_key_handler : Handler

-- The paths that are cached.
pub record Paths : Type 0 where
  pub led_set : Text
  pub led_all : Text
  pub led_map : Text
  pub led_col : Text
  pub led_row : Text
  pub led_intensity : Text
  pub ring_set : Text
  pub ring_all : Text
  pub ring_map : Text
  pub ring_range : Text

-- monome_osc_t, with the methods and the waiting packets of its server: a packet is a message, or a
-- bundle of them. `e_ptr` holds what the event pointer points to, `none` is NULL.
pub record Osc : Type 0 where
  pub link : Link
  pub methods : List (Method Handler)
  pub packets : List (List Message)
  pub prefix : Text
  pub have_event : Bool
  pub e_ptr : Option Event
  pub paths : Paths
  pub fd : ℤ
  pub freed : Bool

-- The member of the union at the place of `encoder.delta`.
abbrev pub delta_of : Event → ℤ
delta_of (button_up x y) = int32 y
delta_of (button_down x y) = int32 y
delta_of (encoder_delta n d) = d
delta_of (encoder_key_up n d) = d
delta_of (encoder_key_down n d) = d
delta_of (tilt s x y z) = x

abbrev pub store : Osc → Event → Option (ℤ × Osc)
store self e = some (pos 0, record self { e_ptr = some e; have_event = true })

-- A handler's answer is 1 where no event is wanted.
abbrev pub not_wanted : Osc → Option (ℤ × Osc)
not_wanted self = some (pos 1, self)

unfoldable pub proto_osc_press_handler : List ℤ → Osc → Option (ℤ × Osc)
proto_osc_press_handler argv self = elim self.e_ptr [
  | none ↦ not_wanted self
  | some e ↦ arg argv 0 λ x. arg argv 1 λ y. arg argv 2 λ s. store self (
      if bit_and (uint32 s) 1 == 1
      then button_down (uint32 x) (uint32 y)
      else button_up (uint32 x) (uint32 y))
]

unfoldable pub proto_osc_delta_handler : List ℤ → Osc → Option (ℤ × Osc)
proto_osc_delta_handler argv self = elim self.e_ptr [
  | none ↦ not_wanted self
  | some e ↦ arg argv 0 λ n. arg argv 1 λ d. store self (encoder_delta (uint32 n) d)
]

-- `delta` is left as it stands in the event.
unfoldable pub proto_osc_enc_key_handler : List ℤ → Osc → Option (ℤ × Osc)
proto_osc_enc_key_handler argv self = elim self.e_ptr [
  | none ↦ not_wanted self
  | some e ↦ arg argv 1 λ s. arg argv 0 λ n. store self (
      if eqb_ℤ s (pos 0)
      then encoder_key_up (uint32 n) (delta_of e)
      else encoder_key_down (uint32 n) (delta_of e))
]

abbrev pub handler_function : Handler → List ℤ → Osc → Option (ℤ × Osc)
handler_function press_handler = proto_osc_press_handler
handler_function delta_handler = proto_osc_delta_handler
handler_function enc_key_handler = proto_osc_enc_key_handler

module _ (route : List (Method Handler) → Message → Option Handler) where
  -- liblo hands the messages of a packet on, one by one.
  unfoldable pub deliver : List Message → Osc → Option Osc
  unfolding proto_osc_press_handler proto_osc_delta_handler proto_osc_enc_key_handler
  deliver [] self = some self
  deliver (m ∷ ms) self = elim (route self.methods m) [
    | none ↦ deliver ms self
    | some h ↦ elim (handler_function h m.argv self) [
      | none ↦ none
      | some (ret, self') ↦ deliver ms self'
    ]
  ]

  -- lo_server_recv_noblock: at most one packet is taken.
  unfoldable pub lo_server_recv_noblock : Osc → Option Osc
  unfolding deliver
  lo_server_recv_noblock self = elim self.packets [
    | [] ↦ some self
    | packet ∷ later ↦ deliver packet (record self { packets = later })
  ]

  -- proto_osc_next_event: the answer, and what then stands in the event.
  unfoldable pub proto_osc_next_event : Event → Osc → Option ((ℤ × Option Event) × Osc)
  unfolding lo_server_recv_noblock
  proto_osc_next_event e self =
      elim (lo_server_recv_noblock (record self { e_ptr = some e; have_event = false })) [
        | none ↦ none
        | some self' ↦ some ((if self'.have_event then pos 1 else pos 0, self'.e_ptr), self')
      ]
