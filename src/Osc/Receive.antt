-- ===== src/Osc/Receive.antt =====
-- What `proto_osc_next_event` of src/proto/osc.c makes of the packets that arrive.
use libmonome.Common.{
  ℕ, List, [], ◌∷◌, ◌++◌, ◌≡◌, refl, ap, ◌∙◌, sym, subst, Bool, true, false, ◌||◌, if◌then◌else◌,
  Option, none, some, bit_and, ◌==◌, arith, length, inl, inr, Option-cases, get_or,
}
use libmonome.Common.Int.{ℤ, pos, eqb_ℤ}
use libmonome.Event.{Event, button_up, button_down, encoder_delta, encoder_key_up, encoder_key_down}
use libmonome.Liblo.{Text, Message, Method, Link, codes, uint32, find, text_eq}
use libmonome.Liblo.Laws.{IsRouting, IsRegistered, here, there, text_eq-append, arg-get_or}
use libmonome.Osc.{
  Handler, press_handler, delta_handler, enc_key_handler, Osc, delta_of, handler_function, deliver,
  proto_osc_next_event, proto_osc_press_handler, proto_osc_delta_handler, proto_osc_enc_key_handler,
}
use libmonome.Osc.Open.{
  Setting, monome_protocol_osc_new, proto_osc_open, opened_methods, IsOpen, IsWilling,
  proto_osc_open-IsOpen,
}

-- The event that a message means: a key of the grid goes down or up, an encoder turns, or its key
-- goes down or up. `e` is what the event held before.
abbrev pub event_of : Handler → List ℤ → Event → Event
event_of press_handler argv e =
    if bit_and (uint32 (get_or argv 2 (pos 0))) 1 == 1
    then button_down (uint32 (get_or argv 0 (pos 0))) (uint32 (get_or argv 1 (pos 0)))
    else button_up (uint32 (get_or argv 0 (pos 0))) (uint32 (get_or argv 1 (pos 0)))
event_of delta_handler argv e =
    encoder_delta (uint32 (get_or argv 0 (pos 0))) (get_or argv 1 (pos 0))
event_of enc_key_handler argv e =
    if eqb_ℤ (get_or argv 1 (pos 0)) (pos 0)
    then encoder_key_up (uint32 (get_or argv 0 (pos 0))) (delta_of e)
    else encoder_key_down (uint32 (get_or argv 0 (pos 0))) (delta_of e)

abbrev arity_of : Handler → ℕ
arity_of press_handler = 3
arity_of delta_handler = 2
arity_of enc_key_handler = 2

arity-opened_methods :
    (prefix : Text) (m : Message) (h : Handler)
    → IsRegistered m h (opened_methods prefix)
    → length m.argv ≡ arity_of h
arity-opened_methods prefix m h (here e n) = sym n ∙ ap arity_of e
arity-opened_methods prefix m h (there (here e n)) = sym n ∙ ap arity_of e
arity-opened_methods prefix m h (there (there (here e n))) = sym n ∙ ap arity_of e
arity-opened_methods prefix m h (there (there (there none_left))) = elim none_left [ ]

abbrev holding : Osc → Event → Bool → Osc
holding self e got = record self { e_ptr = some e; have_event = got }

-- The messages that serialosc sends, by their paths behind the prefix and their types.
abbrev pub path_of : Handler → Text
path_of press_handler = codes "/grid/key"
path_of delta_handler = codes "/enc/delta"
path_of enc_key_handler = codes "/enc/key"

abbrev pub types_of : Handler → Text
types_of press_handler = codes "iii"
types_of delta_handler = codes "ii"
types_of enc_key_handler = codes "ii"

abbrev pub message_of : Text → Handler → List ℤ → Message
message_of prefix h argv = record { path = prefix ++ path_of h; types = types_of h; argv = argv }

find-message_of :
    (prefix : Text) (h : Handler) (argv : List ℤ)
    → find (opened_methods prefix) (message_of prefix h argv) ≡ some h
unfolding find text_eq
find-message_of prefix press_handler argv = simp text_eq-append refl
find-message_of prefix delta_handler argv = simp text_eq-append refl
find-message_of prefix enc_key_handler argv = simp text_eq-append refl

length-types_of : (h : Handler) → length (types_of h) ≡ arity_of h
length-types_of press_handler = refl
length-types_of delta_handler = refl
length-types_of enc_key_handler = refl

-- A handler that has its arguments writes the event.
handler_function-event_of :
    (h : Handler) (argv : List ℤ) (e : Event) (got : Bool) (self : Osc)
    → length argv ≡ arity_of h
    → handler_function h argv (holding self e got)
      ≡ some (pos 0, holding self (event_of h argv e) true)
unfolding proto_osc_press_handler proto_osc_delta_handler proto_osc_enc_key_handler
handler_function-event_of press_handler argv e got self n =
    arg-get_or argv 0 _ (omega arith)
    ∙ arg-get_or argv 1 _ (omega arith)
    ∙ arg-get_or argv 2 _ (omega arith)
handler_function-event_of delta_handler argv e got self n =
    arg-get_or argv 0 _ (omega arith) ∙ arg-get_or argv 1 _ (omega arith)
handler_function-event_of enc_key_handler argv e got self n =
    arg-get_or argv 1 _ (omega arith) ∙ arg-get_or argv 0 _ (omega arith)

module _ (route : List (Method Handler) → Message → Option Handler) where
  -- The event after a run of messages: those that reach no handler are passed over.
  abbrev pub event_after : List (Method Handler) → List Message → Event → Event
  event_after methods [] e = e
  event_after methods (m ∷ ms) e = elim (route methods m) [
    | none ↦ event_after methods ms e
    | some h ↦ event_after methods ms (event_of h m.argv e)
  ]

  abbrev pub is_any : List (Method Handler) → List Message → Bool
  is_any methods [] = false
  is_any methods (m ∷ ms) = elim (route methods m) [ none ↦ is_any methods ms | some h ↦ true ]

  deliver-event_after :
      (prefix : Text) (ms : List Message) (e : Event) (got : Bool) (self : Osc)
      → IsRouting route
      → self.methods ≡ opened_methods prefix
      → deliver route ms (holding self e got)
        ≡ some (holding self (event_after self.methods ms e) (got || is_any self.methods ms))
  unfolding deliver
  deliver-event_after prefix [] e got self r o = ground arith
  deliver-event_after prefix (m ∷ ms) e got self r o = elim (Option-cases (route self.methods m)) [
    | inl none_takes ↦ ground (arith, none_takes, deliver-event_after prefix ms e got self r o)
    | inr (h, takes) ↦ ground (
      arith,
      takes,
      handler_function-event_of h m.argv e got self (
          arity-opened_methods prefix m h
            (subst (IsRegistered m h) o (r.arity self.methods m h takes))),
      deliver-event_after prefix ms (event_of h m.argv e) true self r o,
    )
  ]

  -- `proto_osc_next_event` on an open device, where a packet waits and liblo calls a method only
  -- for as many arguments as it names, takes that packet alone and never reads behind the
  -- arguments of a message: it answers 1 and the event of the last message in the packet that
  -- reaches a handler, or 0 and the event as it was where no message does.
  pub proto_osc_next_event-event_after :
      (prefix : Text) (packet : List Message) (packets : List (List Message)) (e : Event)
      (self : Osc)
      → IsRouting route
      → IsOpen prefix self
      → self.packets ≡ packet ∷ packets
      → proto_osc_next_event route e self
        ≡ some (
          (
            if is_any self.methods packet then pos 1 else pos 0,
            some (event_after self.methods packet e),
          ),
          record self {
            packets = packets;
            e_ptr = some (event_after self.methods packet e);
            have_event = is_any self.methods packet;
          },
        )
  unfolding proto_osc_next_event
  proto_osc_next_event-event_after prefix packet packets e self r o p = ground (
    arith,
    p,
    deliver-event_after prefix packet e false (record self { packets = packets }) r o.registered,
  )

  proto_osc_next_event-message_of :
      (prefix : Text) (h : Handler) (argv : List ℤ) (later : List (List Message)) (e : Event)
      (self : Osc)
      → IsRouting route
      → IsOpen prefix self
      → length argv ≡ arity_of h
      → self.packets ≡ (message_of prefix h argv ∷ []) ∷ later
      → proto_osc_next_event route e self
        ≡ some (
          (pos 1, some (event_of h argv e)),
          record self { packets = later; e_ptr = some (event_of h argv e); have_event = true },
        )
  proto_osc_next_event-message_of prefix h argv later e self r o n p = ground (
    arith,
    proto_osc_next_event-event_after prefix (message_of prefix h argv ∷ []) later e self r o p,
    reached,
  )
    where
      reached : route self.methods (message_of prefix h argv) ≡ some h
      reached = r.exact self.methods (message_of prefix h argv) h (length-types_of h ∙ sym n) (
          ap (λ (ms : List (Method Handler)). find ms (message_of prefix h argv)) o.registered
          ∙ find-message_of prefix h argv)

  -- On a device that `proto_osc_open` has opened, where the system refuses nothing and liblo
  -- routes as documented, a message to /grid/key, /enc/delta or /enc/key below the prefix, alone
  -- in its packet and with as many arguments as its path takes, makes `proto_osc_next_event`
  -- answer 1 and the event that it means; the packet is consumed and the device stays open.
  pub proto_osc_open-next_event :
      (w : Setting) (link : Link) (later : List (List Message)) (h : Handler) (argv : List ℤ)
      (e : Event)
      → IsRouting route
      → IsWilling w
      → length argv ≡ arity_of h
      → let packets = (message_of w.url_path h argv ∷ []) ∷ later in
        let self = (proto_osc_open w (monome_protocol_osc_new link packets)).1 in
        (self' : Osc) × (proto_osc_next_event route e self
          ≡ some ((pos 1, some (event_of h argv e)), self'))
        × (self'.packets ≡ later)
        × IsOpen w.url_path self'
  proto_osc_open-next_event w link later h argv e r willing n = (
    _,
    proto_osc_next_event-message_of w.url_path h argv later e _ r opened.1 n opened.2,
    refl,
    record { registered = opened.1.registered; cached = opened.1.cached; live = opened.1.live },
  )
    where
      opened :
          let packets = (message_of w.url_path h argv ∷ []) ∷ later in
          let (ret, self) = proto_osc_open w (monome_protocol_osc_new link packets) in
          (ret ≡ pos 0) × IsOpen w.url_path self × (self.packets ≡ packets)
      opened =
          let (a, b, c, d) =
            proto_osc_open-IsOpen w link ((message_of w.url_path h argv ∷ []) ∷ later) willing in
          (a, b, c)
