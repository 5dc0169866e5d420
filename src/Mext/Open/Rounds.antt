-- ===== src/Mext/Open/Rounds.antt =====
-- The number of messages that the handshake of src/proto/mext.c sends.
use libmonome.Common.{
  ℕ, zero, suc, ◌+◌, ◌≤◌, ◌≡◌, refl, ap, subst, ◌∙◌, arith, List, [], ◌∷◌, length, length-append,
  Bool, true, false, not, ◌&&◌, ◌||◌, leb, if◌then◌else◌, Bool-cases, inl, inr, Option, none, some,
  Option-cases, u64,
}
use libmonome.Common.Int.{ℤ, pos, ltb_ℤ, eqb_ℤ, leb_ℤ}
use libmonome.Device.{Device, platform_write}
use libmonome.Event.{Event}
use libmonome.Posix.{wait_for_input, coming}
use libmonome.Mext.Message.{
  mext_simple_cmd, mext_write_msg, cmd_system_query, cmd_system_get_id, cmd_system_get_gridsz,
}
use libmonome.Mext.Receive.{
  Need, Mext, Incoming, mext_read_msg, handle_message, next_event_loop, mext_next_event, no_message,
}
use libmonome.Mext.Receive.Read.{mext_read_msg-Keeps}
use libmonome.Mext.Receive.Laws.{handle_message-port}
use libmonome.Mext.Open.{
  ask, mext_query_pending, wait_ms, have_all, Turn, Turn-cases, give_up, go_on, after_event,
  handshake_turn, handshake_loop, Opening, mext_open,
}

-- The number of messages sent.
abbrev pub sent_count : Device → ℕ
sent_count d = length d.port.sent

ask-sent :
    (pending : Bool) (cmd : ℕ) (d : Device) → sent_count (ask pending cmd d).1 ≤ 1 + sent_count d
unfolding ask mext_simple_cmd mext_write_msg platform_write
ask-sent true cmd d = omega (arith, length-append d.port.sent)
ask-sent false cmd d = omega arith

mext_query_pending-sent :
    (need : Need) (d : Device) → sent_count (mext_query_pending need d).1 ≤ 3 + sent_count d
unfolding mext_query_pending
mext_query_pending-sent need d =
    let (ok1, d1) = ask need.query cmd_system_query d in
    let (ok2, d2) = ask need.id cmd_system_get_id d1 in
    let one = ask-sent need.query cmd_system_query d in
    let two = ask-sent need.id cmd_system_get_id d1 in
    let three = ask-sent need.grid_size cmd_system_get_gridsz d2 in
    elim (Bool-cases ok1) [
      | inr unsent ↦ rw unsent (omega (arith, one))
      | inl first ↦ elim (Bool-cases ok2) [
        | inr unsent ↦ rw (first, unsent) (omega (arith, one, two))
        | inl more ↦ rw (first, more) (omega (arith, one, two, three))
      ]
    ]

wait_for_input-sent : (msec : ℕ) (d : Device) → sent_count (wait_for_input msec d).1 ≡ sent_count d
unfolding wait_for_input
wait_for_input-sent msec d = ground arith

mext_read_msg-sent : (msg : Incoming) (d : Device) → (mext_read_msg msg d).1.port.sent ≡ d.port.sent
mext_read_msg-sent msg d = ap (λ e. e.port.sent) (mext_read_msg-Keeps msg d)

-- What an answer of `mext_next_event` has sent, if there is one.
abbrev Silent : List (List ℕ) → Option ((ℤ × Option Event) × Mext) → Type 0
Silent sent none = Unit {0}
Silent sent (some r) = r.1.monome.port.sent ≡ sent

next_event_loop-Silent :
    (fuel : ℕ) (msg : Incoming) (self : Mext)
    → Silent self.monome.port.sent (next_event_loop fuel msg self)
unfolding next_event_loop
next_event_loop-Silent zero msg self = tt
next_event_loop-Silent (suc n) msg self =
    let ((status, msg'), d') = mext_read_msg msg self.monome in
    let r = handle_message (record self { monome = d' }) msg' in
    let kept = mext_read_msg-sent msg self.monome in
    let handled =
      ap (λ p. p.sent) (handle_message-port (record self { monome = d' }) msg') ∙ kept in
    elim (Bool-cases (leb_ℤ status (pos 0))) [
      | inl over ↦ rw over kept
      | inr more ↦
          let again = next_event_loop-Silent n msg' r.1 in
          elim (Option-cases r.0) [
            | inl quiet ↦ rw (more, quiet) (rw handled at again)
            | inr (e, loud) ↦ rw (more, loud) handled
          ]
    ]

-- What a turn may still send.
abbrev budget : Bool → ℕ
budget true = 0
budget false = 3

abbrev spent : Turn → ℕ
spent (give_up self) = sent_count self.monome
spent (go_on retried self) = sent_count self.monome + budget retried

after_event-spent :
    (retried : Bool) (self : Mext) (answer : Option ((ℤ × Option Event) × Mext))
    → Silent self.monome.port.sent answer
    → spent (after_event retried self answer) ≤ sent_count self.monome + budget retried
after_event-spent retried self none silent = omega arith
after_event-spent retried self (some ((status, e), self')) silent =
    elim (Bool-cases (ltb_ℤ status (pos 0))) [
      | inl bad ↦ rw bad (omega (arith, ap length silent))
      | inr good ↦ rw good (omega (arith, ap length silent))
    ]

query-spent :
    (retried due : Bool) (need : Need) (d : Device)
    → (due ≡ true → retried ≡ false)
    → sent_count (if due then mext_query_pending need d else (pos 0, d)).1 + budget (retried || due)
      ≤ sent_count d + budget retried
query-spent true true need d once = absurd (ground (arith, once refl))
query-spent false true need d once = omega (arith, mext_query_pending-sent need d)
query-spent true false need d once = omega arith
query-spent false false need d once = omega arith

handshake_turn-spent :
    (now deadline retry_at : ℕ) (retried : Bool) (self : Mext)
    → spent (handshake_turn now deadline retry_at retried self)
      ≤ sent_count self.monome + budget retried
unfolding handshake_turn mext_next_event
handshake_turn-spent now deadline retry_at retried self = elim (Bool-cases (leb deadline now)) [
  | inl late ↦ rw late (omega arith)
  | inr early ↦ elim (Bool-cases (ltb_ℤ q.0 (pos 0))) [
    | inl bad ↦ rw (early, bad) (omega (arith, asked))
    | inr good ↦ elim (Bool-cases (ltb_ℤ w.0 (pos 0))) [
      | inl broken ↦ rw (early, good, broken) (omega (arith, asked, waited))
      | inr fine ↦ elim (Bool-cases (eqb_ℤ w.0 (pos 0))) [
        | inl input ↦ rw (early, good, fine, input) (omega (arith, asked, waited, answered))
        | inr nothing ↦ rw (early, good, fine, nothing) (omega (arith, asked, waited))
      ]
    ]
  ]
]
  where
    due : Bool
    due = not retried && leb retry_at now

    q : ℤ × Device
    q = if due then mext_query_pending self.need_responses self.monome else (pos 0, self.monome)

    w : ℤ × Device
    w = wait_for_input (wait_ms now deadline retry_at (retried || due)) q.1

    once : (a b : Bool) → (not a && b) ≡ true → a ≡ false
    once a b h = ground (arith, h)

    asked : sent_count q.1 + budget (retried || due) ≤ sent_count self.monome + budget retried
    asked =
        query-spent retried due self.need_responses self.monome (once retried (leb retry_at now))

    waited : sent_count w.1 ≡ sent_count q.1
    waited = wait_for_input-sent (wait_ms now deadline retry_at (retried || due)) q.1

    me : Mext
    me = record self { monome = w.1 }

    answered :
        spent (after_event (retried || due) me (mext_next_event (suc (coming w.1)) me))
        ≤ sent_count w.1 + budget (retried || due)
    answered =
        after_event-spent (retried || due) me (mext_next_event (suc (coming w.1)) me)
          (next_event_loop-Silent (suc (coming w.1)) no_message me)

-- The opening, if there is one, has sent no more than a number of messages.
abbrev Within : ℕ → Option Opening → Type 0
Within bound none = Unit {0}
Within bound (some o) = sent_count o.self.monome ≤ bound

handshake_loop-Within :
    (clock : List ℕ) (deadline retry_at : ℕ) (retried : Bool) (self : Mext) (bound : ℕ)
    → sent_count self.monome + budget retried ≤ bound
    → Within bound (handshake_loop clock deadline retry_at retried self)
unfolding handshake_loop
handshake_loop-Within [] deadline retry_at retried self bound room =
    elim (Bool-cases (have_all self.need_responses)) [
      | inl all ↦ rw (all, handshake_loop) (omega (arith, room))
      | inr some_left ↦ rw (some_left, handshake_loop) tt
    ]
handshake_loop-Within (now ∷ clock) deadline retry_at retried self bound room =
    elim (Bool-cases (have_all self.need_responses)) [
      | inl all ↦ rw (all, handshake_loop) (omega (arith, room))
      | inr some_left ↦ elim (Turn-cases (handshake_turn now deadline retry_at retried self)) [
        | inl (self', given) ↦
            let cost = rw given at turn in
            rw (some_left, given, handshake_loop) (omega (arith, room, cost))
        | inr (retried', self', next) ↦
            let cost = rw next at turn in
            rw (some_left, next, handshake_loop)
              (handshake_loop-Within clock deadline retry_at retried' self' bound
                (omega (arith, room, cost)))
      ]
    ]
  where
    turn :
        spent (handshake_turn now deadline retry_at retried self)
        ≤ sent_count self.monome + budget retried
    turn = handshake_turn-spent now deadline retry_at retried self

-- However long `mext_open` takes, it has sent at most six messages when it answers: the three
-- queries at the start and at most once more.
pub mext_open-rounds :
    (opens : Bool) (serial friendly : Option (List ℕ)) (start : ℕ) (clock : List ℕ) (self : Mext)
    → (o : Opening) → mext_open opens serial friendly start clock self ≡ some o
    → sent_count o.self.monome ≤ 6 + sent_count self.monome
unfolding mext_open
mext_open-rounds opens serial friendly start clock self o answers =
    subst (Within (6 + sent_count m)) answers (within opens)
  where
    open self use {monome as m}

    d : Device
    d = record m { serial = serial; friendly = friendly }

    first : sent_count (mext_query_pending self.need_responses d).1 ≤ 3 + sent_count m
    first = mext_query_pending-sent self.need_responses d

    within : (b : Bool) → Within (6 + sent_count m) (mext_open b serial friendly start clock self)
    within false = omega arith
    within true = elim (Bool-cases (ltb_ℤ (mext_query_pending self.need_responses d).0 (pos 0))) [
      | inl bad ↦ rw bad (omega (arith, first))
      | inr good ↦ rw good (
          handshake_loop-Within clock (u64 (start + 1000)) (u64 (start + 250)) false
            (record self { monome = (mext_query_pending self.need_responses d).1 })
            (6 + sent_count m) (omega (arith, first)))
    ]
