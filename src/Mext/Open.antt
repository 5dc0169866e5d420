-- ===== src/Mext/Open.antt =====
-- The handshake of src/proto/mext.c: `mext_query_pending` and `mext_open`.
pub mod Laws
pub mod Rounds
pub mod Answers
pub mod Sends
pub mod Success
use libmonome.Common.{
  ℕ, suc, ◌+◌, ◌-◌, ltb, leb, ◌==◌, if◌then◌else◌, Bool, true, false, not, ◌&&◌, ◌||◌, List, [],
  ◌∷◌, Option, none, some, u64, ◌≡◌, refl, ◌⊎◌, inl, inr,
}
use libmonome.Common.Int.{ℤ, pos, minus_one, ltb_ℤ, eqb_ℤ}
use libmonome.Device.{Device, Io}
use libmonome.Event.{Event}
use libmonome.Posix.{coming, wait_for_input}
use libmonome.Mext.Message.{
  mext_simple_cmd, cmd_system_query, cmd_system_get_id, cmd_system_get_gridsz,
}
use libmonome.Mext.Receive.{Need, Mext, mext_next_event}

-- One of the three `if`s of `mext_query_pending`: whether it lets the function go on.
unfoldable pub ask : Bool → ℕ → Io Bool
ask pending cmd d =
    let (read, d') = mext_simple_cmd cmd d in
    if pending then (eqb_ℤ read (pos 1), d') else (true, d)

-- mext_query_pending
unfoldable pub mext_query_pending : Need → Io ℤ
unfolding ask
mext_query_pending need d =
    let (ok1, d1) = ask need.query cmd_system_query d in
    let (ok2, d2) = ask need.id cmd_system_get_id d1 in
    let (ok3, d3) = ask need.grid_size cmd_system_get_gridsz d2 in
    if not ok1
    then (minus_one, d1)
    else if not ok2
    then (minus_one, d2)
    else (if ok3 then pos 0 else minus_one, d3)

-- MONOME_MEXT_HANDSHAKE_TIMEOUT_MS, MEXT_HANDSHAKE_RETRY_MS and MEXT_HANDSHAKE_WAIT_SLICE_MS.
abbrev pub handshake_timeout : ℕ
handshake_timeout = 1000

abbrev pub handshake_retry : ℕ
handshake_retry = 250

abbrev pub handshake_wait_slice : ℕ
handshake_wait_slice = 25

-- need_responses == MEXT_HAVE_ALL
unfoldable pub have_all : Need → Bool
have_all need = not need.query && not need.id && not need.grid_size

abbrev min : ℕ → ℕ → ℕ
min a b = if ltb a b then a else b

-- The computation of `wait_ms`.
unfoldable pub wait_ms : (now deadline retry_at : ℕ) → Bool → ℕ
wait_ms now deadline retry_at retried =
    let slice = min (deadline - now) handshake_wait_slice in
    if not retried && ltb now retry_at then min (retry_at - now) slice else slice

-- How the body of the loop ends: at `err_close`, or with the loop's next turn.
pub data Turn : Type 0 where
  give_up : Mext → Turn
  go_on : (retried : Bool) → Mext → Turn

pub Turn-cases :
    (t : Turn)
    → ((self : Mext) × (t ≡ give_up self))
      ⊎ ((retried : Bool) × (self : Mext) × (t ≡ go_on retried self))
Turn-cases (give_up self) = inl (self, refl)
Turn-cases (go_on retried self) = inr (retried, self, refl)

-- What the loop makes of the answer of `mext_next_event`; there always is one.
abbrev after_event : Bool → Mext → Option ((ℤ × Option Event) × Mext) → Turn
after_event retried self none = give_up self
after_event retried self (some ((status, e), self')) =
    if ltb_ℤ status (pos 0) then give_up self' else go_on retried self'

-- The body of the loop.
unfoldable pub handshake_turn : (now deadline retry_at : ℕ) → Bool → Mext → Turn
unfolding mext_query_pending wait_ms
handshake_turn now deadline retry_at retried self =
    let due = not retried && leb retry_at now in
    let (asked, d1) =
      if due then mext_query_pending self.need_responses self.monome else (pos 0, self.monome) in
    let retried' = retried || due in
    let (waited, d2) = wait_for_input (wait_ms now deadline retry_at retried') d1 in
    let self2 = record self { monome = d2 } in
    if leb deadline now
    then give_up self
    else if ltb_ℤ asked (pos 0)
    then give_up (record self { monome = d1 })
    else if ltb_ℤ waited (pos 0)
    then give_up self2
    else if eqb_ℤ waited (pos 0)
    then after_event retried' self2 (mext_next_event (suc (coming d2)) self2)
    else go_on retried' self2

-- What `mext_open` answers, whether it has closed the descriptor, and the device.
pub record Opening : Type 0 where
  pub status : ℤ
  pub closed : Bool
  pub self : Mext

abbrev opened : Mext → Opening
opened self = record { status = pos 0; closed = false; self = self }

abbrev err_close : Mext → Opening
err_close self = record { status = minus_one; closed = true; self = self }

-- The loop, over what the clock reads at each turn; with no reading left there is no answer.
unfoldable pub handshake_loop : List ℕ → (deadline retry_at : ℕ) → Bool → Mext → Option Opening
unfolding handshake_turn have_all
handshake_loop [] deadline retry_at retried self =
    if have_all self.need_responses then some (opened self) else none
handshake_loop (now ∷ clock) deadline retry_at retried self = elim (have_all self.need_responses) [
  | true ↦ some (opened self)
  | false ↦ elim (handshake_turn now deadline retry_at retried self) [
    | give_up self' ↦ some (err_close self')
    | go_on retried' self' ↦ handshake_loop clock deadline retry_at retried' self'
  ]
]

-- mext_open: `opens` says whether `monome_platform_open` succeeds, `friendly` is the name in the
-- device map, `start` and `clock` are what the clock reads.
unfoldable pub mext_open :
    (opens : Bool) (serial friendly : Option (List ℕ)) (start : ℕ) (clock : List ℕ)
    → Mext
    → Option Opening
unfolding handshake_loop
mext_open opens serial friendly start clock self =
    let named = record m { serial = serial; friendly = friendly } in
    let (asked, d) = mext_query_pending self.need_responses named in
    if not opens
    then some (record { status = minus_one; closed = false; self = self })
    else if ltb_ℤ asked (pos 0)
    then some (err_close (record self { monome = d }))
    else handshake_loop clock (u64 (start + handshake_timeout)) (u64 (start + handshake_retry))
        false (record self { monome = d })
  where
    open self use {monome as m}
