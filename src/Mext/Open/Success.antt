-- ===== src/Mext/Open/Success.antt =====
-- The handshake of src/proto/mext.c with a device that answers.
use native.Mathlib.Nat.{mod-eq_of_lt}
use libmonome.Common.{
  ℕ, suc, ◌+◌, ◌^◌, ◌≤◌, ◌<◌, ◌≡◌, refl, ap, ◌∙◌, arith, List, [], ◌∷◌, length, length-append,
  replicate, leb, ◌==◌, true, false, Option, none, some, u64,
}
use libmonome.Common.Int.{pos}
use libmonome.Device.{Device, Poll, ready}
use libmonome.Posix.{poll_loop, wait_for_input, stream, coming}
use libmonome.Posix.Ready.{bursts}
use libmonome.Mext.Receive.{Mext, next_event_loop, mext_next_event, no_message}
use libmonome.Mext.Open.{
  mext_query_pending, wait_ms, have_all, go_on, handshake_turn, handshake_loop, Opening, mext_open,
}
use libmonome.Mext.Open.Laws.{wait_ms-bounds}
use libmonome.Mext.Open.Answers.{
  Answer, query_response, id, gridsz, encode_all, AreWhole, known, learn_all, Known,
  next_event_loop-learns,
}
use libmonome.Mext.Open.Sends.{Accepts, Sends, mext_query_pending-Sends}

-- A device with other answers of poll(2) to come.
abbrev with_polls : Device → List Poll → Device
with_polls d polls = record d { port = record p { polls = polls } }
  where
    open d use {port as p}

-- Waiting for a descriptor that is readable.
wait_for_input-ready :
    (msec k : ℕ) (d : Device)
    → 0 < msec
    → d.port.polls ≡ replicate (suc k) (ready false)
    → ((wait_for_input msec d).0 ≡ pos 0)
      × ((wait_for_input msec d).1 ≡ with_polls d (replicate k (ready false)))
unfolding wait_for_input poll_loop
wait_for_input-ready msec k d some_time polled = rw (nonzero msec some_time, polled) (refl, refl)
  where
    nonzero : (n : ℕ) → 0 < n → (n == 0) ≡ false
    nonzero n h = ground arith

handshake_turn-answered :
    (now deadline retry_at k : ℕ) (self self' : Mext)
    → now < deadline
    → now < retry_at
    → self.monome.port.polls ≡ replicate (suc k) (ready false)
    → let d = (wait_for_input (wait_ms now deadline retry_at false) self.monome).1 in
      mext_next_event (suc (coming d)) (record self { monome = d }) ≡ some ((pos 0, none), self')
      → handshake_turn now deadline retry_at false self ≡ go_on false self'
unfolding handshake_turn
handshake_turn-answered now deadline retry_at k self self' early before polled answered =
    let waited =
      wait_for_input-ready (wait_ms now deadline retry_at false) k self.monome
        ((wait_ms-bounds now deadline retry_at false early).0) polled in
    rw (later now deadline early, later now retry_at before, waited.0, answered) refl
  where
    later : (a b : ℕ) → a < b → leb b a ≡ false
    later a b h = ground arith

encode_all-length : (ms : List Answer) → length ms ≤ length (encode_all ms)
encode_all-length [] = omega arith
encode_all-length (query_response s c ∷ ms) = omega (arith, encode_all-length ms)
encode_all-length (id name ∷ ms) =
    omega (arith, encode_all-length ms, length-append name (encode_all ms))
encode_all-length (gridsz x y ∷ ms) = omega (arith, encode_all-length ms)

handshake_loop-answered :
    (now deadline retry_at : ℕ) (self self' : Mext)
    → have_all self.need_responses ≡ false
    → handshake_turn now deadline retry_at false self ≡ go_on false self'
    → have_all self'.need_responses ≡ true
    → handshake_loop (now ∷ []) deadline retry_at false self
      ≡ some (record { status = pos 0; closed = false; self = self' })
unfolding handshake_loop
handshake_loop-answered now deadline retry_at self self' missing turn all =
    rw (missing, turn, handshake_loop) (rw (all, handshake_loop) refl)

-- `mext_open` succeeds on a device that answers: if the tty opens, every message of one byte is
-- written whole, a sequence of answers with names of 32 bytes, which together settle all the
-- missing responses, arrives in any bursts on a descriptor that always polls readable, and the
-- clock reads less than 250 ms after a start a second short of the 64-bit range, then one turn
-- of the loop is enough, the status is 0, the descriptor stays open, and the device's dimensions
-- and name are what the answers say.
pub mext_open-learns :
    (serial friendly : Option (List ℕ)) (start now k : ℕ) (parts : List (ℕ × List ℕ))
    (ms : List Answer) (self : Mext)
    → Accepts self.monome
    → self.monome.port.arrivals ≡ bursts parts
    → self.monome.port.polls ≡ replicate (suc k) (ready false)
    → length parts ≤ k
    → stream (bursts parts) ≡ encode_all ms
    → AreWhole ms
    → now < start + 250
    → start + 1000 < 2 ^ 64
    → have_all self.need_responses ≡ false
    → let told = learn_all ms (record (known self) { friendly = friendly }) in
      have_all told.need ≡ true
      → (o : Opening) × (mext_open true serial friendly start (now ∷ []) self ≡ some o)
        × (o.status ≡ pos 0)
        × (o.closed ≡ false)
        × (known o.self ≡ told)
unfolding mext_open mext_next_event
mext_open-learns serial friendly start now k parts ms self accepts arriving polled enough content
      whole soon fits missing complete =
    (
      record { status = pos 0; closed = false; self = self3 },
      rw (queried.0, mod-eq_of_lt fits, no_wrap start fits)
          (handshake_loop-answered now (start + 1000) (start + 250) self1 self3 missing
            (handshake_turn-answered now (start + 1000) (start + 250) k self1 self3 (omega arith)
              soon polls1 answered.1)
            (ap (λ (t : Known). have_all t.need) learned ∙ complete)),
      refl,
      refl,
      learned,
    )
  where
    open self use {monome as m}

    no_wrap : (a : ℕ) → a + 1000 < 2 ^ 64 → u64 (a + 250) ≡ a + 250
    no_wrap a h = mod-eq_of_lt (omega (arith, h))

    d0 : Device
    d0 = record m { serial = serial; friendly = friendly }

    d1 : Device
    d1 = (mext_query_pending self.need_responses d0).1

    self1 : Mext
    self1 = record self { monome = d1 }

    queried : ((mext_query_pending self.need_responses d0).0 ≡ pos 0) × Sends d0 d1
    queried = mext_query_pending-Sends self.need_responses d0 accepts

    polls1 : d1.port.polls ≡ replicate (suc k) (ready false)
    polls1 = ap (λ (e : Device). e.port.polls) queried.1 ∙ polled

    d2 : Device
    d2 = (wait_for_input (wait_ms now (start + 1000) (start + 250) false) d1).1

    waited : d2 ≡ with_polls d1 (replicate k (ready false))
    waited =
        (wait_for_input-ready (wait_ms now (start + 1000) (start + 250) false) k d1
          ((wait_ms-bounds now (start + 1000) (start + 250) false (omega (arith, soon))).0)
          polls1).1

    self2 : Mext
    self2 = record self { monome = d2 }

    arrivals2 : d2.port.arrivals ≡ bursts parts
    arrivals2 =
        ap (λ (e : Device). e.port.arrivals) waited
        ∙ ap (λ (e : Device). e.port.arrivals) queried.1
        ∙ arriving

    content2 : stream d2.port.arrivals ≡ encode_all ms
    content2 = ap stream arrivals2 ∙ content

    answered :
        (self' : Mext) × (next_event_loop (suc (coming d2)) no_message self2
          ≡ some ((pos 0, none), self'))
        × (known self' ≡ learn_all ms (known self2))
    answered =
        next_event_loop-learns ms (suc (coming d2)) no_message self2 whole
          (omega (arith, encode_all-length ms, ap length content2))
          (parts, k, arrivals2, ap (λ (e : Device). e.port.polls) waited, enough) content2

    self3 : Mext
    self3 = answered.0

    learned : known self3 ≡ learn_all ms (record (known self) { friendly = friendly })
    learned =
        answered.2
        ∙ ap (learn_all ms) (
            ap (λ (e : Device). known (record self { monome = e })) waited
            ∙ ap (λ (e : Device). known (record self { monome = e })) queried.1)
