-- ===== src/Mext/Receive/Laws.antt =====
-- The loop of `mext_next_event` of src/proto/mext.c and the bytes that are to come.
use libmonome.Common.{ℕ, zero, suc, ◌≤◌, ◌<◌, ◌≡◌, refl, sym, ap, ◌∙◌, arith}
use libmonome.Common.{
  length, get_or, length-append, Bool, true, false, ◌==◌, Bool-cases, inl, inr, Option, some,
  Option-cases, ◌>>>◌, bit_and,
}
use libmonome.Common.Int.{ℤ, pos, leb_ℤ}
use libmonome.Device.{Device}
use libmonome.Event.{Event}
use libmonome.Posix.{platform_read}
use libmonome.Posix.{stream, coming}
use libmonome.Posix.Laws.{platform_read-Answers}
use libmonome.Mext.Message.{payload_length}
use libmonome.Mext.Receive.{
  Mext, Incoming, incoming_payload_lengths, read_payload, mext_read_msg, next_event_loop,
  mext_next_event, no_message, handle_message,
}

platform_read-coming :
    (n : ℕ) (d : Device)
    → let (r, d') = platform_read n d in
      (coming d' ≤ coming d) × (leb_ℤ r.0 (pos 0) ≡ false → coming d' < coming d)
platform_read-coming n d =
    let (whole, bound, answer) = platform_read-Answers n d in
    let (r, d') = platform_read n d in
    let total = sym (length-append r.1 (stream d'.port.arrivals)) ∙ ap length whole in
    (
      omega (arith, total),
      λ h. elim answer [
        | inl full ↦ omega (arith, total, some_read (length r.1) (rw full at h))
        | inr (inl none_read) ↦ absurd (ground (arith, none_read))
        | inr (inr bad) ↦ absurd (ground (arith, bad))
      ],
    )
  where
    some_read : (k : ℕ) → leb_ℤ (pos k) (pos 0) ≡ false → 0 < k
    some_read k h = ground arith

read_payload-coming :
    (addr cmd : ℕ) (msg : Incoming) (d : Device) → coming (read_payload addr cmd msg d).1 ≤ coming d
unfolding read_payload
read_payload-coming addr cmd msg d =
    let n = payload_length incoming_payload_lengths addr cmd in
    elim (Bool-cases (n == 0)) [
      | inl empty ↦ rw empty (omega arith)
      | inr full ↦ rw full ((platform_read-coming n d).0)
    ]

mext_read_msg-coming :
    (msg : Incoming) (d : Device)
    → let ((status, msg'), d') = mext_read_msg msg d in
      leb_ℤ status (pos 0) ≡ false → coming d' < coming d
unfolding mext_read_msg
mext_read_msg-coming msg d =
    let (r, d') = platform_read 1 d in
    elim (Bool-cases (leb_ℤ r.0 (pos 0))) [
      | inl nothing ↦ rw nothing (λ more. absurd (clash nothing more))
      | inr header ↦ rw header (λ more. omega (
        arith,
        (platform_read-coming 1 d).1 header,
        read_payload-coming (get_or r.1 0 0 >>> 4) (bit_and (get_or r.1 0 0) 0xF) msg d',
      ))
    ]
  where
    clash : {b : Bool} → b ≡ true → b ≡ false → ⊥
    clash t f = ground (arith, t, f)

-- A handler leaves the descriptor alone.
pub handle_message-port :
    (self : Mext) (msg : Incoming) → (handle_message self msg).1.monome.port ≡ self.monome.port
unfolding handle_message
handle_message-port self msg = ground arith

-- Some answer.
Answered : Option ((ℤ × Option Event) × Mext) → Type 0
Answered o = (r : (ℤ × Option Event) × Mext) × (o ≡ some r)

next_event_loop-Answered :
    (fuel : ℕ) (msg : Incoming) (self : Mext)
    → coming self.monome < fuel
    → Answered (next_event_loop fuel msg self)
unfolding next_event_loop Answered
next_event_loop-Answered zero msg self h = absurd (omega arith)
next_event_loop-Answered (suc n) msg self h =
    let ((status, msg'), d') = mext_read_msg msg self.monome in
    let r = handle_message (record self { monome = d' }) msg' in
    elim (Bool-cases (leb_ℤ status (pos 0))) [
      | inl over ↦ rw over (_, refl)
      | inr more ↦
          let again = next_event_loop-Answered n msg' r.1 (
            omega (
              arith,
              h,
              mext_read_msg-coming msg self.monome more,
              ap (λ p. length (stream p.arrivals))
                  (handle_message-port (record self { monome = d' }) msg'),
            )) in
          elim (Option-cases r.0) [
            | inl quiet ↦ rw (more, quiet) again
            | inr (e, loud) ↦ rw (more, loud) (_, refl)
          ]
    ]

-- `mext_next_event` always answers, whatever arrives: each turn of its loop takes a byte, so
-- fuel for one turn more than there are bytes to come is enough.
pub mext_next_event-answers :
    (fuel : ℕ) (self : Mext)
    → coming self.monome < fuel
    → (r : (ℤ × Option Event) × Mext) × (mext_next_event fuel self ≡ some r)
unfolding mext_next_event Answered
mext_next_event-answers fuel self enough = next_event_loop-Answered fuel no_message self enough
