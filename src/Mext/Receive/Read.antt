-- ===== src/Mext/Receive/Read.antt =====
-- `mext_read_msg` of src/proto/mext.c on the bytes that arrive.
use libmonome.Common.{ℕ, suc, ◌+◌, ◌≡◌, refl, sym, ap, ◌∙◌, arith, List, [], ◌∷◌, ◌++◌}
use libmonome.Common.{
  length, get_or, ◌==◌, take, drop, take-append, drop-append, length-append, true, false,
  Bool-cases, inl, inr, ◌>>>◌, bit_and,
}
use libmonome.Common.Int.{ℤ, pos, leb_ℤ, eqb_ℤ}
use libmonome.Device.{Device}
use libmonome.Posix.{platform_read}
use libmonome.Posix.{stream}
use libmonome.Posix.Ready.{IsReady, platform_read-IsReady}
use libmonome.Mext.Message.{payload_length}
use libmonome.Mext.Receive.{Incoming, incoming_payload_lengths, read_payload, mext_read_msg}

-- The payload length that the table gives for a header.
abbrev pub length_of : ℕ → ℕ
length_of header = payload_length incoming_payload_lengths (header >>> 4) (bit_and header 0xF)

-- What is read of a message is `payload`, over the old contents of the union.
abbrev pub message : ℕ → ℕ → List ℕ → Incoming → Incoming
message addr cmd payload msg = record {
  addr = addr;
  cmd = cmd;
  payload = payload ++ drop (length payload) msg.payload;
}

abbrev pub Receives : List ℕ → List ℕ → Incoming → (ℤ × Incoming) × Device → Type 0
Receives payload rest msg ((status, msg'), d') =
    (status ≡ pos (1 + length payload))
    × (msg' ≡ msg)
    × IsReady d'
    × (stream d'.port.arrivals ≡ rest)

nonzero : (k : ℕ) → (suc k == 0) ≡ false
nonzero k = ground arith

equal : (k : ℕ) → eqb_ℤ (pos k) (pos k) ≡ true
equal k = ground arith

read_payload-Receives :
    (addr cmd : ℕ) (payload rest : List ℕ) (msg : Incoming) (d : Device)
    → IsReady d
    → stream d.port.arrivals ≡ payload ++ rest
    → length payload ≡ payload_length incoming_payload_lengths addr cmd
    → Receives payload rest (message addr cmd payload msg) (read_payload addr cmd msg d)
unfolding read_payload
read_payload-Receives addr cmd [] rest msg d ready front whole =
    rw (sym whole) (refl, refl, ready, front)
read_payload-Receives addr cmd (b ∷ bs) rest msg d ready front whole =
    let read =
      platform_read-IsReady n d ready (omega arith)
        (omega (arith, ap length front, length-append p rest)) in
    rw
      (
        sym whole,
        read.0 ∙ ap (λ bs. (pos n, bs)) (ap (take n) front ∙ take-append p rest),
        nonzero (length bs),
        equal n,
      )
      (refl, refl, read.1, read.2 ∙ ap (drop n) front ∙ drop-append p rest)
  where
    p : List ℕ
    p = b ∷ bs

    n : ℕ
    n = length (b ∷ bs)

-- `mext_read_msg` reads a whole message at the front of what arrives, with a payload as long as
-- the table says for its header, and nothing behind it, however the bytes are split into bursts:
-- it answers the message's length, the payload stands over the old contents of the union, and
-- the descriptor still keeps up, provided that it polls readable each time.
pub mext_read_msg-Receives :
    (header : ℕ) (payload rest : List ℕ) (msg : Incoming) (d : Device)
    → IsReady d
    → stream d.port.arrivals ≡ header ∷ payload ++ rest
    → length payload ≡ length_of header
    → Receives payload rest
        (message (header >>> 4) (bit_and header 0xF) payload msg)
        (mext_read_msg msg d)
unfolding mext_read_msg
mext_read_msg-Receives header payload rest msg d ready front whole =
    let first = platform_read-IsReady 1 d ready (omega arith) (omega (arith, ap length front)) in
    rw (first.0 ∙ ap (λ bs. (pos 1, bs)) (ap (take 1) front)) (
      read_payload-Receives (header >>> 4) (bit_and header 0xF) payload rest msg
        (platform_read 1 d).1 first.1 (first.2 ∙ ap (drop 1) front) whole)

-- Reading changes nothing of a device but what is to come behind its descriptor.
abbrev pub Keeps : Device → Device → Type 0
Keeps d d' =
    d' ≡ record d { port = record p { arrivals = d'.port.arrivals; polls = d'.port.polls } }
  where
    open d use {port as p}

read_payload-Keeps :
    (addr cmd : ℕ) (msg : Incoming) (d : Device) → Keeps d (read_payload addr cmd msg d).1
unfolding read_payload platform_read
read_payload-Keeps addr cmd msg d =
    elim (Bool-cases (payload_length incoming_payload_lengths addr cmd == 0)) [
      | inl empty ↦ rw empty refl
      | inr full ↦ rw full refl
    ]

pub mext_read_msg-Keeps : (msg : Incoming) (d : Device) → Keeps d (mext_read_msg msg d).1
unfolding mext_read_msg platform_read
mext_read_msg-Keeps msg d =
    let (r, d') = platform_read 1 d in
    elim (Bool-cases (leb_ℤ r.0 (pos 0))) [
      | inl over ↦ rw over refl
      | inr more ↦
          rw more (read_payload-Keeps (get_or r.1 0 0 >>> 4) (bit_and (get_or r.1 0 0) 0xF) msg d')
    ]
