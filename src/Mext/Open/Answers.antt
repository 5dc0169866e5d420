-- ===== src/Mext/Open/Answers.antt =====
-- The answers to the queries of the handshake of src/proto/mext.c, and what they say.
use libmonome.Common.{
  ℕ, zero, suc, ◌+◌, ◌<◌, ◌≡◌, refl, sym, ap, subst, ◌∙◌, arith, List, [], ◌∷◌, ◌++◌,
}
use libmonome.Common.{length, take, take-append, false, Option, none, some, ◌>>>◌, bit_and}
use libmonome.Common.Int.{pos, leb_ℤ}
use libmonome.Device.{Device, Port}
use libmonome.Posix.{platform_read, stream}
use libmonome.Posix.Ready.{IsReady, KeepsUp, bursts}
use libmonome.Mext.Receive.{
  Mext, Need, Incoming, incoming_payload_lengths, mext_read_msg, next_event_loop, handle_message,
  c_string, strncpy,
}
use libmonome.Mext.Receive.Read.{
  message, length_of, mext_read_msg-Receives, Keeps, mext_read_msg-Keeps,
}
use libmonome.Mext.Receive.Laws.{handle_message-port}

-- The three answers, as the device sends them.
pub data Answer : Type 0 where
  query_response : (subsystem count : ℕ) → Answer
  id : (name : List ℕ) → Answer
  gridsz : (x y : ℕ) → Answer

abbrev pub encode : Answer → List ℕ
encode (query_response s c) = 0x00 ∷ s ∷ c ∷ []
encode (id name) = 0x01 ∷ name
encode (gridsz x y) = 0x03 ∷ x ∷ y ∷ []

abbrev pub encode_all : List Answer → List ℕ
encode_all [] = []
encode_all (m ∷ ms) = encode m ++ encode_all ms

-- A name has 32 bytes.
abbrev pub AreWhole : List Answer → Type 0
AreWhole [] = Unit {0}
AreWhole (query_response s c ∷ ms) = AreWhole ms
AreWhole (id name ∷ ms) = (length name ≡ 32) × AreWhole ms
AreWhole (gridsz x y ∷ ms) = AreWhole ms

-- What the handshake is about.
pub record Known : Type 0 where
  pub need : Need
  pub rows : ℕ
  pub cols : ℕ
  pub friendly : Option (List ℕ)

abbrev pub known : Mext → Known
known self = record {
  need = self.need_responses;
  rows = self.monome.rows;
  cols = self.monome.cols;
  friendly = self.monome.friendly;
}

abbrev pub learn : Answer → Known → Known
learn (query_response s c) k = record k { need = record n { query = false } }
  where
    open k use {need as n}
learn (id name) k = record k {
  need = record n { id = false };
  friendly = some (c_string (strncpy name 32 ++ 0 ∷ []));
}
  where
    open k use {need as n}
learn (gridsz x y) k = record k { need = record n { grid_size = false }; rows = y; cols = x }
  where
    open k use {need as n}

abbrev pub learn_all : List Answer → Known → Known
learn_all [] k = k
learn_all (m ∷ ms) k = learn_all ms (learn m k)

known-Keeps :
    (self : Mext) (d : Device)
    → Keeps self.monome d
    → known (record self { monome = d }) ≡ known self
known-Keeps self d keeps = ap (λ (e : Device). known (record self { monome = e })) keeps

positive : (n : ℕ) → leb_ℤ (pos (1 + n)) (pos 0) ≡ false
positive n = ground arith

-- A whole message whose handler passes nothing on is followed by the loop's next turn.
next_event_loop-continues :
    (fuel header : ℕ) (payload rest : List ℕ) (msg : Incoming) (self : Mext)
    → IsReady self.monome
    → stream self.monome.port.arrivals ≡ header ∷ payload ++ rest
    → length payload ≡ length_of header
    → let d = (mext_read_msg msg self.monome).1 in
      let m = message (header >>> 4) (bit_and header 0xF) payload msg in
      let r = handle_message (record self { monome = d }) m in
      r.0 ≡ none → next_event_loop (suc fuel) msg self ≡ next_event_loop fuel m r.1
unfolding next_event_loop
next_event_loop-continues fuel header payload rest msg self ready front whole quiet =
    let received = mext_read_msg-Receives header payload rest msg self.monome ready front whole in
    let me = record self { monome = (mext_read_msg msg self.monome).1 } in
    let handled = ap (λ m. (handle_message me m).0) received.1 ∙ quiet in
    rw (received.0, positive (length payload), handled)
      (ap (λ m. next_event_loop fuel m (handle_message me m).1) received.1)

-- With nothing to come, `mext_read_msg` answers 0.
nothing_read :
    (msg : Incoming) (d : Device)
    → IsReady d
    → stream d.port.arrivals ≡ []
    → (mext_read_msg msg d).0.0 ≡ pos 0
unfolding mext_read_msg platform_read stream
nothing_read msg d ([], k, arriving, polled, enough) empty = rw arriving refl
nothing_read msg d (p ∷ parts, k, arriving, polled, enough) empty =
    absurd (clash (ap length (ap stream (sym arriving) ∙ empty)))
  where
    clash : suc (length (p.1 ++ stream (bursts parts))) ≡ 0 → ⊥
    clash e = omega arith

abbrev head_of : Answer → ℕ
head_of (query_response s c) = 0x00
head_of (id name) = 0x01
head_of (gridsz x y) = 0x03

abbrev body_of : Answer → List ℕ
body_of (query_response s c) = s ∷ c ∷ []
body_of (id name) = name
body_of (gridsz x y) = x ∷ y ∷ []

abbrev arrived : Answer → Incoming → Incoming
arrived m msg = message (head_of m >>> 4) (bit_and (head_of m) 0xF) (body_of m) msg

whole-body :
    (m : Answer) (ms : List Answer)
    → AreWhole (m ∷ ms)
    → (length (body_of m) ≡ length_of (head_of m)) × AreWhole ms
unfolding incoming_payload_lengths
whole-body (query_response s c) ms whole = (refl, whole)
whole-body (id name) ms whole = (whole.0, whole.1)
whole-body (gridsz x y) ms whole = (refl, whole)

encode-body : (m : Answer) (rest : List ℕ) → encode m ++ rest ≡ head_of m ∷ body_of m ++ rest
encode-body (query_response s c) rest = refl
encode-body (id name) rest = refl
encode-body (gridsz x y) rest = refl

handle_message-learn :
    (m : Answer) (msg : Incoming) (me : Mext)
    → length (body_of m) ≡ length_of (head_of m)
    → ((handle_message me (arrived m msg)).0 ≡ none)
      × (known (handle_message me (arrived m msg)).1 ≡ learn m (known me))
unfolding handle_message incoming_payload_lengths
handle_message-learn (query_response s c) msg me whole = (refl, refl)
handle_message-learn (id name) msg me whole = (refl, ap (λ t. learn (id t) (known me)) named)
  where
    payload : List ℕ
    payload = (arrived (id name) msg).payload

    named : take 32 payload ≡ name
    named = ap (λ k. take k payload) (sym whole) ∙ take-append name _
handle_message-learn (gridsz x y) msg me whole = (refl, refl)

-- When any sequence of answers to the queries of the handshake arrives on a descriptor that
-- keeps up, with names of 32 bytes and nothing behind them, the loop of `mext_next_event`, given
-- fuel for one turn more than there are answers, takes them all and answers 0; the device's
-- dimensions, name and missing responses are then what the answers say, in their order.
pub next_event_loop-learns :
    (ms : List Answer) (fuel : ℕ) (msg : Incoming) (self : Mext)
    → AreWhole ms
    → length ms < fuel
    → IsReady self.monome
    → stream self.monome.port.arrivals ≡ encode_all ms
    → (self' : Mext) × (next_event_loop fuel msg self ≡ some ((pos 0, none), self'))
      × (known self' ≡ learn_all ms (known self))
unfolding next_event_loop
next_event_loop-learns ms zero msg self whole enough ready front = absurd (omega arith)
next_event_loop-learns [] (suc fuel) msg self whole enough ready front =
    let d = (mext_read_msg msg self.monome).1 in
    (
      record self { monome = d },
      rw (nothing_read msg self.monome ready front) refl,
      known-Keeps self d (mext_read_msg-Keeps msg self.monome),
    )
next_event_loop-learns (m ∷ ms) (suc fuel) msg self whole enough ready front =
    let (fits, others) = whole-body m ms whole in
    let at_front = front ∙ encode-body m (encode_all ms) in
    let received =
      mext_read_msg-Receives (head_of m) (body_of m) (encode_all ms) msg self.monome ready at_front
        fits in
    let d = (mext_read_msg msg self.monome).1 in
    let me = record self { monome = d } in
    let (quiet, learned) = handle_message-learn m msg me fits in
    let r = handle_message me (arrived m msg) in
    let port = sym (handle_message-port me (arrived m msg)) in
    let later =
      next_event_loop-learns ms fuel (arrived m msg) r.1 others (omega arith)
        (subst (λ (p : Port). KeepsUp p.arrivals p.polls) port received.2)
        (subst (λ (p : Port). stream p.arrivals ≡ encode_all ms) port received.3) in
    (
      later.0,
      next_event_loop-continues fuel (head_of m) (body_of m) (encode_all ms) msg self ready at_front
            fits quiet
          ∙ later.1,
      later.2
          ∙ ap (learn_all ms)
              (learned ∙ ap (learn m) (known-Keeps self d (mext_read_msg-Keeps msg self.monome))),
    )
