-- ===== src/Mext/Open/Laws.antt =====
-- The loop of `mext_open` of src/proto/mext.c and the clock.
use native.Mathlib.Nat.{mod-eq_of_lt}
use libmonome.Common.{
  ℕ, ◌+◌, ◌^◌, ◌≤◌, ◌<◌, ◌≡◌, refl, arith, Bool, true, false, Bool-cases, ◌⊎◌, inl, inr, List, [],
  ◌∷◌, Option, some, u64,
}
use libmonome.Common.Int.{pos, minus_one, ltb_ℤ}
use libmonome.Mext.Receive.{Mext}
use libmonome.Mext.Open.{
  wait_ms, have_all, Turn-cases, give_up, handshake_turn, handshake_loop, Opening, mext_open,
  mext_query_pending,
}

-- Before the deadline the handshake waits for at least a millisecond and at most 25, never past
-- the deadline, and not past the moment of the second round of queries while that is to come.
pub wait_ms-bounds :
    (now deadline retry_at : ℕ) (retried : Bool)
    → now < deadline
    → (0 < wait_ms now deadline retry_at retried)
      × (wait_ms now deadline retry_at retried ≤ 25)
      × (now + wait_ms now deadline retry_at retried ≤ deadline)
      × (retried ≡ false → now < retry_at → now + wait_ms now deadline retry_at retried ≤ retry_at)
unfolding wait_ms
wait_ms-bounds now deadline retry_at retried early = ground arith

-- A reading of the clock at or behind the deadline.
abbrev pub Reaches : ℕ → List ℕ → Type 0
Reaches deadline [] = ⊥
Reaches deadline (now ∷ clock) = (deadline ≤ now) ⊎ Reaches deadline clock

late-give_up :
    (now deadline retry_at : ℕ) (retried : Bool) (self : Mext)
    → deadline ≤ now
    → handshake_turn now deadline retry_at retried self ≡ give_up self
unfolding handshake_turn
late-give_up now deadline retry_at retried self late = ground arith

-- How an opening may have ended.
abbrev pub EndsWell : Bool → Opening → Type 0
EndsWell opens o =
    ((o.status ≡ pos 0) × (o.closed ≡ false) × (have_all o.self.need_responses ≡ true))
    ⊎ ((o.status ≡ minus_one) × (o.closed ≡ opens))

handshake_loop-EndsWell :
    (clock : List ℕ) (deadline retry_at : ℕ) (retried : Bool) (self : Mext)
    → Reaches deadline clock
    → (o : Opening) × (handshake_loop clock deadline retry_at retried self ≡ some o)
      × EndsWell true o
unfolding handshake_loop
handshake_loop-EndsWell [] deadline retry_at retried self reaches = elim reaches [ ]
handshake_loop-EndsWell (now ∷ clock) deadline retry_at retried self reaches =
    elim (Bool-cases (have_all self.need_responses)) [
      | inl all ↦ rw (all, handshake_loop) (_, refl, inl (refl, refl, all))
      | inr some_left ↦ elim reaches [
        | inl late ↦
            rw (some_left, late-give_up now deadline retry_at retried self late, handshake_loop)
              (_, refl, inr (refl, refl))
        | inr later ↦ elim (Turn-cases (handshake_turn now deadline retry_at retried self)) [
          | inl (self', given) ↦ rw (some_left, given, handshake_loop) (_, refl, inr (refl, refl))
          | inr (retried', self', next) ↦
              rw (some_left, next, handshake_loop)
                (handshake_loop-EndsWell clock deadline retry_at retried' self' later)
        ]
      ]
    ]

-- Once the clock has passed a second after the start, `mext_open` has answered, if the start is
-- a second short of the 64-bit range: 0 with every response received and the descriptor open, or
-- -1, with the descriptor closed if it was opened.
pub mext_open-EndsWell :
    (opens : Bool) (serial friendly : Option (List ℕ)) (start : ℕ) (clock : List ℕ) (self : Mext)
    → start + 1000 < 2 ^ 64
    → Reaches (start + 1000) clock
    → (o : Opening) × (mext_open opens serial friendly start clock self ≡ some o) × EndsWell opens o
unfolding mext_open
mext_open-EndsWell false serial friendly start clock self fits reaches = (_, refl, inr (refl, refl))
mext_open-EndsWell true serial friendly start clock self fits reaches =
    let (asked, d) =
      mext_query_pending self.need_responses (record m { serial = serial; friendly = friendly }) in
    elim (Bool-cases (ltb_ℤ asked (pos 0))) [
      | inl bad ↦ rw bad (_, refl, inr (refl, refl))
      | inr good ↦
          rw (good, mod-eq_of_lt fits)
            (handshake_loop-EndsWell clock (start + 1000) (u64 (start + 250)) false
              (record self { monome = d }) reaches)
    ]
  where
    open self use {monome as m}
