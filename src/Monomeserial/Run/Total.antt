-- ===== src/Monomeserial/Run/Total.antt =====
-- `main_loop` of src/monomeserial.c always has a result, behind a run of steps.
use libmonome.Common.{
  is_some, ℕ, ◌≡◌, refl, subst, List, [], ◌∷◌, ◌++◌, map, Bool, true, false, ◌||◌, if◌then◌else◌,
  Option, none, some, arith, inl, inr, ◌⊎◌, Bool-cases, Option-cases,
}
use libmonome.Common.Int.{ℤ}
use libmonome.Event.{Event}
use libmonome.Liblo.{Text, Message, Method}
use libmonome.Liblo.Laws.{IsRouting, IsRegistered}
use libmonome.Core.Dispatch.{Capabilities}
use libmonome.Monomeserial.{Handler, handler_function}
use libmonome.Monomeserial.Methods.{register_osc_methods}
use libmonome.Monomeserial.Safety.{handler_function-registered}
use libmonome.Monomeserial.Loop.{State, Round, handle_next, deliver, receive, turn, main_loop}
use libmonome.Monomeserial.Run.{
  Run, done, device, server, AreButtons, press_message, Run-AreButtons, Run-press_message,
}

is_some-value {ℓ} : {A : Type ℓ} (o : Option A) → is_some o ≡ true → (a : A) × (o ≡ some a)
is_some-value none h = cc
is_some-value (some a) h = (a, refl)

list_cases {ℓ} :
    {A : Type ℓ} (xs : List A) → (xs ≡ []) ⊎ ((x : A) × (rest : List A) × (xs ≡ x ∷ rest))
list_cases [] = inl refl
list_cases (x ∷ xs) = inr (x, xs, refl)

abbrev pub any_hangup : List Round → Bool
any_hangup [] = false
any_hangup (r ∷ rs) = r.hangup || any_hangup rs

module _ {S : Type 0} (capabilities : Capabilities S) (next_event : S → (ℤ × Event) × S)
    (route : List (Method Handler) → Message → Option Handler) (methods : List (Method Handler))
    (prefix : Text) where
  -- A server on which `register_osc_methods` has registered its methods.
  pub record IsServing : Type 0 where
    pub routes : IsRouting route
    pub asprintf : ℕ → Bool
    pub registered : methods ≡ register_osc_methods asprintf prefix []

  deliver-IsServing :
      (ps : List Message) (m : S)
      → IsServing
      → (m' : S) × (deliver capabilities next_event route methods prefix ps m ≡ some m')
  unfolding deliver
  deliver-IsServing [] m h = (m, refl)
  deliver-IsServing (p ∷ ps) m h = elim (Option-cases (route methods p)) [
    | inl nobody ↦ rw (nobody, deliver) (deliver-IsServing ps m h)
    | inr (k, takes) ↦
        let (answer, e) = is_some-value (handler_function capabilities k p.path p.types p.argv m) (
          handler_function-registered capabilities p.path p.types h.asprintf prefix p k m
            (subst (IsRegistered p k) h.registered (h.routes.arity methods p k takes))) in
        rw (takes, deliver) (rw (e, deliver) (deliver-IsServing ps answer.1 h))
  ]

  receive-IsServing :
      (s : State S)
      → IsServing
      → (u : State S) × (receive capabilities next_event route methods prefix s ≡ some u)
  unfolding receive
  receive-IsServing s h = elim (list_cases s.packets) [
    | inl none_wait ↦ (s, ground (arith, none_wait))
    | inr (p, ps, e) ↦
        let (m, d) = deliver-IsServing p s.monome h in
        (record s { monome = m; packets = ps }, ground (arith, e, d))
  ]

  -- The state behind the first half of a turn.
  abbrev asked : Round → State S → State S
  asked r s =
      if r.monome_ready
      then handle_next capabilities next_event route methods prefix r.memory s
      else s

  asked-Run :
      (r : Round) (s t : State S) (es : List Event)
      → Run capabilities next_event route methods prefix t (asked r s) es
      → (log : List Event) × Run capabilities next_event route methods prefix t s log
  asked-Run r s t es run = elim (Bool-cases r.monome_ready) [
    | inl ready ↦ (
      _,
      device r.memory refl (
          subst
            (λ b.
              Run capabilities next_event route methods prefix t
                (if b
                  then handle_next capabilities next_event route methods prefix r.memory s
                  else s)
                es)
            ready run),
    )
    | inr idle ↦ (
      es,
      subst
          (λ b.
            Run capabilities next_event route methods prefix t
              (if b then handle_next capabilities next_event route methods prefix r.memory s else s)
              es)
          idle run,
    )
  ]

  turn-Run :
      (r : Round) (s : State S)
      → IsServing
      → (u : State S) × (turn capabilities next_event route methods prefix r s ≡ some u)
        × ((t : State S) (es : List Event)
            → Run capabilities next_event route methods prefix t u es
            → (log : List Event) × Run capabilities next_event route methods prefix t s log)
  unfolding turn
  turn-Run r s h = elim (Bool-cases r.osc_ready) [
    | inl ready ↦
        let (u, e) = receive-IsServing (asked r s) h in
        (u, ground (arith, ready, e), λ t es run. asked-Run r s t es (server e run))
    | inr idle ↦ (asked r s, ground (arith, idle), asked-Run r s)
  ]

  loop-Run :
      (rs : List Round) (s : State S)
      → IsServing
      → (t : State S) × (es : List Event) × (main_loop capabilities next_event route methods prefix
            rs s
          ≡ some (if any_hangup rs then some 1 else none, t))
        × Run capabilities next_event route methods prefix t s es
  unfolding main_loop
  loop-Run [] s h = (s, [], refl, done)
  loop-Run (r ∷ rs) s h = elim (Bool-cases r.hangup) [
    | inl gone ↦ (s, [], ground (arith, gone), done)
    | inr here ↦
        let (u, turned, before) = turn-Run r s h in
        let (t, es, e, run) = loop-Run rs u h in
        let (log, whole) = before t es run in (t, log, ground (arith, here, turned, e), whole)
  ]

  -- With the methods of `register_osc_methods` and a liblo that routes as documented,
  -- `main_loop` always has a result, whatever the answers of poll(2) or select(2), the packets
  -- and the device's events: it has answered 1 if some answer reported a hang-up, and is still
  -- running otherwise. It is a run of the step relation, and it has sent one press message for
  -- each key event that the run forwards, in order, and nothing else.
  pub main_loop-Run :
      (rs : List Round) (s : State S)
      → IsServing
      → (t : State S) × (es : List Event) × (main_loop capabilities next_event route methods prefix
            rs s
          ≡ some (if any_hangup rs then some 1 else none, t))
        × Run capabilities next_event route methods prefix t s es
        × AreButtons es
        × (t.link.sent ≡ s.link.sent ++ map (press_message prefix) es)
  main_loop-Run rs s h =
      let (t, es, e, run) = loop-Run rs s h in
      (
        t,
        es,
        e,
        run,
        Run-AreButtons capabilities next_event route methods prefix run,
        Run-press_message capabilities next_event route methods prefix run,
      )
