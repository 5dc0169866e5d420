-- ===== src/Posix/Laws.antt =====
-- What `monome_platform_read` of src/platform/posix.c does with the bytes that arrive.
use libmonome.Common.{
  ℕ, zero, suc, ◌+◌, ◌-◌, ◌≤◌, ◌≡◌, refl, sym, ap, ◌∙◌, arith, List, [], ◌∷◌, ◌++◌,
}
use libmonome.Common.{length, take, drop, length-append, leb, Bool-cases, ◌⊎◌, inl, inr}
use libmonome.Common.Int.{pos, minus_one, sign-cases}
use libmonome.Device.{Device, Arrival, bytes, would_block, interrupted, failed, Poll}
use mathlib.Core.List.{append_assoc}
use libmonome.Posix.{poll_loop, read_loop, put_back, Outcome, platform_read, stream}

stream-put_back :
    (bs : List ℕ) (rest : List Arrival) → stream (put_back bs rest) ≡ bs ++ stream rest
unfolding stream
stream-put_back [] rest = refl
stream-put_back (b ∷ bs) rest = refl

take-drop : (n : ℕ) (xs ys : List ℕ) → take n xs ++ (drop n xs ++ ys) ≡ xs ++ ys
take-drop zero xs ys = refl
take-drop (suc n) [] ys = refl
take-drop (suc n) (x ∷ xs) ys = ap (◌∷◌ x) (take-drop n xs ys)

-- Nothing is lost or made up.
unfoldable pub Conserves : List ℕ → Outcome → Type 0
Conserves all r = r.got ++ stream r.arrivals ≡ all

pub read_loop-Conserves :
    (arrivals : List Arrival) (nbyte : ℕ) (got : List ℕ) (ps : List Poll)
    → Conserves (got ++ stream arrivals) (read_loop arrivals nbyte got ps)
unfolding Conserves stream read_loop
read_loop-Conserves [] nbyte got ps = refl
read_loop-Conserves (would_block ∷ rest) nbyte got ps = refl
read_loop-Conserves (interrupted ∷ rest) nbyte got ps = read_loop-Conserves rest nbyte got ps
read_loop-Conserves (failed ∷ rest) nbyte got ps = refl
read_loop-Conserves (bytes [] ∷ rest) nbyte got ps = refl
read_loop-Conserves (bytes (b ∷ bs) ∷ rest) nbyte got ps =
    elim (Bool-cases (leb nbyte (length (b ∷ bs)))) [
      | inl full ↦
          rw (full, read_loop)
            (append_assoc got (take nbyte (b ∷ bs)) (stream (put_back (drop nbyte (b ∷ bs)) rest))
              ∙ ap (◌++◌ got) (
                  ap (◌++◌ (take nbyte (b ∷ bs))) (stream-put_back (drop nbyte (b ∷ bs)) rest)
                  ∙ take-drop nbyte (b ∷ bs) (stream rest)))
      | inr more ↦ elim (sign-cases (poll_loop ps).0) [
        | inl ok ↦
            rw (more, ok, read_loop)
              (read_loop-Conserves rest (nbyte - length (b ∷ bs)) (got ++ b ∷ bs) (poll_loop ps).1
                ∙ append_assoc got (b ∷ bs) (stream rest))
        | inr (inl (n, late)) ↦ rw (more, late, read_loop) (append_assoc got (b ∷ bs) (stream rest))
        | inr (inr (n, bad)) ↦ rw (more, bad, read_loop) (append_assoc got (b ∷ bs) (stream rest))
      ]
    ]

-- The answer is the number of bytes stored, 0 (also after some bytes) or -1.
Answers : ℕ → Outcome → Type 0
Answers room r =
    ((r.status ≡ pos (length r.got)) ⊎ (r.status ≡ pos 0) ⊎ (r.status ≡ minus_one))
    × (length r.got ≤ room)

length-take : (n : ℕ) (xs : List ℕ) → n ≤ length xs → length (take n xs) ≡ n
length-take zero xs h = refl
length-take (suc n) [] h = absurd (omega arith)
length-take (suc n) (x ∷ xs) h = ap suc (length-take n xs (omega arith))

read_loop-Answers :
    (arrivals : List Arrival) (nbyte : ℕ) (got : List ℕ) (ps : List Poll)
    → Answers (length got + nbyte) (read_loop arrivals nbyte got ps)
unfolding Answers read_loop
read_loop-Answers [] nbyte got ps = (inr (inl refl), omega arith)
read_loop-Answers (would_block ∷ rest) nbyte got ps = (inr (inl refl), omega arith)
read_loop-Answers (interrupted ∷ rest) nbyte got ps = read_loop-Answers rest nbyte got ps
read_loop-Answers (failed ∷ rest) nbyte got ps = (inr (inr refl), omega arith)
read_loop-Answers (bytes [] ∷ rest) nbyte got ps = (inl refl, omega arith)
read_loop-Answers (bytes (b ∷ bs) ∷ rest) nbyte got ps =
    elim (Bool-cases (leb nbyte (length (b ∷ bs)))) [
      | inl full ↦
          rw (full, read_loop)
            (inl (sym (ap pos (stored (ground arith)))), omega (arith, stored (ground arith)))
      | inr more ↦ elim (sign-cases (poll_loop ps).0) [
        | inl ok ↦
            rw (more, ok, read_loop)
              (let later =
                  read_loop-Answers rest (nbyte - length (b ∷ bs)) (got ++ b ∷ bs)
                    (poll_loop ps).1 in
                (later.0, omega (arith, later.1, grown b bs, room (ground arith))))
        | inr (inl (n, late)) ↦
            rw (more, late, read_loop) (inl refl, omega (arith, grown b bs, room (ground arith)))
        | inr (inr (n, bad)) ↦
            rw (more, bad, read_loop)
              (inr (inr refl), omega (arith, grown b bs, room (ground arith)))
      ]
    ]
  where
    stored : nbyte ≤ length (b ∷ bs) → length (got ++ take nbyte (b ∷ bs)) ≡ length got + nbyte
    stored h =
        length-append got (take nbyte (b ∷ bs))
        ∙ ap (λ k. length got + k) (length-take nbyte (b ∷ bs) h)

    grown : (c : ℕ) (cs : List ℕ) → length (got ++ c ∷ cs) ≡ length got + length (c ∷ cs)
    grown c cs = length-append got (c ∷ cs)

    room :
        length (b ∷ bs) ≤ nbyte
        → length got + length (b ∷ bs) + (nbyte - length (b ∷ bs)) ≡ length got + nbyte
    room h = omega arith

-- `monome_platform_read` loses no byte and makes none up, whatever its calls of read(2) and
-- poll(2) answer: what it stored, followed by what is left on the descriptor, is what was to
-- come. It stores at most `nbyte` bytes and answers their number, 0 or -1.
pub platform_read-Answers :
    (nbyte : ℕ) (d : Device)
    → let (r, d') = platform_read nbyte d in
      (r.1 ++ stream d'.port.arrivals ≡ stream d.port.arrivals)
      × (length r.1 ≤ nbyte)
      × ((r.0 ≡ pos (length r.1)) ⊎ (r.0 ≡ pos 0) ⊎ (r.0 ≡ minus_one))
unfolding platform_read Conserves Answers
platform_read-Answers nbyte d =
    let answers = read_loop-Answers d.port.arrivals nbyte [] d.port.polls in
    (read_loop-Conserves d.port.arrivals nbyte [] d.port.polls, omega (arith, answers.1), answers.0)
