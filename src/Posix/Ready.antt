-- ===== src/Posix/Ready.antt =====
-- `monome_platform_read` of src/platform/posix.c on a descriptor that keeps up: bytes in bursts,
-- and readable whenever it is polled.
use mathlib.Core.List.{append_assoc}
use libmonome.Common.{
  ℕ, zero, suc, ◌+◌, ◌-◌, ◌≤◌, ◌<◌, ◌≡◌, refl, sym, ap, ◌∙◌, arith, List, [], ◌∷◌, ◌++◌,
}
use libmonome.Common.{
  length, take, drop, replicate, length-append, false, leb, Bool-cases, inl, inr,
}
use libmonome.Common.Int.{pos}
use libmonome.Device.{Device, Arrival, bytes, Poll, ready}
use libmonome.Posix.{poll_loop, read_loop, put_back, Outcome, platform_read}
use libmonome.Posix.{stream}
use libmonome.Posix.Laws.{Conserves, read_loop-Conserves}

-- Bursts of bytes, none of them empty.
abbrev pub bursts : List (ℕ × List ℕ) → List Arrival
bursts [] = []
bursts ((b, bs) ∷ rest) = bytes (b ∷ bs) ∷ bursts rest

-- What stands behind a descriptor that keeps up.
abbrev pub KeepsUp : List Arrival → List Poll → Type 0
KeepsUp arrivals polls =
    (parts : List (ℕ × List ℕ)) × (k : ℕ) × (arrivals ≡ bursts parts)
    × (polls ≡ replicate k (ready false))
    × (length parts ≤ k)

abbrev pub IsReady : Device → Type 0
IsReady d = KeepsUp d.port.arrivals d.port.polls

put_back-KeepsUp :
    (left : List ℕ) (parts : List (ℕ × List ℕ)) (k : ℕ)
    → suc (length parts) ≤ k
    → KeepsUp (put_back left (bursts parts)) (replicate k (ready false))
put_back-KeepsUp [] parts k h = (parts, k, refl, refl, omega arith)
put_back-KeepsUp (b ∷ bs) parts k h = ((b, bs) ∷ parts, k, refl, refl, h)

take_short : (n : ℕ) (xs ys : List ℕ) → n ≤ length xs → take n (xs ++ ys) ≡ take n xs
take_short zero xs ys h = refl
take_short (suc n) [] ys h = absurd (omega arith)
take_short (suc n) (x ∷ xs) ys h = ap (◌∷◌ x) (take_short n xs ys (omega arith))

take_long :
    (n : ℕ) (xs ys : List ℕ) → length xs ≤ n → take n (xs ++ ys) ≡ xs ++ take (n - length xs) ys
take_long n [] ys h = ap (λ k. take k ys) (omega arith)
take_long zero (x ∷ xs) ys h = absurd (omega arith)
take_long (suc n) (x ∷ xs) ys h =
    ap (◌∷◌ x) (take_long n xs ys (omega arith) ∙ ap (λ k. xs ++ take k ys) (less n (length xs)))
  where
    less : (a b : ℕ) → a - b ≡ suc a - suc b
    less a b = omega arith

Reads : ℕ → List ℕ → List ℕ → Outcome → Type 0
Reads nbyte got incoming r =
    (r.status ≡ pos (length got + nbyte))
    × (r.got ≡ got ++ take nbyte incoming)
    × KeepsUp r.arrivals r.polls

read_loop-bursts :
    (parts : List (ℕ × List ℕ)) (k nbyte : ℕ) (got : List ℕ)
    → length parts ≤ k
    → 0 < nbyte
    → nbyte ≤ length (stream (bursts parts))
    → Reads nbyte got
        (stream (bursts parts))
        (read_loop (bursts parts) nbyte got (replicate k (ready false)))
unfolding Reads stream read_loop
read_loop-bursts [] k nbyte got polled some_bytes enough = absurd (omega arith)
read_loop-bursts ((b, bs) ∷ parts) zero nbyte got polled some_bytes enough = absurd (omega arith)
read_loop-bursts ((b, bs) ∷ parts) (suc k) nbyte got polled some_bytes enough =
    elim (Bool-cases (leb nbyte (length (b ∷ bs)))) [
      | inl full ↦
          rw (full, read_loop)
            (
              refl,
              ap (◌++◌ got)
                  (sym (take_short nbyte (b ∷ bs) (stream (bursts parts)) (ground arith))),
              put_back-KeepsUp (drop nbyte (b ∷ bs)) parts (suc k) (omega arith),
            )
      | inr more ↦
          let later =
            read_loop-bursts parts k (nbyte - length (b ∷ bs)) (got ++ b ∷ bs) (omega arith)
              (ground arith)
              (omega (arith, length-append (b ∷ bs) (stream (bursts parts)), enough)) in
          rw (more, read_loop, poll_loop)
            (
              later.0 ∙ ap pos (omega (arith, length-append got (b ∷ bs), fits more)),
              later.1
                  ∙ append_assoc got (b ∷ bs)
                      (take (nbyte - length (b ∷ bs)) (stream (bursts parts)))
                  ∙ ap (◌++◌ got)
                      (sym (take_long nbyte (b ∷ bs) (stream (bursts parts)) (fits more))),
              later.2,
            )
    ]
  where
    fits : leb nbyte (length (b ∷ bs)) ≡ false → length (b ∷ bs) ≤ nbyte
    fits h = ground arith

drop-append_take : (n : ℕ) (xs ys : List ℕ) → n ≤ length xs → take n xs ++ ys ≡ xs → ys ≡ drop n xs
drop-append_take zero xs ys h e = e
drop-append_take (suc n) [] ys h e = absurd (omega arith)
drop-append_take (suc n) (x ∷ xs) ys h e = drop-append_take n xs ys (omega arith) (ap (drop 1) e)

-- However the bytes that arrive are split into bursts, `monome_platform_read` answers `nbyte`
-- and stores the first `nbyte` of them, provided that `nbyte` is positive, that so many arrive,
-- that the descriptor polls readable each time it waits, and that no call fails or is told to
-- try again. The other bytes are left, for a descriptor that still keeps up.
pub platform_read-IsReady :
    (nbyte : ℕ) (d : Device)
    → IsReady d
    → 0 < nbyte
    → nbyte ≤ length (stream d.port.arrivals)
    → let (r, d') = platform_read nbyte d in
      (r ≡ (pos nbyte, take nbyte (stream d.port.arrivals)))
      × IsReady d'
      × (stream d'.port.arrivals ≡ drop nbyte (stream d.port.arrivals))
unfolding platform_read Reads Conserves
platform_read-IsReady nbyte d (parts, k, arriving, polled, enough_polls) some_bytes enough =
    let reads =
      rw (sym arriving, sym polled) at
        (read_loop-bursts parts k nbyte [] enough_polls some_bytes (rw (sym arriving) enough)) in
    let status = reads.0 ∙ ap pos (none_yet nbyte) in
    let left = stream (read_loop d.port.arrivals nbyte [] d.port.polls).arrivals in
    let kept = read_loop-Conserves d.port.arrivals nbyte [] d.port.polls in
    (
      λ i. (status i, reads.1 i),
      reads.2,
      drop-append_take nbyte (stream d.port.arrivals) left enough
          (ap (λ t. t ++ left) (sym reads.1) ∙ kept),
    )
  where
    none_yet : (n : ℕ) → 0 + n ≡ n
    none_yet n = omega arith
