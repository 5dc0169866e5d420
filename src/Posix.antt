-- ===== src/Posix.antt =====
-- `monome_platform_read` of src/platform/posix.c and `monome_platform_wait_for_input` of
-- src/platform/linux.c.
pub mod Laws
pub mod Ready
pub mod Open
pub mod Loop
use libmonome.Common.{
  ℕ, zero, suc, ◌+◌, ◌-◌, ◌<◌, List, [], ◌∷◌, ◌++◌, length, take, drop, Bool, true, false, leb,
  ◌==◌, if◌then◌else◌,
}
use libmonome.Common.Int.{ℤ, pos, negsuc, minus_one}
use libmonome.Device.{
  Device, Port, Io, Arrival, bytes, would_block, interrupted, failed, Poll, poll_interrupted,
  poll_failed, timed_out, ready,
}

-- The `do … while` around poll(2). With no answer left the time is up.
unfoldable pub poll_loop : List Poll → ℤ × List Poll
poll_loop [] = (pos 1, [])
poll_loop (poll_interrupted ∷ ps) = poll_loop ps
poll_loop (poll_failed ∷ ps) = (minus_one, ps)
poll_loop (timed_out ∷ ps) = (pos 1, ps)
poll_loop (ready error ∷ ps) = (if error then minus_one else pos 0, ps)

unfoldable pub wait_for_input : ℕ → Io ℤ
unfolding poll_loop
wait_for_input msec d =
    if msec == 0
    then (pos 0, d)
    else let (result, ps) = poll_loop d.port.polls in
      (result, record d { port = record p { polls = ps } })
  where
    open d use {port as p}

-- What a read leaves: the answer, the bytes stored so far, and what is still to come.
pub record Outcome : Type 0 where
  pub status : ℤ
  pub got : List ℕ
  pub arrivals : List Arrival
  pub polls : List Poll

-- A burst that has been read in part.
abbrev pub put_back : List ℕ → List Arrival → List Arrival
put_back [] rest = rest
put_back (b ∷ bs) rest = bytes (b ∷ bs) ∷ rest

-- The loop from `start` on, with `nbyte` bytes to go and `got` stored. EINTR goes back to `start`,
-- EAGAIN answers 0 whatever has been stored.
unfoldable pub read_loop : List Arrival → ℕ → List ℕ → List Poll → Outcome
unfolding poll_loop
read_loop [] nbyte got ps = record { status = pos 0; got = got; arrivals = []; polls = ps }
read_loop (would_block ∷ rest) nbyte got ps = record {
  status = pos 0;
  got = got;
  arrivals = rest;
  polls = ps;
}
read_loop (interrupted ∷ rest) nbyte got ps = read_loop rest nbyte got ps
read_loop (failed ∷ rest) nbyte got ps = record {
  status = minus_one;
  got = got;
  arrivals = rest;
  polls = ps;
}
read_loop (bytes [] ∷ rest) nbyte got ps = record {
  status = pos (length got);
  got = got;
  arrivals = rest;
  polls = ps;
}
read_loop (bytes (b ∷ bs) ∷ rest) nbyte got ps = elim (leb nbyte (length (b ∷ bs))) [
  | true ↦ record {
    status = pos (length got + nbyte);
    got = got ++ take nbyte (b ∷ bs);
    arrivals = put_back (drop nbyte (b ∷ bs)) rest;
    polls = ps;
  }
  | false ↦
      let (waited, qs) = poll_loop ps in
      elim waited [
        | pos n ↦ elim n [
          | zero ↦ read_loop rest (nbyte - length (b ∷ bs)) (got ++ b ∷ bs) qs
          | suc m ↦ record {
            status = pos (length (got ++ b ∷ bs));
            got = got ++ b ∷ bs;
            arrivals = rest;
            polls = qs;
          }
        ]
        | negsuc n ↦ record { status = minus_one; got = got ++ b ∷ bs; arrivals = rest; polls = qs }
      ]
]

-- monome_platform_read: the answer and the bytes that were stored at `buf`.
unfoldable pub platform_read : ℕ → Io (ℤ × List ℕ)
unfolding read_loop
platform_read nbyte d =
    let r = read_loop d.port.arrivals nbyte [] d.port.polls in
    ((r.status, r.got), record d { port = record p { arrivals = r.arrivals; polls = r.polls } })
  where
    open d use {port as p}

-- The bytes that are still to come, and their number.
unfoldable pub stream : List Arrival → List ℕ
stream [] = []
stream (bytes bs ∷ rest) = bs ++ stream rest
stream (would_block ∷ rest) = stream rest
stream (interrupted ∷ rest) = stream rest
stream (failed ∷ rest) = stream rest

abbrev pub coming : Device → ℕ
coming d = length (stream d.port.arrivals)
