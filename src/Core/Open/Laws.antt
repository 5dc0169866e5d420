-- ===== src/Core/Open/Laws.antt =====
-- What `monome_open` and `monome_close` of src/libmonome.c hold and give back.

use libmonome.Common.{
  ◌≡◌, ◌≢◌, refl, ap, ◌∙◌, true, Option, none, some, arith, Bool-cases, Option-cases, inl, inr,
}
use libmonome.Liblo.{Text, codes, strstr}
use libmonome.Device.{Rotate}
use libmonome.Core.Map.{Devmap, Proto, map_serial_to_device}
use libmonome.Core.Ledger.{Resource, Ledger, nothing_held, acquire, is_clear}
use libmonome.Core.Open.{
  World, Module, series, forty, mext, osc, Monome, open_protocol, monome_open, monome_close,
  module_of,
}
use libmonome.Core.Open.Balance.{held, IsSound, Balanced}
use libmonome.Core.Open.Url.{open_protocol-Balanced_osc}

-- `monome_open` for a tty, with the serial number in hand.
open_protocol-Balanced :
    (w : World) (p : Module) (m : Devmap)
    → IsSound w
    → p ≢ osc
    → Balanced w (open_protocol w p (some m) (acquire Resource.serial nothing_held))
unfolding open_protocol
open_protocol-Balanced w osc m h tty = absurd (tty refl)
open_protocol-Balanced w series m h tty = ground arith
open_protocol-Balanced w forty m h tty = ground arith
open_protocol-Balanced w mext m h tty = elim h.handshake [
  | inl (done, still_open, all) ↦ ground (arith, done, still_open)
  | inr (failed, closed) ↦ ground (arith, failed, closed)
]

module_of-tty : (p : Proto) → module_of p ≢ osc
module_of-tty Proto.series e = cc
module_of-tty Proto.forty e = cc
module_of-tty Proto.mext e = cc

pub monome_open-Balanced :
    (w : World) (dev : Option Text) → IsSound w → Balanced w (monome_open w dev)
unfolding monome_open
monome_open-Balanced w none h = refl
monome_open-Balanced w (some dev) h = elim (Bool-cases (strstr dev (codes "://"))) [
  | inl url ↦ rw url (open_protocol-Balanced_osc w h)
  | inr tty ↦ elim (Option-cases (w.dev_serial dev)) [
    | inl nameless ↦ rw (tty, nameless) refl
    | inr (number, named) ↦ elim (Option-cases (map_serial_to_device number)) [
      | inl unknown ↦ rw (tty, named, unknown) refl
      | inr (m, known) ↦
          rw (tty, named, known)
            (open_protocol-Balanced w (module_of m.proto) m h (module_of-tty m.proto))
    ]
  ]
]

Balanced-held :
    (w : World) (r : Option Monome × Ledger) (m : Monome)
    → Balanced w r
    → r.0 ≡ some m
    → r.1 ≡ held w m.proto
Balanced-held w (none, l) m b e = cc
Balanced-held w (some m', l) m b e = ground (arith, b)

monome_close-held :
    (w : World) (p : Module) (rot : Rotate)
    → is_clear (monome_close w (record { proto = p; rotation = rot }) (held w p)) ≡ true
unfolding monome_close
monome_close-held w series rot = ground arith
monome_close-held w forty rot = ground arith
monome_close-held w mext rot = ground arith
monome_close-held w osc rot = ground arith

-- `monome_close` on a device that `monome_open` has opened leaves nothing held, releases nothing
-- twice and uses nothing that was released. The calls keep their promises (`IsSound`): the
-- descriptor of a server that was opened is not negative, a call of asprintf(3) that fails
-- leaves NULL where the osc module caches a path, if one fails, and the handshake of mext closes
-- its descriptor exactly where it fails.
pub monome_close-open :
    (w : World) (dev : Option Text) (m : Monome)
    → IsSound w
    → (monome_open w dev).0 ≡ some m
    → is_clear (monome_close w m (monome_open w dev).1) ≡ true
monome_close-open w dev m h e =
    ap (λ l. is_clear (monome_close w m l))
      (Balanced-held w (monome_open w dev) m (monome_open-Balanced w dev h) e)
    ∙ monome_close-held w m.proto m.rotation
