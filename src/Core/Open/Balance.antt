-- ===== src/Core/Open/Balance.antt =====
-- What opening a device by src/libmonome.c is to leave held.

use libmonome.Common.{ℕ, ◌≡◌, ◌⊎◌, true, false, ◌&&◌, if◌then◌else◌, Option, none, some, replicate}
use libmonome.Common.Int.{pos, ltb_ℤ}
use libmonome.Core.Ledger.{null, owned, Ledger, nothing_held, is_clear}
use libmonome.Mext.Open.Laws.{EndsWell}
use libmonome.Core.Open.{World, Module, osc, Monome}

-- What a module and its device hold once they are open.
abbrev pub held : World → Module → Ledger
held w osc = record nothing_held {
  dl_handle = if w.embedded then null else owned;
  monome = owned;
  server = owned;
  outgoing = owned;
  prefix = owned;
  device = owned;
  paths = replicate 10 owned;
}
held w _ = record nothing_held {
  serial = owned;
  dl_handle = if w.embedded then null else owned;
  monome = owned;
  descriptor = owned;
  device = owned;
  monome_serial = true;
}

-- What the calls that a device is opened by promise: the descriptor of a server that liblo has opened
-- is not negative, asprintf(3) does not leave a pointer of the osc module undefined, and the
-- handshake of mext closes its descriptor exactly where it fails.
pub record IsSound (w : World) : Type 0 where
  pub listens : (w.osc_setting.server_new && ltb_ℤ w.osc_setting.socket_fd (pos 0)) ≡ false
  pub strp : (w.strp_null ≡ true) ⊎ ((k : ℕ) → w.osc_setting.asprintf k ≡ true)
  pub handshake : EndsWell true w.handshake

-- What a call that began with nothing held leaves, by how it ended.
abbrev pub Balanced : World → Option Monome × Ledger → Type 0
Balanced w (none, l) = is_clear l ≡ true
Balanced w (some m, l) = l ≡ held w m.proto
