-- ===== src/Mext/Open/Sends.antt =====
-- What `mext_query_pending` of src/proto/mext.c changes of a device that accepts messages.

use libmonome.Common.{ℕ, ◌≡◌, refl, ap, ◌∙◌, List, Bool, true, false}
use libmonome.Common.Int.{pos, eqb_ℤ}
use libmonome.Device.{Device, platform_write}
use libmonome.Mext.Message.{
  mext_simple_cmd, mext_write_msg, cmd_system_query, cmd_system_get_id, cmd_system_get_gridsz,
}
use libmonome.Mext.Receive.{Need}
use libmonome.Mext.Open.{ask, mext_query_pending}

-- The kernel takes every message of one byte whole.
abbrev pub Accepts : Device → Type 0
Accepts d = (log : List (List ℕ)) → d.port.accept log ≡ pos 1

-- Sending changes nothing of a device but the log.
abbrev pub Sends : Device → Device → Type 0
Sends d d' = d' ≡ record d { port = record p { sent = d'.port.sent } }
  where
    open d use {port as p}

ask-Sends :
    (pending : Bool) (cmd : ℕ) (d : Device)
    → Accepts d
    → ((ask pending cmd d).0 ≡ true) × Sends d (ask pending cmd d).1
unfolding ask mext_simple_cmd mext_write_msg platform_write
ask-Sends true cmd d accepts = (ap (λ r. eqb_ℤ r (pos 1)) (accepts _), refl)
ask-Sends false cmd d accepts = (refl, refl)

Sends-trans : (d d1 d2 : Device) → Sends d d1 → Sends d1 d2 → Sends d d2
Sends-trans d d1 d2 first second =
    second
    ∙ ap
        (λ (e : Device). record e {
          port = record {
            sent = d2.port.sent;
            accept = e.port.accept;
            arrivals = e.port.arrivals;
            polls = e.port.polls;
          };
        })
        first

Accepts-Sends : (d d' : Device) → Accepts d → Sends d d' → Accepts d'
Accepts-Sends d d' accepts sends log = ap (λ (e : Device). e.port.accept log) sends ∙ accepts log

pub mext_query_pending-Sends :
    (need : Need) (d : Device)
    → Accepts d
    → ((mext_query_pending need d).0 ≡ pos 0) × Sends d (mext_query_pending need d).1
unfolding mext_query_pending
mext_query_pending-Sends need d accepts =
    rw (one.0, two.0, three.0)
      (
        refl,
        Sends-trans d d1 (ask need.grid_size cmd_system_get_gridsz d2).1 one.1
            (Sends-trans d1 d2 (ask need.grid_size cmd_system_get_gridsz d2).1 two.1 three.1),
      )
  where
    d1 : Device
    d1 = (ask need.query cmd_system_query d).1

    d2 : Device
    d2 = (ask need.id cmd_system_get_id d1).1

    one : ((ask need.query cmd_system_query d).0 ≡ true) × Sends d d1
    one = ask-Sends need.query cmd_system_query d accepts

    two : ((ask need.id cmd_system_get_id d1).0 ≡ true) × Sends d1 d2
    two = ask-Sends need.id cmd_system_get_id d1 (Accepts-Sends d d1 accepts one.1)

    three :
        ((ask need.grid_size cmd_system_get_gridsz d2).0 ≡ true)
        × Sends d2 (ask need.grid_size cmd_system_get_gridsz d2).1
    three =
        ask-Sends need.grid_size cmd_system_get_gridsz d2
          (Accepts-Sends d1 d2 (Accepts-Sends d d1 accepts one.1) two.1)
