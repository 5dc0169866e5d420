-- ===== src/Core/Open/Agreement.antt =====
-- `proto_osc_open` as src/libmonome.c calls it, against the model of src/proto/osc.c.
use libmonome.Common.{◌≡◌, List, arith}
use libmonome.Liblo.{Link, Message}
use libmonome.Osc.Open.{proto_osc_open, monome_protocol_osc_new, cache_paths}
use libmonome.Core.Ledger.{Ledger}
use libmonome.Core.Open.{World, cache_all, osc_open}

-- The status is that of `proto_osc_open`.
osc_open-proto_osc_open :
    (w : World) (link : Link) (packets : List (List Message)) (l : Ledger)
    → (osc_open w l).0 ≡ (proto_osc_open w.osc_setting (monome_protocol_osc_new link packets)).0
unfolding osc_open proto_osc_open monome_protocol_osc_new cache_all cache_paths
osc_open-proto_osc_open w link packets l = ground arith
