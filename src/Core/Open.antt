-- ===== src/Core/Open.antt =====
-- `monome_open` and `monome_close` of src/libmonome.c, with the loading of a protocol module by
-- src/platform/posix.c or src/platform/embed.c, by what they acquire and release.
pub mod Balance
pub mod Url
pub mod Agreement
pub mod Laws
use libmonome.Common.{
  ℕ, zero, suc, List, [], ◌∷◌, ◌++◌, map, Bool, true, false, not, ◌&&◌, if◌then◌else◌, Option, none,
  some,
}
use libmonome.Common.Int.{ℤ, pos, minus_one, eqb_ℤ, ltb_ℤ}
use libmonome.Device.{Rotate, rotate_0}
use libmonome.Liblo.{Text, codes, text_eq, strstr}
use libmonome.Osc.Open.{Setting}
use libmonome.Mext.Open.{Opening}
use libmonome.Core.Map.{Devmap, Proto, map_serial_to_device}
use libmonome.Core.Ledger.{
  Pointer, null, owned, dangling, is_dangling, Resource, Ledger, nothing_held, fault_if, assign,
  acquire, release, use_of, freed, m_free, any,
}
use libmonome.Posix.Open.{Terminal, monome_platform_open}

-- The protocol modules.
pub data Module : Type 0 where
  series forty mext osc : Module

abbrev pub module_of : Proto → Module
module_of Proto.series = series
module_of Proto.forty = forty
module_of Proto.mext = mext

abbrev pub name_of : Module → Text
name_of series = codes "series"
name_of forty = codes "40h"
name_of mext = codes "mext"
name_of osc = codes "osc"

-- What the system answers while a device is opened. `embedded` says that the modules are linked in,
-- `handshake` is how `mext_open` ends once its descriptor is open, and `strp_null` says that a call
-- of asprintf(3) that fails makes the pointer NULL instead of leaving it undefined.
pub record World : Type 0 where
  pub dev_serial : Text → Option Text
  pub embedded : Bool
  pub build_osc : Bool
  pub asprintf : Bool
  pub dlopen : Bool
  pub dlsym : Bool
  pub calloc : Bool
  pub terminal : Terminal
  pub handshake : Opening
  pub osc_setting : Setting
  pub strp_null : Bool
  pub strdup : Bool

-- g_protos of src/platform/embed.c.
abbrev pub g_protos : Bool → List Module
g_protos build_osc = forty ∷ series ∷ mext ∷ (if build_osc then osc ∷ [] else [])

unfoldable pub find_proto : Text → List Module → Option Module
unfolding text_eq
find_proto proto [] = none
find_proto proto (p ∷ ps) = if text_eq (name_of p) proto then some p else find_proto proto ps

-- monome_platform_load_protocol of src/platform/embed.c; the module's `new` calls calloc(3).
unfoldable pub load_embedded : World → Text → Ledger → Bool × Ledger
unfolding find_proto
load_embedded w proto l = elim (find_proto proto (g_protos w.build_osc)) [
  | none ↦ (false, l)
  | some p ↦ if w.calloc then (true, acquire Resource.monome l) else (false, l)
]

-- A local string that asprintf(3) has allocated: it is used, released, and goes out of scope.
abbrev pub with_buf : Ledger → Ledger
with_buf l = assign Resource.buf null (m_free Resource.buf (acquire Resource.buf l))

-- monome_platform_load_protocol of src/platform/posix.c.
unfoldable pub load_module : World → Ledger → Bool × Ledger
load_module w l =
    if not w.asprintf
    then (false, l)
    else let l = with_buf l in
      if not w.dlopen
      then (false, l)
      else let l = acquire Resource.dl_handle l in
        if w.dlsym && w.calloc
        then (true, acquire Resource.monome l)
        else (false, release Resource.dl_handle l)

unfoldable pub load_protocol : World → Text → Ledger → Bool × Ledger
unfolding load_embedded load_module
load_protocol w proto l = if w.embedded then load_embedded w proto l else load_module w l

-- proto_osc_free: the cached paths, then the members that are set to NULL, then the structure.
unfoldable pub osc_free : Ledger → Ledger
osc_free l =
    let l = use_of Resource.monome l in
    let l = record (fault_if (any is_dangling l.paths) l) { paths = map freed l.paths } in
    let l = m_free Resource.outgoing (m_free Resource.server (m_free Resource.prefix l)) in
    let l =
      assign Resource.outgoing null (assign Resource.server null (assign Resource.prefix null l)) in
    release Resource.monome l

-- The `free` of each module.
unfoldable pub protocol_free : Module → Ledger → Ledger
unfolding osc_free
protocol_free osc l = osc_free l
protocol_free _ l = release Resource.monome l

-- monome_platform_free
unfoldable pub platform_free : World → Module → Ledger → Ledger
unfolding protocol_free
platform_free w p l =
    let l = protocol_free p (use_of Resource.monome l) in
    if w.embedded then l else release Resource.dl_handle l

-- monome_platform_close
abbrev pub platform_close : Ledger → Ledger
platform_close l = release Resource.descriptor (use_of Resource.monome l)

-- The `close` of each module.
unfoldable pub protocol_close : Module → Ledger → Ledger
protocol_close osc l = use_of Resource.monome l
protocol_close _ l = platform_close l

-- `monome->serial = serial`
abbrev pub set_serial : Ledger → Ledger
set_serial l = record (use_of Resource.monome l) { monome_serial = true }

-- monome_platform_open, by its answer and what is then held.
abbrev pub tty_open : World → Devmap → Ledger → ℤ × Ledger
tty_open w m l =
    let r = monome_platform_open m w.terminal in
    (r.status, if r.is_open then acquire Resource.descriptor l else l)

-- proto_series_open and proto_40h_open
abbrev pub serial_open : World → Devmap → Ledger → ℤ × Ledger
serial_open w m l = tty_open w m (set_serial l)

-- mext_open; its handshake closes the descriptor where it fails.
abbrev pub mext_open : World → Devmap → Ledger → ℤ × Ledger
mext_open w m l =
    let (status, l) = tty_open w m l in
    if not (eqb_ℤ status (pos 0))
    then (minus_one, l)
    else let l = set_serial l in
      (w.handshake.status, if w.handshake.closed then platform_close l else l)

-- CACHE_OSC_PATH, `n` times from the k-th call of asprintf(3) on.
unfoldable pub cache_all : World → (n k : ℕ) → List Pointer → Bool × List Pointer
cache_all w zero k ps = (true, ps)
cache_all w (suc n) k ps = elim (w.osc_setting.asprintf k) [
  | true ↦ cache_all w n (suc k) (ps ++ owned ∷ [])
  | false ↦ (false, ps ++ (if w.strp_null then null else dangling) ∷ [])
]

-- The three methods, from the k-th call of asprintf(3) on, and the ten paths.
unfoldable pub add_methods : World → (n k : ℕ) → Ledger → ℤ × Ledger
unfolding cache_all
add_methods w zero k l =
    let (cached, ps) = cache_all w 10 k l.paths in
    (if cached then pos 0 else minus_one, record l { paths = ps })
add_methods w (suc n) k l = elim (w.osc_setting.asprintf k) [
  | true ↦ add_methods w n (suc k) (with_buf l)
  | false ↦ (minus_one, l)
]

-- proto_osc_open
unfoldable pub osc_open : World → Ledger → ℤ × Ledger
unfolding add_methods osc_free protocol_close
osc_open w l =
    if not w.osc_setting.server_new
    then (pos 1, l)
    else let l = acquire Resource.outgoing (acquire Resource.prefix (acquire Resource.server l)) in
      if ltb_ℤ w.osc_setting.socket_fd (pos 0)
      then (pos 1, osc_free (protocol_close osc l))
      else add_methods w 3 0 l

-- The `open` of each module; a device that is no URL has an entry of the map.
unfoldable pub protocol_open : World → Module → Option Devmap → Ledger → ℤ × Ledger
unfolding monome_platform_open osc_open
protocol_open w osc m l = osc_open w l
protocol_open w p none l = (pos 1, l)
protocol_open w mext (some m) l = mext_open w m l
protocol_open w p (some m) l = serial_open w m l

-- `if( serial ) m_free(serial)`
abbrev pub err_init : Ledger → Ledger
err_init l = m_free Resource.serial l

-- What `monome_open` leaves in `struct monome`, beside what is held.
pub record Monome : Type 0 where
  pub proto : Module
  pub rotation : Rotate

-- `monome_open` from the answer of `monome->open` on.
unfoldable pub opened_with : World → Module → ℤ × Ledger → Option Monome × Ledger
unfolding protocol_close platform_free
opened_with w p (error, l) =
    if not (eqb_ℤ error (pos 0))
    then (none, err_init (platform_free w p l))
    else if not w.strdup
    then (none, err_init (platform_free w p (protocol_close p l)))
    else (
      some (record { proto = p; rotation = rotate_0 }),
      acquire Resource.device (use_of Resource.monome l),
    )

-- `monome_open` from the loading of the module on.
unfoldable pub open_protocol : World → Module → Option Devmap → Ledger → Option Monome × Ledger
unfolding load_protocol protocol_open opened_with
open_protocol w p m l =
    let (loaded, l) = load_protocol w (name_of p) l in
    if not loaded
    then (none, err_init l)
    else opened_with w p (protocol_open w p m (use_of Resource.monome l))

-- monome_open
unfoldable pub monome_open : World → Option Text → Option Monome × Ledger
unfolding open_protocol strstr map_serial_to_device
monome_open w none = (none, nothing_held)
monome_open w (some dev) =
    if strstr dev (codes "://")
    then open_protocol w osc none nothing_held
    else elim (w.dev_serial dev) [
      | none ↦ (none, nothing_held)
      | some number ↦
          let l = acquire Resource.serial nothing_held in
          elim (map_serial_to_device number) [
            | none ↦ (none, m_free Resource.serial l)
            | some m ↦ open_protocol w (module_of m.proto) (some m) l
          ]
    ]

-- monome_close
unfoldable pub monome_close : World → Monome → Ledger → Ledger
unfolding protocol_close platform_free
monome_close w m l =
    let l = use_of Resource.monome l in
    let l = if l.monome_serial then m_free Resource.serial l else l in
    platform_free w m.proto (protocol_close m.proto (m_free Resource.device l))
