-- ===== src/Core/Ledger.antt =====
-- What a program holds of its system: memory, descriptors and modules, and the calls that release it,
-- for src/libmonome.c and what it calls.
use libmonome.Common.{List, [], ◌∷◌, Bool, true, false, not, ◌&&◌, ◌||◌}

-- A pointer, or a descriptor: it is NULL, it points to what is held, or to what is not there (any
-- more).
pub data Pointer : Type 0 where
  null owned dangling : Pointer

abbrev pub is_owned : Pointer → Bool
is_owned owned = true
is_owned _ = false

abbrev pub is_dangling : Pointer → Bool
is_dangling dangling = true
is_dangling _ = false

pub data Resource : Type 0 where
  serial dl_handle monome descriptor server outgoing prefix buf device : Resource

-- `paths` are the paths that the osc module caches, and `monome_serial` says whether
-- `monome->serial` points to the serial number. `faulty` is set once something is lost while it is
-- held, or is released or used while it is not.
pub record Ledger : Type 0 where
  pub serial : Pointer
  pub dl_handle : Pointer
  pub monome : Pointer
  pub descriptor : Pointer
  pub server : Pointer
  pub outgoing : Pointer
  pub prefix : Pointer
  pub buf : Pointer
  pub device : Pointer
  pub paths : List Pointer
  pub monome_serial : Bool
  pub faulty : Bool

abbrev pub nothing_held : Ledger
nothing_held = record {
  serial = null;
  dl_handle = null;
  monome = null;
  descriptor = null;
  server = null;
  outgoing = null;
  prefix = null;
  buf = null;
  device = null;
  paths = [];
  monome_serial = false;
  faulty = false;
}

abbrev pub get : Resource → Ledger → Pointer
get Resource.serial l = l.serial
get Resource.dl_handle l = l.dl_handle
get Resource.monome l = l.monome
get Resource.descriptor l = l.descriptor
get Resource.server l = l.server
get Resource.outgoing l = l.outgoing
get Resource.prefix l = l.prefix
get Resource.buf l = l.buf
get Resource.device l = l.device

abbrev pub put : Resource → Pointer → Ledger → Ledger
put Resource.serial p l = record l { serial = p }
put Resource.dl_handle p l = record l { dl_handle = p }
put Resource.monome p l = record l { monome = p }
put Resource.descriptor p l = record l { descriptor = p }
put Resource.server p l = record l { server = p }
put Resource.outgoing p l = record l { outgoing = p }
put Resource.prefix p l = record l { prefix = p }
put Resource.buf p l = record l { buf = p }
put Resource.device p l = record l { device = p }

abbrev pub fault_if : Bool → Ledger → Ledger
fault_if b l = record l { faulty = l.faulty || b }

-- A pointer is assigned: what it held before is lost.
abbrev pub assign : Resource → Pointer → Ledger → Ledger
assign r p l = put r p (fault_if (is_owned (get r l)) l)

abbrev pub acquire : Resource → Ledger → Ledger
acquire r = assign r owned

-- close(2), dlclose(3), and the release of a structure: it has to be there.
abbrev pub release : Resource → Ledger → Ledger
release r l = put r dangling (fault_if (not (is_owned (get r l))) l)

-- A read of a structure.
abbrev pub use_of : Resource → Ledger → Ledger
use_of r l = fault_if (not (is_owned (get r l))) l

abbrev pub freed : Pointer → Pointer
freed null = null
freed _ = dangling

-- free(3), and the releases of liblo: of NULL nothing is released.
abbrev pub m_free : Resource → Ledger → Ledger
m_free r l = put r (freed (get r l)) (fault_if (is_dangling (get r l)) l)

abbrev pub any : (Pointer → Bool) → List Pointer → Bool
any test [] = false
any test (p ∷ ps) = test p || any test ps

-- Nothing is held, and nothing went wrong.
abbrev pub is_clear : Ledger → Bool
is_clear l =
    not l.faulty
    && (not (is_owned l.serial)
        && (not (is_owned l.dl_handle)
            && (not (is_owned l.monome)
                && (not (is_owned l.descriptor)
                    && (not (is_owned l.server)
                        && (not (is_owned l.outgoing)
                            && (not (is_owned l.prefix)
                                && (not (is_owned l.buf)
                                    && (not (is_owned l.device)
                                        && not (any is_owned l.paths))))))))))
