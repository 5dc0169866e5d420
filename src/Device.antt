-- ===== src/Device.antt =====
-- The data of `struct monome` (src/private/internal.h, public/monome.h) that the protocol modules
-- read and write, with what stands behind its file descriptor.
use libmonome.Common.{ℕ, List, [], ◌++◌, ◌∷◌, Bool, true, false, Option}
use libmonome.Common.{bit_and, ◌==◌, if◌then◌else◌}
use libmonome.Common.Int.{ℤ}

-- monome_rotate_t
pub data Rotate : Type 0 where
  rotate_0 rotate_90 rotate_180 rotate_270 : Rotate

-- What the next read(2) on the descriptor meets: bytes that have arrived, EAGAIN, EINTR, or
-- another error. With none left, read(2) answers EAGAIN.
pub data Arrival : Type 0 where
  bytes : List ℕ → Arrival
  would_block interrupted failed : Arrival

-- What the next poll(2) answers; `ready` says whether POLLERR is set.
pub data Poll : Type 0 where
  poll_interrupted poll_failed timed_out : Poll
  ready : Bool → Poll

-- The two ends of the descriptor. `sent` holds the buffers handed to write(2), oldest first;
-- `accept` is the kernel's answer to the latest of them.
pub record Port : Type 0 where
  pub sent : List (List ℕ)
  pub accept : List (List ℕ) → ℤ
  pub arrivals : List Arrival
  pub polls : List Poll

-- Strings are lists of bytes. `rows` and `cols` are never negative.
pub record Device : Type 0 where
  pub serial : Option (List ℕ)
  pub friendly : Option (List ℕ)
  pub rows : ℕ
  pub cols : ℕ
  pub rotation : Rotate
  pub port : Port

pub record Flags : Type 0 where
  pub row_col_swap : Bool
  pub row_revbits : Bool
  pub col_revbits : Bool

-- The `flags` of the four entries of `rotspec`.
abbrev pub rotspec_flags : Rotate → Flags
rotspec_flags rotate_0 = record { row_col_swap = false; row_revbits = false; col_revbits = false }
rotspec_flags rotate_90 = record { row_col_swap = true; row_revbits = true; col_revbits = false }
rotspec_flags rotate_180 = record { row_col_swap = false; row_revbits = true; col_revbits = true }
rotspec_flags rotate_270 = record { row_col_swap = true; row_revbits = false; col_revbits = true }

-- The dimensions as the user sees them.
unfoldable pub get_rows : Device → ℕ
get_rows d = if (rotspec_flags d.rotation).row_col_swap then d.cols else d.rows

unfoldable pub get_cols : Device → ℕ
get_cols d = if (rotspec_flags d.rotation).row_col_swap then d.rows else d.cols

abbrev pub get_rotation : Device → Rotate
get_rotation d = d.rotation

-- The enumeration constant with a number below 4.
abbrev rotate_of : ℕ → Rotate
rotate_of n =
    if n == 0
    then rotate_0
    else if n == 1
    then rotate_90
    else if n == 2
    then rotate_180
    else rotate_270

unfoldable pub set_rotation : Device → ℕ → Device
set_rotation d rotation = record d { rotation = rotate_of (bit_and rotation 3) }

-- Operations that may write to the device.
abbrev pub Io {ℓ} : Type ℓ → Type ℓ
Io A = Device → A × Device

abbrev pub pure {ℓ} : {A : Type ℓ} → A → Io A
pure a d = (a, d)

infixl 5 ◌>>=◌ ◌>>◌
abbrev pub ◌>>=◌ {ℓ κ} : {A : Type ℓ} {B : Type κ} → Io A → (A → Io B) → Io B
◌>>=◌ m f d = let (a, d') = m d in f a d'

abbrev pub ◌>>◌ {ℓ κ} : {A : Type ℓ} {B : Type κ} → Io A → Io B → Io B
m >> k = m >>= λ _. k

-- monome_platform_write (src/platform/posix.c); what it prints on a short write is left out.
unfoldable pub platform_write : List ℕ → Io ℤ
platform_write buf d =
    let log = d.port.sent ++ buf ∷ [] in
    (d.port.accept log, record d { port = record p { sent = log } })
  where
    p : Port
    p = d.port
