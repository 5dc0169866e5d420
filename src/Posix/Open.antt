-- ===== src/Posix/Open.antt =====
-- `monome_platform_open` and `monome_platform_close` of src/platform/posix.c.
use libmonome.Common.{
  ℕ, ◌≡◌, refl, Bool, true, false, not, ◌&&◌, if◌then◌else◌, arith, Option, none, some,
  Option-cases, is_some, ◌⊎◌, inl, inr, Bool-cases,
}
use libmonome.Common.Int.{ℤ, pos, ltb_ℤ, eqb_ℤ}
use libmonome.Core.Map.{Devmap}

-- The flags of `struct termios` that are set or cleared, by their names, and all others. CS8 is
-- both bits of CSIZE.
pub data Flag : Type 0 where
  parenb cstopb csize_low csize_high clocal cread : Flag
  icanon echo echoe isig iexten : Flag
  ignbrk brkint icrnl inlcr parmrk inpck istrip ixon : Flag
  ocrnl onlcr onlret onocr ofill opost : Flag
  other : ℕ → Flag

pub record Termios : Type 0 where
  pub flags : Flag → Bool
  pub speed : ℕ
  pub vmin : ℕ
  pub vtime : ℕ

-- The assignments to the four words of flags.
unfoldable pub raw_flags : (Flag → Bool) → Flag → Bool
raw_flags old csize_low = true
raw_flags old csize_high = true
raw_flags old clocal = true
raw_flags old cread = true
raw_flags old (other n) = old (other n)
raw_flags old _ = false

-- What the calls that open and set up a terminal answer. tcsetattr(3) succeeds where any of the settings
-- that it is given could be made: it answers those that are then in force, or an error.
pub record Terminal : Type 0 where
  pub fd : ℤ
  pub settings : Termios
  pub tcgetattr : Bool
  pub cfsetispeed : ℕ → Bool
  pub cfsetospeed : ℕ → Bool
  pub tcsetattr : Termios → Option Termios
  pub tcflush : Bool

-- The answer, what the terminal is left with, and whether the descriptor is open.
pub record Opened : Type 0 where
  pub status : ℤ
  pub settings : Termios
  pub is_open : Bool

-- err_close
abbrev err_close : Termios → Opened
err_close settings = record { status = pos 1; settings = settings; is_open = false }

-- B57600 or B115200.
abbrev pub baud_rate : Devmap → ℕ
baud_rate m = if m.quirk_57600_baud then 57600 else 115200

-- `nt`
abbrev configured : Devmap → Termios → Termios
configured m old = record { flags = raw_flags old.flags; speed = baud_rate m; vmin = 0; vtime = 0 }

unfoldable pub monome_platform_open : Devmap → Terminal → Opened
unfolding raw_flags
monome_platform_open m t =
    if ltb_ℤ t.fd (pos 0)
    then record { status = pos 1; settings = t.settings; is_open = false }
    else if not t.tcgetattr
    then err_close t.settings
    else if not (t.cfsetispeed (baud_rate m) && t.cfsetospeed (baud_rate m))
    then err_close t.settings
    else elim (t.tcsetattr (configured m t.settings)) [
      | none ↦ err_close t.settings
      | some now ↦
          if not t.tcflush
          then err_close now
          else record { status = pos 0; settings = now; is_open = true }
    ]

-- The flags for what a terminal driver does with the bytes that pass.
abbrev pub is_processing : Flag → Bool
is_processing (other n) = false
is_processing parenb = false
is_processing cstopb = false
is_processing csize_low = false
is_processing csize_high = false
is_processing clocal = false
is_processing cread = false
is_processing f = true

-- A line of eight data bits, without a parity bit and with one stop bit, that passes bytes on as they
-- are and does not wait for more; what the line did otherwise is as it was.
pub record IsSerialLine (m : Devmap) (old now : Termios) : Type 0 where
  pub data_bits : (now.flags csize_low ≡ true) × (now.flags csize_high ≡ true)
  pub framing : (now.flags parenb ≡ false) × (now.flags cstopb ≡ false)
  pub receives : (now.flags cread ≡ true) × (now.flags clocal ≡ true)
  pub raw : (f : Flag) → is_processing f ≡ true → now.flags f ≡ false
  pub others : (n : ℕ) → now.flags (other n) ≡ old.flags (other n)
  pub speed :
      ((m.quirk_57600_baud ≡ true) × (now.speed ≡ 57600))
      ⊎ ((m.quirk_57600_baud ≡ false) × (now.speed ≡ 115200))
  pub at_once : (now.vmin ≡ 0) × (now.vtime ≡ 0)

raw-configured :
    (m : Devmap) (old : Termios) (f : Flag)
    → is_processing f ≡ true
    → (configured m old).flags f ≡ false
unfolding raw_flags
raw-configured m old csize_low h = cc
raw-configured m old csize_high h = cc
raw-configured m old clocal h = cc
raw-configured m old cread h = cc
raw-configured m old (other n) h = cc
raw-configured m old f h = refl

configured-IsSerialLine : (m : Devmap) (old : Termios) → IsSerialLine m old (configured m old)
unfolding raw_flags
configured-IsSerialLine m old = record {
  data_bits = (refl, refl);
  framing = (refl, refl);
  receives = (refl, refl);
  raw = raw-configured m old;
  others = λ n. refl;
  speed = elim (Bool-cases m.quirk_57600_baud) [
    | inl slow ↦ inl (slow, ground (arith, slow))
    | inr fast ↦ inr (fast, ground (arith, fast))
  ];
  at_once = (refl, refl);
}

-- Every call that a success needs has succeeded.
abbrev pub all_succeed : Devmap → Terminal → Termios → Bool
all_succeed m t asked =
    not (ltb_ℤ t.fd (pos 0))
    && (t.tcgetattr
        && (t.cfsetispeed asked.speed
            && (t.cfsetospeed asked.speed && (is_some (t.tcsetattr asked) && t.tcflush))))

-- `monome_platform_open` asks the terminal for a line of eight data bits, no parity and one stop
-- bit that passes bytes on as they are, at 57600 baud for the entries of the map with that quirk
-- and 115200 for the others, with the flags that the code does not name as they were. It
-- succeeds, and answers 0, exactly where every call that it makes does, and else the descriptor
-- is closed; the terminal is left with what tcsetattr(3) says is then in force, or as it was.
pub monome_platform_open-settings :
    (m : Devmap) (t : Terminal)
    → let r = monome_platform_open m t in
      (asked : Termios) × IsSerialLine m t.settings asked
      × (r.is_open ≡ all_succeed m t asked)
      × (r.is_open ≡ eqb_ℤ r.status (pos 0))
      × ((t.tcsetattr asked ≡ some r.settings) ⊎ ((r.is_open ≡ false) × (r.settings ≡ t.settings)))
unfolding monome_platform_open
monome_platform_open-settings m t = (
  configured m t.settings,
  configured-IsSerialLine m t.settings,
  ground arith,
  ground arith,
  elim (Option-cases (t.tcsetattr (configured m t.settings))) [
    | inl refused ↦ inr (ground (arith, refused), ground (arith, refused))
    | inr (now, set) ↦
        elim (Bool-cases (
          not (ltb_ℤ t.fd (pos 0))
          && (t.tcgetattr && (t.cfsetispeed (baud_rate m) && t.cfsetospeed (baud_rate m))))) [
            | inl ready ↦ inl (ground (arith, set, ready))
            | inr early ↦ inr (ground (arith, set, early), ground (arith, set, early))
          ]
  ],
)
