-- ===== src/Discovery.antt =====
-- src/platform/linux_sysfs.c: the serial number of a device, from the names that sysfs gives it.
use libmonome.Common.{
  ℕ, ◌+◌, ◌≡◌, refl, ap, ◌∙◌, List, [], ◌∷◌, ◌++◌, length, take, drop, take-append, length-append,
  Bool, true, ◌==◌, if◌then◌else◌, Option, none, some, arith, ◌≢◌,
}
use libmonome.Liblo.{Text, codes}

-- FTDI_PATH
abbrev pub ftdi_path : Text
ftdi_path = codes "/sys/bus/usb/drivers/ftdi_sio"

-- strchr(3): the rest of the text from the character on.
unfoldable pub strchr : Text → ℕ → Option Text
strchr [] c = none
strchr (d ∷ ds) c = if d == c then some (d ∷ ds) else strchr ds c

-- What stands before the first `c`: the text behind `*buf = '\0'`.
unfoldable pub before : Text → ℕ → Text
before [] c = []
before (d ∷ ds) c = if d == c then [] else d ∷ before ds c

-- What the system answers: the names that match a pattern, and what the file of a device holds, up
-- to MAX_LENGTH bytes; `none` is an error.
pub record Sysfs : Type 0 where
  pub asprintf : Bool
  pub glob : Text → List Text
  pub read_serial : Text → Option (List ℕ)

-- get_serial; of an empty file the length would be -1, and there is no answer.
unfoldable pub get_serial : Sysfs → Text → Option (Option Text)
unfolding before
get_serial w device =
    if w.asprintf
    then elim (w.read_serial device) [
      | none ↦ some none
      | some buf ↦ elim buf [
        | [] ↦ none
        | b ∷ bs ↦ some (some (before (take (length bs) (b ∷ bs)) 0))
      ]
    ]
    else some none

-- `if( *path == '/' ) path++`
abbrev skip_slash : Text → Text
skip_slash [] = []
skip_slash (c ∷ cs) = if c == b'/' then cs else c ∷ cs

-- The part of the path that is looked for; without a second '/' there is none.
unfoldable pub device_name : Text → Option Text
unfolding strchr
device_name path = elim (strchr (skip_slash path) b'/') [
  | none ↦ none
  | some rest ↦ some (drop 1 rest)
]

-- monome_platform_get_dev_serial; a call that goes wrong in memory has no answer.
unfoldable pub monome_platform_get_dev_serial : Sysfs → Text → Option (Option Text)
unfolding get_serial device_name
monome_platform_get_dev_serial w path = elim (device_name path) [
  | none ↦ none
  | some name ↦
      if w.asprintf
      then elim (w.glob (ftdi_path ++ (codes "/*/" ++ name))) [
        | [] ↦ some none
        | found ∷ others ↦
            let device = drop (length ftdi_path + 1) found in
            elim (strchr device b':') [
              | none ↦ some none
              | some rest ↦ get_serial w (before device b':')
            ]
      ]
      else some none
]

-- A text without the character.
abbrev pub Lacks : ℕ → Text → Type 0
Lacks c [] = Unit {0}
Lacks c (d ∷ ds) = (d ≢ c) × Lacks c ds

before-append : (a rest : Text) (c : ℕ) → Lacks c a → before (a ++ c ∷ rest) c ≡ a
unfolding before
before-append [] rest c h = ground arith
before-append (d ∷ ds) rest c h = ground (arith, before-append ds rest c h.1)

before-Lacks : (a : Text) (c : ℕ) → Lacks c a → before a c ≡ a
unfolding before
before-Lacks [] c h = refl
before-Lacks (d ∷ ds) c h = ground (arith, before-Lacks ds c h.1)

strchr-append : (a rest : Text) (c : ℕ) → Lacks c a → strchr (a ++ c ∷ rest) c ≡ some (c ∷ rest)
unfolding strchr
strchr-append [] rest c h = ground arith
strchr-append (d ∷ ds) rest c h = ground (arith, strchr-append ds rest c h.1)

device_name-append :
    (dir name : Text) → Lacks b'/' dir → device_name (b'/' ∷ dir ++ b'/' ∷ name) ≡ some name
unfolding device_name
device_name-append dir name h = ground (arith, strchr-append dir name b'/' h)

cut_newline :
    (c : ℕ) (serial : Text) (newline : ℕ)
    → take (length (serial ++ newline ∷ [])) (c ∷ serial ++ newline ∷ []) ≡ c ∷ serial
cut_newline c serial newline =
    ap (λ k. take k (c ∷ serial ++ newline ∷ [])) {y = length (c ∷ serial)}
      (length-append serial (newline ∷ []) ∙ omega arith)
    ∙ take-append (c ∷ serial) (newline ∷ [])

get_serial-before :
    (w : Sysfs) (device serial : Text) (newline : ℕ)
    → w.asprintf ≡ true
    → Lacks 0 serial
    → w.read_serial device ≡ some (serial ++ newline ∷ [])
    → get_serial w device ≡ some (some serial)
unfolding get_serial
get_serial-before w device [] newline m h r = ground (arith, m, r)
get_serial-before w device (c ∷ serial) newline m h r =
    rw (m, r)
      (ap (λ (t : Text). some (some (before t 0))) (cut_newline c serial newline)
        ∙ ap (λ (t : Text). some (some t)) (before-Lacks (c ∷ serial) 0 h))

-- `monome_platform_get_dev_serial` for a path /dir/name finds the serial number of the first
-- interface of the driver that has that terminal, where memory does not run out, the directory
-- holds no slash, the matching name has the device before a colon, and the device's file holds
-- the number, without a zero byte, and one more byte.
pub monome_platform_get_dev_serial-read_serial :
    (w : Sysfs) (dir name device rest serial : Text) (newline : ℕ) (others : List Text)
    → w.asprintf ≡ true
    → Lacks b'/' dir
    → Lacks b':' device
    → Lacks 0 serial
    → w.glob (ftdi_path ++ (codes "/*/" ++ name))
      ≡ (ftdi_path ++ (codes "/" ++ (device ++ b':' ∷ rest))) ∷ others
    → w.read_serial device ≡ some (serial ++ newline ∷ [])
    → monome_platform_get_dev_serial w (b'/' ∷ dir ++ b'/' ∷ name) ≡ some (some serial)
unfolding monome_platform_get_dev_serial
monome_platform_get_dev_serial-read_serial w dir name device rest serial newline others m hd hv hs g
      r =
    rw (device_name-append dir name hd, m, g)
      (rw (strchr-append device rest b':' hv, before-append device rest b':' hv)
        (get_serial-before w device serial newline m hs r))
