-- ===== src/Monomeserial/Options.antt =====
-- The command line of src/monomeserial.c.
pub mod Chosen
use libmonome.Common.{
  ℕ, ◌≤◌, ◌<◌, ◌≡◌, ◌↔◌, ◌⊎◌, inl, inr, refl, sym, ap, subst, List, [], ◌∷◌, ◌++◌, Bool, true,
  false, ◌&&◌, ◌||◌, leb, ltb, ◌==◌, if◌then◌else◌, Option, none, some, arith, Bool-cases,
  Option-cases,
}
use libmonome.Device.{Rotate, rotate_0, rotate_90, rotate_180, rotate_270}
use libmonome.Liblo.{Text, codes}

-- A byte of a string as a `char` that is signed: from 128 on it is negative.
abbrev is_from_0 : ℕ → Bool
is_from_0 c = leb b'0' c && ltb c 128

abbrev is_end : Text → Bool
is_end [] = true
is_end (c ∷ cs) = false

-- is_numstr: the character that is above '9' has been stepped over when the loop stops.
unfoldable pub is_numstr : Text → Bool
is_numstr [] = true
is_numstr (c ∷ cs) = elim (is_from_0 c) [
  | false ↦ false
  | true ↦ elim (leb c b'9') [ true ↦ is_numstr cs | false ↦ is_end cs ]
]

abbrev pub AreDigits : Text → Type 0
AreDigits [] = Unit {0}
AreDigits (c ∷ cs) = ((b'0' ≤ c) × (c ≤ b'9')) × AreDigits cs

-- Digits, and one character behind them that is above '9'.
pub record IsLoose (s : Text) : Type 0 where
  pub digits : Text
  pub last : ℕ
  pub parts : s ≡ digits ++ last ∷ []
  pub front : AreDigits digits
  pub above : (b'9' < last) × (last < 128)

pub digits-is_numstr : (s : Text) → AreDigits s → is_numstr s ≡ true
unfolding is_numstr
digits-is_numstr [] h = refl
digits-is_numstr (c ∷ cs) h = ground (arith, digits-is_numstr cs h.1)

loose-is_numstr :
    (ds : Text) (c : ℕ) → AreDigits ds → b'9' < c → c < 128 → is_numstr (ds ++ c ∷ []) ≡ true
unfolding is_numstr
loose-is_numstr [] c h above small = ground arith
loose-is_numstr (d ∷ ds) c h above small = ground (arith, loose-is_numstr ds c h.1 above small)

is_end-nil : (s : Text) → is_end s ≡ true → s ≡ []
is_end-nil [] h = refl
is_end-nil (c ∷ s) h = cc

IsLoose-cons : (c : ℕ) (s : Text) → (b'0' ≤ c) × (c ≤ b'9') → IsLoose s → IsLoose (c ∷ s)
IsLoose-cons c s h l = record {
  digits = c ∷ l.digits;
  last = l.last;
  parts = ap (◌∷◌ c) l.parts;
  front = (h, l.front);
  above = l.above;
}

is_numstr-parts : (s : Text) → is_numstr s ≡ true → AreDigits s ⊎ IsLoose s
unfolding is_numstr
is_numstr-parts [] h = inl tt
is_numstr-parts (c ∷ cs) h = elim (Bool-cases (is_from_0 c)) [
  | inr low ↦ absurd (ground arith)
  | inl from_0 ↦ elim (Bool-cases (leb c b'9')) [
    | inl digit ↦ elim (is_numstr-parts cs (ground arith)) [
      | inl ds ↦ inl ((ground arith, ground arith), ds)
      | inr l ↦ inr (IsLoose-cons c cs (ground arith) l)
    ]
    | inr above ↦ inr (record {
      digits = [];
      last = c;
      parts = ap (◌∷◌ c) (is_end-nil cs (ground arith));
      front = tt;
      above = (ground arith);
    })
  ]
]

-- `is_numstr` accepts exactly the strings of digits and, beside them, those of digits followed
-- by one more character that is above '9' and below 128.
pub is_numstr-IsLoose : (s : Text) → (is_numstr s ≡ true) ↔ (AreDigits s ⊎ IsLoose s)
is_numstr-IsLoose s = (
  is_numstr-parts s,
  (λ h. elim h [
    | inl ds ↦ digits-is_numstr s ds
    | inr l ↦
        subst (λ t. is_numstr t ≡ true) (sym l.parts)
          (loose-is_numstr l.digits l.last l.front l.above.0 l.above.1)
  ]),
)

-- The variables of `main` that options set.
pub record Options : Type 0 where
  pub device : Text
  pub sport : Text
  pub aport : Text
  pub ahost : Text
  pub rotate : Rotate

unfoldable pub defaults : Options
defaults = record {
  device = codes "/dev/ttyUSB0";
  sport = codes "8080";
  aport = codes "8000";
  ahost = codes "127.0.0.1";
  rotate = rotate_0;
}

abbrev first_char : Text → ℕ
first_char [] = 0
first_char (c ∷ cs) = c

-- `switch(*optarg)` of -r.
unfoldable pub rotation_option : Text → Rotate → Rotate
rotation_option optarg before =
    let c = first_char optarg in
    if c == b'l' || c == b'0'
    then rotate_0
    else if c == b't' || c == b'9'
    then rotate_90
    else if c == b'r' || c == b'1'
    then rotate_180
    else if c == b'b' || c == b'2'
    then rotate_270
    else before

-- An answer of getopt_long(3) and its `optarg`. -h has no result: `main` returns.
unfoldable pub set_option : ℕ → Text → Options → Option Options
unfolding is_numstr rotation_option
set_option c optarg o =
    if c == b'h'
    then none
    else some (
        if c == b'd'
        then record o { device = optarg }
        else if c == b's'
        then (if is_numstr optarg then record o { sport = optarg } else o)
        else if c == b'a'
        then (if is_numstr optarg then record o { aport = optarg } else o)
        else if c == b'o'
        then record o { ahost = optarg }
        else if c == b'r'
        then record o { rotate = rotation_option optarg o.rotate }
        else o)

-- The loop over the answers of getopt_long(3).
unfoldable pub parse_options : List (ℕ × Text) → Options → Option Options
unfolding set_option
parse_options [] o = some o
parse_options ((c, optarg) ∷ rest) o = elim (set_option c optarg o) [
  | none ↦ none
  | some o' ↦ parse_options rest o'
]

abbrev pub ArePorts : Options → Type 0
ArePorts o = (is_numstr o.sport ≡ true) × (is_numstr o.aport ≡ true)

set_option-ArePorts :
    (c : ℕ) (optarg : Text) (o o' : Options)
    → ArePorts o
    → set_option c optarg o ≡ some o'
    → ArePorts o'
unfolding set_option
set_option-ArePorts c optarg o o' h e = ground arith

parse_options-keeps :
    (args : List (ℕ × Text)) (o o' : Options)
    → ArePorts o
    → parse_options args o ≡ some o'
    → ArePorts o'
unfolding parse_options
parse_options-keeps [] o o' h e = ground arith
parse_options-keeps ((c, optarg) ∷ args) o o' h e = elim (Option-cases (set_option c optarg o)) [
  | inl stopped ↦ absurd (ground arith)
  | inr (next, set) ↦
      parse_options-keeps args next o' (set_option-ArePorts c optarg o next h set) (ground arith)
]

-- Whatever the command line, the ports that `main` goes on with have passed `is_numstr`: an
-- option that has not leaves the port as it was.
pub parse_options-ArePorts :
    (args : List (ℕ × Text)) {o : Options} → parse_options args defaults ≡ some o → ArePorts o
unfolding defaults is_numstr
parse_options-ArePorts args {o} h = parse_options-keeps args defaults o (refl, refl) h
