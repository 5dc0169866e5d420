-- ===== src/Monomeserial/Options/Chosen.antt =====
-- What the loop over the command line of src/monomeserial.c chooses.
use libmonome.Common.{
  ℕ, ◌≡◌, ◌⊎◌, inl, inr, refl, subst, List, [], ◌∷◌, Bool, true, false, ◌&&◌, ◌||◌, ◌==◌,
  if◌then◌else◌, none, some, arith, Option-cases,
}
use libmonome.Liblo.{Text}
use libmonome.Monomeserial.Options.{is_numstr, Options, set_option, parse_options}

-- The option was given.
abbrev pub is_given : ℕ → List (ℕ × Text) → Bool
is_given c [] = false
is_given c ((d, optarg) ∷ rest) = d == c || is_given c rest

-- The last argument of the option that passes the test, or the one before.
abbrev pub last_given : ℕ → (Text → Bool) → List (ℕ × Text) → Text → Text
last_given c test [] before = before
last_given c test ((d, optarg) ∷ rest) before =
    last_given c test rest (if d == c && test optarg then optarg else before)

-- What the command line asks for, where it does not ask for help.
abbrev pub IsChosen : List (ℕ × Text) → Options → Options → Type 0
IsChosen args before o =
    (o.device ≡ last_given b'd' (λ t. true) args before.device)
    × (o.sport ≡ last_given b's' is_numstr args before.sport)
    × (o.aport ≡ last_given b'a' is_numstr args before.aport)
    × (o.ahost ≡ last_given b'o' (λ t. true) args before.ahost)

set_option-help :
    (c : ℕ) (optarg : Text) (before : Options) (rest : List (ℕ × Text))
    → set_option c optarg before ≡ none
    → is_given b'h' ((c, optarg) ∷ rest) ≡ true
unfolding set_option
set_option-help c optarg before rest h = ground arith

set_option-next :
    (c : ℕ) (optarg : Text) (before next : Options)
    → set_option c optarg before ≡ some next
    → ((c == b'h') ≡ false)
      × ((next.device ≡ (if c == b'd' && true then optarg else before.device))
          × (next.sport ≡ (if c == b's' && is_numstr optarg then optarg else before.sport))
          × (next.aport ≡ (if c == b'a' && is_numstr optarg then optarg else before.aport))
          × (next.ahost ≡ (if c == b'o' && true then optarg else before.ahost)))
unfolding set_option
set_option-next c optarg before next h =
    (ground arith, (ground arith, ground arith, ground arith, ground arith))

-- The options are refused exactly where -h is among them; else each of them is as it was last given.
pub parse_options-IsChosen :
    (args : List (ℕ × Text)) (before : Options)
    → ((is_given b'h' args ≡ true) × (parse_options args before ≡ none))
      ⊎ ((is_given b'h' args ≡ false)
          × ((o : Options) × (parse_options args before ≡ some o) × IsChosen args before o))
unfolding parse_options
parse_options-IsChosen [] before = inr (refl, (before, refl, (refl, refl, refl, refl)))
parse_options-IsChosen ((c, optarg) ∷ rest) before =
    elim (Option-cases (set_option c optarg before)) [
      | inl stopped ↦ inl (set_option-help c optarg before rest stopped, ground (arith, stopped))
      | inr (next, set) ↦
          let (on, kept) = set_option-next c optarg before next set in
          elim (parse_options-IsChosen rest next) [
            | inl (helped, e) ↦ inl (ground (arith, helped), ground (arith, set, e))
            | inr (free, (o, e, chosen)) ↦ inr (
              ground (arith, free, on),
              (
                o,
                ground (arith, set, e),
                (
                  subst (λ (d : Text). o.device ≡ last_given b'd' (λ t. true) rest d) kept.0
                      chosen.0,
                  subst (λ (d : Text). o.sport ≡ last_given b's' is_numstr rest d) kept.1 chosen.1,
                  subst (λ (d : Text). o.aport ≡ last_given b'a' is_numstr rest d) kept.2 chosen.2,
                  subst (λ (d : Text). o.ahost ≡ last_given b'o' (λ t. true) rest d) kept.3
                      chosen.3,
                ),
              ),
            )
          ]
    ]
