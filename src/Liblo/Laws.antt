-- ===== src/Liblo/Laws.antt =====
-- Texts, and what liblo's documentation says of the handler that a message reaches.
use libmonome.Common.{
  ℕ, List, [], ◌∷◌, ◌++◌, ◌≡◌, refl, ap, ap₂, subst, ◌∙◌, true, ◌&&◌, ◌==◌, arith, length, ◌<◌,
  get_or, zero, suc, Option, some, none, if◌then◌else◌, Bool-cases, inl, inr,
}
use libmonome.Common.Int.{ℤ, pos}
use libmonome.Liblo.{arg, Text, text_eq, Message, Method, find, int32, uint32}

pub text_eq_self : (a : Text) → text_eq a a ≡ true
unfolding text_eq
text_eq_self [] = refl
text_eq_self (a ∷ rest) = ground (arith, text_eq_self rest)

pub text_eq-append : (p a b : Text) → text_eq (p ++ a) (p ++ b) ≡ text_eq a b
unfolding text_eq
text_eq-append [] a b = refl
text_eq-append (c ∷ p) a b = ground (arith, text_eq-append p a b)

-- An argument that is there is read.
pub arg-get_or {ℓ} :
    {R : Type ℓ} (argv : List ℤ) (i : ℕ) (next : ℤ → Option R)
    → i < length argv
    → arg argv i next ≡ next (get_or argv i (pos 0))
arg-get_or [] i next h = absurd (omega arith)
arg-get_or (a ∷ argv) zero next h = refl
arg-get_or (a ∷ argv) (suc i) next h = arg-get_or argv i next (omega arith)

pub int32_small : (n : ℕ) → n < 2147483648 → int32 n ≡ pos n
int32_small n h = ground arith

pub uint32-int32 : (n : ℕ) → n < 4294967296 → uint32 (int32 n) ≡ n
uint32-int32 n h = ground arith

text_eq→≡ : (a b : Text) → text_eq a b ≡ true → a ≡ b
unfolding text_eq
text_eq→≡ [] [] e = refl
text_eq→≡ [] (y ∷ b) e = cc
text_eq→≡ (x ∷ a) [] e = cc
text_eq→≡ (x ∷ a) (y ∷ b) e = ap₂ ◌∷◌ (ground arith) (text_eq→≡ a b (ground arith))

module _ {H : Type 0} where
  -- A method with the handler takes as many arguments as the message has.
  pub data IsRegistered (m : Message) (h : H) : List (Method H) → Type 0 where
    here :
        {k : Method H} {ks : List (Method H)}
        → k.handler ≡ h
        → length k.types ≡ length m.argv
        → IsRegistered m h (k ∷ ks)
    there : {k : Method H} {ks : List (Method H)} → IsRegistered m h ks → IsRegistered m h (k ∷ ks)

  -- What holds of each method, by its handler and the number of its types.
  abbrev pub AllTake {κ} : (H → ℕ → Type κ) → List (Method H) → Type κ
  AllTake P [] = Unit
  AllTake P (k ∷ ks) = P k.handler (length k.types) × AllTake P ks

  pub AllTake-registered {κ} :
      (P : H → ℕ → Type κ) (m : Message) (h : H) {ks : List (Method H)}
      → AllTake P ks
      → IsRegistered m h ks
      → P h (length m.argv)
  AllTake-registered P m h all (here e n) = subst (λ a. P a (length m.argv)) e (subst (P _) n all.0)
  AllTake-registered P m h all (there r) = AllTake-registered P m h all.1 r

  -- `lo_server_add_method` promises that a message with the path and the types of a method reaches
  -- the first such method, and that a handler is called for a message of as many arguments as its
  -- types name.
  pub record IsRouting (route : List (Method H) → Message → Option H) : Type 0 where
    pub exact :
        (ms : List (Method H)) (m : Message) (h : H)
        → length m.types ≡ length m.argv
        → find ms m ≡ some h
        → route ms m ≡ some h
    pub arity :
        (ms : List (Method H)) (m : Message) (h : H) → route ms m ≡ some h → IsRegistered m h ms

  find-IsRegistered :
      (ms : List (Method H)) (m : Message) (h : H)
      → length m.types ≡ length m.argv
      → find ms m ≡ some h
      → IsRegistered m h ms
  unfolding find
  find-IsRegistered [] m h e f = cc
  find-IsRegistered (k ∷ ks) m h e f =
      elim (Bool-cases (text_eq k.path m.path && text_eq k.types m.types)) [
        | inl hit ↦ here (ground arith) (ap length (text_eq→≡ k.types m.types (ground arith)) ∙ e)
        | inr miss ↦ there (find-IsRegistered ks m h e (rw miss at f))
      ]

  -- A routing that takes exact matches only.
  unfoldable pub route_exactly : List (Method H) → Message → Option H
  unfolding find
  route_exactly ms m = if length m.types == length m.argv then find ms m else none

  pub route_exactly-IsRouting : IsRouting route_exactly
  unfolding route_exactly
  route_exactly-IsRouting = record {
    exact = λ ms m h e f. ground arith;
    arity = λ ms m h r. find-IsRegistered ms m h (ground arith) (ground arith);
  }
