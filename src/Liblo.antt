-- ===== src/Liblo.antt =====
-- liblo as src/proto/osc.c and src/monomeserial.c use it: texts, messages of 32-bit integers, the
-- methods that are registered with a server, and the link that messages leave by.
pub mod Laws
use Prim.Native.Char.{code}
use Prim.Native.String.{String}
use libmonome.Common.{
  ℕ, zero, suc, ◌+◌, ◌-◌, ◌%◌, List, [], ◌∷◌, ◌++◌, Bool, true, false, ◌&&◌, ◌||◌, ◌==◌, ltb,
  if◌then◌else◌, Option, none, some, u32,
}
use libmonome.Common.Int.{ℤ, pos, negsuc}

-- A string of C, by its bytes.
abbrev pub Text : Type 0
Text = List ℕ

abbrev pub codes : String → Text
codes String.[] = []
codes (String.◌∷◌ c s) = code c ∷ codes s

-- strcmp(3) answers 0.
unfoldable pub text_eq : Text → Text → Bool
text_eq [] [] = true
text_eq [] (b ∷ bs) = false
text_eq (a ∷ as') [] = false
text_eq (a ∷ as') (b ∷ bs) = a == b && text_eq as' bs

-- strstr(3) finds the text.
abbrev pub starts_with : Text → Text → Bool
starts_with [] cs = true
starts_with (p ∷ ps) [] = false
starts_with (p ∷ ps) (c ∷ cs) = p == c && starts_with ps cs

unfoldable pub strstr : Text → Text → Bool
strstr [] needle = starts_with needle []
strstr (c ∷ cs) needle = starts_with needle (c ∷ cs) || strstr cs needle

-- A `uint_t` that is read as an `int32_t`, and back.
abbrev pub int32 : ℕ → ℤ
int32 n = let w = u32 n in if ltb w 2147483648 then pos w else negsuc (4294967295 - w)

abbrev pub uint32 : ℤ → ℕ
uint32 (pos n) = u32 n
uint32 (negsuc n) = 4294967295 - u32 n

pub record Message : Type 0 where
  pub path : Text
  pub types : Text
  pub argv : List ℤ

-- `argv[i]->i`; a read behind the last argument has no answer.
abbrev pub arg {ℓ} : {R : Type ℓ} → List ℤ → ℕ → (ℤ → Option R) → Option R
arg [] i next = none
arg (a ∷ rest) zero next = next a
arg (a ∷ rest) (suc i) next = arg rest i next

-- The messages that were sent, oldest first, and liblo's answer to the latest of them.
pub record Link : Type 0 where
  pub sent : List Message
  pub answer : List Message → ℤ

-- A call of lo_send_from.
abbrev pub lo_send_from : Text → Text → List ℤ → Link → ℤ × Link
lo_send_from path types argv link =
    let log = link.sent ++ record { path = path; types = types; argv = argv } ∷ [] in
    (link.answer log, record link { sent = log })

-- A method that was handed to a server, with the name of its handler.
pub record Method (H : Type 0) : Type 0 where
  pub path : Text
  pub types : Text
  pub handler : H

module _ {H : Type 0} where
  -- A call of lo_server_add_method, behind the calls made before.
  abbrev pub lo_server_add_method : List (Method H) → Text → Text → H → List (Method H)
  lo_server_add_method ms path types handler =
      ms ++ record { path = path; types = types; handler = handler } ∷ []

  -- The first method with the path and the types of a message.
  unfoldable pub find : List (Method H) → Message → Option H
  unfolding text_eq
  find [] m = none
  find (k ∷ ks) m =
      if text_eq k.path m.path && text_eq k.types m.types then some k.handler else find ks m
