-- ===== src/Monomeserial/Safety.antt =====
-- The handlers of src/monomeserial.c read no argument that a message does not have.
use libmonome.Common.{
  is_some, ℕ, zero, suc, ◌+◌, ◌≤◌, ◌<◌, ◌≡◌, refl, ap, ◌∙◌, List, [], ◌∷◌, Bool, true, Option,
  length, get_or, tabulate, tabulate-get_or, subst, arith, ◌⊎◌, inl, inr,
}
use libmonome.Common.Int.{ℤ, pos}
use libmonome.Liblo.{Text, Message, arg}
use libmonome.Liblo.Laws.{IsRegistered, arg-get_or, AllTake, AllTake-registered}
use libmonome.Core.Dispatch.{Capabilities}
use libmonome.Monomeserial.{
  Handler, led_handler, led_all_handler, led_col_row_handler, led_map_handler, intensity_handler,
  read_bytes, handler_function, uint8,
}
use libmonome.Monomeserial.Methods.{register_osc_methods}

-- Bytes that are there are read; the index wraps to `k`.
pub read_bytes-tabulate {ℓ} :
    {R : Type ℓ} (n k : ℕ) (argv : List ℤ) (next : List ℕ → Option R)
    → k + n ≤ length argv
    → length argv < 4294967296
    → read_bytes n (4294967296 + k) argv next
      ≡ next (tabulate n k (λ i. uint8 (get_or argv i (pos 0))))
read_bytes-tabulate zero k argv next h lt = refl
read_bytes-tabulate (suc n) k argv next h lt =
    ap
      (λ i.
        arg argv i (λ a. read_bytes n (suc (4294967296 + k)) argv λ bits. next (uint8 a ∷ bits)))
      (omega arith)
    ∙ arg-get_or argv k _ (omega arith)
    ∙ ap (λ i. read_bytes n i argv (λ bits. next (uint8 (get_or argv k (pos 0)) ∷ bits)))
        (omega arith)
    ∙ read_bytes-tabulate n (suc k) argv (λ bits. next (uint8 (get_or argv k (pos 0)) ∷ bits))
        (omega arith) lt

-- The numbers of arguments that a handler is registered for.
abbrev Takes : Handler → ℕ → Type 0
Takes led_handler n = n ≡ 3
Takes led_all_handler n = n ≤ 1
Takes led_col_row_handler n = (n ≡ 2) ⊎ (n ≡ 3)
Takes led_map_handler n = (n ≡ 8) ⊎ (n ≡ 10)
Takes intensity_handler n = n ≤ 1

AllTake-register :
    (asprintf : ℕ → Bool) (prefix : Text) → AllTake Takes (register_osc_methods asprintf prefix [])
unfolding register_osc_methods
AllTake-register asprintf prefix = ground arith

module _ {S : Type 0} (monome : Capabilities S) (path types : Text) where
  -- It is enough to look at arguments that are written out.
  written :
      (h : Handler) (n : ℕ) (argv : List ℤ) (s : S)
      → length argv ≡ n
      → is_some (handler_function monome h path types (tabulate n 0 (λ i. get_or argv i (pos 0))) s)
        ≡ true
      → is_some (handler_function monome h path types argv s) ≡ true
  written h n argv s e =
      subst (λ as'. is_some (handler_function monome h path types as' s) ≡ true)
        (tabulate-get_or n argv (pos 0) e)

  handler_function-Takes :
      (h : Handler) (argv : List ℤ) (s : S)
      → Takes h (length argv)
      → is_some (handler_function monome h path types argv s) ≡ true
  unfolding handler_function
  handler_function-Takes led_handler argv s n = written led_handler 3 argv s n (ground arith)
  handler_function-Takes led_all_handler argv s n = refl
  handler_function-Takes led_col_row_handler argv s (inl n) =
      written led_col_row_handler 2 argv s n (ground arith)
  handler_function-Takes led_col_row_handler argv s (inr n) =
      written led_col_row_handler 3 argv s n (ground arith)
  handler_function-Takes led_map_handler argv s (inl n) = written led_map_handler 8 argv s n refl
  handler_function-Takes led_map_handler argv s (inr n) = written led_map_handler 10 argv s n refl
  handler_function-Takes intensity_handler argv s n = refl

  -- Every call of a handler of monomeserial for a message with as many arguments as the types of
  -- some method registered for that handler reads only arguments that the message has, also
  -- where asprintf(3) has failed on the way.
  pub handler_function-registered :
      (asprintf : ℕ → Bool) (prefix : Text) (m : Message) (h : Handler) (s : S)
      → IsRegistered m h (register_osc_methods asprintf prefix [])
      → is_some (handler_function monome h path types m.argv s) ≡ true
  handler_function-registered asprintf prefix m h s r =
      handler_function-Takes h m.argv s
        (AllTake-registered Takes m h (AllTake-register asprintf prefix) r)
