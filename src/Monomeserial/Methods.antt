-- ===== src/Monomeserial/Methods.antt =====
-- `register_osc_methods` and `unregister_osc_methods` of src/monomeserial.c: which calls of the
-- handlers liblo can make, and that every method is taken back.
use Prim.Native.String.{String}
use mathlib.Core.List.{Perm, append_assoc, perm_append_comm}
use mathlib.Core.List.Perm
use libmonome.Common.{ℕ, List, [], ◌∷◌, ◌++◌, map, Bool, true, if◌then◌else◌}
use libmonome.Liblo.{Text, codes, Method, lo_server_add_method}
use libmonome.Monomeserial.{
  Handler, led_handler, led_all_handler, led_col_row_handler, led_map_handler, intensity_handler,
}

-- ASPRINTF_OR_BAIL, the k-th one: without memory nothing more is done.
abbrev or_bail {ℓ} : {A : Type ℓ} → (ℕ → Bool) → ℕ → (A → A) → (A → A) → A → A
or_bail asprintf k step next a = if asprintf k then next (step a) else a

abbrev add : Text → Text → Text → Handler → List (Method Handler) → List (Method Handler)
add prefix name types h methods =
    lo_server_add_method methods (codes "/" ++ (prefix ++ name)) types h

-- register_osc_methods, on the methods of the server.
unfoldable pub register_osc_methods :
    (ℕ → Bool) → Text → List (Method Handler) → List (Method Handler)
register_osc_methods asprintf prefix =
    or_bail asprintf 0 (add prefix (codes "/led") (codes "iii") led_handler) (
      or_bail asprintf 1
        (λ ms.
          add prefix (codes "/clear") (codes "i") led_all_handler
            (add prefix (codes "/clear") [] led_all_handler ms))
        (or_bail asprintf 2
          (λ ms.
            add prefix (codes "/frame") (codes "iiiiiiiiii") led_map_handler
              (add prefix (codes "/frame") (codes "iiiiiiii") led_map_handler ms))
          (or_bail asprintf 3
            (λ ms.
              add prefix (codes "/led_row") (codes "iii") led_col_row_handler
                (add prefix (codes "/led_row") (codes "ii") led_col_row_handler ms))
            (or_bail asprintf 4
              (λ ms.
                add prefix (codes "/led_col") (codes "iii") led_col_row_handler
                  (add prefix (codes "/led_col") (codes "ii") led_col_row_handler ms))
              (or_bail asprintf 5
                (λ ms.
                  add prefix (codes "/intensity") (codes "i") intensity_handler
                    (add prefix (codes "/intensity") [] intensity_handler ms))
                (λ ms. ms))))))

-- A call of lo_server_del_method, behind the calls made before: the path and the types.
abbrev del : Text → Text → Text → List (Text × Text) → List (Text × Text)
del prefix name types calls = calls ++ (codes "/" ++ (prefix ++ name), types) ∷ []

-- unregister_osc_methods: the methods that are deleted.
unfoldable pub unregister_osc_methods : (ℕ → Bool) → Text → List (Text × Text) → List (Text × Text)
unregister_osc_methods asprintf prefix =
    or_bail asprintf 0
      (λ cs. del prefix (codes "/clear") (codes "i") (del prefix (codes "/clear") [] cs))
      (or_bail asprintf 1
        (λ cs. del prefix (codes "/intensity") (codes "i") (del prefix (codes "/intensity") [] cs))
        (or_bail asprintf 2 (del prefix (codes "/led") (codes "iii")) (
          or_bail asprintf 3
            (λ cs.
              del prefix (codes "/led_row") (codes "iii")
                (del prefix (codes "/led_row") (codes "ii") cs))
            (or_bail asprintf 4
              (λ cs.
                del prefix (codes "/led_col") (codes "iii")
                  (del prefix (codes "/led_col") (codes "ii") cs))
              (or_bail asprintf 5
                (λ cs.
                  del prefix (codes "/frame") (codes "iiiiiiiiii")
                    (del prefix (codes "/frame") (codes "iiiiiiii") cs))
                (λ cs. cs))))))

-- What lo_server_del_method finds a method by.
abbrev pub key : Method Handler → Text × Text
key m = (m.path, m.types)

-- The calls in the order of one function and in that of the other, group by group.
shuffle {ℓ} :
    {A : Type ℓ} (c i l x f : List A)
    → Perm (c ++ (i ++ (l ++ (x ++ f)))) (l ++ (c ++ (f ++ (x ++ i))))
shuffle c i l x f = Perm.trans (Perm.append_left c to_end) (
    rw (← append_assoc c l (f ++ (x ++ i))) (
      rw (← append_assoc l c (f ++ (x ++ i)))
        (Perm.append_right (f ++ (x ++ i)) (perm_append_comm c l))))
  where
    crossed : Perm ((x ++ f) ++ i) (f ++ (x ++ i))
    crossed = rw (← append_assoc f x i) (Perm.append_right i (perm_append_comm x f))

    to_end : Perm (i ++ (l ++ (x ++ f))) (l ++ (f ++ (x ++ i)))
    to_end =
        Perm.trans (perm_append_comm i (l ++ (x ++ f)))
          (rw (append_assoc l (x ++ f) i) (Perm.append_left l crossed))

-- Where memory does not run out, the methods that are deleted at the end of monomeserial are
-- those that were registered at the start, each of them once, in another order.
pub unregister_osc_methods-register :
    (prefix : Text)
    → Perm
        (unregister_osc_methods (λ k. true) prefix [])
        (map key (register_osc_methods (λ k. true) prefix []))
unfolding unregister_osc_methods register_osc_methods
unregister_osc_methods-register prefix =
    shuffle (at "/clear" [] ∷ at "/clear" (codes "i") ∷ [])
      (at "/intensity" [] ∷ at "/intensity" (codes "i") ∷ []) (at "/led" (codes "iii") ∷ [])
      (at "/led_row" (codes "ii")
        ∷ at "/led_row" (codes "iii")
        ∷ at "/led_col" (codes "ii")
        ∷ at "/led_col" (codes "iii")
        ∷ [])
      (at "/frame" (codes "iiiiiiii") ∷ at "/frame" (codes "iiiiiiiiii") ∷ [])
  where
    at : String → Text → Text × Text
    at name types = (codes "/" ++ (prefix ++ codes name), types)
