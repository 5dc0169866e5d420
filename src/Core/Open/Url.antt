-- ===== src/Core/Open/Url.antt =====
-- `monome_open` of src/libmonome.c for an OSC URL: what loading the module and opening it leave.
use mathlib.Core.List.{append_assoc, append-nil}
use libmonome.Common.{
  ℕ, zero, suc, ◌≡◌, ◌⊎◌, refl, sym, ap, ◌∙◌, subst, Bool, true, false, ◌&&◌, ◌||◌, if◌then◌else◌,
  Option, none, some, arith, Bool-cases, Option-cases, inl, inr, List, [], ◌∷◌, ◌++◌, map,
  replicate,
}
use libmonome.Common.Int.{ℤ, eqb_ℤ, pos, minus_one}
use libmonome.Liblo.{Text, codes}
use libmonome.Device.{rotate_0}
use libmonome.Core.Map.{Devmap}
use libmonome.Core.Ledger.{
  Pointer, null, owned, dangling, is_owned, is_dangling, Resource, Ledger, nothing_held, freed, any,
  is_clear, acquire, use_of,
}
use libmonome.Core.Open.{
  World, Module, Monome, name_of, protocol_open, protocol_close, g_protos, find_proto,
  load_embedded, load_module, osc, opened_with, cache_all, add_methods, osc_open, load_protocol,
  platform_free, err_init, open_protocol,
}
use libmonome.Core.Open.Balance.{IsSound, Balanced}

any-append :
    (test : Pointer → Bool) (ps qs : List Pointer)
    → any test (ps ++ qs) ≡ (any test ps || any test qs)
any-append test [] qs = refl
any-append test (p ∷ ps) qs = ground (arith, any-append test ps qs)

owned-freed : (ps : List Pointer) → any is_owned (map freed ps) ≡ false
owned-freed [] = refl
owned-freed (null ∷ ps) = owned-freed ps
owned-freed (owned ∷ ps) = owned-freed ps
owned-freed (dangling ∷ ps) = owned-freed ps

cache_all-dangling :
    (w : World) (n k : ℕ) (ps : List Pointer)
    → IsSound w
    → any is_dangling ps ≡ false
    → any is_dangling (cache_all w n k ps).1 ≡ false
unfolding cache_all
cache_all-dangling w zero k ps h clean = clean
cache_all-dangling w (suc n) k ps h clean = elim (Bool-cases (w.osc_setting.asprintf k)) [
  | inl memory ↦
      rw (memory, cache_all)
        (cache_all-dangling w n (suc k) (ps ++ owned ∷ []) h
          (ground (arith, any-append is_dangling ps (owned ∷ []))))
  | inr none_left ↦ elim h.strp [
    | inl nulls ↦ ground (arith, none_left, nulls, any-append is_dangling ps (null ∷ []))
    | inr all ↦ absurd (ground (arith, none_left, all k))
  ]
]

cache_all-owned :
    (w : World) (n k : ℕ) (ps : List Pointer)
    → (cache_all w n k ps).0 ≡ true
    → (cache_all w n k ps).1 ≡ ps ++ replicate n owned
unfolding cache_all
cache_all-owned w zero k ps h = sym (append-nil ps)
cache_all-owned w (suc n) k ps h = elim (Bool-cases (w.osc_setting.asprintf k)) [
  | inl memory ↦
      rw (memory, cache_all)
        (cache_all-owned w n (suc k) (ps ++ owned ∷ []) (ground (arith, memory))
          ∙ append_assoc ps (owned ∷ []) (replicate n owned))
  | inr none_left ↦ absurd (ground (arith, none_left))
]

-- What is held once a module is loaded.
abbrev loaded : World → Ledger
loaded w = record nothing_held { dl_handle = if w.embedded then null else owned; monome = owned }

-- What is held once it is not.
abbrev missing : Pointer → Ledger
missing p = record nothing_held { dl_handle = p }

-- How the loading of a module may end.
abbrev IsLoaded : World → Bool × Ledger → Type 0
IsLoaded w r =
    (r ≡ (true, loaded w)) ⊎ ((p : Pointer) × (r ≡ (false, missing p)) × (is_owned p ≡ false))

load_module-cases : (w : World) → w.embedded ≡ false → IsLoaded w (load_module w nothing_held)
unfolding load_module
load_module-cases w h = elim (Bool-cases w.asprintf) [
  | inr no_memory ↦ inr (null, rw no_memory refl, refl)
  | inl memory ↦ elim (Bool-cases w.dlopen) [
    | inr no_file ↦ inr (null, rw (memory, no_file) refl, refl)
    | inl file ↦ elim (Bool-cases (w.dlsym && w.calloc)) [
      | inl made ↦ inl (rw (memory, file, made, h) refl)
      | inr not_made ↦ inr (dangling, rw (memory, file, not_made) refl, refl)
    ]
  ]
]

load_embedded-cases :
    (w : World) (name : Text) → w.embedded ≡ true → IsLoaded w (load_embedded w name nothing_held)
unfolding load_embedded
load_embedded-cases w name h = elim (Option-cases (find_proto name (g_protos w.build_osc))) [
  | inl unknown ↦ inr (null, rw unknown refl, refl)
  | inr (p, known) ↦ elim (Bool-cases w.calloc) [
    | inl made ↦ inl (rw (known, made, h) refl)
    | inr not_made ↦ inr (null, rw (known, not_made) refl, refl)
  ]
]

load_protocol-cases : (w : World) (name : Text) → IsLoaded w (load_protocol w name nothing_held)
unfolding load_protocol
load_protocol-cases w name = elim (Bool-cases w.embedded) [
  | inl linked ↦ subst (IsLoaded w) (ground (arith, linked)) (load_embedded-cases w name linked)
  | inr apart ↦ subst (IsLoaded w) (ground (arith, apart)) (load_module-cases w apart)
]

-- What a server holds, with some of its paths.
abbrev serving : World → List Pointer → Ledger
serving w ps = record (loaded w) { server = owned; outgoing = owned; prefix = owned; paths = ps }

add_methods-cases :
    (w : World) (n k : ℕ)
    → IsSound w
    → (add_methods w n k (serving w []) ≡ (pos 0, serving w (replicate 10 owned)))
      ⊎ ((ps : List Pointer) × (add_methods w n k (serving w []) ≡ (minus_one, serving w ps))
          × (any is_dangling ps ≡ false))
unfolding add_methods
add_methods-cases w zero k h = elim (Bool-cases (cache_all w 10 k []).0) [
  | inl all ↦ inl (ground (arith, all, cache_all-owned w 10 k [] all))
  | inr some_left ↦
      inr ((cache_all w 10 k []).1, ground (arith, some_left), cache_all-dangling w 10 k [] h refl)
]
add_methods-cases w (suc n) k h = elim (Bool-cases (w.osc_setting.asprintf k)) [
  | inl memory ↦ rw (memory, add_methods) (add_methods-cases w n (suc k) h)
  | inr none_left ↦ inr ([], ground (arith, none_left), refl)
]

-- `proto_osc_open`, by what it leaves.
osc_open-cases :
    (w : World)
    → IsSound w
    → (osc_open w (loaded w) ≡ (pos 0, serving w (replicate 10 owned)))
      ⊎ ((osc_open w (loaded w) ≡ (pos 1, loaded w))
          ⊎ ((ps : List Pointer) × (osc_open w (loaded w) ≡ (minus_one, serving w ps))
              × (any is_dangling ps ≡ false)))
unfolding osc_open
osc_open-cases w h = elim (Bool-cases w.osc_setting.server_new) [
  | inr deaf ↦ inr (inl (ground (arith, deaf)))
  | inl listens ↦ elim (add_methods-cases w 3 0 h) [
    | inl all ↦ inl (ground (arith, listens, h.listens, all))
    | inr (ps, some_left, clean) ↦
        inr (inr (ps, ground (arith, listens, h.listens, some_left), clean))
  ]
]

freed_loaded : (w : World) → is_clear (err_init (platform_free w osc (loaded w))) ≡ true
unfolding platform_free
freed_loaded w = ground arith

freed_serving :
    (w : World) (ps : List Pointer)
    → any is_dangling ps ≡ false
    → is_clear (err_init (platform_free w osc (serving w ps))) ≡ true
unfolding platform_free
freed_serving w ps clean = ground (arith, clean, owned-freed ps)

opened_with-failed :
    (w : World) (p : Module) (status : ℤ) (l : Ledger)
    → eqb_ℤ status (pos 0) ≡ false
    → opened_with w p (status, l) ≡ (none, err_init (platform_free w p l))
unfolding opened_with
opened_with-failed w p status l h = ground (arith, h)

opened_with-no_memory :
    (w : World) (p : Module) (l : Ledger)
    → w.strdup ≡ false
    → opened_with w p (pos 0, l) ≡ (none, err_init (platform_free w p (protocol_close p l)))
unfolding opened_with
opened_with-no_memory w p l h = ground (arith, h)

opened_with-done :
    (w : World) (p : Module) (l : Ledger)
    → w.strdup ≡ true
    → opened_with w p (pos 0, l) ≡ (
      some (record { proto = p; rotation = rotate_0 }),
      acquire Resource.device (use_of Resource.monome l),
    )
unfolding opened_with
opened_with-done w p l h = ground (arith, h)

Balanced-none :
    (w : World) (r : Option Monome × Ledger) (l : Ledger)
    → r ≡ (none, l)
    → is_clear l ≡ true
    → Balanced w r
Balanced-none w r l e clear = subst (Balanced w) (sym e) clear

opened_with-Balanced_osc :
    (w : World) → IsSound w → Balanced w (opened_with w osc (osc_open w (loaded w)))
unfolding protocol_close
opened_with-Balanced_osc w h = elim (osc_open-cases w h) [
  | inl opened ↦ elim (Bool-cases w.strdup) [
    | inl memory ↦
        subst (Balanced w) (sym (ap (opened_with w osc) opened ∙ opened_with-done w osc _ memory))
          refl
    | inr no_memory ↦
        Balanced-none w _ _
          (ap (opened_with w osc) opened ∙ opened_with-no_memory w osc _ no_memory)
          (freed_serving w (replicate 10 owned) refl)
  ]
  | inr (inl deaf) ↦
      Balanced-none w _ _ (ap (opened_with w osc) deaf ∙ opened_with-failed w osc (pos 1) _ refl)
        (freed_loaded w)
  | inr (inr (ps, failed, clean)) ↦
      Balanced-none w _ _
        (ap (opened_with w osc) failed ∙ opened_with-failed w osc minus_one _ refl)
        (freed_serving w ps clean)
]

open_protocol-absent :
    (w : World) (p : Module) (m : Option Devmap) (l l' : Ledger)
    → load_protocol w (name_of p) l ≡ (false, l')
    → open_protocol w p m l ≡ (none, err_init l')
unfolding open_protocol
open_protocol-absent w p m l l' h = rw h refl

open_protocol-loaded :
    (w : World) (p : Module) (m : Option Devmap) (l l' : Ledger)
    → load_protocol w (name_of p) l ≡ (true, l')
    → open_protocol w p m l ≡ opened_with w p (protocol_open w p m (use_of Resource.monome l'))
unfolding open_protocol
open_protocol-loaded w p m l l' h = rw h refl

missing-is_clear : (p : Pointer) → is_owned p ≡ false → is_clear (err_init (missing p)) ≡ true
missing-is_clear p h = ground (arith, h)

pub open_protocol-Balanced_osc :
    (w : World) → IsSound w → Balanced w (open_protocol w osc none nothing_held)
unfolding protocol_open
open_protocol-Balanced_osc w h = elim (load_protocol-cases w (codes "osc")) [
  | inr (p, absent, gone) ↦
      Balanced-none w _ _ (open_protocol-absent w osc none nothing_held _ absent)
        (missing-is_clear p gone)
  | inl there ↦
      subst (Balanced w) (sym (open_protocol-loaded w osc none nothing_held _ there))
        (opened_with-Balanced_osc w h)
]
