-- ===== src/Rotation/Map/Bytes.antt =====
-- The eight bytes of a map of src/rotation.c as one number.
use native.Mathlib.Nat.{pow-suc}
use libmonome.Common.{ℕ, zero, suc, ◌+◌, ◌*◌, ◌%◌, ◌^◌, ◌<◌, ◌≡◌, refl, sym, ap, ◌∙◌}
use libmonome.Common.{List, [], ◌∷◌, length, get_or, get_or-tabulate, arith, ◌>>>◌}
use libmonome.Common.Bits.{testbit, testbit-mod, testbit-shr, testbit-zero_left}
use libmonome.Device.{Rotate, rotate_0, rotate_90, rotate_180, rotate_270}
use libmonome.Rotation.Map.{load64, store64, map_cb}

abbrev pub AreBytes : List ℕ → Type 0
AreBytes [] = Unit {0}
AreBytes (b ∷ bs) = (b < 256) × AreBytes bs

pub testbit-load64 :
    (bs : List ℕ) (r c : ℕ)
    → AreBytes bs
    → c < 8
    → testbit (load64 bs) (8 * r + c) ≡ testbit (get_or bs r 0) c
unfolding load64
testbit-load64 [] r c h lt = testbit-zero_left (8 * r + c) ∙ sym (testbit-zero_left c)
testbit-load64 (b ∷ bs) zero c h lt =
    ap (testbit (b + load64 bs * 256)) (omega arith)
    ∙ sym (testbit-mod (b + load64 bs * 256) 8 c lt)
    ∙ ap (λ t. testbit t c) (omega arith)
testbit-load64 (b ∷ bs) (suc r) c h lt =
    ap (testbit (b + load64 bs * 256)) (omega arith)
    ∙ sym (testbit-shr (b + load64 bs * 256) 8 (8 * r + c))
    ∙ ap (λ t. testbit t (8 * r + c)) (omega arith)
    ∙ testbit-load64 bs r c h.1 lt

pub testbit-store64 :
    (x r c : ℕ) → r < 8 → c < 8 → testbit (get_or (store64 x) r 0) c ≡ testbit x (8 * r + c)
unfolding store64
testbit-store64 x r c hr hc =
    ap (λ t. testbit t c) (get_or-tabulate 8 0 r (λ i. x >>> (8 * i) % 256) 0 hr)
    ∙ testbit-mod (x >>> (8 * (0 + r))) 8 c hc
    ∙ testbit-shr x (8 * (0 + r)) c
    ∙ ap (testbit x) (omega arith)

pub load64-lt_pow : (bs : List ℕ) → AreBytes bs → load64 bs < 256 ^ length bs
unfolding load64
load64-lt_pow [] h = omega arith
load64-lt_pow (b ∷ bs) h = omega (arith, load64-lt_pow bs h.1, pow-suc 256 (length bs))

pub load64-lt : (bs : List ℕ) → AreBytes bs → length bs ≡ 8 → load64 bs < 2 ^ 64
load64-lt bs h e = omega (arith, load64-lt_pow bs h, ap (λ (t : ℕ). 256 ^ t) e)

-- A map callback gives eight bytes for eight.
pub length-map_cb : (rot : Rotate) (rows : List ℕ) → length rows ≡ 8 → length (map_cb rot rows) ≡ 8
unfolding map_cb
length-map_cb rotate_0 rows h = h
length-map_cb rotate_90 rows h = refl
length-map_cb rotate_180 rows h = refl
length-map_cb rotate_270 rows h = refl

pub get_or-lt : (bs : List ℕ) (i : ℕ) → AreBytes bs → get_or bs i 0 < 256
get_or-lt [] i h = omega arith
get_or-lt (b ∷ bs) zero h = h.0
get_or-lt (b ∷ bs) (suc i) h = get_or-lt bs i h.1

store64-AreBytes : (x : ℕ) → AreBytes (store64 x)
unfolding store64
store64-AreBytes x = omega arith

pub map_cb-AreBytes : (rot : Rotate) (rows : List ℕ) → AreBytes rows → AreBytes (map_cb rot rows)
unfolding map_cb
map_cb-AreBytes rotate_0 rows h = h
map_cb-AreBytes rotate_90 rows h = store64-AreBytes _
map_cb-AreBytes rotate_180 rows h = store64-AreBytes _
map_cb-AreBytes rotate_270 rows h = store64-AreBytes _
