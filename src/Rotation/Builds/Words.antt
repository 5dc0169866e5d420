-- ===== src/Rotation/Builds/Words.antt =====
-- The words of src/rotation.c in memory, for either order of the bytes.
use libmonome.Common.{
  get_or-take, ℕ, zero, suc, ◌+◌, ◌-◌, ◌*◌, ◌%◌, ◌^◌, ◌≤◌, ◌<◌, ◌≡◌, refl, sym, ap, subst,
  length-tabulate, ◌∙◌, arith, List, [], ◌∷◌, ◌++◌, length, get_or, get_or_ext, take, drop,
  tabulate, get_or-tabulate, ◌>>>◌,
}
use libmonome.Common.Bits.{testbit, testbit-mod, testbit-shr, testbit_ext}
use libmonome.Rotation.Map.{load64}
use libmonome.Rotation.Map.Bytes.{AreBytes, testbit-load64, get_or-lt, load64-lt_pow}
use libmonome.Rotation.Map.Laws.{pixel}
use libmonome.Rotation.Builds.{Endian, little, big, load, store}

-- The byte of a word of `n` that holds the digits from `8 * k` on.
abbrev pub byte_at : Endian → ℕ → ℕ → ℕ
byte_at little n k = k
byte_at big n k = n - 1 - k

pub take-AreBytes : (n : ℕ) (bs : List ℕ) → AreBytes bs → AreBytes (take n bs)
take-AreBytes zero bs h = tt
take-AreBytes (suc n) [] h = tt
take-AreBytes (suc n) (b ∷ bs) h = (h.0, take-AreBytes n bs h.1)

pub drop-AreBytes : (n : ℕ) (bs : List ℕ) → AreBytes bs → AreBytes (drop n bs)
drop-AreBytes zero bs h = h
drop-AreBytes (suc n) [] h = tt
drop-AreBytes (suc n) (b ∷ bs) h = drop-AreBytes n bs h.1

tabulate-AreBytes : (n lo : ℕ) (f : ℕ → ℕ) → ((i : ℕ) → f i < 256) → AreBytes (tabulate n lo f)
tabulate-AreBytes zero lo f h = tt
tabulate-AreBytes (suc n) lo f h = (h lo, tabulate-AreBytes n (suc lo) f h)

-- A loaded word has the digits of its bytes.
pub testbit-load :
    (e : Endian) (n : ℕ) (bs : List ℕ) (k c : ℕ)
    → AreBytes bs
    → k < n
    → c < 8
    → testbit (load e n bs) (8 * k + c) ≡ pixel bs (byte_at e n k) c
unfolding load
testbit-load little n bs k c h hk hc =
    testbit-load64 (take n bs) k c (take-AreBytes n bs h) hc
    ∙ ap (λ t. testbit t c) (get_or-take n bs k 0 hk)
testbit-load big n bs k c h hk hc =
    testbit-load64 (tabulate n 0 (λ i. get_or bs (n - 1 - i) 0)) k c
      (tabulate-AreBytes n 0 (λ i. get_or bs (n - 1 - i) 0) (λ i. get_or-lt bs (n - 1 - i) h)) hc
    ∙ ap (λ t. testbit t c) (get_or-tabulate n 0 k (λ i. get_or bs (n - 1 - i) 0) 0 hk)
    ∙ ap (λ i. testbit (get_or bs (n - 1 - i) 0) c) (omega arith)

length-take : (n : ℕ) (bs : List ℕ) → n ≤ length bs → length (take n bs) ≡ n
length-take zero bs h = refl
length-take (suc n) [] h = absurd (omega arith)
length-take (suc n) (b ∷ bs) h = ap suc (length-take n bs (omega arith))

-- A loaded word is in range.
pub load-lt :
    (e : Endian) (n : ℕ) (bs : List ℕ) → AreBytes bs → n ≤ length bs → load e n bs < 256 ^ n
unfolding load
load-lt little n bs h le =
    subst (λ k. load64 (take n bs) < 256 ^ k) (length-take n bs le)
      (load64-lt_pow (take n bs) (take-AreBytes n bs h))
load-lt big n bs h le =
    subst (λ k. load64 (tabulate n 0 (λ i. get_or bs (n - 1 - i) 0)) < 256 ^ k)
      (length-tabulate n 0 (λ i. get_or bs (n - 1 - i) 0))
      (load64-lt_pow (tabulate n 0 (λ i. get_or bs (n - 1 - i) 0))
        (tabulate-AreBytes n 0 (λ i. get_or bs (n - 1 - i) 0) (λ i. get_or-lt bs (n - 1 - i) h)))

-- A stored word shows its digits in its bytes.
pub testbit-store :
    (e : Endian) (n x r c : ℕ)
    → r < n
    → c < 8
    → pixel (store e n x) r c ≡ testbit x (8 * byte_at e n r + c)
unfolding store
testbit-store little n x r c hr hc =
    ap (λ t. testbit t c) (get_or-tabulate n 0 r (λ i. x >>> (8 * i) % 256) 0 hr)
    ∙ testbit-mod (x >>> (8 * (0 + r))) 8 c hc
    ∙ testbit-shr x (8 * (0 + r)) c
    ∙ ap (testbit x) (omega arith)
testbit-store big n x r c hr hc =
    ap (λ t. testbit t c) (get_or-tabulate n 0 r (λ i. x >>> (8 * (n - 1 - i)) % 256) 0 hr)
    ∙ testbit-mod (x >>> (8 * (n - 1 - (0 + r)))) 8 c hc
    ∙ testbit-shr x (8 * (n - 1 - (0 + r))) c
    ∙ ap (testbit x) (ground arith)

pub store-AreBytes : (e : Endian) (n x : ℕ) → AreBytes (store e n x)
unfolding store
store-AreBytes little n x = tabulate-AreBytes n 0 (λ i. x >>> (8 * i) % 256) (λ i. omega arith)
store-AreBytes big n x =
    tabulate-AreBytes n 0 (λ i. x >>> (8 * (n - 1 - i)) % 256) (λ i. omega arith)

pub append-AreBytes : (as' bs : List ℕ) → AreBytes as' → AreBytes bs → AreBytes (as' ++ bs)
append-AreBytes [] bs ha hb = hb
append-AreBytes (a ∷ as') bs ha hb = (ha.0, append-AreBytes as' bs ha.1 hb)

-- Maps of eight bytes that show the same picture are equal.
pub picture_ext :
    (xs ys : List ℕ)
    → AreBytes xs
    → AreBytes ys
    → length xs ≡ 8
    → length ys ≡ 8
    → ((r c : ℕ) → r < 8 → c < 8 → pixel xs r c ≡ pixel ys r c)
    → xs ≡ ys
picture_ext xs ys hx hy nx ny same = get_or_ext 0 xs ys (nx ∙ sym ny) λ r hr.
    testbit_ext 8 (get_or xs r 0) (get_or ys r 0) (get_or-lt xs r hx) (get_or-lt ys r hy)
      (λ c hc. same r c (omega (arith, nx)) hc)
