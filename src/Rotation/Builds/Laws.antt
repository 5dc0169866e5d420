-- ===== src/Rotation/Builds/Laws.antt =====
-- The bit map callbacks of src/rotation.c are one function on every machine.
use libmonome.Common.{ℕ, ◌<◌, ◌≡◌, refl, sym, ◌∙◌, List, length}
use libmonome.Device.{Rotate, rotate_0, rotate_90, rotate_180, rotate_270}
use libmonome.Rotation.Map.{map_cb}
use libmonome.Rotation.Map.Bytes.{AreBytes, length-map_cb, map_cb-AreBytes}
use libmonome.Rotation.Map.Laws.{pixel, turn, pixel-map_cb}
use libmonome.Rotation.Builds.{Endian, little, big, Build, lp64, ilp32, store, both, map_cb_on}
use libmonome.Rotation.Builds.Words.{store-AreBytes, append-AreBytes, picture_ext}
use libmonome.Rotation.Builds.Long.{turn_be64}
use libmonome.Rotation.Builds.Turned.{turned_90, turned_180, turned_270}

-- The rotation of the picture, on every machine.
pixel-map_cb_on :
    (b : Build) (rot : Rotate) (rows : List ℕ) (r c : ℕ)
    → AreBytes rows
    → length rows ≡ 8
    → r < 8
    → c < 8
    → pixel (map_cb_on b rot rows) r c ≡ pixel rows (turn rot r c).0 (turn rot r c).1
unfolding map_cb_on
pixel-map_cb_on (lp64 little) rot rows r c h eight hr hc = pixel-map_cb rot rows r c h eight hr hc
pixel-map_cb_on (lp64 big) rot rows r c h eight hr hc = turn_be64 rot rows r c h eight hr hc
pixel-map_cb_on (ilp32 e) rotate_0 rows r c h eight hr hc = refl
pixel-map_cb_on (ilp32 e) rotate_90 rows r c h eight hr hc = turned_90 e rows r c h hr hc
pixel-map_cb_on (ilp32 e) rotate_180 rows r c h eight hr hc = turned_180 e rows r c h eight hr hc
pixel-map_cb_on (ilp32 e) rotate_270 rows r c h eight hr hc = turned_270 e rows r c h hr hc

both-AreBytes : (e : Endian) (x y : ℕ) → AreBytes (both e x y)
both-AreBytes e x y =
    append-AreBytes (store e 4 x) (store e 4 y) (store-AreBytes e 4 x) (store-AreBytes e 4 y)

map_cb_on-AreBytes :
    (b : Build) (rot : Rotate) (rows : List ℕ) → AreBytes rows → AreBytes (map_cb_on b rot rows)
unfolding map_cb_on
map_cb_on-AreBytes (lp64 little) rot rows h = map_cb-AreBytes rot rows h
map_cb_on-AreBytes (lp64 big) rotate_0 rows h = h
map_cb_on-AreBytes (lp64 big) rotate_90 rows h = store-AreBytes big 8 _
map_cb_on-AreBytes (lp64 big) rotate_180 rows h = store-AreBytes big 8 _
map_cb_on-AreBytes (lp64 big) rotate_270 rows h = store-AreBytes big 8 _
map_cb_on-AreBytes (ilp32 e) rotate_0 rows h = h
map_cb_on-AreBytes (ilp32 e) rotate_90 rows h = both-AreBytes e _ _
map_cb_on-AreBytes (ilp32 e) rotate_180 rows h = both-AreBytes e _ _
map_cb_on-AreBytes (ilp32 e) rotate_270 rows h = both-AreBytes e _ _

length-both : (e : Endian) (x y : ℕ) → length (both e x y) ≡ 8
unfolding store
length-both little x y = refl
length-both big x y = refl

length-map_cb_on :
    (b : Build) (rot : Rotate) (rows : List ℕ) → length rows ≡ 8 → length (map_cb_on b rot rows) ≡ 8
unfolding map_cb_on
length-map_cb_on (lp64 little) rot rows h = length-map_cb rot rows h
length-map_cb_on (lp64 big) rotate_0 rows h = h
length-map_cb_on (lp64 big) rotate_90 rows h = refl
length-map_cb_on (lp64 big) rotate_180 rows h = refl
length-map_cb_on (lp64 big) rotate_270 rows h = refl
length-map_cb_on (ilp32 e) rotate_0 rows h = h
length-map_cb_on (ilp32 e) rotate_90 rows h = length-both e _ _
length-map_cb_on (ilp32 e) rotate_180 rows h = length-both e _ _
length-map_cb_on (ilp32 e) rotate_270 rows h = length-both e _ _

-- The bit map callbacks written for 32-bit words of either byte order and for a big-endian
-- 64-bit machine give the eight bytes that those for a little-endian 64-bit machine give, for
-- every eight bytes and each rotation.
pub map_cb_on-eq-map_cb :
    (b : Build) (rot : Rotate) (rows : List ℕ)
    → AreBytes rows
    → length rows ≡ 8
    → map_cb_on b rot rows ≡ map_cb rot rows
map_cb_on-eq-map_cb b rot rows h eight =
    picture_ext (map_cb_on b rot rows) (map_cb rot rows) (map_cb_on-AreBytes b rot rows h)
      (map_cb-AreBytes rot rows h) (length-map_cb_on b rot rows eight)
      (length-map_cb rot rows eight)
      (λ r c hr hc.
        pixel-map_cb_on b rot rows r c h eight hr hc
        ∙ sym (pixel-map_cb rot rows r c h eight hr hc))
