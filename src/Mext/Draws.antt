-- ===== src/Mext/Draws.antt =====
-- What the messages of src/proto/mext.c for a LED, for all of them and for a block of 8 by 8 show.

use libmonome.Common.{ℕ, ◌%◌, ◌<◌, ◌≡◌, refl, ap, ◌∙◌, arith}
use libmonome.Common.{
  List, [], ◌∷◌, length, get_or, drop, replicate, take_padded, tabulate-get_or, true, false, ◌==◌,
  if◌then◌else◌, u8, Bool-cases, inl, inr,
}
use libmonome.Device.{Device, platform_write, get_rows, get_cols}
use libmonome.Rotation.Coords.{rotate_coords}
use libmonome.Rotation.Map.{map_cb}
use libmonome.Rotation.Map.Bytes.{AreBytes, length-map_cb}
use libmonome.Frame.{Frame, set_led, set_all, set_row8, set_col8, set_map, view, is_on, IsGrid}
use libmonome.Frame.Laws.{view-set_led, view-set_map}
use libmonome.Frame.Draws.{Draws, Draws-write}
use libmonome.Mext.Message.{mext_write_msg}
use libmonome.Mext.Led.{mext_led_set, mext_led_all, mext_led_map, eight}

-- What a message about the led grid does to the picture, by its header: the device's side of the
-- protocol, as the library relies on it.
unfoldable pub show : List ℕ → Frame → Frame
show [] f = f
show (h ∷ body) f =
    let a = get_or body 0 0 in
    let b = get_or body 1 0 in
    let c = get_or body 2 0 in
    if h == 0x10
    then set_led a b false f
    else if h == 0x11
    then set_led a b true f
    else if h == 0x12
    then set_all false f
    else if h == 0x13
    then set_all true f
    else if h == 0x14
    then set_map a b (drop 2 body) f
    else if h == 0x15
    then set_row8 a b c f
    else if h == 0x16
    then set_col8 a b c f
    else f

module _ (d : Device) (grid : IsGrid d) where
  -- `monome_led_set` on a mext device whose dimensions are multiples of 8 up to 256: for a point
  -- of the user's grid, the message sent makes the user see that LED set and every other LED
  -- unchanged, in every rotation.
  pub mext_led_set-Draws :
      (x y on : ℕ)
      → x < get_cols d
      → y < get_rows d
      → Draws show (mext_led_set x y on) d (set_led x y (is_on on))
  unfolding mext_led_set mext_write_msg show
  mext_led_set-Draws x y on hx hy = elim (Bool-cases (on == 0)) [
    | inl off ↦
        Draws-write show (mext_led_set x y on) d (0x10 ∷ u8 p.0 ∷ u8 p.1 ∷ []) _ (rw off refl)
          (λ f u v hu hv. rw off (view-set_led d x y u v false f grid hx hy hu hv))
    | inr lit ↦
        Draws-write show (mext_led_set x y on) d (0x11 ∷ u8 p.0 ∷ u8 p.1 ∷ []) _ (rw lit refl)
          (λ f u v hu hv. rw lit (view-set_led d x y u v true f grid hx hy hu hv))
  ]
    where
      p : ℕ × ℕ
      p = rotate_coords d (x, y)

  -- `monome_led_all` on a mext device whose dimensions are multiples of 8 up to 256: the message
  -- sent makes the user see every LED lit if the argument is not 0, and every LED out if it is.
  pub mext_led_all-Draws :
      (status : ℕ) → Draws show (mext_led_all status) d (set_all (is_on status))
  unfolding mext_led_all mext_write_msg show view
  mext_led_all-Draws status = elim (Bool-cases (status == 0)) [
    | inl off ↦
        Draws-write show (mext_led_all status) d (0x12 ∷ []) _ (rw off refl)
          (λ f u v hu hv. rw off refl)
    | inr lit ↦
        Draws-write show (mext_led_all status) d (0x13 ∷ []) _ (rw lit refl)
          (λ f u v hu hv. rw lit refl)
  ]

  -- `monome_led_map` on a mext device whose dimensions are multiples of 8 up to 256: for eight
  -- bytes and offsets inside the user's grid that are multiples of 8, the message sent makes the
  -- user see the eight bytes as the rows of that block of 8 by 8 LEDs and the other LEDs
  -- unchanged, in every rotation.
  pub mext_led_map-Draws :
      (x_off y_off : ℕ) (rows : List ℕ)
      → AreBytes rows
      → length rows ≡ 8
      → x_off % 8 ≡ 0
      → y_off % 8 ≡ 0
      → x_off < get_cols d
      → y_off < get_rows d
      → Draws show (mext_led_map x_off y_off rows) d (set_map x_off y_off rows)
  unfolding mext_led_map mext_write_msg show
  mext_led_map-Draws x_off y_off rows bytes eight_rows ax ay hx hy =
      Draws-write show (mext_led_map x_off y_off rows) d
        (0x14 ∷ u8 p.0 ∷ u8 p.1 ∷ map_cb d.rotation rows) _
        (ap (λ t. platform_write (0x14 ∷ u8 p.0 ∷ u8 p.1 ∷ t) d)
          (take_padded 8 64 (map_cb d.rotation (eight rows)) (replicate 66 0)
              (length-map_cb d.rotation (eight rows) refl) (omega arith)
            ∙ ap (map_cb d.rotation) (tabulate-get_or 8 rows 0 eight_rows)))
        (λ f u v hu hv.
          view-set_map d x_off y_off u v rows f grid bytes eight_rows ax ay hx hy hu hv)
    where
      p : ℕ × ℕ
      p = rotate_coords d (x_off, y_off)
