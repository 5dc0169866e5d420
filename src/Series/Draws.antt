-- ===== src/Series/Draws.antt =====
-- What the messages of src/proto/series.c for a LED and for a row show.
use libmonome.Common.{ℕ, ◌+◌, ◌-◌, ◌%◌, ◌≤◌, ◌<◌, ◌≡◌, refl, ap, ap₂, ◌∙◌, arith}
use libmonome.Common.{List, [], ◌∷◌, get_or, ◌==◌, ltb, if◌then◌else◌}
use libmonome.Common.{u8, ◌<<<◌, Bool-cases, inl, inr}
use libmonome.Common.Bits.{testbit}
use libmonome.Device.{Device, rotspec_flags, get_rows, get_cols}
use libmonome.Rotation.Coords.{rotate_coords}
use libmonome.Rotation.Coords.Laws.{OnDeviceGrid, rotate_coords-OnDeviceGrid}
use libmonome.Rotation.Reverse.{reverse_byte, testbit-reverse_byte}
use libmonome.Frame.{Frame, set_led, set_row8, set_col8, view, is_on}
use libmonome.Frame.Laws.{view-set_led}
use libmonome.Frame.Draws.{Draws, Draws-as}
use libmonome.Series.Led.{
  proto_series_led_set, proto_series_led_row, proto_series_led_col_row_8,
  proto_series_led_col_row_16, proto_series_led_row_8, proto_series_led_row_16, reversed, widened,
}
use libmonome.Series.Show.{
  show, both_rows, both_cols, IsSeries, small, monome_write-Draws, asked_row, asked_both, show_led,
  point_byte, show_row8, show_row16,
}

module _ (d : Device) (grid : IsSeries d) where
  -- `monome_led_set` on a series device whose dimensions are 8 or 16: for a point of the user's
  -- grid, the message sent makes the user see that LED set and every other LED unchanged, in
  -- every rotation.
  pub proto_series_led_set-Draws :
      (x y on : ℕ)
      → x < get_cols d
      → y < get_rows d
      → Draws show (proto_series_led_set x y on) d (set_led x y (is_on on))
  unfolding proto_series_led_set
  proto_series_led_set-Draws x y on hx hy =
      monome_write-Draws (proto_series_led_set x y on) d _ _ refl λ f u v hu hv.
        ap (λ (g : Frame). view d g u v)
          (ap (λ t. show ((0x20 + ((if on == 0 then 1 else 0) <<< 4)) ∷ t ∷ []) f)
              (point_byte p.0 p.1 (omega (arith, inside)) (omega (arith, inside)))
            ∙ show_led on p.0 p.1 f (omega (arith, inside))
            ∙ ap₂ (λ s t. set_led s t (is_on on) f) (omega (arith, inside)) (omega (arith, inside)))
        ∙ view-set_led d x y u v (is_on on) f grid.0 hx hy hu hv
    where
      p : ℕ × ℕ
      p = rotate_coords d (x, y)

      inside : OnDeviceGrid d p
      inside = rotate_coords-OnDeviceGrid d (x, y) (small d grid) (hx, hy)

  turned_row_8 :
      (y b u v : ℕ) (f : Frame)
      → b < 256
      → get_cols d ≤ 8
      → y < get_rows d
      → u < get_cols d
      → v < get_rows d
      → let flags = rotspec_flags d.rotation in
        let p = rotate_coords d (y, y) in
        view d
          ((if flags.row_col_swap
              then set_col8 (p.0 % 16) 0 (reversed flags.row_revbits b)
              else set_row8 0 (p.1 % 16) (reversed flags.row_revbits b))
            f)
          u
          v
        ≡ set_row8 0 y b (view d f) u v
  unfolding view rotate_coords get_rows get_cols
  turned_row_8 y b u v f byte narrow hy hu hv =
      ground (arith, testbit-reverse_byte b (7 - u % 8), ap (testbit b) (back u))
    where
      back : (a : ℕ) → 7 - (7 - a % 8) ≡ a % 8
      back a = omega arith

  turned_row_16 :
      (y b c u v : ℕ) (f : Frame)
      → b < 256
      → c < 256
      → 8 < get_cols d
      → y < get_rows d
      → u < get_cols d
      → v < get_rows d
      → let flags = rotspec_flags d.rotation in
        let p = rotate_coords d (y, y) in
        let s = if flags.row_revbits then u8 (reverse_byte c) else b in
        let t = if flags.row_revbits then u8 (reverse_byte b) else c in
        view d
          ((if flags.row_col_swap then both_cols (p.0 % 16) s t else both_rows (p.1 % 16) s t) f)
          u
          v
        ≡ both_rows y b c (view d f) u v
  unfolding view rotate_coords get_rows get_cols
  turned_row_16 y b c u v f hb hc wide hy hu hv = ground (
    arith,
    testbit-reverse_byte b (7 - u % 8),
    testbit-reverse_byte c (7 - u % 8),
    ap (testbit b) (back u),
    ap (testbit c) (back u),
  )
    where
      back : (a : ℕ) → 7 - (7 - a % 8) ≡ a % 8
      back a = omega arith

  row_8-Draws :
      (y : ℕ) (bytes : List ℕ)
      → get_or bytes 0 0 < 256
      → get_cols d ≤ 8
      → y < get_rows d
      → Draws show
          (proto_series_led_col_row_8 proto_series_led_row_8 y bytes)
          d
          (set_row8 0 y (get_or bytes 0 0))
  unfolding proto_series_led_col_row_8
  row_8-Draws y bytes byte narrow hy =
      monome_write-Draws (proto_series_led_col_row_8 proto_series_led_row_8 y bytes) d _ _ refl
        λ f u v hu hv.
          ap (λ (g : Frame). view d g u v)
            (show_row8 (rotspec_flags d.rotation).row_col_swap (rotate_coords d (y, y)) _ f)
          ∙ turned_row_8 y (get_or bytes 0 0) u v f byte narrow hy hu hv

  row_16-Draws :
      (y : ℕ) (bytes : List ℕ)
      → get_or bytes 0 0 < 256
      → get_or bytes 1 0 < 256
      → 8 < get_cols d
      → y < get_rows d
      → Draws show
          (proto_series_led_col_row_16 proto_series_led_row_16 y bytes)
          d
          (both_rows y (get_or bytes 0 0) (get_or bytes 1 0))
  unfolding proto_series_led_col_row_16
  row_16-Draws y bytes hb hc wide hy =
      monome_write-Draws (proto_series_led_col_row_16 proto_series_led_row_16 y bytes) d _ _ refl
        λ f u v hu hv.
          ap (λ (g : Frame). view d g u v)
            (show_row16 (rotspec_flags d.rotation).row_col_swap (rotate_coords d (y, y)) _ _ f)
          ∙ turned_row_16 y (get_or bytes 0 0) (get_or bytes 1 0) u v f hb hc wide hy hu hv

  -- `monome_led_row` on a series device whose dimensions are 8 or 16: for a row of the user's
  -- grid and bytes, the message sent makes the user see the first byte in the row's LEDs 0 to 7
  -- and, on a grid 16 wide, the second byte in LEDs 8 to 15, or 0 there if only one byte is
  -- given; the other rows are unchanged, in every rotation. The offset has no effect.
  pub proto_series_led_row-Draws :
      (x_off y count : ℕ) (bytes : List ℕ)
      → get_or bytes 0 0 < 256
      → get_or bytes 1 0 < 256
      → y < get_rows d
      → Draws show (proto_series_led_row x_off y count bytes) d (asked_row d y count bytes)
  unfolding proto_series_led_row
  proto_series_led_row-Draws x_off y count bytes hb hc hy = elim (Bool-cases (ltb 8 (get_cols d))) [
    | inr narrow ↦
        Draws-as show (proto_series_led_row x_off y count bytes)
          (proto_series_led_col_row_8 proto_series_led_row_8 y bytes) d (asked_row d y count bytes)
          (set_row8 0 y (get_or bytes 0 0)) (rw narrow refl) (rw narrow refl)
          (row_8-Draws y bytes hb (ground arith) hy)
    | inl wide ↦
        Draws-as show (proto_series_led_row x_off y count bytes)
          (proto_series_led_col_row_16 proto_series_led_row_16 y sent) d (asked_row d y count bytes)
          (both_rows y (get_or sent 0 0) (get_or sent 1 0)) (rw wide refl)
          (rw wide (asked_both both_rows count y bytes))
          (row_16-Draws y sent (ground arith) (ground arith) (ground arith) hy)
  ]
    where
      sent : List ℕ
      sent = if ltb 1 count then bytes else widened bytes
