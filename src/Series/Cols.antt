-- ===== src/Series/Cols.antt =====
-- What the messages of src/proto/series.c for a column show.
use libmonome.Common.{ℕ, ◌-◌, ◌%◌, ◌≤◌, ◌<◌, ◌≡◌, refl, ap, ◌∙◌, arith}
use libmonome.Common.{List, get_or, ltb, if◌then◌else◌}
use libmonome.Common.{u8, Bool-cases, inl, inr}
use libmonome.Common.Bits.{testbit}
use libmonome.Device.{Device, rotspec_flags, get_rows, get_cols}
use libmonome.Rotation.Coords.{rotate_coords}
use libmonome.Rotation.Reverse.{reverse_byte, testbit-reverse_byte}
use libmonome.Frame.{Frame, set_row8, set_col8, view}
use libmonome.Frame.Draws.{Draws, Draws-as}
use libmonome.Series.Led.{
  proto_series_led_col, proto_series_led_col_row_8, proto_series_led_col_row_16,
  proto_series_led_col_8, proto_series_led_col_16, reversed, widened,
}
use libmonome.Series.Show.{
  show, both_rows, both_cols, IsSeries, monome_write-Draws, asked_col, asked_both, show_col8,
  show_col16,
}

module _ (d : Device) (grid : IsSeries d) where
  turned_col_8 :
      (x b u v : ℕ) (f : Frame)
      → b < 256
      → get_rows d ≤ 8
      → x < get_cols d
      → u < get_cols d
      → v < get_rows d
      → let flags = rotspec_flags d.rotation in
        let p = rotate_coords d (x, x) in
        view d
          ((if flags.row_col_swap
              then set_row8 0 (p.1 % 16) (reversed flags.col_revbits b)
              else set_col8 (p.0 % 16) 0 (reversed flags.col_revbits b))
            f)
          u
          v
        ≡ set_col8 x 0 b (view d f) u v
  unfolding view rotate_coords get_rows get_cols
  turned_col_8 x b u v f byte narrow hx hu hv =
      ground (arith, testbit-reverse_byte b (7 - v % 8), ap (testbit b) (back v))
    where
      back : (a : ℕ) → 7 - (7 - a % 8) ≡ a % 8
      back a = omega arith

  turned_col_16 :
      (x b c u v : ℕ) (f : Frame)
      → b < 256
      → c < 256
      → 8 < get_rows d
      → x < get_cols d
      → u < get_cols d
      → v < get_rows d
      → let flags = rotspec_flags d.rotation in
        let p = rotate_coords d (x, x) in
        let s = if flags.col_revbits then u8 (reverse_byte c) else b in
        let t = if flags.col_revbits then u8 (reverse_byte b) else c in
        view d
          ((if flags.row_col_swap then both_rows (p.1 % 16) s t else both_cols (p.0 % 16) s t) f)
          u
          v
        ≡ both_cols x b c (view d f) u v
  unfolding view rotate_coords get_rows get_cols
  turned_col_16 x b c u v f hb hc wide hx hu hv = ground (
    arith,
    testbit-reverse_byte b (7 - v % 8),
    testbit-reverse_byte c (7 - v % 8),
    ap (testbit b) (back v),
    ap (testbit c) (back v),
  )
    where
      back : (a : ℕ) → 7 - (7 - a % 8) ≡ a % 8
      back a = omega arith

  col_8-Draws :
      (x : ℕ) (bytes : List ℕ)
      → get_or bytes 0 0 < 256
      → get_rows d ≤ 8
      → x < get_cols d
      → Draws show
          (proto_series_led_col_row_8 proto_series_led_col_8 x bytes)
          d
          (set_col8 x 0 (get_or bytes 0 0))
  unfolding proto_series_led_col_row_8
  col_8-Draws x bytes byte narrow hx =
      monome_write-Draws (proto_series_led_col_row_8 proto_series_led_col_8 x bytes) d _ _ refl
        λ f u v hu hv.
          ap (λ (g : Frame). view d g u v)
            (show_col8 (rotspec_flags d.rotation).row_col_swap (rotate_coords d (x, x)) _ f)
          ∙ turned_col_8 x (get_or bytes 0 0) u v f byte narrow hx hu hv

  col_16-Draws :
      (x : ℕ) (bytes : List ℕ)
      → get_or bytes 0 0 < 256
      → get_or bytes 1 0 < 256
      → 8 < get_rows d
      → x < get_cols d
      → Draws show
          (proto_series_led_col_row_16 proto_series_led_col_16 x bytes)
          d
          (both_cols x (get_or bytes 0 0) (get_or bytes 1 0))
  unfolding proto_series_led_col_row_16
  col_16-Draws x bytes hb hc wide hx =
      monome_write-Draws (proto_series_led_col_row_16 proto_series_led_col_16 x bytes) d _ _ refl
        λ f u v hu hv.
          ap (λ (g : Frame). view d g u v)
            (show_col16 (rotspec_flags d.rotation).row_col_swap (rotate_coords d (x, x)) _ _ f)
          ∙ turned_col_16 x (get_or bytes 0 0) (get_or bytes 1 0) u v f hb hc wide hx hu hv

  -- `monome_led_col` on a series device whose dimensions are 8 or 16: for a column of the user's
  -- grid and bytes, the message sent makes the user see the first byte in the column's LEDs 0 to
  -- 7 and, on a grid 16 high, the second byte in LEDs 8 to 15, or 0 there if only one byte is
  -- given; the other columns are unchanged, in every rotation. The offset has no effect.
  pub proto_series_led_col-Draws :
      (x y_off count : ℕ) (bytes : List ℕ)
      → get_or bytes 0 0 < 256
      → get_or bytes 1 0 < 256
      → x < get_cols d
      → Draws show (proto_series_led_col x y_off count bytes) d (asked_col d x count bytes)
  unfolding proto_series_led_col
  proto_series_led_col-Draws x y_off count bytes hb hc hx = elim (Bool-cases (ltb 8 (get_rows d))) [
    | inr narrow ↦
        Draws-as show (proto_series_led_col x y_off count bytes)
          (proto_series_led_col_row_8 proto_series_led_col_8 x bytes) d (asked_col d x count bytes)
          (set_col8 x 0 (get_or bytes 0 0)) (rw narrow refl) (rw narrow refl)
          (col_8-Draws x bytes hb (ground arith) hx)
    | inl wide ↦
        Draws-as show (proto_series_led_col x y_off count bytes)
          (proto_series_led_col_row_16 proto_series_led_col_16 x sent) d (asked_col d x count bytes)
          (both_cols x (get_or sent 0 0) (get_or sent 1 0)) (rw wide refl)
          (rw wide (asked_both both_cols count x bytes))
          (col_16-Draws x sent (ground arith) (ground arith) (ground arith) hx)
  ]
    where
      sent : List ℕ
      sent = if ltb 1 count then bytes else widened bytes
