-- ===== src/Mext/Rows.antt =====
-- What the messages of `mext_led_row` of src/proto/mext.c show.
use native.Mathlib.Nat.{mod-mod, mod-eq_of_lt}
use libmonome.Common.{ℕ, zero, suc, ◌+◌, ◌*◌, ◌%◌, ◌^◌, ◌≤◌, ◌<◌, ◌≡◌, refl, ap, ◌∙◌, arith}
use libmonome.Common.{
  List, [], ◌∷◌, length, Bool, true, false, if◌then◌else◌, u8, u32, Bool-cases, inl, inr,
}
use libmonome.Device.{Device, platform_write, rotspec_flags, get_rows, get_cols}
use libmonome.Rotation.Coords.{rotate_coords}
use libmonome.Rotation.Map.Bytes.{AreBytes}
use libmonome.Frame.{Frame, set_row8, set_col8, set_row, view, IsGrid}
use libmonome.Frame.Laws.{view-turned_row, turned_row, row_bits}
use libmonome.Frame.Draws.{
  Draws, Draws-write, show_all, sending, Draws-bind, Draws-pure, set_row-local,
}
use libmonome.Mext.Message.{mext_write_msg, cmd_led_row}
use libmonome.Mext.Led.{mext_led_row, mext_led_row_col, row_loop}
use libmonome.Mext.Draws.{show}

show_row_col :
    (swap : Bool) (a b c : ℕ) (f : Frame)
    → show ((if swap then 0x16 else 0x15) ∷ a ∷ b ∷ c ∷ []) f
      ≡ (if swap then set_col8 a b c else set_row8 a b c) f
unfolding show
show_row_col true a b c f = refl
show_row_col false a b c f = refl

module _ (d : Device) (grid : IsGrid d) where
  -- The message of one byte of a row: a row message, or a column message if the grid is turned.
  row_col_write :
      (x y bits : ℕ)
      → mext_led_row_col cmd_led_row x y bits d
        ≡ platform_write
            ((if (rotspec_flags d.rotation).row_col_swap then 0x16 else 0x15)
              ∷ u8 (rotate_coords d (x, y)).0
              ∷ u8 (rotate_coords d (x, y)).1
              ∷ u8 (u8 bits)
              ∷ [])
            d
  unfolding mext_led_row_col mext_write_msg
  row_col_write x y bits = elim (Bool-cases (rotspec_flags d.rotation).row_col_swap) [
    | inl turned ↦ rw turned refl
    | inr straight ↦ rw straight refl
  ]

  led_row8-Draws :
      (x_off y bits : ℕ)
      → bits < 256
      → x_off % 8 ≡ 0
      → x_off < get_cols d
      → y < get_rows d
      → Draws show
          (mext_led_row_col cmd_led_row x_off y (row_bits d.rotation bits))
          d
          (set_row8 x_off y bits)
  led_row8-Draws x_off y bits byte al hx hy =
      Draws-write show _ d _ _ (row_col_write x_off y (row_bits d.rotation bits)) λ f u v hu hv.
        ap (λ (g : Frame). view d g u v)
          (show_row_col (rotspec_flags d.rotation).row_col_swap _ _ _ f
            ∙ ap (λ t. turned_row d.rotation (u8 p.0) (u8 p.1) t f)
                (mod-mod (row_bits d.rotation bits) 256))
        ∙ view-turned_row d x_off y bits u v f grid byte al hx hy hu hv
    where
      p : ℕ × ℕ
      p = rotate_coords d (x_off, y)

no_wrap : (x : ℕ) → x < 2 ^ 32 → u32 x ≡ x
no_wrap x h = mod-eq_of_lt h

row_loop-Draws :
    (count : ℕ) (d : Device) (x_off y : ℕ) (bytes : List ℕ)
    → IsGrid d
    → AreBytes bytes
    → count ≤ length bytes
    → x_off % 8 ≡ 0
    → x_off + 8 * count ≤ get_cols d
    → y < get_rows d
    → Draws show
        (row_loop (row_bits d.rotation) x_off y count bytes)
        d
        (set_row x_off y count bytes)
unfolding row_loop set_row show_all get_cols get_rows
row_loop-Draws zero d x_off y bytes grid all n al hx hy = Draws-pure show tt d
row_loop-Draws (suc count) d x_off y [] grid all n al hx hy = absurd (omega arith)
row_loop-Draws (suc count) d x_off y (b ∷ bs) grid all n al hx hy =
    let first = led_row8-Draws d grid x_off y b all.0 al (omega arith) hy in
    let rest =
      row_loop-Draws count (sending d first.msgs) (x_off + 8) y bs grid all.1 (omega arith)
        (omega arith) (omega arith) hy in
    Draws-bind show (mext_led_row_col cmd_led_row x_off y (row_bits d.rotation b))
      (λ _. row_loop (row_bits d.rotation) (u32 (x_off + 8)) y count bs) d (set_row8 x_off y b)
      (set_row (x_off + 8) y count bs) first (rw (no_wrap (x_off + 8) (ground arith)) rest)
      (λ f g same u v hu hv. set_row-local (x_off + 8) y count bs f g u v (same u v hu hv))

-- `monome_led_row` on a mext device whose dimensions are multiples of 8 up to 256: for `count`
-- bytes that fit into the user's row from column `x_off`, a multiple of 8, the messages sent
-- make the user see the bytes in that row, one bit to an LED, and the other LEDs unchanged, in
-- every rotation.
pub mext_led_row-Draws :
    (d : Device) (x_off y count : ℕ) (bytes : List ℕ)
    → IsGrid d
    → AreBytes bytes
    → count ≤ length bytes
    → x_off % 8 ≡ 0
    → x_off + 8 * count ≤ get_cols d
    → y < get_rows d
    → Draws show (mext_led_row x_off y count bytes) d (set_row x_off y count bytes)
unfolding mext_led_row
mext_led_row-Draws d x_off y count bytes grid all n al hx hy =
    let drawn = row_loop-Draws count d x_off y bytes grid all n al hx hy in
    record { msgs = drawn.msgs; writes = drawn.writes; shows = drawn.shows }
