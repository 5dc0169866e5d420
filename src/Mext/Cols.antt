-- ===== src/Mext/Cols.antt =====
-- What the messages of `mext_led_col` of src/proto/mext.c show.
use native.Mathlib.Nat.{mod-mod, mod-eq_of_lt}
use libmonome.Common.{ℕ, zero, suc, ◌+◌, ◌*◌, ◌%◌, ◌^◌, ◌≤◌, ◌<◌, ◌≡◌, refl, ap, ◌∙◌, arith}
use libmonome.Common.{
  List, [], ◌∷◌, length, Bool, true, false, if◌then◌else◌, u8, u32, Bool-cases, inl, inr,
}
use libmonome.Device.{Device, platform_write, rotspec_flags, get_rows, get_cols}
use libmonome.Rotation.Coords.{rotate_coords}
use libmonome.Rotation.Map.Bytes.{AreBytes}
use libmonome.Frame.{Frame, set_row8, set_col8, set_col, view, IsGrid}
use libmonome.Frame.Laws.{view-turned_col, turned_col, col_bits}
use libmonome.Frame.Draws.{
  Draws, Draws-write, show_all, sending, Draws-bind, Draws-pure, set_col-local,
}
use libmonome.Mext.Message.{mext_write_msg, cmd_led_column}
use libmonome.Mext.Led.{mext_led_col, mext_led_row_col, col_loop}
use libmonome.Mext.Draws.{show}

show_col_row :
    (swap : Bool) (a b c : ℕ) (f : Frame)
    → show ((if swap then 0x15 else 0x16) ∷ a ∷ b ∷ c ∷ []) f
      ≡ (if swap then set_row8 a b c else set_col8 a b c) f
unfolding show
show_col_row true a b c f = refl
show_col_row false a b c f = refl

module _ (d : Device) (grid : IsGrid d) where
  col_row_write :
      (x y bits : ℕ)
      → mext_led_row_col cmd_led_column x y bits d
        ≡ platform_write
            ((if (rotspec_flags d.rotation).row_col_swap then 0x15 else 0x16)
              ∷ u8 (rotate_coords d (x, y)).0
              ∷ u8 (rotate_coords d (x, y)).1
              ∷ u8 (u8 bits)
              ∷ [])
            d
  unfolding mext_led_row_col mext_write_msg
  col_row_write x y bits = elim (Bool-cases (rotspec_flags d.rotation).row_col_swap) [
    | inl turned ↦ rw turned refl
    | inr straight ↦ rw straight refl
  ]

  led_col8-Draws :
      (x y_off bits : ℕ)
      → bits < 256
      → y_off % 8 ≡ 0
      → x < get_cols d
      → y_off < get_rows d
      → Draws show
          (mext_led_row_col cmd_led_column x y_off (col_bits d.rotation bits))
          d
          (set_col8 x y_off bits)
  led_col8-Draws x y_off bits byte al hx hy =
      Draws-write show _ d _ _ (col_row_write x y_off (col_bits d.rotation bits)) λ f u v hu hv.
        ap (λ (g : Frame). view d g u v)
          (show_col_row (rotspec_flags d.rotation).row_col_swap _ _ _ f
            ∙ ap (λ t. turned_col d.rotation (u8 p.0) (u8 p.1) t f)
                (mod-mod (col_bits d.rotation bits) 256))
        ∙ view-turned_col d x y_off bits u v f grid byte al hx hy hu hv
    where
      p : ℕ × ℕ
      p = rotate_coords d (x, y_off)

no_wrap : (x : ℕ) → x < 2 ^ 32 → u32 x ≡ x
no_wrap x h = mod-eq_of_lt h

col_loop-Draws :
    (count : ℕ) (d : Device) (x y_off : ℕ) (bytes : List ℕ)
    → IsGrid d
    → AreBytes bytes
    → count ≤ length bytes
    → y_off % 8 ≡ 0
    → x < get_cols d
    → y_off + 8 * count ≤ get_rows d
    → Draws show
        (col_loop (col_bits d.rotation) x y_off count bytes)
        d
        (set_col x y_off count bytes)
unfolding col_loop set_col show_all get_cols get_rows
col_loop-Draws zero d x y_off bytes grid all n al hx hy = Draws-pure show tt d
col_loop-Draws (suc count) d x y_off [] grid all n al hx hy = absurd (omega arith)
col_loop-Draws (suc count) d x y_off (b ∷ bs) grid all n al hx hy =
    let first = led_col8-Draws d grid x y_off b all.0 al hx (omega arith) in
    let rest =
      col_loop-Draws count (sending d first.msgs) x (y_off + 8) bs grid all.1 (omega arith)
        (omega arith) hx (omega arith) in
    Draws-bind show (mext_led_row_col cmd_led_column x y_off (col_bits d.rotation b))
      (λ _. col_loop (col_bits d.rotation) x (u32 (y_off + 8)) count bs) d (set_col8 x y_off b)
      (set_col x (y_off + 8) count bs) first (rw (no_wrap (y_off + 8) (ground arith)) rest)
      (λ f g same u v hu hv. set_col-local x (y_off + 8) count bs f g u v (same u v hu hv))

-- `monome_led_col` on a mext device whose dimensions are multiples of 8 up to 256: for `count`
-- bytes that fit into the user's column from row `y_off`, a multiple of 8, the messages sent
-- make the user see the bytes in that column, one bit to an LED, and the other LEDs unchanged,
-- in every rotation.
pub mext_led_col-Draws :
    (d : Device) (x y_off count : ℕ) (bytes : List ℕ)
    → IsGrid d
    → AreBytes bytes
    → count ≤ length bytes
    → y_off % 8 ≡ 0
    → x < get_cols d
    → y_off + 8 * count ≤ get_rows d
    → Draws show (mext_led_col x y_off count bytes) d (set_col x y_off count bytes)
unfolding mext_led_col
mext_led_col-Draws d x y_off count bytes grid all n al hx hy =
    let drawn = col_loop-Draws count d x y_off bytes grid all n al hx hy in
    record { msgs = drawn.msgs; writes = drawn.writes; shows = drawn.shows }
