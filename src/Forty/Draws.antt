-- ===== src/Forty/Draws.antt =====
-- What the messages of src/proto/40h.c for a LED, a row and a column show on the 8 by 8 grid of a
-- 40h.
use libmonome.Common.{ℕ, ◌+◌, ◌-◌, ◌*◌, ◌/◌, ◌%◌, ◌^◌, ◌<◌, ◌≡◌, refl, ap, ap₂, ◌∙◌, arith}
use libmonome.Common.{List, [], ◌∷◌, get_or, Bool, true, false, not, ◌==◌, if◌then◌else◌}
use libmonome.Common.{u8, ◌<<<◌, bit_or, bit_and, Bool-cases, inl, inr}
use libmonome.Common.Bits.{testbit, bit_and_ones, bit_or_fields}
use libmonome.Common.Int.{ℤ}
use libmonome.Device.{Device, Io, platform_write, rotspec_flags, get_rows, get_cols}
use libmonome.Rotation.Coords.{rotate_coords}
use libmonome.Rotation.Coords.Laws.{OnDeviceGrid, rotate_coords-OnDeviceGrid}
use libmonome.Rotation.Reverse.{reverse_byte, testbit-reverse_byte}
use libmonome.Frame.{Frame, set_led, set_row8, set_col8, view, is_on, SameOn}
use libmonome.Frame.Laws.{view-set_led}
use libmonome.Frame.Draws.{Draws, show_all}
use libmonome.Serial.{monome_write}
use libmonome.Forty.Led.{
  proto_40h_led_set, proto_40h_led_row, proto_40h_led_col, proto_40h_led_col_row,
  proto_40h_led_row_message,
}

-- What a message does to the picture, by the nybbles of its head: the device's side of the
-- protocol, as the library relies on it.
abbrev pub act : ℕ → ℕ → ℕ → Frame → Frame
act k lo a f =
    if k == 0x2
    then set_led (a / 16) (a % 16) (not (lo == 0)) f
    else if k == 0x7
    then set_row8 0 lo a f
    else if k == 0x8
    then set_col8 lo 0 a f
    else f

unfoldable pub show : List ℕ → Frame → Frame
show [] f = f
show (h ∷ body) f = act (h / 16) (h % 16) (get_or body 0 0) f

abbrev pub IsForty : Device → Type 0
IsForty d = (d.rows ≡ 8) × (d.cols ≡ 8)

pub monome_write-Draws :
    (op : Io ℤ) (d : Device) (msg : List ℕ) (want : Frame → Frame)
    → op d ≡ monome_write msg d
    → ((f : Frame) → SameOn d (view d (show msg f)) (want (view d f)))
    → Draws show op d want
unfolding monome_write platform_write show_all
monome_write-Draws op d msg want e draws = record {
  msgs = msg ∷ [];
  writes = ap (λ (r : ℤ × Device). r.1) e;
  shows = draws;
}

head_byte : (k a : ℕ) → k < 16 → u8 (bit_or (k * 2 ^ 4) (bit_and a 0x7)) ≡ k * 16 + a % 8
head_byte k a hk = ground (arith, bit_and_ones 3 a, bit_or_fields 4 k (a % 8))

show_head :
    (k a b : ℕ) (f : Frame)
    → k < 16
    → show (u8 (bit_or (k * 2 ^ 4) (bit_and a 0x7)) ∷ b ∷ []) f ≡ act k (a % 8) b f
unfolding show
show_head k a b f hk =
    ap₂ (λ s t. act s t b f) {x = h / 16} {y = k} {u = h % 16} {v = a % 8}
      (omega (arith, head_byte k a hk)) (omega (arith, head_byte k a hk))
  where
    h : ℕ
    h = u8 (bit_or (k * 2 ^ 4) (bit_and a 0x7))

point_byte : (a b : ℕ) → u8 (bit_or (bit_and a 0x7 <<< 4) (bit_and b 0x7)) ≡ a % 8 * 16 + b % 8
point_byte a b = ground (arith, bit_and_ones 3 a, bit_and_ones 3 b, bit_or_fields 4 (a % 8) (b % 8))

show_led :
    (on a b : ℕ) (f : Frame)
    → show
        ((0x20 + (if on == 0 then 0 else 1))
          ∷ u8 (bit_or (bit_and a 0x7 <<< 4) (bit_and b 0x7))
          ∷ [])
        f
      ≡ set_led (a % 8) (b % 8) (is_on on) f
unfolding show
show_led on a b f = elim (Bool-cases (on == 0)) [
  | inl off ↦ rw off (at false)
  | inr lit ↦ rw lit (at true)
]
  where
    byte : ℕ
    byte = u8 (bit_or (bit_and a 0x7 <<< 4) (bit_and b 0x7))

    at : (l : Bool) → set_led (byte / 16) (byte % 16) l f ≡ set_led (a % 8) (b % 8) l f
    at l =
        ap₂ (λ s t. set_led s t l f) {x = byte / 16} {y = a % 8} {u = byte % 16} {v = b % 8}
          (omega (arith, point_byte a b)) (omega (arith, point_byte a b))

show_row :
    (swap : Bool) (p : ℕ × ℕ) (b : ℕ) (f : Frame)
    → show
        (u8 (
            bit_or
              (if swap then ((if 0x70 == 0x70 then 1 else 0) <<< 4) + 0x70 else 0x70)
              (bit_and p.0 0x7))
          ∷ b
          ∷ [])
        f
      ≡ (if swap then set_col8 (p.0 % 8) 0 b else set_row8 0 (p.0 % 8) b) f
show_row true p b f = show_head 8 p.0 b f (omega arith)
show_row false p b f = show_head 7 p.0 b f (omega arith)

show_col :
    (swap : Bool) (p : ℕ × ℕ) (b : ℕ) (f : Frame)
    → show
        (u8 (
            bit_or
              (if swap then ((if 0x80 == 0x70 then 1 else 0) <<< 4) + 0x70 else 0x80)
              (bit_and p.1 0x7))
          ∷ b
          ∷ [])
        f
      ≡ (if swap then set_row8 0 (p.1 % 8) b else set_col8 (p.1 % 8) 0 b) f
show_col true p b f = show_head 7 p.1 b f (omega arith)
show_col false p b f = show_head 8 p.1 b f (omega arith)

abbrev byte_of : Bool → ℕ → ℕ
byte_of rev b = u8 (if rev then reverse_byte b else b)

module _ (d : Device) (grid : IsForty d) where
  -- `monome_led_set` on a 40h of 8 by 8: for a point of the user's grid, the message sent makes
  -- the user see that LED set and every other LED unchanged, in every rotation.
  pub proto_40h_led_set-Draws :
      (x y on : ℕ)
      → x < get_cols d
      → y < get_rows d
      → Draws show (proto_40h_led_set x y on) d (set_led x y (is_on on))
  unfolding proto_40h_led_set
  proto_40h_led_set-Draws x y on hx hy =
      monome_write-Draws (proto_40h_led_set x y on) d _ _ refl λ f u v hu hv.
        ap (λ (g : Frame). view d g u v)
          (show_led on p.0 p.1 f
            ∙ ap₂ (λ s t. set_led s t (is_on on) f) {x = p.0 % 8} {y = u8 p.0} {u = p.1 % 8}
                {v = u8 p.1} (omega (arith, inside)) (omega (arith, inside)))
        ∙ view-set_led d x y u v (is_on on) f (omega arith) hx hy hu hv
    where
      p : ℕ × ℕ
      p = rotate_coords d (x, y)

      inside : OnDeviceGrid d p
      inside = rotate_coords-OnDeviceGrid d (x, y) (omega arith) (hx, hy)

  turned_row :
      (y b u v : ℕ) (f : Frame)
      → b < 256
      → y < get_rows d
      → u < get_cols d
      → v < get_rows d
      → let flags = rotspec_flags d.rotation in
        let p = rotate_coords d (y, y) in
        view d
          ((if flags.row_col_swap
              then set_col8 (p.0 % 8) 0 (byte_of flags.row_revbits b)
              else set_row8 0 (p.0 % 8) (byte_of flags.row_revbits b))
            f)
          u
          v
        ≡ set_row8 0 y b (view d f) u v
  unfolding view rotate_coords get_rows get_cols
  turned_row y b u v f byte hy hu hv =
      ground (arith, testbit-reverse_byte b (7 - u % 8), ap (testbit b) (back u))
    where
      back : (a : ℕ) → 7 - (7 - a % 8) ≡ a % 8
      back a = omega arith

  turned_col :
      (x b u v : ℕ) (f : Frame)
      → b < 256
      → x < get_cols d
      → u < get_cols d
      → v < get_rows d
      → let flags = rotspec_flags d.rotation in
        let p = rotate_coords d (x, x) in
        view d
          ((if flags.row_col_swap
              then set_row8 0 (p.1 % 8) (byte_of flags.col_revbits b)
              else set_col8 (p.1 % 8) 0 (byte_of flags.col_revbits b))
            f)
          u
          v
        ≡ set_col8 x 0 b (view d f) u v
  unfolding view rotate_coords get_rows get_cols
  turned_col x b u v f byte hx hu hv =
      ground (arith, testbit-reverse_byte b (7 - v % 8), ap (testbit b) (back v))
    where
      back : (a : ℕ) → 7 - (7 - a % 8) ≡ a % 8
      back a = omega arith

  pub col_row-Draws_row :
      (y : ℕ) (bytes : List ℕ)
      → get_or bytes 0 0 < 256
      → y < get_rows d
      → Draws show
          (proto_40h_led_col_row proto_40h_led_row_message y bytes)
          d
          (set_row8 0 y (get_or bytes 0 0))
  unfolding proto_40h_led_col_row
  col_row-Draws_row y bytes byte hy =
      monome_write-Draws (proto_40h_led_col_row proto_40h_led_row_message y bytes) d _ _ refl
        λ f u v hu hv.
          ap (λ (g : Frame). view d g u v)
            (show_row (rotspec_flags d.rotation).row_col_swap (rotate_coords d (y, y)) _ f)
          ∙ turned_row y (get_or bytes 0 0) u v f byte hy hu hv

  -- `monome_led_row` on a 40h of 8 by 8: for a row of the user's grid and a byte, the message
  -- sent makes the user see the first byte in that row and the other rows unchanged, in every
  -- rotation. The offset and the count have no effect.
  pub proto_40h_led_row-Draws :
      (x_off y count : ℕ) (bytes : List ℕ)
      → get_or bytes 0 0 < 256
      → y < get_rows d
      → Draws show (proto_40h_led_row x_off y count bytes) d (set_row8 0 y (get_or bytes 0 0))
  unfolding proto_40h_led_row
  proto_40h_led_row-Draws x_off y count bytes byte hy = col_row-Draws_row y bytes byte hy

  -- `monome_led_col` on a 40h of 8 by 8: for a column of the user's grid and a byte, the message
  -- sent makes the user see the first byte in that column and the other columns unchanged, in
  -- every rotation. The offset and the count have no effect.
  pub proto_40h_led_col-Draws :
      (x y_off count : ℕ) (bytes : List ℕ)
      → get_or bytes 0 0 < 256
      → x < get_cols d
      → Draws show (proto_40h_led_col x y_off count bytes) d (set_col8 x 0 (get_or bytes 0 0))
  unfolding proto_40h_led_col proto_40h_led_col_row
  proto_40h_led_col-Draws x y_off count bytes byte hx =
      monome_write-Draws (proto_40h_led_col x y_off count bytes) d _ _ refl λ f u v hu hv.
        ap (λ (g : Frame). view d g u v)
          (show_col (rotspec_flags d.rotation).row_col_swap (rotate_coords d (x, x)) _ f)
        ∙ turned_col x (get_or bytes 0 0) u v f byte hx hu hv
