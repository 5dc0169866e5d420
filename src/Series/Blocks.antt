-- ===== src/Series/Blocks.antt =====
-- What the messages of src/proto/series.c for a block and for the whole grid show.
use libmonome.Common.{ℕ, ◌+◌, ◌*◌, ◌/◌, ◌%◌, ◌<◌, ◌≡◌, refl, ap, ap₂, ◌∙◌, arith}
use libmonome.Common.{
  List, [], ◌∷◌, length, tabulate-get_or, get_or, ◌==◌, u8, u32, bit_or, bit_and,
}
use libmonome.Common.{◌&&◌, if◌then◌else◌}
use libmonome.Common.Bits.{testbit, bit_and_ones, bit_or_fields}
use libmonome.Device.{Device, get_rows, get_cols}
use libmonome.Rotation.Coords.{rotate_coords}
use libmonome.Rotation.Coords.Laws.{OnDeviceGrid, rotate_coords-OnDeviceGrid}
use libmonome.Rotation.Map.{map_cb}
use libmonome.Rotation.Map.Bytes.{AreBytes}
use libmonome.Frame.{Frame, set_all, set_map, view}
use libmonome.Frame.Laws.{view-set_map}
use libmonome.Frame.Draws.{Draws}
use libmonome.Serial.{monome_write}
use libmonome.Series.Led.{proto_series_led_map, proto_series_led_all}
use libmonome.Series.Show.{IsSeries, show, act, small, monome_write-Draws}

-- The block counts, not the offset inside it.
set_map-block :
    (a b a' b' : ℕ) (rows : List ℕ) (f : Frame)
    → a / 8 ≡ a' / 8
    → b / 8 ≡ b' / 8
    → set_map a b rows f ≡ set_map a' b' rows f
set_map-block a b a' b' rows f p q =
    λ i u v. if u / 8 == p i && v / 8 == q i then testbit (get_or rows (v % 8) 0) (u % 8) else f u v

frame_head : (q : ℕ) → u8 (bit_or 0x80 (bit_and q 0x03)) ≡ 0x80 + q % 4
frame_head q = ground (arith, bit_and_ones 2 q, bit_or_fields 2 32 (q % 4))

show_frame :
    (a b : ℕ) (rows : List ℕ) (f : Frame)
    → a < 16
    → b < 16
    → show (u8 (bit_or 0x80 (bit_and (u32 (a / 8 + u32 (b / 8 * 2))) 0x03)) ∷ rows) f
      ≡ set_map (u8 a) (u8 b) rows f
unfolding show
show_frame a b rows f ha hb =
    ap₂ (λ s t. act s t rows f) {x = h / 16} {y = 8} {u = h % 16} {v = a / 8 + b / 8 * 2}
      (omega (arith, frame_head q)) (omega (arith, frame_head q))
    ∙ set_map-block _ _ (u8 a) (u8 b) rows f (omega arith) (omega arith)
  where
    q : ℕ
    q = u32 (a / 8 + u32 (b / 8 * 2))

    h : ℕ
    h = u8 (bit_or 0x80 (bit_and q 0x03))

module _ (d : Device) (grid : IsSeries d) where
  -- `monome_led_map` on a series device whose dimensions are 8 or 16: for eight bytes and
  -- offsets inside the user's grid that are multiples of 8, the message sent makes the user see
  -- the eight bytes as the rows of that block of 8 by 8 LEDs and the other LEDs unchanged, in
  -- every rotation.
  pub proto_series_led_map-Draws :
      (x_off y_off : ℕ) (rows : List ℕ)
      → AreBytes rows
      → length rows ≡ 8
      → x_off % 8 ≡ 0
      → y_off % 8 ≡ 0
      → x_off < get_cols d
      → y_off < get_rows d
      → Draws show (proto_series_led_map x_off y_off rows) d (set_map x_off y_off rows)
  unfolding proto_series_led_map
  proto_series_led_map-Draws x_off y_off rows bytes eight ax ay hx hy =
      monome_write-Draws (proto_series_led_map x_off y_off rows) d _ _
        (ap (λ t. monome_write (head ∷ map_cb d.rotation t) d) (tabulate-get_or 8 rows 0 eight))
        λ f u v hu hv.
          ap (λ (g : Frame). view d g u v)
            (show_frame p.0 p.1 (map_cb d.rotation rows) f (omega (arith, inside))
              (omega (arith, inside)))
          ∙ view-set_map d x_off y_off u v rows f grid.0 bytes eight ax ay hx hy hu hv
    where
      p : ℕ × ℕ
      p = rotate_coords d (x_off, y_off)

      inside : OnDeviceGrid d p
      inside = rotate_coords-OnDeviceGrid d (x_off, y_off) (small d grid) (hx, hy)

      head : ℕ
      head = u8 (bit_or 0x80 (bit_and (u32 (p.0 / 8 + u32 (p.1 / 8 * 2))) 0x03))

-- `monome_led_all` on a series device makes the user see every LED lit if the argument is odd
-- and every LED out if it is even, so it does not go by whether the argument is 0.
pub proto_series_led_all-Draws :
    (d : Device) (status : ℕ)
    → Draws show (proto_series_led_all status) d (set_all (status % 2 == 1))
unfolding proto_series_led_all show view
proto_series_led_all-Draws d status =
    monome_write-Draws (proto_series_led_all status) d _ _ refl λ f u v hu hv.
      ap (λ (g : Frame). view d g u v)
        (ap₂ (λ s t. act s t [] f) {x = h / 16} {y = 9} {u = h % 16} {v = status % 2}
          (omega (arith, head)) (omega (arith, head)))
      ∙ ap (λ t. t == 1) {x = status % 2 % 2} {y = status % 2} (omega arith)
  where
    h : ℕ
    h = bit_or 0x90 (bit_and status 0x01)

    head : h ≡ 0x90 + status % 2
    head = ground (arith, bit_and_ones 1 status, bit_or_fields 1 72 (status % 2))
