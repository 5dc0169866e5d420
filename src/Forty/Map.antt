-- ===== src/Forty/Map.antt =====
-- What `proto_40h_led_map` of src/proto/40h.c shows.
use libmonome.Common.{ℕ, zero, suc, ◌+◌, ◌/◌, ◌%◌, ◌≤◌, ◌<◌, ◌≡◌, sym, ap, ◌∙◌, arith}
use libmonome.Common.{
  List, length, get_or, drop, get_or-drop, tabulate-get_or, leb, ltb, ◌&&◌, ◌==◌, if◌then◌else◌,
}
use libmonome.Common.Bits.{testbit}
use libmonome.Common.Int.{ℤ, pos, ◌+ℤ◌}
use libmonome.Device.{Device, get_rows, get_cols}
use libmonome.Rotation.Map.{map_cb}
use libmonome.Rotation.Map.Bytes.{AreBytes, get_or-lt, map_cb-AreBytes}
use libmonome.Frame.{Frame, set_row8, set_map, view}
use libmonome.Frame.Draws.{Draws, Draws-bind, Draws-pure, sending}
use libmonome.Forty.Led.{
  proto_40h_led_col_row, proto_40h_led_row_message, proto_40h_led_map, map_loop,
}
use libmonome.Forty.Draws.{show, IsForty, col_row-Draws_row}

-- Rows of eight LEDs, set one after the other.
set_rows : List ℕ → ℕ → ℕ → Frame → Frame
set_rows buf zero i f = f
set_rows buf (suc left) i f = set_rows buf left (suc i) (set_row8 0 i (get_or buf i 0) f)

set_rows_lem :
    (buf : List ℕ) (left i : ℕ) (f : Frame) (u v : ℕ)
    → set_rows buf left i f u v ≡ (
        if leb i v && ltb v (i + left) && u / 8 == 0
        then testbit (get_or buf v 0) (u % 8)
        else f u v)
unfolding set_rows
set_rows_lem buf zero i f u v = ground arith
set_rows_lem buf (suc left) i f u v =
    set_rows_lem buf left (suc i) (set_row8 0 i (get_or buf i 0) f) u v ∙ ground arith

eight_rows : (d : Device) (i : ℕ) → IsForty d → i < 8 → i < get_rows d
unfolding get_rows
eight_rows d i grid h = ground arith

map_loop-Draws :
    (left i : ℕ) (d : Device) (buf : List ℕ) (ret : ℤ)
    → IsForty d
    → AreBytes buf
    → i + left ≤ 8
    → Draws show (map_loop buf left i ret) d (set_rows buf left i)
unfolding map_loop set_rows
map_loop-Draws zero i d buf ret grid bytes h = Draws-pure show ret d
map_loop-Draws (suc left) i d buf ret grid bytes h =
    let op = proto_40h_led_col_row proto_40h_led_row_message i (drop i buf) in
    Draws-bind show op (λ r. map_loop buf left (suc i) (ret +ℤ r)) d (set_row8 0 i (get_or buf i 0))
      (set_rows buf left (suc i)) row_i
      (map_loop-Draws left (suc i) (sending d row_i.msgs) buf (ret +ℤ (op d).0) grid bytes
        (omega arith))
      (λ f g same u v hu hv.
        set_rows_lem buf left (suc i) f u v
        ∙ ap
            (λ t.
              if leb (suc i) v && ltb v (suc i + left) && u / 8 == 0
              then testbit (get_or buf v 0) (u % 8)
              else t)
            (same u v hu hv)
        ∙ sym (set_rows_lem buf left (suc i) g u v))
  where
    front : get_or (drop i buf) 0 0 ≡ get_or buf i 0
    front = get_or-drop i buf 0 0 ∙ ap (λ k. get_or buf k 0) (omega arith)

    row_i :
        Draws show
          (proto_40h_led_col_row proto_40h_led_row_message i (drop i buf))
          d
          (set_row8 0 i (get_or buf i 0))
    row_i = rw (← front) (
        col_row-Draws_row d grid i (drop i buf) (rw front (get_or-lt buf i bytes))
          (eight_rows d i grid (omega arith)))

-- `monome_led_map` on a 40h of 8 by 8 makes the user see the eight bytes turned by the map
-- callback of the device's rotation, not the bytes that were asked for: the rows of a picture
-- that has been turned once are turned again on their way out.
pub proto_40h_led_map-Draws :
    (d : Device) (x_off y_off : ℕ) (rows : List ℕ)
    → IsForty d
    → AreBytes rows
    → length rows ≡ 8
    → Draws show (proto_40h_led_map x_off y_off rows) d (set_map 0 0 (map_cb d.rotation rows))
unfolding proto_40h_led_map get_rows get_cols
proto_40h_led_map-Draws d x_off y_off rows grid bytes eight = record {
  msgs = drawn.msgs;
  writes =
      ap (λ (t : List ℕ). (map_loop (map_cb d.rotation t) 8 0 (pos 0) d).1)
        (tabulate-get_or 8 rows 0 eight)
      ∙ drawn.writes;
  shows = λ f u v hu hv.
      drawn.shows f u v hu hv ∙ set_rows_lem buf 8 0 (view d f) u v ∙ block u v f hu hv;
}
  where
    buf : List ℕ
    buf = map_cb d.rotation rows

    drawn : Draws show (map_loop buf 8 0 (pos 0)) d (set_rows buf 8 0)
    drawn =
        map_loop-Draws 8 0 d buf (pos 0) grid (map_cb-AreBytes d.rotation rows bytes) (omega arith)

    block :
        (u v : ℕ) (f : Frame)
        → u < get_cols d
        → v < get_rows d
        → (if leb 0 v && ltb v (0 + 8) && u / 8 == 0
            then testbit (get_or buf v 0) (u % 8)
            else view d f u v)
          ≡ set_map 0 0 buf (view d f) u v
    block u v f hu hv = ground (arith, ap (λ k. get_or buf k 0) (small v hv))
      where
        small : (k : ℕ) → k < get_rows d → k ≡ k % 8
        small k hk = ground arith
