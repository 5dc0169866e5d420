-- ===== src/Forty/Led.antt =====
-- The led and tilt functions of src/proto/40h.c.
use libmonome.Common.{
  ℕ, zero, suc, ◌+◌, List, [], ◌∷◌, get_or, drop, tabulate, bit_and, bit_or, ◌==◌, if◌then◌else◌,
}
use libmonome.Common.{u8, u32, ◌<<<◌, Bool}
use libmonome.Common.Int.{ℤ, pos, minus_one, ◌+ℤ◌}
use libmonome.Device.{Io, pure, ◌>>=◌, ◌>>◌, rotspec_flags}
use libmonome.Rotation.Coords.{rotate_coords}
use libmonome.Rotation.Map.{map_cb}
use libmonome.Rotation.Reverse.{reverse_byte}
use libmonome.Serial.{monome_write}

-- proto_40h_message_t
abbrev pub proto_40h_led_off : ℕ
proto_40h_led_off = 0x20

abbrev pub proto_40h_intensity_message : ℕ
proto_40h_intensity_message = 0x30

abbrev pub proto_40h_adc_enable : ℕ
proto_40h_adc_enable = 0x50

abbrev pub proto_40h_led_row_message : ℕ
proto_40h_led_row_message = 0x70

abbrev pub proto_40h_led_col_message : ℕ
proto_40h_led_col_message = 0x80

-- A row message keeps the first coordinate of the rotated diagonal point, a column message the
-- second.
unfoldable pub proto_40h_led_col_row : ℕ → ℕ → List ℕ → Io ℤ
proto_40h_led_col_row mode address bytes d =
    let flags = rotspec_flags d.rotation in
    let p = rotate_coords d (address, address) in
    let mode' =
      if flags.row_col_swap
      then ((if mode == proto_40h_led_row_message then 1 else 0) <<< 4) + proto_40h_led_row_message
      else mode in
    let byte =
      λ (rev : Bool). u8 (if rev then reverse_byte (get_or bytes 0 0) else get_or bytes 0 0) in
    if mode == proto_40h_led_row_message
    then monome_write (u8 (bit_or mode' (bit_and p.0 0x7)) ∷ byte flags.row_revbits ∷ []) d
    else if mode == proto_40h_led_col_message
    then monome_write (u8 (bit_or mode' (bit_and p.1 0x7)) ∷ byte flags.col_revbits ∷ []) d
    else (minus_one, d)

-- The loop of `proto_40h_led_all` at row `i`, with `left` rounds to go.
unfoldable pub all_loop : ℕ → ℕ → ℕ → Io (Unit {0})
all_loop byte zero i = pure tt
all_loop byte (suc left) i = do
  monome_write (bit_or proto_40h_led_row_message (bit_and i 0xF) ∷ byte ∷ [])
  all_loop byte left (suc i)

unfoldable pub proto_40h_led_all : ℕ → Io ℤ
unfolding all_loop
proto_40h_led_all status d = (pos 16, (all_loop (if status == 0 then 0 else 0xFF) 8 0 d).1)

unfoldable pub proto_40h_intensity : ℕ → Io ℤ
proto_40h_intensity brightness = monome_write (proto_40h_intensity_message ∷ u8 brightness ∷ [])

unfoldable pub proto_40h_led_set : ℕ → ℕ → ℕ → Io ℤ
proto_40h_led_set x y on d =
    let p = rotate_coords d (x, y) in
    monome_write
      ((proto_40h_led_off + (if on == 0 then 0 else 1))
        ∷ u8 (bit_or (bit_and p.0 0x7 <<< 4) (bit_and p.1 0x7))
        ∷ [])
      d

unfoldable pub proto_40h_led_col : ℕ → ℕ → ℕ → List ℕ → Io ℤ
proto_40h_led_col x y_off count bytes = proto_40h_led_col_row proto_40h_led_col_message x bytes

unfoldable pub proto_40h_led_row : ℕ → ℕ → ℕ → List ℕ → Io ℤ
proto_40h_led_row x_off y count bytes = proto_40h_led_col_row proto_40h_led_row_message y bytes

-- The loop of `proto_40h_led_map` at row `i`; `ret` adds up the answers.
unfoldable pub map_loop : List ℕ → ℕ → ℕ → ℤ → Io ℤ
map_loop buf zero i ret = pure ret
map_loop buf (suc left) i ret = do
  r ← proto_40h_led_col_row proto_40h_led_row_message i (drop i buf)
  map_loop buf left (suc i) (ret +ℤ r)

unfoldable pub proto_40h_led_map : ℕ → ℕ → List ℕ → Io ℤ
unfolding map_loop
proto_40h_led_map x_off y_off bytes d =
    map_loop (map_cb d.rotation (tabulate 8 0 (λ i. get_or bytes i 0))) 8 0 (pos 0) d

unfoldable pub proto_40h_tilt_enable : ℕ → Io ℤ
proto_40h_tilt_enable sensor =
    monome_write (proto_40h_adc_enable ∷ u8 (u32 (u32 (sensor <<< 4) + 1)) ∷ [])

unfoldable pub proto_40h_tilt_disable : ℕ → Io ℤ
proto_40h_tilt_disable sensor =
    monome_write (proto_40h_adc_enable ∷ u8 (u32 (u32 (sensor <<< 4) + 0)) ∷ [])
