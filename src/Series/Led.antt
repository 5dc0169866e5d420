-- ===== src/Series/Led.antt =====
-- The led and tilt functions of src/proto/series.c, for a little-endian machine.
use libmonome.Common.{
  ℕ, ◌+◌, ◌*◌, ◌/◌, List, [], ◌∷◌, get_or, tabulate, bit_and, bit_or, ltb, ◌==◌, if◌then◌else◌,
}
use libmonome.Common.{u8, u32, ◌<<<◌, Bool}
use libmonome.Common.Int.{ℤ, minus_one}
use libmonome.Device.{Io, rotspec_flags, get_rows, get_cols}
use libmonome.Rotation.Coords.{rotate_coords}
use libmonome.Rotation.Map.{map_cb}
use libmonome.Rotation.Reverse.{reverse_byte}
use libmonome.Serial.{monome_write}

-- proto_series_message_t
abbrev pub proto_series_led_on : ℕ
proto_series_led_on = 0x20

abbrev pub proto_series_led_row_8 : ℕ
proto_series_led_row_8 = 0x40

abbrev pub proto_series_led_col_8 : ℕ
proto_series_led_col_8 = 0x50

abbrev pub proto_series_led_row_16 : ℕ
proto_series_led_row_16 = 0x60

abbrev pub proto_series_led_col_16 : ℕ
proto_series_led_col_16 = 0x70

abbrev pub proto_series_led_frame : ℕ
proto_series_led_frame = 0x80

abbrev pub proto_series_clear : ℕ
proto_series_clear = 0x90

abbrev pub proto_series_intensity : ℕ
proto_series_intensity = 0xA0

-- `(!(mode - row) << 4) + row`: the column message for the row message, and back.
abbrev pub swap_mode : Bool → ℕ → ℕ → ℕ
swap_mode swap row mode = if swap then ((if mode == row then 1 else 0) <<< 4) + row else mode

abbrev pub reversed : Bool → ℕ → ℕ
reversed rev b = u8 (if rev then reverse_byte b else b)

-- The address is rotated as a point of the diagonal, and one coordinate of the result is kept.
unfoldable pub proto_series_led_col_row_8 : ℕ → ℕ → List ℕ → Io ℤ
proto_series_led_col_row_8 mode address bytes d =
    let flags = rotspec_flags d.rotation in
    let p = rotate_coords d (address, address) in
    let head = λ (a : ℕ).
      u8 (bit_or (swap_mode flags.row_col_swap proto_series_led_row_8 mode) (bit_and a 0x0F)) in
    if mode == proto_series_led_row_8
    then monome_write
        (head (if flags.row_col_swap then p.0 else p.1)
          ∷ reversed flags.row_revbits (get_or bytes 0 0)
          ∷ [])
        d
    else if mode == proto_series_led_col_8
    then monome_write
        (head (if flags.row_col_swap then p.1 else p.0)
          ∷ reversed flags.col_revbits (get_or bytes 0 0)
          ∷ [])
        d
    else (minus_one, d)

-- The two bytes behind the head, in order or each reversed and swapped.
abbrev pub two_bytes : Bool → List ℕ → List ℕ
two_bytes rev bytes =
    (if rev then u8 (reverse_byte (get_or bytes 1 0)) else get_or bytes 0 0)
    ∷ (if rev then u8 (reverse_byte (get_or bytes 0 0)) else get_or bytes 1 0)
    ∷ []

unfoldable pub proto_series_led_col_row_16 : ℕ → ℕ → List ℕ → Io ℤ
proto_series_led_col_row_16 mode address bytes d =
    let flags = rotspec_flags d.rotation in
    let p = rotate_coords d (address, address) in
    let head = λ (a : ℕ).
      u8 (bit_or (swap_mode flags.row_col_swap proto_series_led_row_16 mode) (bit_and a 0x0F)) in
    if mode == proto_series_led_row_16
    then monome_write
        (head (if flags.row_col_swap then p.0 else p.1) ∷ two_bytes flags.row_revbits bytes) d
    else if mode == proto_series_led_col_16
    then monome_write
        (head (if flags.row_col_swap then p.1 else p.0) ∷ two_bytes flags.col_revbits bytes) d
    else (minus_one, d)

unfoldable pub proto_series_led_all : ℕ → Io ℤ
proto_series_led_all status = monome_write (bit_or proto_series_clear (bit_and status 0x01) ∷ [])

unfoldable pub proto_series_led_intensity : ℕ → Io ℤ
proto_series_led_intensity brightness =
    monome_write (bit_or proto_series_intensity (bit_and brightness 0x0F) ∷ [])

unfoldable pub proto_series_led_set : ℕ → ℕ → ℕ → Io ℤ
proto_series_led_set x y on d =
    let p = rotate_coords d (x, y) in
    monome_write
      ((proto_series_led_on + ((if on == 0 then 1 else 0) <<< 4))
        ∷ u8 (bit_or (u32 (p.0 <<< 4)) p.1)
        ∷ [])
      d

-- `uint16_t sdata = *data`, read as two bytes.
abbrev pub widened : List ℕ → List ℕ
widened bytes = get_or bytes 0 0 ∷ 0 ∷ []

-- The offset along the column is not used.
unfoldable pub proto_series_led_col : ℕ → ℕ → ℕ → List ℕ → Io ℤ
proto_series_led_col x y_off count bytes d =
    if ltb 8 (get_rows d)
    then proto_series_led_col_row_16 proto_series_led_col_16 x
        (if ltb 1 count then bytes else widened bytes) d
    else proto_series_led_col_row_8 proto_series_led_col_8 x bytes d

unfoldable pub proto_series_led_row : ℕ → ℕ → ℕ → List ℕ → Io ℤ
proto_series_led_row x_off y count bytes d =
    if ltb 8 (get_cols d)
    then proto_series_led_col_row_16 proto_series_led_row_16 y
        (if ltb 1 count then bytes else widened bytes) d
    else proto_series_led_col_row_8 proto_series_led_row_8 y bytes d

unfoldable pub proto_series_led_map : ℕ → ℕ → List ℕ → Io ℤ
proto_series_led_map x_off y_off bytes d =
    let p = rotate_coords d (x_off, y_off) in
    let quadrant = u32 (p.0 / 8 + u32 (p.1 / 8 * 2)) in
    monome_write
      (u8 (bit_or proto_series_led_frame (bit_and quadrant 0x03))
        ∷ map_cb d.rotation (tabulate 8 0 (λ i. get_or bytes i 0)))
      d

unfoldable pub proto_series_tilt_enable : ℕ → Io ℤ
proto_series_tilt_enable sensor = monome_write (193 ∷ [])

unfoldable pub proto_series_tilt_disable : ℕ → Io ℤ
proto_series_tilt_disable sensor = monome_write (192 ∷ [])
