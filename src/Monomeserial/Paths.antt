-- ===== src/Monomeserial/Paths.antt =====
-- The OSC paths of src/monomeserial.c, and what the messages to them draw.
use libmonome.Common.{
  ℕ, ◌+◌, ◌*◌, ◌≤◌, ◌<◌, ◌≡◌, refl, List, [], ◌∷◌, ◌++◌, map, true, false, arith, some, length,
  replicate, ◌⊎◌,
}
use libmonome.Common.Int.{ℤ, pos}
use libmonome.Device.{Device, get_rows, get_cols}
use libmonome.Rotation.Map.Bytes.{AreBytes}
use libmonome.Frame.{IsGrid, is_on, set_led, set_all, set_map, set_row, set_col}
use libmonome.Liblo.{starts_with, strstr, Text, codes, uint32}
use libmonome.Core.Dispatch.{Capabilities, monome_led_col}
use libmonome.Monomeserial.{
  led_handler, led_all_handler, led_col_row_handler, led_map_handler, uint8, handler_function,
}
use libmonome.Monomeserial.Draws.{
  HandlerDraws, led_handler-HandlerDraws, led_all_handler-HandlerDraws,
  led_all_handler-HandlerDraws_none, led_map_handler-HandlerDraws, led_map_handler-HandlerDraws_at,
  led_col_row_handler-HandlerDraws_row, led_col_row_handler-HandlerDraws_col,
}

-- "/%s/…"
abbrev pub at : Text → Text → Text
at prefix name = codes "/" ++ (prefix ++ name)

starts_with-append : (n a b : Text) → starts_with n a ≡ true → starts_with n (a ++ b) ≡ true
starts_with-append [] a b h = refl
starts_with-append (c ∷ n) [] b h = cc
starts_with-append (c ∷ n) (d ∷ a) b h = ground (arith, starts_with-append n a b)

strstr-append : (n a b : Text) → strstr a n ≡ true → strstr (a ++ b) n ≡ true
unfolding strstr
strstr-append [] [] [] h = refl
strstr-append [] [] (c ∷ b) h = refl
strstr-append (c ∷ n) [] b h = cc
strstr-append n (d ∷ a) b h = ground (arith, starts_with-append n (d ∷ a) b, strstr-append n a b)

strstr-append_left : (n p b : Text) → strstr b n ≡ true → strstr (p ++ b) n ≡ true
unfolding strstr
strstr-append_left n [] b h = h
strstr-append_left n (d ∷ p) b h = ground (arith, strstr-append_left n p b h)

strstr_col : (prefix : Text) → strstr (at prefix (codes "/led_col")) (codes "led_col") ≡ true
unfolding strstr
strstr_col prefix =
    ground (arith, strstr-append_left (codes "led_col") prefix (codes "/led_col") refl)

-- The handlers of monomeserial, called with messages below the prefix, make the user of a mext
-- grid see what the messages ask for, in every rotation: /led at coordinates of the grid below
-- 16, with 0 or 1; /clear; /frame with a block of eight bytes, at the origin or at offsets
-- inside the grid that are multiples of 8; /led_row and /led_col with one or two bytes that the
-- grid has room for. The path of /led_row does not hold the text led_col.
pub handler_function-HandlerDraws :
    (d : Device) (prefix : Text) (x y on a b : ℕ) (block line : List ℕ)
    → IsGrid d
    → (x < get_cols d) × (y < get_rows d)
    → (8 * a < get_cols d) × (8 * b < get_rows d)
    → (x < 16) × (y < 16) × (on < 2)
    → AreBytes block × (length block ≡ 8)
    → AreBytes line × ((length line ≡ 1) ⊎ (length line ≡ 2))
    → (8 * length line ≤ get_cols d) × (8 * length line ≤ get_rows d)
    → strstr (at prefix (codes "/led_row")) (codes "led_col") ≡ false
    → let led = codes "iii" in
      let clear = at prefix (codes "/clear") in
      let frame = at prefix (codes "/frame") in
      HandlerDraws led_handler
        (at prefix (codes "/led"))
        led
        (pos x ∷ pos y ∷ pos on ∷ [])
        d
        (set_led x y (is_on on))
      × HandlerDraws led_all_handler clear (codes "i") (pos on ∷ []) d (set_all (is_on on))
      × HandlerDraws led_all_handler clear [] [] d (set_all false)
      × HandlerDraws led_map_handler frame (codes "iiiiiiii") (map pos block) d (set_map 0 0 block)
      × HandlerDraws led_map_handler frame
          (codes "iiiiiiiiii")
          (pos (8 * a) ∷ pos (8 * b) ∷ map pos block)
          d
          (set_map (8 * a) (8 * b) block)
      × HandlerDraws led_col_row_handler
          (at prefix (codes "/led_row"))
          (replicate (1 + length line) b'i')
          (pos y ∷ map pos line)
          d
          (set_row 0 y (length line) line)
      × HandlerDraws led_col_row_handler
          (at prefix (codes "/led_col"))
          (replicate (1 + length line) b'i')
          (pos x ∷ map pos line)
          d
          (set_col x 0 (length line) line)
handler_function-HandlerDraws d prefix x y on a b block line grid h offset small eight few room
      apart =
    (
      led_handler-HandlerDraws d grid _ [] x y on h.0 h.1 small.0 small.1 small.2,
      led_all_handler-HandlerDraws d grid _ _ on (omega arith),
      led_all_handler-HandlerDraws_none d grid _ _,
      led_map_handler-HandlerDraws d grid _ _ block eight.0 eight.1,
      led_map_handler-HandlerDraws_at d grid _ _ (8 * a) (8 * b) block eight.0 eight.1 (omega arith)
          (omega arith) offset.0 offset.1,
      led_col_row_handler-HandlerDraws_row d grid _ _ y line apart few.0 few.1 room.0 h.1,
      led_col_row_handler-HandlerDraws_col d grid _ _ x line (strstr_col prefix) few.0 few.1 room.1
          h.0,
    )

-- Where the prefix holds the text led_col, a message to /led_row with one byte is answered by
-- `monome_led_col`: the byte is shown in a column.
pub handler_function-strstr :
    {S : Type 0} (monome : Capabilities S) (prefix types : Text) (y b : ℤ) (s : S)
    → strstr prefix (codes "led_col") ≡ true
    → handler_function monome led_col_row_handler
        (at prefix (codes "/led_row"))
        types
        (y ∷ b ∷ [])
        s
      ≡ some (monome_led_col monome (uint32 y) 0 1 (uint8 b ∷ 0 ∷ []) s)
unfolding handler_function
handler_function-strstr monome prefix types y b s h = ground (
  arith,
  strstr-append (codes "led_col") prefix (codes "/led_row") h,
  strstr-append_left (codes "led_col") (codes "/") (prefix ++ codes "/led_row"),
)
