-- ===== src/Monomeserial/Draws.antt =====
-- What the OSC messages that src/monomeserial.c takes do to the picture of a mext grid.
use libmonome.Common.{
  ℕ, ◌*◌, ◌≤◌, ◌<◌, ◌≡◌, refl, ap, ap₂, u32, ◌∙◌, List, [], ◌∷◌, map, true, false, some, length,
  ◌%◌, subst, tabulate-get_or, arith, ◌⊎◌,
}
use libmonome.Common.Int.{ℤ, pos}
use libmonome.Device.{Device, Io, get_rows, get_cols}
use libmonome.Rotation.Map.Bytes.{AreBytes}
use libmonome.Frame.{Frame, IsGrid, is_on, set_led, set_all, set_map, set_row, set_col}
use libmonome.Frame.Draws.{Draws}
use libmonome.Liblo.{strstr, Text, codes}
use libmonome.Core.Dispatch.{
  monome_led_set, monome_led_all, monome_led_map, monome_led_row, monome_led_col,
}
use libmonome.Core.Dispatch.Tables.{mext_capabilities}
use libmonome.Mext.Draws.{show, mext_led_set-Draws, mext_led_all-Draws, mext_led_map-Draws}
use libmonome.Mext.Rows.{mext_led_row-Draws}
use libmonome.Mext.Cols.{mext_led_col-Draws}
use libmonome.Monomeserial.{
  Handler, led_handler, led_all_handler, led_col_row_handler, led_map_handler, handler_function,
  uint8,
}

-- The handler reads no argument that is not there, writes to the device, and the user then sees the
-- picture that is wanted.
pub record HandlerDraws (h : Handler) (path types : Text) (argv : List ℤ) (d : Device)
    (want : Frame → Frame) : Type 0 where
  pub op : Io ℤ
  pub answers : (e : Device) → handler_function mext_capabilities h path types argv e ≡ some (op e)
  pub draws : Draws show op d want

-- A small number comes back from an argument.
u32_small : (n : ℕ) → n < 4294967296 → u32 n ≡ n
u32_small n h = omega arith

bytes_of : (bits : List ℕ) → AreBytes bits → map (λ b. uint8 (pos b)) bits ≡ bits
bytes_of [] h = refl
bytes_of (b ∷ bits) h = ap₂ ◌∷◌ (omega (arith, h.0)) (bytes_of bits h.1)

module _ (d : Device) (grid : IsGrid d) (path types : Text) where
  pub led_handler-HandlerDraws :
      (x y on : ℕ)
      → x < get_cols d
      → y < get_rows d
      → x < 16
      → y < 16
      → on < 2
      → HandlerDraws led_handler path
          (codes "iii")
          (pos x ∷ pos y ∷ pos on ∷ [])
          d
          (set_led x y (is_on on))
  unfolding handler_function mext_capabilities
  led_handler-HandlerDraws x y on hx hy bx by bo = record {
    op = monome_led_set mext_capabilities x y on;
    answers = λ e. ground arith;
    draws = mext_led_set-Draws d grid x y on hx hy;
  }

  pub led_all_handler-HandlerDraws :
      (status : ℕ)
      → status < 4294967296
      → HandlerDraws led_all_handler path types (pos status ∷ []) d (set_all (is_on status))
  unfolding handler_function mext_capabilities
  led_all_handler-HandlerDraws status h = record {
    op = monome_led_all mext_capabilities status;
    answers = λ e. rw (u32_small status h) refl;
    draws = mext_led_all-Draws d grid status;
  }

  pub led_all_handler-HandlerDraws_none :
      HandlerDraws led_all_handler path types [] d (set_all false)
  unfolding handler_function mext_capabilities
  led_all_handler-HandlerDraws_none = record {
    op = monome_led_all mext_capabilities 0;
    answers = λ e. refl;
    draws = mext_led_all-Draws d grid 0;
  }

  pub led_map_handler-HandlerDraws :
      (rows : List ℕ)
      → AreBytes rows
      → length rows ≡ 8
      → HandlerDraws led_map_handler path types (map pos rows) d (set_map 0 0 rows)
  unfolding handler_function mext_capabilities get_cols get_rows
  led_map_handler-HandlerDraws rows bytes eight = record {
    op = monome_led_map mext_capabilities 0 0 rows;
    answers = λ e.
        subst
          (λ rs.
            handler_function mext_capabilities led_map_handler path types (map pos rs) e
            ≡ some (monome_led_map mext_capabilities 0 0 (map (λ b. uint8 (pos b)) rs) e))
          (tabulate-get_or 8 rows 0 eight) refl
        ∙ ap (λ (rs : List ℕ). some (monome_led_map mext_capabilities 0 0 rs e))
            (bytes_of rows bytes);
    draws = mext_led_map-Draws d grid 0 0 rows bytes eight refl refl (ground arith) (ground arith);
  }

  pub led_map_handler-HandlerDraws_at :
      (x y : ℕ) (rows : List ℕ)
      → AreBytes rows
      → length rows ≡ 8
      → x % 8 ≡ 0
      → y % 8 ≡ 0
      → x < get_cols d
      → y < get_rows d
      → HandlerDraws led_map_handler path types (pos x ∷ pos y ∷ map pos rows) d (set_map x y rows)
  unfolding handler_function mext_capabilities get_cols get_rows
  led_map_handler-HandlerDraws_at x y rows bytes eight ax ay hx hy = record {
    op = monome_led_map mext_capabilities x y rows;
    answers = λ e.
        subst
          (λ rs.
            handler_function mext_capabilities led_map_handler path types
              (pos x ∷ pos y ∷ map pos rs) e
            ≡ some
                (monome_led_map mext_capabilities (u32 x) (u32 y) (map (λ b. uint8 (pos b)) rs) e))
          (tabulate-get_or 8 rows 0 eight) refl
        ∙ rw (bytes_of rows bytes, u32_small x (ground arith), u32_small y (ground arith)) refl;
    draws = mext_led_map-Draws d grid x y rows bytes eight ax ay hx hy;
  }

  pub led_col_row_handler-HandlerDraws_row :
      (y : ℕ) (line : List ℕ)
      → strstr path (codes "led_col") ≡ false
      → AreBytes line
      → (length line ≡ 1) ⊎ (length line ≡ 2)
      → 8 * length line ≤ get_cols d
      → y < get_rows d
      → HandlerDraws led_col_row_handler path types
          (pos y ∷ map pos line)
          d
          (set_row 0 y (length line) line)
  unfolding handler_function mext_capabilities set_row get_rows
  led_col_row_handler-HandlerDraws_row y [] apart bytes few wide hy = absurd (ground arith)
  led_col_row_handler-HandlerDraws_row y (b ∷ []) apart bytes few wide hy = record {
    op = monome_led_row mext_capabilities 0 y 1 (b ∷ 0 ∷ []);
    answers = λ e. ground (arith, apart);
    draws = mext_led_row-Draws d 0 y 1 (b ∷ 0 ∷ []) grid (omega arith) (omega arith) refl wide hy;
  }
  led_col_row_handler-HandlerDraws_row y (b ∷ c ∷ []) apart bytes few wide hy = record {
    op = monome_led_row mext_capabilities 0 y 2 (b ∷ c ∷ []);
    answers = λ e. ground (arith, apart);
    draws = mext_led_row-Draws d 0 y 2 (b ∷ c ∷ []) grid bytes (omega arith) refl wide hy;
  }
  led_col_row_handler-HandlerDraws_row y (b ∷ c ∷ e ∷ line) apart bytes few wide hy =
      absurd (ground arith)

  pub led_col_row_handler-HandlerDraws_col :
      (y : ℕ) (line : List ℕ)
      → strstr path (codes "led_col") ≡ true
      → AreBytes line
      → (length line ≡ 1) ⊎ (length line ≡ 2)
      → 8 * length line ≤ get_rows d
      → y < get_cols d
      → HandlerDraws led_col_row_handler path types
          (pos y ∷ map pos line)
          d
          (set_col y 0 (length line) line)
  unfolding handler_function mext_capabilities set_col get_cols
  led_col_row_handler-HandlerDraws_col y [] apart bytes few wide hy = absurd (ground arith)
  led_col_row_handler-HandlerDraws_col y (b ∷ []) apart bytes few wide hy = record {
    op = monome_led_col mext_capabilities y 0 1 (b ∷ 0 ∷ []);
    answers = λ e. ground (arith, apart);
    draws = mext_led_col-Draws d y 0 1 (b ∷ 0 ∷ []) grid (omega arith) (omega arith) refl hy wide;
  }
  led_col_row_handler-HandlerDraws_col y (b ∷ c ∷ []) apart bytes few wide hy = record {
    op = monome_led_col mext_capabilities y 0 2 (b ∷ c ∷ []);
    answers = λ e. ground (arith, apart);
    draws = mext_led_col-Draws d y 0 2 (b ∷ c ∷ []) grid bytes (omega arith) refl hy wide;
  }
  led_col_row_handler-HandlerDraws_col y (b ∷ c ∷ e ∷ line) apart bytes few wide hy =
      absurd (ground arith)
