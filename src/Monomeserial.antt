-- ===== src/Monomeserial.antt =====
-- src/monomeserial.c: the program that lets OSC clients use a serial device; its OSC handlers, over
-- the tables of functions of the device that was opened.
pub mod Methods
pub mod Safety
pub mod Draws
pub mod Paths
pub mod Options
pub mod Loop
pub mod Run
pub mod Bridge
pub mod Main
use libmonome.Common.{
  ℕ, zero, suc, ◌+◌, ◌-◌, ◌%◌, List, [], ◌∷◌, Bool, true, false, not, ◌&&◌, ◌||◌, ◌==◌,
  if◌then◌else◌, Option, none, some, length, u32,
}
use libmonome.Common.Int.{ℤ, pos, minus_one, ltb_ℤ}
use libmonome.Liblo.{Text, codes, text_eq, strstr, arg, uint32}
use libmonome.Core.Dispatch.{
  Capabilities, monome_led_set, monome_led_all, monome_led_map, monome_led_row, monome_led_col,
  monome_led_intensity,
}

-- The functions that `register_osc_methods` registers.
pub data Handler : Type 0 where
  led_handler led_all_handler led_col_row_handler led_map_handler intensity_handler : Handler

-- Storing an `int32_t` in a byte.
abbrev pub uint8 : ℤ → ℕ
uint8 a = uint32 a % 256

abbrev pub is_outside : ℤ → ℕ → Bool
is_outside a highest = ltb_ℤ (pos highest) a || ltb_ℤ a (pos 0)

-- `argc` arguments, of which the first is taken where there is one.
abbrev pub first_or : List ℤ → ℤ → ℤ
first_or [] otherwise = otherwise
first_or (a ∷ argv) otherwise = a

-- `n` bytes from `argv[start]`; the index is a `uint`.
abbrev pub read_bytes {ℓ} : {R : Type ℓ} → ℕ → ℕ → List ℤ → (List ℕ → Option R) → Option R
read_bytes zero start argv next = next []
read_bytes (suc n) start argv next =
    arg argv (u32 start) λ a. read_bytes n (suc start) argv λ bits. next (uint8 a ∷ bits)

-- A read behind the arguments has no answer.
module _ {S : Type 0} (monome : Capabilities S) where
  unfoldable pub osc_led_handler : Text → List ℤ → S → Option (ℤ × S)
  unfolding text_eq monome_led_set
  osc_led_handler types argv s =
      if not (length argv == 3) || not (text_eq (codes "iii") types)
      then some (minus_one, s)
      else arg argv 0 λ x.
        if is_outside x 15
        then some (minus_one, s)
        else arg argv 1 λ y.
          if is_outside y 15
          then some (minus_one, s)
          else arg argv 2 λ on.
            if is_outside on 1
            then some (minus_one, s)
            else some (monome_led_set monome (uint32 x) (uint32 y) (uint32 on) s)

  unfoldable pub osc_led_all_handler : List ℤ → S → Option (ℤ × S)
  unfolding monome_led_all
  osc_led_all_handler argv s = some (monome_led_all monome (uint32 (first_or argv (pos 0))) s)

  unfoldable pub osc_led_col_row_handler : Text → List ℤ → S → Option (ℤ × S)
  unfolding strstr monome_led_col monome_led_row
  osc_led_col_row_handler path argv s = arg argv 1 λ low.
      let call = λ (high : ℕ).
        let buf = uint8 low ∷ high ∷ [] in
        arg argv 0 λ at.
          if strstr path (codes "led_col")
          then some (monome_led_col monome (uint32 at) 0 (length argv - 1) buf s)
          else some (monome_led_row monome 0 (uint32 at) (length argv - 1) buf s) in
      if length argv == 3 then (arg argv 2 λ high. call (uint8 high)) else call 0

  unfoldable pub osc_led_map_handler : List ℤ → S → Option (ℤ × S)
  unfolding monome_led_map
  osc_led_map_handler argv s = read_bytes 8 (4294967296 + length argv - 8) argv λ buf.
      if length argv == 8
      then some (monome_led_map monome 0 0 buf s)
      else if length argv == 10
      then (arg argv 0
          λ x. arg argv 1 λ y. some (monome_led_map monome (uint32 x) (uint32 y) buf s))
      else some (minus_one, s)

  unfoldable pub osc_intensity_handler : List ℤ → S → Option (ℤ × S)
  unfolding monome_led_intensity
  osc_intensity_handler argv s =
      some (monome_led_intensity monome (uint32 (first_or argv (pos 0xF))) s)

  unfoldable pub handler_function : Handler → Text → Text → List ℤ → S → Option (ℤ × S)
  unfolding osc_led_handler osc_led_all_handler osc_led_col_row_handler osc_led_map_handler
      osc_intensity_handler
  handler_function led_handler path types argv = osc_led_handler types argv
  handler_function led_all_handler path types argv = osc_led_all_handler argv
  handler_function led_col_row_handler path types argv = osc_led_col_row_handler path argv
  handler_function led_map_handler path types argv = osc_led_map_handler argv
  handler_function intensity_handler path types argv = osc_intensity_handler argv
