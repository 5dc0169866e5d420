-- ===== src/Core/Dispatch.antt =====
-- The functions of src/libmonome.c that call the protocol module, over the tables of functions of
-- `struct monome`, with the tables of the protocol modules.
pub mod Tables
use libmonome.Common.{ℕ, List, Option, none, some}
use libmonome.Common.Int.{ℤ, minus_one}

-- An operation on the protocol module's state `S` that answers an `int`.
abbrev pub Op : Type 0 → Type 0
Op S = S → ℤ × S

-- monome_led_functions_t
pub record LedFunctions (S : Type 0) : Type 0 where
  pub set : (x y on : ℕ) → Op S
  pub all : (status : ℕ) → Op S
  pub map : (x_off y_off : ℕ) → List ℕ → Op S
  pub row : (x_off y count : ℕ) → List ℕ → Op S
  pub col : (x y_off count : ℕ) → List ℕ → Op S
  pub intensity : (brightness : ℕ) → Op S

-- monome_led_level_functions_t
pub record LedLevelFunctions (S : Type 0) : Type 0 where
  pub set : (x y level : ℕ) → Op S
  pub all : (level : ℕ) → Op S
  pub map : (x_off y_off : ℕ) → List ℕ → Op S
  pub row : (x_off y count : ℕ) → List ℕ → Op S
  pub col : (x y_off count : ℕ) → List ℕ → Op S

-- monome_led_ring_functions_t
pub record LedRingFunctions (S : Type 0) : Type 0 where
  pub set : (ring led level : ℕ) → Op S
  pub all : (ring level : ℕ) → Op S
  pub map : (ring : ℕ) → List ℕ → Op S
  pub range : (ring start end level : ℕ) → Op S
  pub intensity : Option ((brightness : ℕ) → Op S)

-- monome_tilt_functions_t
pub record TiltFunctions (S : Type 0) : Type 0 where
  pub enable : (sensor : ℕ) → Op S
  pub disable : (sensor : ℕ) → Op S

-- The capabilities of `struct monome`; `none` is NULL.
pub record Capabilities (S : Type 0) : Type 0 where
  pub led : Option (LedFunctions S)
  pub led_level : Option (LedLevelFunctions S)
  pub led_ring : Option (LedRingFunctions S)
  pub tilt : Option (TiltFunctions S)

-- REQUIRE(capability), and the call behind it.
abbrev pub require : {A S : Type 0} → Option A → (A → Op S) → Op S
require none call s = (minus_one, s)
require (some functions) call s = call functions s

unfoldable pub monome_led_set : {S : Type 0} → Capabilities S → (x y on : ℕ) → Op S
monome_led_set m x y on = require m.led (λ f. f.set x y on)

unfoldable pub monome_led_on : {S : Type 0} → Capabilities S → (x y : ℕ) → Op S
unfolding monome_led_set
monome_led_on m x y = require m.led (λ f. monome_led_set m x y 1)

unfoldable pub monome_led_off : {S : Type 0} → Capabilities S → (x y : ℕ) → Op S
unfolding monome_led_set
monome_led_off m x y = require m.led (λ f. monome_led_set m x y 0)

unfoldable pub monome_led_all : {S : Type 0} → Capabilities S → (status : ℕ) → Op S
monome_led_all m status = require m.led (λ f. f.all status)

unfoldable pub monome_led_map : {S : Type 0} → Capabilities S → (x_off y_off : ℕ) → List ℕ → Op S
monome_led_map m x_off y_off bits = require m.led (λ f. f.map x_off y_off bits)

unfoldable pub monome_led_row : {S : Type 0} → Capabilities S → (x_off y count : ℕ) → List ℕ → Op S
monome_led_row m x_off y count bits = require m.led (λ f. f.row x_off y count bits)

unfoldable pub monome_led_col : {S : Type 0} → Capabilities S → (x y_off count : ℕ) → List ℕ → Op S
monome_led_col m x y_off count bits = require m.led (λ f. f.col x y_off count bits)

unfoldable pub monome_led_intensity : {S : Type 0} → Capabilities S → (brightness : ℕ) → Op S
monome_led_intensity m brightness = require m.led (λ f. f.intensity brightness)

unfoldable pub monome_led_level_set : {S : Type 0} → Capabilities S → (x y level : ℕ) → Op S
monome_led_level_set m x y level = require m.led_level (λ f. f.set x y level)

unfoldable pub monome_led_level_all : {S : Type 0} → Capabilities S → (level : ℕ) → Op S
monome_led_level_all m level = require m.led_level (λ f. f.all level)

unfoldable pub monome_led_level_map :
    {S : Type 0} → Capabilities S → (x_off y_off : ℕ) → List ℕ → Op S
monome_led_level_map m x_off y_off levels = require m.led_level (λ f. f.map x_off y_off levels)

unfoldable pub monome_led_level_row :
    {S : Type 0} → Capabilities S → (x_off y count : ℕ) → List ℕ → Op S
monome_led_level_row m x_off y count levels = require m.led_level (λ f. f.row x_off y count levels)

unfoldable pub monome_led_level_col :
    {S : Type 0} → Capabilities S → (x y_off count : ℕ) → List ℕ → Op S
monome_led_level_col m x y_off count levels = require m.led_level (λ f. f.col x y_off count levels)

unfoldable pub monome_led_ring_set : {S : Type 0} → Capabilities S → (ring led level : ℕ) → Op S
monome_led_ring_set m ring led level = require m.led_ring (λ f. f.set ring led level)

unfoldable pub monome_led_ring_all : {S : Type 0} → Capabilities S → (ring level : ℕ) → Op S
monome_led_ring_all m ring level = require m.led_ring (λ f. f.all ring level)

unfoldable pub monome_led_ring_map : {S : Type 0} → Capabilities S → (ring : ℕ) → List ℕ → Op S
monome_led_ring_map m ring levels = require m.led_ring (λ f. f.map ring levels)

unfoldable pub monome_led_ring_range :
    {S : Type 0} → Capabilities S → (ring start end level : ℕ) → Op S
monome_led_ring_range m ring start end level =
    require m.led_ring (λ f. f.range ring start end level)

-- A call through a field `intensity` that was left NULL has no answer.
unfoldable pub monome_led_ring_intensity :
    {S : Type 0} → Capabilities S → (brightness : ℕ) → S → Option (ℤ × S)
monome_led_ring_intensity m brightness s = elim m.led_ring [
  | none ↦ some (minus_one, s)
  | some f ↦ elim f.intensity [ none ↦ none | some call ↦ some (call brightness s) ]
]

unfoldable pub monome_tilt_enable : {S : Type 0} → Capabilities S → (sensor : ℕ) → Op S
monome_tilt_enable m sensor = require m.tilt (λ f. f.enable sensor)

unfoldable pub monome_tilt_disable : {S : Type 0} → Capabilities S → (sensor : ℕ) → Op S
monome_tilt_disable m sensor = require m.tilt (λ f. f.disable sensor)
