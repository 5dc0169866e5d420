-- ===== src/Osc/Led.antt =====
-- The led and ring functions of src/proto/osc.c, and the tables that point to them.
use libmonome.Common.{ℕ, List, [], ◌∷◌, ◌==◌, if◌then◌else◌, none, some, get_or, tabulate}
use libmonome.Common.Int.{ℤ, pos}
use libmonome.Liblo.{Text, codes, int32, lo_send_from}
use libmonome.Core.Dispatch.{Capabilities, Op}
use libmonome.Osc.{Osc}

-- LO_SEND_MSG, to a cached path.
abbrev pub lo_send_msg : Text → Text → List ℤ → Op Osc
lo_send_msg path types argv self =
    let (ret, link) = lo_send_from path types argv self.link in (ret, record self { link = link })

-- `data[i]`, a byte.
abbrev byte : List ℕ → ℕ → ℤ
byte bits i = pos (get_or bits i 0)

-- `!!on`
abbrev truth : ℕ → ℤ
truth on = if on == 0 then pos 0 else pos 1

unfoldable pub proto_osc_led_set : (x y on : ℕ) → Op Osc
proto_osc_led_set x y on self =
    lo_send_msg self.paths.led_set (codes "iii") (int32 x ∷ int32 y ∷ truth on ∷ []) self

unfoldable pub proto_osc_led_all : (status : ℕ) → Op Osc
proto_osc_led_all status self = lo_send_msg self.paths.led_all (codes "i") (int32 status ∷ []) self

unfoldable pub proto_osc_led_row : (x_off y count : ℕ) → List ℕ → Op Osc
proto_osc_led_row x_off y count bits self =
    if count == 1
    then lo_send_msg path (codes "iii") (int32 x_off ∷ int32 y ∷ byte bits 0 ∷ []) self
    else lo_send_msg path (codes "iiii") (int32 x_off ∷ int32 y ∷ byte bits 0 ∷ byte bits 1 ∷ [])
        self
  where
    path : Text
    path = self.paths.led_row

unfoldable pub proto_osc_led_col : (x y_off count : ℕ) → List ℕ → Op Osc
proto_osc_led_col x y_off count bits self =
    if count == 1
    then lo_send_msg path (codes "iii") (int32 x ∷ int32 y_off ∷ byte bits 0 ∷ []) self
    else lo_send_msg path (codes "iiii") (int32 x ∷ int32 y_off ∷ byte bits 0 ∷ byte bits 1 ∷ [])
        self
  where
    path : Text
    path = self.paths.led_col

unfoldable pub proto_osc_led_map : (x_off y_off : ℕ) → List ℕ → Op Osc
proto_osc_led_map x_off y_off f self =
    lo_send_msg self.paths.led_map (codes "iiiiiiiiii")
      (int32 x_off ∷ int32 y_off ∷ tabulate 8 0 (byte f)) self

unfoldable pub proto_osc_led_intensity : (brightness : ℕ) → Op Osc
proto_osc_led_intensity brightness self =
    lo_send_msg self.paths.led_intensity (codes "i") (int32 brightness ∷ []) self

unfoldable pub proto_osc_led_ring_set : (ring led level : ℕ) → Op Osc
proto_osc_led_ring_set ring led level self =
    lo_send_msg self.paths.ring_set (codes "iii") (int32 ring ∷ int32 led ∷ int32 level ∷ []) self

unfoldable pub proto_osc_led_ring_all : (ring level : ℕ) → Op Osc
proto_osc_led_ring_all ring level self =
    lo_send_msg self.paths.ring_all (codes "ii") (int32 ring ∷ int32 level ∷ []) self

-- The message is built one integer after the other.
unfoldable pub proto_osc_led_ring_map : (ring : ℕ) → List ℕ → Op Osc
proto_osc_led_ring_map ring levels self =
    lo_send_msg self.paths.ring_map (tabulate 65 0 (λ i. b'i'))
      (int32 ring ∷ tabulate 64 0 (byte levels)) self

unfoldable pub proto_osc_led_ring_range : (ring start end level : ℕ) → Op Osc
proto_osc_led_ring_range ring start end level self =
    lo_send_msg self.paths.ring_range (codes "iiii")
      (int32 ring ∷ int32 start ∷ int32 end ∷ int32 level ∷ []) self

-- proto_osc_led_functions and proto_osc_led_ring_functions, as `monome_protocol_new` sets them:
-- the ring table names no `intensity`, and there are no level and no tilt functions.
unfoldable pub proto_osc_capabilities : Capabilities Osc
unfolding proto_osc_led_set proto_osc_led_all proto_osc_led_map proto_osc_led_row proto_osc_led_col
    proto_osc_led_intensity proto_osc_led_ring_set proto_osc_led_ring_all proto_osc_led_ring_map
    proto_osc_led_ring_range
proto_osc_capabilities = record {
  led = some (record {
    set = proto_osc_led_set;
    all = proto_osc_led_all;
    map = proto_osc_led_map;
    row = proto_osc_led_row;
    col = proto_osc_led_col;
    intensity = proto_osc_led_intensity;
  });
  led_level = none;
  led_ring = some (record {
    set = proto_osc_led_ring_set;
    all = proto_osc_led_ring_all;
    map = proto_osc_led_ring_map;
    range = proto_osc_led_ring_range;
    intensity = none;
  });
  tilt = none;
}
