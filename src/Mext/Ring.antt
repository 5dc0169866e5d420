-- ===== src/Mext/Ring.antt =====
-- The led ring and tilt functions of src/proto/mext.c.
use libmonome.Common.{ℕ, List, get_or, tabulate, bit_and}
use libmonome.Common.Int.{ℤ}
use libmonome.Device.{Io}
use libmonome.Mext.Level.{pack_nybbles}
use libmonome.Mext.Message.{
  ss_led_ring, ss_tilt, cmd_led_ring_set, cmd_led_ring_all, cmd_led_ring_map, cmd_led_ring_range,
  cmd_led_ring_intensity, cmd_tilt_enable, cmd_tilt_disable, ring_set, ring_all, ring_map,
  ring_range, ring_intensity, tilt_sys, mext_write_msg,
}

unfoldable pub mext_led_ring_set : ℕ → ℕ → ℕ → Io ℤ
mext_led_ring_set ring led level =
    mext_write_msg ss_led_ring cmd_led_ring_set (ring_set ring led level)

unfoldable pub mext_led_ring_all : ℕ → ℕ → Io ℤ
mext_led_ring_all ring level = mext_write_msg ss_led_ring cmd_led_ring_all (ring_all ring level)

unfoldable pub mext_led_ring_map : ℕ → List ℕ → Io ℤ
mext_led_ring_map ring levels =
    mext_write_msg ss_led_ring cmd_led_ring_map
      (ring_map ring (pack_nybbles (tabulate 64 0 (λ i. get_or levels i 0)) 32))

unfoldable pub mext_led_ring_range : ℕ → ℕ → ℕ → ℕ → Io ℤ
mext_led_ring_range ring start end level =
    mext_write_msg ss_led_ring cmd_led_ring_range (ring_range ring start end level)

unfoldable pub mext_led_ring_intensity : ℕ → Io ℤ
mext_led_ring_intensity brightness =
    mext_write_msg ss_led_ring cmd_led_ring_intensity (ring_intensity (bit_and brightness 0xF))

unfoldable pub mext_tilt_enable : ℕ → Io ℤ
mext_tilt_enable sensor = mext_write_msg ss_tilt cmd_tilt_enable (tilt_sys sensor)

unfoldable pub mext_tilt_disable : ℕ → Io ℤ
mext_tilt_disable sensor = mext_write_msg ss_tilt cmd_tilt_disable (tilt_sys sensor)
