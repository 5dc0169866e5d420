-- ===== src/Core/Dispatch/Tables/Laws.antt =====
-- What the public functions do on the three serial protocols.
use libmonome.Common.{ℕ, ◌<◌, arith, true, false}
use libmonome.Device.{Device, get_rows, get_cols}
use libmonome.Frame.{set_led, IsGrid}
use libmonome.Frame.Draws.{Draws}
use libmonome.Mext.Draws.{mext_led_set-Draws}
use libmonome.Mext.Draws as MextDraws
use libmonome.Series.Show as SeriesShow
use libmonome.Series.Draws.{proto_series_led_set-Draws}
use libmonome.Forty.Draws as FortyDraws
use libmonome.Forty.Draws.{IsForty, proto_40h_led_set-Draws}
use libmonome.Core.Dispatch.{monome_led_on, monome_led_off}
use libmonome.Core.Dispatch.Tables.{
  mext_capabilities, proto_series_capabilities, proto_40h_capabilities,
}

-- On a grid of 8 by 8 and for a point of the user's grid, `monome_led_on` and `monome_led_off`
-- light and put out the LED that the user means and no other, whichever of the three serial
-- protocols the device speaks, in every rotation.
pub monome_led_on-Draws :
    (d : Device) (x y : ℕ)
    → IsForty d
    → x < get_cols d
    → y < get_rows d
    → Draws MextDraws.show (monome_led_on mext_capabilities x y) d (set_led x y true)
      × Draws SeriesShow.show (monome_led_on proto_series_capabilities x y) d (set_led x y true)
      × Draws FortyDraws.show (monome_led_on proto_40h_capabilities x y) d (set_led x y true)
      × Draws MextDraws.show (monome_led_off mext_capabilities x y) d (set_led x y false)
      × Draws SeriesShow.show (monome_led_off proto_series_capabilities x y) d (set_led x y false)
      × Draws FortyDraws.show (monome_led_off proto_40h_capabilities x y) d (set_led x y false)
unfolding monome_led_on monome_led_off mext_capabilities proto_series_capabilities
    proto_40h_capabilities
monome_led_on-Draws d x y square hx hy = (
  (mext_led_set-Draws d grid x y 1 hx hy),
  (proto_series_led_set-Draws d (grid, omega arith, omega arith) x y 1 hx hy),
  (proto_40h_led_set-Draws d square x y 1 hx hy),
  (mext_led_set-Draws d grid x y 0 hx hy),
  (proto_series_led_set-Draws d (grid, omega arith, omega arith) x y 0 hx hy),
  (proto_40h_led_set-Draws d square x y 0 hx hy),
)
  where
    grid : IsGrid d
    grid = omega arith
