-- ===== src/Core/Dispatch/Tables.antt =====
-- The tables that `monome_protocol_new` of the three serial protocols puts in `struct monome`.
pub mod Laws
use libmonome.Common.{none, some}
use libmonome.Device.{Device}
use libmonome.Mext.Led.{
  mext_led_set, mext_led_all, mext_led_map, mext_led_row, mext_led_col, mext_led_intensity,
}
use libmonome.Mext.Level.{
  mext_led_level_set, mext_led_level_all, mext_led_level_map, mext_led_level_row,
  mext_led_level_col,
}
use libmonome.Mext.Ring.{
  mext_led_ring_set, mext_led_ring_all, mext_led_ring_map, mext_led_ring_range,
  mext_led_ring_intensity, mext_tilt_enable, mext_tilt_disable,
}
use libmonome.Series.Led.{
  proto_series_led_set, proto_series_led_all, proto_series_led_map, proto_series_led_row,
  proto_series_led_col, proto_series_led_intensity, proto_series_tilt_enable,
  proto_series_tilt_disable,
}
use libmonome.Series.Level.{
  proto_series_led_level_set, proto_series_led_level_all, proto_series_led_level_map,
  proto_series_led_level_row, proto_series_led_level_col,
}
use libmonome.Forty.Led.{
  proto_40h_led_set, proto_40h_led_all, proto_40h_led_map, proto_40h_led_row, proto_40h_led_col,
  proto_40h_intensity, proto_40h_tilt_enable, proto_40h_tilt_disable,
}
use libmonome.Forty.Level.{
  proto_40h_led_level_set, proto_40h_led_level_all, proto_40h_led_level_map,
  proto_40h_led_level_row, proto_40h_led_level_col,
}
use libmonome.Core.Dispatch.{
  LedFunctions, LedLevelFunctions, LedRingFunctions, TiltFunctions, Capabilities,
}

unfoldable pub mext_capabilities : Capabilities Device
mext_capabilities = record {
  led = some (record {
    set = mext_led_set;
    all = mext_led_all;
    map = mext_led_map;
    row = mext_led_row;
    col = mext_led_col;
    intensity = mext_led_intensity;
  });
  led_level = some (record {
    set = mext_led_level_set;
    all = mext_led_level_all;
    map = mext_led_level_map;
    row = mext_led_level_row;
    col = mext_led_level_col;
  });
  led_ring = some (record {
    set = mext_led_ring_set;
    all = mext_led_ring_all;
    map = mext_led_ring_map;
    range = mext_led_ring_range;
    intensity = some mext_led_ring_intensity;
  });
  tilt = some (record { enable = mext_tilt_enable; disable = mext_tilt_disable });
}

unfoldable pub proto_series_capabilities : Capabilities Device
proto_series_capabilities = record {
  led = some (record {
    set = proto_series_led_set;
    all = proto_series_led_all;
    map = proto_series_led_map;
    row = proto_series_led_row;
    col = proto_series_led_col;
    intensity = proto_series_led_intensity;
  });
  led_level = some (record {
    set = proto_series_led_level_set;
    all = proto_series_led_level_all;
    map = proto_series_led_level_map;
    row = proto_series_led_level_row;
    col = proto_series_led_level_col;
  });
  led_ring = none;
  tilt = some (record { enable = proto_series_tilt_enable; disable = proto_series_tilt_disable });
}

unfoldable pub proto_40h_capabilities : Capabilities Device
proto_40h_capabilities = record {
  led = some (record {
    set = proto_40h_led_set;
    all = proto_40h_led_all;
    map = proto_40h_led_map;
    row = proto_40h_led_row;
    col = proto_40h_led_col;
    intensity = proto_40h_intensity;
  });
  led_level = some (record {
    set = proto_40h_led_level_set;
    all = proto_40h_led_level_all;
    map = proto_40h_led_level_map;
    row = proto_40h_led_level_row;
    col = proto_40h_led_level_col;
  });
  led_ring = none;
  tilt = some (record { enable = proto_40h_tilt_enable; disable = proto_40h_tilt_disable });
}
