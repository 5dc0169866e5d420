-- ===== src/Serial.antt =====
-- What src/proto/40h.c and src/proto/series.c share: `monome_write`, which each of them declares
-- anew.
use libmonome.Common.{List, [], ◌∷◌, ◌++◌, ℕ, length, drop, ltb, Bool, false, if◌then◌else◌}
use libmonome.Common.Int.{ℤ, pos, negsuc, minus_one, eqb_ℤ}
use libmonome.Common.{◌+◌, ◌*◌, ◌/◌, ◌%◌, ◌^◌, ◌<◌, ◌≡◌, ap₂, ◌∙◌, arith, bit_and, ◌>>>◌}
use libmonome.Common.Bits.{bit_and_ones}
use libmonome.Device.{Device, Io, pure, ◌>>=◌, platform_write, get_rows, get_cols}
use libmonome.Posix.{platform_read}
use libmonome.Rotation.Coords.{unrotate_coords}

unfoldable pub monome_write : List ℕ → Io ℤ
monome_write buf = do
  written ← platform_write buf
  pure (if eqb_ℤ written (pos (length buf)) then pos 0 else minus_one)

-- What the structures of the two modules have: a device and the last tilt.
pub record Serial : Type 0 where
  pub monome : Device
  pub tilt_x : ℕ
  pub tilt_y : ℕ

-- What `sizeof(buf)` and the answer of a read make of `read < sizeof(buf)`: the comparison is
-- unsigned, so it does not hold of an answer below 0.
abbrev pub is_short : ℤ → Bool
is_short (pos n) = ltb n 2
is_short (negsuc n) = false

-- `buf` once the bytes that were read stand over its zeros.
abbrev pub filled : List ℕ → List ℕ
filled stored = stored ++ drop (length stored) (0 ∷ 0 ∷ [])

-- The two coordinates in the second byte of a key's message.
abbrev pub key_point : ℕ → ℕ × ℕ
key_point b = (b >>> 4, bit_and b 0xF)

pub key_point-pair : (x y : ℕ) → y < 16 → key_point (16 * x + y) ≡ (x, y)
key_point-pair x y small =
    ap₂ (λ (a b : ℕ). (a, b)) {x = (16 * x + y) / 2 ^ 4} {y = x} {u = bit_and (16 * x + y) 0xF}
      {v = y} (omega arith) (bit_and_ones 4 (16 * x + y) ∙ low x y small)
  where
    low : (a b : ℕ) → b < 16 → (16 * a + b) % 2 ^ 4 ≡ b
    low a b h = omega arith

-- Reading does not change how coordinates are turned.
pub unrotate_port :
    (n : ℕ) (d : Device) (p : ℕ × ℕ) → unrotate_coords (platform_read n d).1 p ≡ unrotate_coords d p
unfolding unrotate_coords platform_read get_rows get_cols
unrotate_port n d p = ground arith
