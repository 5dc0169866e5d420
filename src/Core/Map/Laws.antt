-- ===== src/Core/Map/Laws.antt =====
-- Which serial numbers go to which protocol.
use libmonome.Common.{ℕ, List, [], ◌∷◌, ◌≡◌, refl, arith, ◌⊎◌, inl, inr, some, true}
use libmonome.Core.Map.{map_serial_to_device, is_digit, m64, m128, m256, mk, m40h, a40h, i2c}

-- A serial number of `m` and at least four digits goes to mext: none of the names of older
-- devices matches it, not even those that begin with the same digits.
pub map_serial_to_device-mext :
    (c0 c1 c2 c3 : ℕ) (rest : List ℕ)
    → is_digit c0 ≡ true
    → is_digit c1 ≡ true
    → is_digit c2 ≡ true
    → is_digit c3 ≡ true
    → map_serial_to_device (109 ∷ c0 ∷ c1 ∷ c2 ∷ c3 ∷ rest) ≡ some i2c
unfolding map_serial_to_device
map_serial_to_device-mext c0 c1 c2 c3 rest d0 d1 d2 d3 = ground arith

-- The names of the older devices go to their own entries of the map: `m64`, `m128`, `m256` and
-- `a40h` with a dash or an underscore and a digit behind them, `mk` and `m40h` with a digit.
pub map_serial_to_device-named :
    (sep digit : ℕ) (rest : List ℕ)
    → (sep ≡ 45) ⊎ (sep ≡ 95)
    → is_digit digit ≡ true
    → (map_serial_to_device (109 ∷ 54 ∷ 52 ∷ sep ∷ digit ∷ rest) ≡ some m64)
      × (map_serial_to_device (109 ∷ 49 ∷ 50 ∷ 56 ∷ sep ∷ digit ∷ rest) ≡ some m128)
      × (map_serial_to_device (109 ∷ 50 ∷ 53 ∷ 54 ∷ sep ∷ digit ∷ rest) ≡ some m256)
      × (map_serial_to_device (97 ∷ 52 ∷ 48 ∷ 104 ∷ sep ∷ digit ∷ rest) ≡ some a40h)
      × (map_serial_to_device (109 ∷ 107 ∷ digit ∷ rest) ≡ some mk)
      × (map_serial_to_device (109 ∷ 52 ∷ 48 ∷ 104 ∷ digit ∷ rest) ≡ some m40h)
unfolding map_serial_to_device
map_serial_to_device-named sep digit rest separates is = ground arith

-- A serial number that is only a beginning of `m64`, the empty one too, is taken for a monome
-- 64: sscanf answers EOF when the input ends inside a pattern, and EOF is not 0.
pub map_serial_to_device-prefix :
    (serial : List ℕ)
    → (serial ≡ []) ⊎ (serial ≡ 109 ∷ []) ⊎ (serial ≡ 109 ∷ 54 ∷ []) ⊎ (serial ≡ 109 ∷ 54 ∷ 52 ∷ [])
    → map_serial_to_device serial ≡ some m64
unfolding map_serial_to_device
map_serial_to_device-prefix serial (inl e) = rw e refl
map_serial_to_device-prefix serial (inr (inl e)) = rw e refl
map_serial_to_device-prefix serial (inr (inr (inl e))) = rw e refl
map_serial_to_device-prefix serial (inr (inr (inr e))) = rw e refl
