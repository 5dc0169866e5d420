-- ===== src/Core/Map.antt =====
-- `mapping` of src/private/devices.h and `map_serial_to_device`, with sscanf(3) for the patterns
-- that stand there.
pub mod Laws
use libmonome.Common.{
  ℕ, List, [], ◌∷◌, ◌==◌, ◌||◌, ◌&&◌, leb, if◌then◌else◌, Bool, true, false, Option, none, some,
}
use libmonome.Common.Int.{ℤ, pos, minus_one, eqb_ℤ}

-- A character, `%*1[-_]`, or the `%d` that ends a pattern.
pub data Item : Type 0 where
  lit : ℕ → Item
  dash : Item
  number : Item

pub data Proto : Type 0 where
  series forty mext : Proto

-- monome_devmap_t, without the friendly name.
pub record Devmap : Type 0 where
  pub sermatch : List Item
  pub proto : Proto
  pub dim_cols : ℕ
  pub dim_rows : ℕ
  pub quirk_57600_baud : Bool

abbrev pub is_space : ℕ → Bool
is_space c = c == 32 || leb 9 c && leb c 13

abbrev pub is_digit : ℕ → Bool
is_digit c = leb 48 c && leb c 57

-- `%d` behind the sign.
abbrev pub scan_digits : List ℕ → ℤ
scan_digits [] = pos 0
scan_digits (c ∷ cs) = if is_digit c then pos 1 else pos 0

-- `%d`: EOF (-1) when the input ends before it, otherwise the number of conversions.
abbrev pub scan_number : List ℕ → ℤ
scan_number [] = minus_one
scan_number (c ∷ cs) =
    if is_space c
    then scan_number cs
    else if c == 43 || c == 45
    then scan_digits cs
    else scan_digits (c ∷ cs)

-- sscanf(3): EOF when the input ends before the first conversion.
unfoldable pub sscanf : List ℕ → List Item → ℤ
sscanf cs [] = pos 0
sscanf [] (lit l ∷ items) = minus_one
sscanf (c ∷ cs) (lit l ∷ items) = elim (c == l) [ true ↦ sscanf cs items | false ↦ pos 0 ]
sscanf [] (dash ∷ items) = minus_one
sscanf (c ∷ cs) (dash ∷ items) = elim (c == 45 || c == 95) [
  | true ↦ sscanf cs items
  | false ↦ pos 0
]
sscanf cs (number ∷ items) = scan_number cs

abbrev pub m64 : Devmap
m64 = record {
  sermatch = lit 109 ∷ lit 54 ∷ lit 52 ∷ dash ∷ number ∷ [];
  proto = series;
  dim_cols = 8;
  dim_rows = 8;
  quirk_57600_baud = false;
}

abbrev pub m128 : Devmap
m128 = record {
  sermatch = lit 109 ∷ lit 49 ∷ lit 50 ∷ lit 56 ∷ dash ∷ number ∷ [];
  proto = series;
  dim_cols = 16;
  dim_rows = 8;
  quirk_57600_baud = false;
}

abbrev pub m256 : Devmap
m256 = record {
  sermatch = lit 109 ∷ lit 50 ∷ lit 53 ∷ lit 54 ∷ dash ∷ number ∷ [];
  proto = series;
  dim_cols = 16;
  dim_rows = 16;
  quirk_57600_baud = false;
}

abbrev pub mk : Devmap
mk = record {
  sermatch = lit 109 ∷ lit 107 ∷ number ∷ [];
  proto = series;
  dim_cols = 16;
  dim_rows = 16;
  quirk_57600_baud = false;
}

abbrev pub m40h : Devmap
m40h = record {
  sermatch = lit 109 ∷ lit 52 ∷ lit 48 ∷ lit 104 ∷ number ∷ [];
  proto = forty;
  dim_cols = 8;
  dim_rows = 8;
  quirk_57600_baud = false;
}

abbrev pub a40h : Devmap
a40h = record {
  sermatch = lit 97 ∷ lit 52 ∷ lit 48 ∷ lit 104 ∷ dash ∷ number ∷ [];
  proto = forty;
  dim_cols = 8;
  dim_rows = 8;
  quirk_57600_baud = true;
}

abbrev pub i2c : Devmap
i2c = record {
  sermatch = lit 109 ∷ number ∷ [];
  proto = mext;
  dim_cols = 0;
  dim_rows = 0;
  quirk_57600_baud = false;
}

abbrev pub i2c_windows : Devmap
i2c_windows = record {
  sermatch = lit 77 ∷ number ∷ [];
  proto = mext;
  dim_cols = 0;
  dim_rows = 0;
  quirk_57600_baud = false;
}

abbrev pub mapping : List Devmap
mapping = m64 ∷ m128 ∷ m256 ∷ mk ∷ m40h ∷ a40h ∷ i2c ∷ i2c_windows ∷ []

-- The first entry for which sscanf answers anything but 0.
unfoldable pub first_match : List Devmap → List ℕ → Option Devmap
unfolding sscanf
first_match [] serial = none
first_match (m ∷ ms) serial =
    if eqb_ℤ (sscanf serial m.sermatch) (pos 0) then first_match ms serial else some m

unfoldable pub map_serial_to_device : List ℕ → Option Devmap
unfolding first_match
map_serial_to_device = first_match mapping
