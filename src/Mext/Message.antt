-- ===== src/Mext/Message.antt =====
-- Messages of src/proto/mext.h and `mext_write_msg`.
use libmonome.Common.{ℕ, List, [], ◌∷◌, ◌++◌, get_or, take, replicate, bit_and, bit_or, u8, ◌<<<◌}
use libmonome.Common.Int.{ℤ}
use libmonome.Device.{Io, platform_write}

-- mext_subsystem_t
abbrev pub ss_system : ℕ
ss_system = 0

abbrev pub ss_led_grid : ℕ
ss_led_grid = 1

abbrev pub ss_key_grid : ℕ
ss_key_grid = 2

abbrev pub ss_encoder : ℕ
ss_encoder = 5

abbrev pub ss_tilt : ℕ
ss_tilt = 8

abbrev pub ss_led_ring : ℕ
ss_led_ring = 9

-- The commands of mext_cmd_t that the library sends.
abbrev pub cmd_system_query : ℕ
cmd_system_query = 0x0

abbrev pub cmd_system_get_id : ℕ
cmd_system_get_id = 0x1

abbrev pub cmd_system_get_gridsz : ℕ
cmd_system_get_gridsz = 0x5

abbrev pub cmd_led_off : ℕ
cmd_led_off = 0x0

abbrev pub cmd_led_on : ℕ
cmd_led_on = 0x1

abbrev pub cmd_led_all_off : ℕ
cmd_led_all_off = 0x2

abbrev pub cmd_led_all_on : ℕ
cmd_led_all_on = 0x3

abbrev pub cmd_led_map : ℕ
cmd_led_map = 0x4

abbrev pub cmd_led_row : ℕ
cmd_led_row = 0x5

abbrev pub cmd_led_column : ℕ
cmd_led_column = 0x6

abbrev pub cmd_led_intensity : ℕ
cmd_led_intensity = 0x7

abbrev pub cmd_led_level_set : ℕ
cmd_led_level_set = 0x8

abbrev pub cmd_led_level_all : ℕ
cmd_led_level_all = 0x9

abbrev pub cmd_led_level_map : ℕ
cmd_led_level_map = 0xA

abbrev pub cmd_led_level_row : ℕ
cmd_led_level_row = 0xB

abbrev pub cmd_led_level_column : ℕ
cmd_led_level_column = 0xC

abbrev pub cmd_led_ring_set : ℕ
cmd_led_ring_set = 0x0

abbrev pub cmd_led_ring_all : ℕ
cmd_led_ring_all = 0x1

abbrev pub cmd_led_ring_map : ℕ
cmd_led_ring_map = 0x2

abbrev pub cmd_led_ring_range : ℕ
cmd_led_ring_range = 0x3

abbrev pub cmd_led_ring_intensity : ℕ
cmd_led_ring_intensity = 0x4

abbrev pub cmd_tilt_enable : ℕ
cmd_tilt_enable = 0x1

abbrev pub cmd_tilt_disable : ℕ
cmd_tilt_disable = 0x2

-- The rows of `outgoing_payload_lengths` that are not all 0, by subsystem; a row that stops early
-- goes on with 0.
unfoldable pub outgoing_payload_lengths : List (List ℕ)
outgoing_payload_lengths =
    (0 ∷ 0 ∷ 32 ∷ 0 ∷ 3 ∷ 0 ∷ 2 ∷ 0 ∷ 2 ∷ [])
    ∷ (2 ∷ 2 ∷ 0 ∷ 0 ∷ 10 ∷ 3 ∷ 3 ∷ 1 ∷ 3 ∷ 1 ∷ 34 ∷ 6 ∷ 6 ∷ [])
    ∷ []
    ∷ []
    ∷ []
    ∷ []
    ∷ []
    ∷ []
    ∷ (0 ∷ 1 ∷ 1 ∷ [])
    ∷ (3 ∷ 2 ∷ 33 ∷ 4 ∷ 2 ∷ [])
    ∷ []

abbrev pub payload_length : List (List ℕ) → ℕ → ℕ → ℕ
payload_length table addr cmd = get_or (get_or table addr []) cmd 0

-- The members of the payload union that the library sends; `untouched` is the initial one.
pub data Payload : Type 0 where
  untouched : Payload
  led : (x y : ℕ) → Payload
  led_map : (x y : ℕ) → List ℕ → Payload
  row_col : (x y bits : ℕ) → Payload
  intensity : ℕ → Payload
  level_set : (x y level : ℕ) → Payload
  level_all : ℕ → Payload
  level_map : (x y : ℕ) → List ℕ → Payload
  level_row_col : (x y : ℕ) → List ℕ → Payload
  ring_set : (ring led level : ℕ) → Payload
  ring_all : (ring level : ℕ) → Payload
  ring_map : (ring : ℕ) → List ℕ → Payload
  ring_range : (ring start end level : ℕ) → Payload
  ring_intensity : ℕ → Payload
  tilt_sys : ℕ → Payload

-- The bytes of a packed member; the members are `uint8_t`, so what is assigned to them is cut.
unfoldable pub member_bytes : Payload → List ℕ
member_bytes untouched = []
member_bytes (led x y) = u8 x ∷ u8 y ∷ []
member_bytes (led_map x y rows) = u8 x ∷ u8 y ∷ rows
member_bytes (row_col x y bits) = u8 x ∷ u8 y ∷ u8 bits ∷ []
member_bytes (intensity i) = u8 i ∷ []
member_bytes (level_set x y l) = u8 x ∷ u8 y ∷ u8 l ∷ []
member_bytes (level_all l) = u8 l ∷ []
member_bytes (level_map x y ls) = u8 x ∷ u8 y ∷ ls
member_bytes (level_row_col x y ls) = u8 x ∷ u8 y ∷ ls
member_bytes (ring_set r d l) = u8 r ∷ u8 d ∷ u8 l ∷ []
member_bytes (ring_all r l) = u8 r ∷ u8 l ∷ []
member_bytes (ring_map r ls) = u8 r ∷ ls
member_bytes (ring_range r s e l) = u8 r ∷ u8 s ∷ u8 e ∷ u8 l ∷ []
member_bytes (ring_intensity i) = u8 i ∷ []
member_bytes (tilt_sys n) = u8 n ∷ []

-- The union has 66 bytes, and what the initialiser does not name is 0.
unfoldable pub union_bytes : Payload → List ℕ
unfolding member_bytes
union_bytes p = take 66 (member_bytes p ++ replicate 66 0)

abbrev pub header : ℕ → ℕ → ℕ
header addr cmd = u8 (bit_or (bit_and addr 0xF <<< 4) (bit_and cmd 0xF))

-- mext_write_msg
unfoldable pub mext_write_msg : ℕ → ℕ → Payload → Io ℤ
unfolding outgoing_payload_lengths union_bytes
mext_write_msg addr cmd payload = platform_write (
    header addr cmd ∷ take (payload_length outgoing_payload_lengths addr cmd) (union_bytes payload))

-- mext_simple_cmd
unfoldable pub mext_simple_cmd : ℕ → Io ℤ
unfolding mext_write_msg
mext_simple_cmd cmd = mext_write_msg ss_system cmd untouched
