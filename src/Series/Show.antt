-- ===== src/Series/Show.antt =====
-- How a series device shows the messages of src/proto/series.c.
use libmonome.Common.{ℕ, ◌+◌, ◌*◌, ◌/◌, ◌%◌, ◌^◌, ◌≤◌, ◌<◌, ◌≡◌, refl, ap, ap₂, ◌∙◌, arith}
use libmonome.Common.{List, [], ◌∷◌, get_or, Bool, true, false, ◌==◌, ltb, if◌then◌else◌}
use libmonome.Common.{u8, u32, ◌<<<◌, bit_or, bit_and, Bool-cases, inl, inr}
use libmonome.Common.Bits.{nybble_pair, bit_or_fields}
use libmonome.Common.Int.{ℤ}
use libmonome.Device.{Device, Io, platform_write, get_rows, get_cols}
use libmonome.Rotation.Coords.Laws.{HasDims}
use libmonome.Frame.{
  Frame, set_led, set_all, set_row8, set_col8, set_map, view, is_on, IsGrid, SameOn,
}
use libmonome.Frame.Draws.{Draws, show_all}
use libmonome.Serial.{monome_write}
use libmonome.Series.Led.{swap_mode, widened}

-- What a message does to the picture, by the upper nybble of its head: the device's side of the
-- protocol, as the library relies on it.
-- Sixteen LEDs of a row or of a column, the lower ones first.
abbrev pub both_rows : ℕ → ℕ → ℕ → Frame → Frame
both_rows y a b f = set_row8 8 y b (set_row8 0 y a f)

abbrev pub both_cols : ℕ → ℕ → ℕ → Frame → Frame
both_cols x a b f = set_col8 x 8 b (set_col8 x 0 a f)

abbrev pub act : ℕ → ℕ → List ℕ → Frame → Frame
act k lo body f =
    let a = get_or body 0 0 in
    let b = get_or body 1 0 in
    if k == 0x2
    then set_led (a / 16) (a % 16) true f
    else if k == 0x3
    then set_led (a / 16) (a % 16) false f
    else if k == 0x4
    then set_row8 0 lo a f
    else if k == 0x5
    then set_col8 lo 0 a f
    else if k == 0x6
    then both_rows lo a b f
    else if k == 0x7
    then both_cols lo a b f
    else if k == 0x8
    then set_map (lo % 2 * 8) (lo / 2 % 2 * 8) body f
    else if k == 0x9
    then set_all (lo % 2 == 1) f
    else f

unfoldable pub show : List ℕ → Frame → Frame
show [] f = f
show (h ∷ body) f = act (h / 16) (h % 16) body f

-- The grids of this protocol have at most 16 rows and columns.
abbrev pub IsSeries : Device → Type 0
IsSeries d = IsGrid d × (d.rows ≤ 16) × (d.cols ≤ 16)

-- The answer of `monome_write` does not show in what it writes.
pub monome_write-Draws :
    (op : Io ℤ) (d : Device) (msg : List ℕ) (want : Frame → Frame)
    → op d ≡ monome_write msg d
    → ((f : Frame) → SameOn d (view d (show msg f)) (want (view d f)))
    → Draws show op d want
unfolding monome_write platform_write show_all
monome_write-Draws op d msg want e draws = record {
  msgs = msg ∷ [];
  writes = ap (λ (r : ℤ × Device). r.1) e;
  shows = draws;
}

pub point_byte : (a b : ℕ) → a < 16 → b < 16 → u8 (bit_or (u32 (a <<< 4)) b) ≡ a * 16 + b
point_byte a b ha hb =
    ap (λ t. u8 (bit_or t b)) (no_wrap a ha) ∙ omega (arith, bit_or_fields 4 a b hb)
  where
    no_wrap : (n : ℕ) → n < 16 → u32 (n <<< 4) ≡ n * 2 ^ 4
    no_wrap n h = omega arith

pub show_led :
    (on a b : ℕ) (f : Frame)
    → b < 16
    → show ((0x20 + ((if on == 0 then 1 else 0) <<< 4)) ∷ (a * 16 + b) ∷ []) f
      ≡ set_led a b (is_on on) f
unfolding show
show_led on a b f hb = elim (Bool-cases (on == 0)) [
  | inl off ↦ rw off (ap₂ (λ s t. set_led s t false f) (upper a b hb) (lower a b hb))
  | inr lit ↦ rw lit (ap₂ (λ s t. set_led s t true f) (upper a b hb) (lower a b hb))
]
  where
    upper : (m n : ℕ) → n < 16 → (m * 16 + n) / 16 ≡ m
    upper m n h = omega arith

    lower : (m n : ℕ) → n < 16 → (m * 16 + n) % 16 ≡ n
    lower m n h = omega arith

-- A message whose head is a nybble and a cut number.
show_head :
    (k a : ℕ) (body : List ℕ) (f : Frame)
    → k < 16
    → show (u8 (bit_or (k * 2 ^ 4) (bit_and a 0x0F)) ∷ body) f ≡ act k (a % 16) body f
unfolding show
show_head k a body f hk =
    ap₂ (λ s t. act s t body f) {x = h / 16} {y = k} {u = h % 16} {v = a % 16}
      (omega (arith, nybble_pair k a hk)) (omega (arith, nybble_pair k a hk))
  where
    h : ℕ
    h = u8 (bit_or (k * 2 ^ 4) (bit_and a 0x0F))

pub show_row8 :
    (swap : Bool) (p : ℕ × ℕ) (byte : ℕ) (f : Frame)
    → show
        (u8 (bit_or (swap_mode swap 0x40 0x40) (bit_and (if swap then p.0 else p.1) 0x0F))
          ∷ byte
          ∷ [])
        f
      ≡ (if swap then set_col8 (p.0 % 16) 0 byte else set_row8 0 (p.1 % 16) byte) f
show_row8 true p byte f = show_head 5 p.0 (byte ∷ []) f (omega arith)
show_row8 false p byte f = show_head 4 p.1 (byte ∷ []) f (omega arith)

pub show_row16 :
    (swap : Bool) (p : ℕ × ℕ) (a b : ℕ) (f : Frame)
    → show
        (u8 (bit_or (swap_mode swap 0x60 0x60) (bit_and (if swap then p.0 else p.1) 0x0F))
          ∷ a
          ∷ b
          ∷ [])
        f
      ≡ (if swap then both_cols (p.0 % 16) a b else both_rows (p.1 % 16) a b) f
show_row16 true p a b f = show_head 7 p.0 (a ∷ b ∷ []) f (omega arith)
show_row16 false p a b f = show_head 6 p.1 (a ∷ b ∷ []) f (omega arith)

pub show_col8 :
    (swap : Bool) (p : ℕ × ℕ) (byte : ℕ) (f : Frame)
    → show
        (u8 (bit_or (swap_mode swap 0x40 0x50) (bit_and (if swap then p.1 else p.0) 0x0F))
          ∷ byte
          ∷ [])
        f
      ≡ (if swap then set_row8 0 (p.1 % 16) byte else set_col8 (p.0 % 16) 0 byte) f
show_col8 true p byte f = show_head 4 p.1 (byte ∷ []) f (omega arith)
show_col8 false p byte f = show_head 5 p.0 (byte ∷ []) f (omega arith)

pub show_col16 :
    (swap : Bool) (p : ℕ × ℕ) (a b : ℕ) (f : Frame)
    → show
        (u8 (bit_or (swap_mode swap 0x60 0x70) (bit_and (if swap then p.1 else p.0) 0x0F))
          ∷ a
          ∷ b
          ∷ [])
        f
      ≡ (if swap then both_rows (p.1 % 16) a b else both_cols (p.0 % 16) a b) f
show_col16 true p a b f = show_head 6 p.1 (a ∷ b ∷ []) f (omega arith)
show_col16 false p a b f = show_head 7 p.0 (a ∷ b ∷ []) f (omega arith)

pub small : (d : Device) → IsSeries d → HasDims d
small d grid = omega arith

pub asked_both :
    (both : ℕ → ℕ → ℕ → Frame → Frame) (count a : ℕ) (bytes : List ℕ)
    → let sent = if ltb 1 count then bytes else widened bytes in
      both a (get_or bytes 0 0) (if ltb 1 count then get_or bytes 1 0 else 0)
      ≡ both a (get_or sent 0 0) (get_or sent 1 0)
asked_both both count a bytes = elim (Bool-cases (ltb 1 count)) [
  | inl two ↦ rw two refl
  | inr one ↦ rw one refl
]

-- What the user asks for with a row, and with a column: the offset is not used, and a grid of
-- sixteen is blank behind a single byte.
abbrev pub asked_row : Device → ℕ → ℕ → List ℕ → Frame → Frame
asked_row d y count bytes =
    if ltb 8 (get_cols d)
    then both_rows y (get_or bytes 0 0) (if ltb 1 count then get_or bytes 1 0 else 0)
    else set_row8 0 y (get_or bytes 0 0)

abbrev pub asked_col : Device → ℕ → ℕ → List ℕ → Frame → Frame
asked_col d x count bytes =
    if ltb 8 (get_rows d)
    then both_cols x (get_or bytes 0 0) (if ltb 1 count then get_or bytes 1 0 else 0)
    else set_col8 x 0 (get_or bytes 0 0)
