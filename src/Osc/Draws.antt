-- ===== src/Osc/Draws.antt =====
-- What the led functions of src/proto/osc.c ask the other process to show.
use libmonome.Common.{
  ℕ, ◌+◌, ◌<◌, ◌≡◌, refl, ap, ◌∙◌, List, [], ◌∷◌, ◌++◌, map, length, drop, get_or, tabulate,
  tabulate-get_or, replicate, ap₂, Bool, not, ◌==◌, if◌then◌else◌, arith, ◌⊎◌, inl, inr, suc, zero,
}
use libmonome.Common.Int.{pos, eqb_ℤ}
use libmonome.Rotation.Map.Bytes.{AreBytes, get_or-lt}
use libmonome.Frame.{Frame, is_on, set_led, set_all, set_map, set_row, set_col}
use libmonome.Liblo.{Text, codes, text_eq, int32, uint32, Message}
use libmonome.Liblo.Laws.{text_eq-append, uint32-int32}
use libmonome.Core.Dispatch.{
  Op, monome_led_set, monome_led_all, monome_led_map, monome_led_row, monome_led_col,
}
use libmonome.Osc.{Osc}
use libmonome.Osc.Led.{proto_osc_capabilities}
use libmonome.Osc.Open.{IsOpen}

abbrev number : Message → ℕ → ℕ
number m i = uint32 (get_or m.argv i (pos 0))

abbrev lit : Message → ℕ → Bool
lit m i = not (eqb_ℤ (get_or m.argv i (pos 0)) (pos 0))

abbrev rows : Message → List ℕ
rows m = map uint32 (drop 2 m.argv)

-- The picture after a message: the led messages of serialosc, by their paths behind the prefix.
unfoldable pub shown : Text → Message → Frame → Frame
unfolding text_eq
shown prefix m f =
    if text_eq m.path (prefix ++ codes "/grid/led/set")
    then set_led (number m 0) (number m 1) (lit m 2) f
    else if text_eq m.path (prefix ++ codes "/grid/led/all")
    then set_all (lit m 0) f
    else if text_eq m.path (prefix ++ codes "/grid/led/map")
    then set_map (number m 0) (number m 1) (rows m) f
    else if text_eq m.path (prefix ++ codes "/grid/led/row")
    then set_row (number m 0) (number m 1) (length (rows m)) (rows m) f
    else if text_eq m.path (prefix ++ codes "/grid/led/col")
    then set_col (number m 0) (number m 1) (length (rows m)) (rows m) f
    else f

abbrev sending : Osc → Message → Osc
sending self message = record self { link = record l { sent = l.sent ++ message ∷ [] } }
  where
    open self use {link as l}

-- The operation sends one message, answers what liblo answers, changes nothing else, and the message
-- makes of any picture the one that is wanted.
pub record Draws (prefix : Text) (op : Op Osc) (self : Osc) (want : Frame → Frame) : Type 0 where
  pub message : Message
  pub sends : op self ≡ (self.link.answer (self.link.sent ++ message ∷ []), sending self message)
  pub shows : (f : Frame) → shown prefix message f ≡ want f

truth_lit : (on : ℕ) → not (eqb_ℤ (if on == 0 then pos 0 else pos 1) (pos 0)) ≡ is_on on
truth_lit on = ground arith

int32_lit : (n : ℕ) → n < 4294967296 → not (eqb_ℤ (int32 n) (pos 0)) ≡ is_on n
int32_lit n h = ground arith

uint32_bytes :
    (n lo : ℕ) (bits : List ℕ)
    → AreBytes bits
    → map uint32 (tabulate n lo (λ i. pos (get_or bits i 0))) ≡ tabulate n lo (λ i. get_or bits i 0)
uint32_bytes zero lo bits h = refl
uint32_bytes (suc n) lo bits h =
    ap₂ ◌∷◌ (omega (arith, get_or-lt bits lo h)) (uint32_bytes n (suc lo) bits h)

module _ (prefix : Text) (self : Osc) (o : IsOpen prefix self) where
  led_set-Draws :
      (x y on : ℕ)
      → x < 4294967296
      → y < 4294967296
      → Draws prefix (monome_led_set proto_osc_capabilities x y on) self (set_led x y (is_on on))
  unfolding monome_led_set proto_osc_capabilities shown text_eq
  led_set-Draws x y on hx hy = record {
    message = record {
      path = prefix ++ codes "/grid/led/set";
      types = codes "iii";
      argv = int32 x ∷ int32 y ∷ (if on == 0 then pos 0 else pos 1) ∷ [];
    };
    sends = simp o.cached refl;
    shows = λ f. simp text_eq-append (
        rw (uint32-int32 x hx, uint32-int32 y hy)
          (ap (λ (b : Bool). set_led x y b f) (truth_lit on)));
  }

  led_all-Draws :
      (status : ℕ)
      → status < 4294967296
      → Draws prefix (monome_led_all proto_osc_capabilities status) self (set_all (is_on status))
  unfolding monome_led_all proto_osc_capabilities shown text_eq
  led_all-Draws status h = record {
    message = record {
      path = prefix ++ codes "/grid/led/all";
      types = codes "i";
      argv = int32 status ∷ [];
    };
    sends = simp o.cached refl;
    shows = λ f. simp text_eq-append (ap (λ (b : Bool). set_all b f) (int32_lit status h));
  }

  led_map-Draws :
      (x y : ℕ) (bits : List ℕ)
      → x < 4294967296
      → y < 4294967296
      → AreBytes bits
      → length bits ≡ 8
      → Draws prefix (monome_led_map proto_osc_capabilities x y bits) self (set_map x y bits)
  unfolding monome_led_map proto_osc_capabilities shown text_eq
  led_map-Draws x y bits hx hy bytes eight = record {
    message = record {
      path = prefix ++ codes "/grid/led/map";
      types = codes "iiiiiiiiii";
      argv = int32 x ∷ int32 y ∷ tabulate 8 0 (λ i. pos (get_or bits i 0));
    };
    sends = simp o.cached refl;
    shows = λ f. simp text_eq-append (
        rw (uint32-int32 x hx, uint32-int32 y hy)
          (ap (λ (rs : List ℕ). set_map x y rs f)
            (uint32_bytes 8 0 bits bytes ∙ tabulate-get_or 8 bits 0 eight)));
  }

  abbrev line_message : Text → ℕ → ℕ → List ℕ → Message
  line_message path a b bits = record {
    path = prefix ++ path;
    types = replicate (2 + length bits) b'i';
    argv = int32 a ∷ int32 b ∷ tabulate (length bits) 0 (λ i. pos (get_or bits i 0));
  }

  led_row-Draws :
      (x y : ℕ) (bits : List ℕ)
      → x < 4294967296
      → y < 4294967296
      → AreBytes bits
      → (length bits ≡ 1) ⊎ (length bits ≡ 2)
      → Draws prefix
          (monome_led_row proto_osc_capabilities x y (length bits) bits)
          self
          (set_row x y (length bits) bits)
  unfolding monome_led_row proto_osc_capabilities shown text_eq
  led_row-Draws x y bits hx hy bytes few = record {
    message = line_message (codes "/grid/led/row") x y bits;
    sends =
        simp o.cached (elim few [ inl one ↦ ground (arith, one) | inr two ↦ ground (arith, two) ]);
    shows = λ f. simp text_eq-append (
        rw (uint32-int32 x hx, uint32-int32 y hy)
          (ap (λ (rs : List ℕ). set_row x y (length rs) rs f)
            (uint32_bytes (length bits) 0 bits bytes ∙ tabulate-get_or (length bits) bits 0 refl)));
  }

  led_col-Draws :
      (x y : ℕ) (bits : List ℕ)
      → x < 4294967296
      → y < 4294967296
      → AreBytes bits
      → (length bits ≡ 1) ⊎ (length bits ≡ 2)
      → Draws prefix
          (monome_led_col proto_osc_capabilities x y (length bits) bits)
          self
          (set_col x y (length bits) bits)
  unfolding monome_led_col proto_osc_capabilities shown text_eq
  led_col-Draws x y bits hx hy bytes few = record {
    message = line_message (codes "/grid/led/col") x y bits;
    sends =
        simp o.cached (elim few [ inl one ↦ ground (arith, one) | inr two ↦ ground (arith, two) ]);
    shows = λ f. simp text_eq-append (
        rw (uint32-int32 x hx, uint32-int32 y hy)
          (ap (λ (rs : List ℕ). set_col x y (length rs) rs f)
            (uint32_bytes (length bits) 0 bits bytes ∙ tabulate-get_or (length bits) bits 0 refl)));
  }

  -- On an open device each of led set, all, map, row and col makes one send to liblo, answers
  -- what liblo answers and changes nothing else, and the message asks the other process for the
  -- picture that the function is to draw. The numbers fit in 32 bits, a block has eight bytes,
  -- and a row or column one or two.
  pub proto_osc_capabilities-Draws :
      (x y on : ℕ) (block line : List ℕ)
      → x < 4294967296
      → y < 4294967296
      → on < 4294967296
      → AreBytes block
      → length block ≡ 8
      → AreBytes line
      → (length line ≡ 1) ⊎ (length line ≡ 2)
      → let m = proto_osc_capabilities in
        Draws prefix (monome_led_set m x y on) self (set_led x y (is_on on))
        × Draws prefix (monome_led_all m on) self (set_all (is_on on))
        × Draws prefix (monome_led_map m x y block) self (set_map x y block)
        × Draws prefix
            (monome_led_row m x y (length line) line)
            self
            (set_row x y (length line) line)
        × Draws prefix
            (monome_led_col m x y (length line) line)
            self
            (set_col x y (length line) line)
  proto_osc_capabilities-Draws x y on block line hx hy ho hb eight hl few = (
    led_set-Draws x y on hx hy,
    led_all-Draws on ho,
    led_map-Draws x y block hx hy hb eight,
    led_row-Draws x y line hx hy hl few,
    led_col-Draws x y line hx hy hl few,
  )
