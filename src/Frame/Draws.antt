-- ===== src/Frame/Draws.antt =====
-- What it means for an operation on a rotated grid to draw what the user asked for, over any
-- protocol: `show` is what one written buffer does to the device's picture.
use libmonome.Common.{ℕ, ◌+◌, ◌≡◌, refl, sym, ap, ◌∙◌, arith, zero, suc, drop, get_or}
use libmonome.Common.{List, [], ◌∷◌, ◌++◌}
use libmonome.Common.Int.{ℤ}
use libmonome.Device.{Device, Io, pure, ◌>>=◌, platform_write, get_rows, get_cols}
use libmonome.Rotation.Coords.{rotate_coords}
use libmonome.Frame.{Frame, view, SameOn, set_row, set_col, set_row8, set_col8}
use mathlib.Core.List.{append_assoc, append-nil}

-- The device after `msgs` have been written to it, each in one call.
abbrev pub sending : Device → List (List ℕ) → Device
sending d msgs = record d { port = record p { sent = p.sent ++ msgs } }
  where
    open d use {port as p}

module _ (show : List ℕ → Frame → Frame) where
  unfoldable pub show_all : List (List ℕ) → Frame → Frame
  show_all [] f = f
  show_all (msg ∷ msgs) f = show_all msgs (show msg f)

  -- The operation writes `msgs` and changes nothing else, and whatever the device showed, the user
  -- then sees the picture that `want` makes of the one before.
  pub record Draws {ℓ} {A : Type ℓ} (op : Io A) (d : Device) (want : Frame → Frame) : Type ℓ where
    pub msgs : List (List ℕ)
    pub writes : (op d).1 ≡ sending d msgs
    pub shows : (f : Frame) → SameOn d (view d (show_all msgs f)) (want (view d f))

  pub show_all-append :
      (ms ns : List (List ℕ)) (f : Frame) → show_all (ms ++ ns) f ≡ show_all ns (show_all ms f)
  unfolding show_all
  show_all-append [] ns f = refl
  show_all-append (m ∷ ms) ns f = show_all-append ms ns (show m f)

pub view-sending :
    (d : Device) (ms : List (List ℕ)) (f : Frame) (u v : ℕ)
    → view (sending d ms) f u v ≡ view d f u v
unfolding view rotate_coords get_rows get_cols
view-sending d ms f u v = ground arith

pub sending-sending :
    (d : Device) (ms ns : List (List ℕ)) → sending (sending d ms) ns ≡ sending d (ms ++ ns)
sending-sending d ms ns =
    ap (λ (s : List (List ℕ)). record d { port = record p { sent = s } })
      (append_assoc p.sent ms ns)
  where
    open d use {port as p}

-- An update is local if the LEDs of the user's grid after it depend only on those before it.
abbrev pub IsLocal : Device → (Frame → Frame) → Type 0
IsLocal d want = (f g : Frame) → SameOn d f g → SameOn d (want f) (want g)

pub Draws-bind {ℓ} :
    {A B : Type ℓ} (show : List ℕ → Frame → Frame) (op : Io A) (next : A → Io B) (d : Device)
    (want after : Frame → Frame)
    → (first : Draws show op d want) → Draws show (next (op d).0) (sending d first.msgs) after
    → IsLocal d after
    → Draws show (op >>= next) d (λ f. after (want f))
unfolding get_rows get_cols
Draws-bind show op next d want after first second local = record {
  msgs = first.msgs ++ second.msgs;
  writes =
      ap (λ (e : Device). (next (op d).0 e).1) first.writes
      ∙ second.writes
      ∙ sending-sending d first.msgs second.msgs;
  shows = λ f u v hu hv.
      ap (λ (g : Frame). view d g u v) (show_all-append show first.msgs second.msgs f)
      ∙ sym (view-sending d first.msgs (show_all show second.msgs (show_all show first.msgs f)) u v)
      ∙ second.shows (show_all show first.msgs f) u v hu hv
      ∙ local (view (sending d first.msgs) (show_all show first.msgs f)) (want (view d f))
          (λ a b ha hb.
            view-sending d first.msgs (show_all show first.msgs f) a b ∙ first.shows f a b ha hb)
          u v hu hv;
}

-- Nothing written, nothing changed.
pub Draws-pure {ℓ} :
    {A : Type ℓ} (show : List ℕ → Frame → Frame) (a : A) (d : Device)
    → Draws show (pure a) d (λ f. f)
unfolding show_all
Draws-pure show a d = record {
  msgs = [];
  writes =
      ap (λ (s : List (List ℕ)). record d { port = record p { sent = s } })
        (sym (append-nil p.sent));
  shows = λ f u v hu hv. refl;
}
  where
    open d use {port as p}

-- An operation that makes one write.
pub Draws-write :
    (show : List ℕ → Frame → Frame) (op : Io ℤ) (d : Device) (msg : List ℕ) (want : Frame → Frame)
    → op d ≡ platform_write msg d
    → ((f : Frame) → SameOn d (view d (show msg f)) (want (view d f)))
    → Draws show op d want
unfolding platform_write show_all
Draws-write show op d msg want e draws = record {
  msgs = msg ∷ [];
  writes = ap (λ (r : ℤ × Device). r.1) e;
  shows = draws;
}

-- An operation that acts on `d` as another one does, for a picture that is the same update.
pub Draws-as {ℓ} :
    {A : Type ℓ} (show : List ℕ → Frame → Frame) (op op' : Io A) (d : Device)
    (want want' : Frame → Frame)
    → op d ≡ op' d
    → want ≡ want'
    → Draws show op' d want'
    → Draws show op d want
Draws-as {A} show op op' d want want' e same drawn = record {
  msgs = drawn.msgs;
  writes = ap (λ (r : A × Device). r.1) e ∙ drawn.writes;
  shows = λ f u v hu hv.
      drawn.shows f u v hu hv ∙ ap (λ (w : Frame → Frame). w (view d f) u v) (sym same);
}

pub set_row-local :
    (x y n : ℕ) (bytes : List ℕ) (f g : Frame) (u v : ℕ)
    → f u v ≡ g u v
    → set_row x y n bytes f u v ≡ set_row x y n bytes g u v
unfolding set_row
set_row-local x y zero bytes f g u v e = e
set_row-local x y (suc n) bytes f g u v e =
    set_row-local (x + 8) y n (drop 1 bytes) (set_row8 x y (get_or bytes 0 0) f)
      (set_row8 x y (get_or bytes 0 0) g) u v (ground arith)

pub set_col-local :
    (x y n : ℕ) (bytes : List ℕ) (f g : Frame) (u v : ℕ)
    → f u v ≡ g u v
    → set_col x y n bytes f u v ≡ set_col x y n bytes g u v
unfolding set_col
set_col-local x y zero bytes f g u v e = e
set_col-local x y (suc n) bytes f g u v e =
    set_col-local x (y + 8) n (drop 1 bytes) (set_col8 x y (get_or bytes 0 0) f)
      (set_col8 x y (get_or bytes 0 0) g) u v (ground arith)
