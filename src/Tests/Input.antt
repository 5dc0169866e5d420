-- ===== src/Tests/Input.antt =====
-- Runs of `monome_platform_read` and of the incoming half of src/proto/mext.c.
use libmonome.Common.{
  ℕ, List, [], ◌∷◌, ◌≡◌, ◌≤◌, ◌+◌, ◌++◌, refl, arith, length, true, none, some, Option, ◌⊎◌, inl,
  inr,
}
use libmonome.Common.Int.{ℤ, pos, minus_one}
use libmonome.Device.{get_rows, get_cols}
use libmonome.Event.{Event}
use libmonome.Posix.{platform_read, stream}
use libmonome.Posix.Laws.{platform_read-Answers}
use libmonome.Posix.Ready.{IsReady, platform_read-IsReady}
use libmonome.Mext.Receive.{Mext, mext_next_event}
use libmonome.Mext.Receive.Laws.{mext_next_event-answers}
use libmonome.Mext.Receive.Delivery.{key_event, mext_next_event-key}
use libmonome.Mext.Open.{mext_open, Opening}
use libmonome.Mext.Open.Rounds.{sent_count, mext_open-rounds}
use libmonome.Mext.Open.Laws.{EndsWell, mext_open-EndsWell}
use libmonome.Rotation.Coords.{rotate_coords}
use libmonome.Tests.Devices.{pressed, waiting, heard}

pressed-IsReady : IsReady pressed.monome
pressed-IsReady = ((0x21, []) ∷ (10, 4 ∷ 0x20 ∷ []) ∷ [], 2, refl, refl, omega arith)

platform_read-IsReady_example :
    ((platform_read 3 pressed.monome).0 ≡ (pos 3, 0x21 ∷ 10 ∷ 4 ∷ []))
    × IsReady (platform_read 3 pressed.monome).1
    × (stream (platform_read 3 pressed.monome).1.port.arrivals ≡ 0x20 ∷ [])
unfolding stream
platform_read-IsReady_example =
    platform_read-IsReady 3 pressed.monome pressed-IsReady (omega arith) (omega arith)

platform_read-Answers_example :
    ((platform_read 3 pressed.monome).0.1 ++ stream (platform_read 3 pressed.monome).1.port.arrivals
      ≡ 0x21 ∷ 10 ∷ 4 ∷ 0x20 ∷ [])
    × (length (platform_read 3 pressed.monome).0.1 ≤ 3)
    × (((platform_read 3 pressed.monome).0.0 ≡ pos (length (platform_read 3 pressed.monome).0.1))
        ⊎ ((platform_read 3 pressed.monome).0.0 ≡ pos 0)
        ⊎ ((platform_read 3 pressed.monome).0.0 ≡ minus_one))
unfolding stream
platform_read-Answers_example = platform_read-Answers 3 pressed.monome

mext_next_event-answers_example :
    (r : (ℤ × Option Event) × Mext) × (mext_next_event 5 pressed ≡ some r)
unfolding stream
mext_next_event-answers_example = mext_next_event-answers 5 pressed (omega arith)

mext_next_event-key_example :
    (self' : Mext) × (mext_next_event 3 pressed ≡ some ((pos 1, some (key_event true 3 10)), self'))
    × (stream self'.monome.port.arrivals ≡ 0x20 ∷ [])
    × IsReady self'.monome
unfolding stream rotate_coords get_rows get_cols
mext_next_event-key_example =
    mext_next_event-key 2 3 10 true (0x20 ∷ []) pressed (omega arith) (omega arith) pressed-IsReady
      refl

mext_open-EndsWell_example :
    (o : Opening) × (mext_open true none none 0 (10 ∷ 300 ∷ 1000 ∷ []) waiting ≡ some o)
    × EndsWell true o
mext_open-EndsWell_example =
    mext_open-EndsWell true none none 0 (10 ∷ 300 ∷ 1000 ∷ []) waiting (omega arith)
      (inr (inr (inl (omega arith))))

-- An opening that the clock has cut off.
abbrev cut_off :
    (o : Opening) × (mext_open true none none 0 (10 ∷ 300 ∷ 1000 ∷ []) waiting ≡ some o)
    × EndsWell true o
cut_off =
    mext_open-EndsWell true none none 0 (10 ∷ 300 ∷ 1000 ∷ []) waiting (omega arith)
      (inr (inr (inl (omega arith))))

mext_open-rounds_example : sent_count cut_off.0.self.monome ≤ 6 + sent_count waiting.monome
mext_open-rounds_example =
    mext_open-rounds true none none 0 (10 ∷ 300 ∷ 1000 ∷ []) waiting cut_off.0 cut_off.1

heard-IsReady : (b : ℕ) (bs : List ℕ) → IsReady (heard b bs).monome
heard-IsReady b bs = ((b, bs) ∷ [], 2, refl, refl, omega arith)
