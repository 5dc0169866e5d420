-- ===== src/Rotation/Builds/Long.antt =====
-- The bit map callbacks of src/rotation.c on a 64-bit big-endian machine, as rotations.
use libmonome.Common.{
  ℕ, ◌+◌, ◌-◌, ◌*◌, ◌^◌, ◌<◌, ◌≤◌, ◌≡◌, refl, ap, ◌∙◌, arith, List, length, bit_or, u64, ◌<<<◌,
  ◌>>>◌,
}
use libmonome.Common.Bits.{testbit}
use libmonome.Device.{Rotate, rotate_0, rotate_90, rotate_180, rotate_270}
use libmonome.Rotation.Map.Bytes.{AreBytes}
use libmonome.Rotation.Map.Swap.{run, testbit-run}
use libmonome.Rotation.Map.Exchange.{
  exchange_run, origin, origin-lt, testbit-exchange_run, testbit-halves,
}
use libmonome.Rotation.Map.Laws.{
  pixel, turn, masks_90, masks_270, masks_90-AreMasks, masks_270-AreMasks, source_90, source_270,
  lines_180, lines_180-AreLines, source_180,
}
use libmonome.Rotation.Builds.{big, lp64, load, map_cb_on}
use libmonome.Rotation.Builds.Words.{load-lt, testbit-load, testbit-store}

module _ (rows : List ℕ) (r c : ℕ) (bytes : AreBytes rows) (eight : 8 ≤ length rows) (hr : r < 8)
    (hc : c < 8) where
  be64_90 : pixel (map_cb_on (lp64 big) rotate_90 rows) r c ≡ pixel rows c (7 - r)
  unfolding map_cb_on
  be64_90 =
      testbit-store big 8 (run 64 masks_270 (load big 8 rows)) r c hr hc
      ∙ testbit-run 64 masks_270 (load big 8 rows) (8 * (7 - r) + c) masks_270-AreMasks
          (omega arith)
      ∙ ap (testbit (load big 8 rows)) (source_270 (8 * (7 - r) + c) (omega arith) ∙ omega arith)
      ∙ testbit-load big 8 rows (7 - c) (7 - r) bytes (omega arith) (omega arith)
      ∙ ap (λ k. pixel rows k (7 - r)) (omega arith)

  be64_270 : pixel (map_cb_on (lp64 big) rotate_270 rows) r c ≡ pixel rows (7 - c) r
  unfolding map_cb_on
  be64_270 =
      testbit-store big 8 (run 64 masks_90 (load big 8 rows)) r c hr hc
      ∙ testbit-run 64 masks_90 (load big 8 rows) (8 * (7 - r) + c) masks_90-AreMasks (omega arith)
      ∙ ap (testbit (load big 8 rows)) (source_90 (8 * (7 - r) + c) (omega arith) ∙ omega arith)
      ∙ testbit-load big 8 rows c r bytes (omega arith) (omega arith)

  be64_180 : pixel (map_cb_on (lp64 big) rotate_180 rows) r c ≡ pixel rows (7 - r) (7 - c)
  unfolding map_cb_on
  be64_180 =
      testbit-store big 8 (exchange_run 64 lines_180 (swapped (load big 8 rows))) r c hr hc
      ∙ testbit-exchange_run 64 lines_180 (swapped (load big 8 rows)) (8 * (7 - r) + c)
          lines_180-AreLines (omega arith)
      ∙ testbit-halves 32 (load big 8 rows) (origin lines_180 (8 * (7 - r) + c)) narrow
          (origin-lt 64 lines_180 (8 * (7 - r) + c) lines_180-AreLines (omega arith))
      ∙ ap (testbit (load big 8 rows)) (source_180 (8 * (7 - r) + c) (omega arith) ∙ omega arith)
      ∙ testbit-load big 8 rows r (7 - c) bytes (omega arith) (omega arith)
    where
      swapped : ℕ → ℕ
      swapped x = bit_or (x >>> 32) (u64 (x <<< 32))

      narrow : load big 8 rows < 2 ^ 64
      narrow = omega (arith, load-lt big 8 rows bytes eight)

-- On a 64-bit big-endian machine each callback is the same rotation of the picture.
pub turn_be64 :
    (rot : Rotate) (rows : List ℕ) (r c : ℕ)
    → AreBytes rows
    → length rows ≡ 8
    → r < 8
    → c < 8
    → pixel (map_cb_on (lp64 big) rot rows) r c ≡ pixel rows (turn rot r c).0 (turn rot r c).1
unfolding map_cb_on
turn_be64 rotate_0 rows r c bytes eight hr hc = refl
turn_be64 rotate_90 rows r c bytes eight hr hc = be64_90 rows r c bytes (omega arith) hr hc
turn_be64 rotate_180 rows r c bytes eight hr hc = be64_180 rows r c bytes (omega arith) hr hc
turn_be64 rotate_270 rows r c bytes eight hr hc = be64_270 rows r c bytes (omega arith) hr hc
