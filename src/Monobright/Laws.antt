-- ===== src/Monobright/Laws.antt =====
-- The bits of a row of levels that src/monobright.c has reduced.
use Prim.Native.Nat.{max}
use libmonome.Common.{ℕ, zero, suc, ◌+◌, ◌-◌, inl, inr, Bool-cases, ◌<◌, ◌≡◌, refl, ap, ◌∙◌, arith}
use libmonome.Common.{List, get_or, ltb, leb, ◌&&◌, ◌||◌, ◌==◌}
use libmonome.Common.{bit_or, u8, ◌<<<◌}
use libmonome.Common.Bits.{
  testbit, testbit-bit_or, testbit-mod, testbit-shl, testbit-shl_low, testbit-zero_left,
}
use libmonome.Monobright.{reduce_level_to_bit, reduce_loop, reduce_levels_to_bitmask}

testbit-one : (k : ℕ) → testbit 1 k ≡ (k == 0)
unfolding testbit
testbit-one zero = refl
testbit-one (suc k) = testbit-zero_left k ∙ ground arith

testbit_at : (b i j : ℕ) → testbit (reduce_level_to_bit b <<< i) j ≡ ((i == j) && ltb 7 b)
testbit_at b i j = elim (Bool-cases (ltb 7 b)) [
  | inl on ↦ rw on (
      ground (
        arith,
        testbit-shl_low 1 i j,
        testbit-shl 1 i (j - i),
        ap (testbit (1 <<< i)) (rejoin i j),
        testbit-one (j - i),
      ))
  | inr off ↦ rw off (ground (arith, testbit-zero_left j))
]
  where
    rejoin : (a b : ℕ) → b - a + a ≡ max a b
    rejoin a b = omega arith

testbit-reduce_loop :
    (levels : List ℕ) (left i byte j : ℕ)
    → j < 8
    → testbit (reduce_loop levels left i byte) j
      ≡ (testbit byte j || (leb i j && ltb j (i + left) && ltb 7 (get_or levels j 0)))
unfolding reduce_loop
testbit-reduce_loop levels zero i byte j h = ground arith
testbit-reduce_loop levels (suc left) i byte j h =
    testbit-reduce_loop levels left (suc i)
      (u8 (bit_or byte (reduce_level_to_bit (get_or levels i 0) <<< i))) j h
    ∙ ground (
      arith,
      testbit-mod (bit_or byte (reduce_level_to_bit (get_or levels i 0) <<< i)) 8 j h,
      testbit-bit_or byte (reduce_level_to_bit (get_or levels i 0) <<< i) j,
      testbit_at (get_or levels i 0) i j,
    )

-- Bit `j` of a row of eight levels that is reduced to a byte, for `j` below 8, is set exactly
-- when level `j` is above 7.
pub testbit-reduce_levels_to_bitmask :
    (levels : List ℕ) (j : ℕ)
    → j < 8
    → testbit (reduce_levels_to_bitmask levels) j ≡ ltb 7 (get_or levels j 0)
unfolding reduce_levels_to_bitmask
testbit-reduce_levels_to_bitmask levels j h =
    testbit-reduce_loop levels 8 0 0 j h ∙ ground (arith, testbit-zero_left j)
