-- ===== src/Rotation/Map.antt =====
-- The bit map callbacks of src/rotation.c, as they are compiled for a 64-bit little-endian
-- machine (`__LP64__` defined, `LM_BIG_ENDIAN` not): eight bytes are turned as one `uint64_t`.
pub mod Swap
pub mod Exchange
pub mod Bytes
pub mod Laws
use libmonome.Common.{ℕ, zero, suc, ◌+◌, ◌*◌, ◌/◌, ◌%◌, ◌^◌, List, [], ◌∷◌, tabulate, u64}
use libmonome.Common.{bit_and, bit_or, bit_xor, ◌<<<◌, ◌>>>◌}
use libmonome.Device.{Rotate, rotate_0, rotate_90, rotate_180, rotate_270}

-- `*((uint64_t *) data)`: the first byte is the lowest.
unfoldable pub load64 : List ℕ → ℕ
load64 [] = 0
load64 (b ∷ bs) = b + load64 bs * 256

pub store64 : ℕ → List ℕ
store64 x = tabulate 8 0 (λ i. x >>> (8 * i) % 256)

-- The macro `swap(f, c)`, on a word of `width` bits.
unfoldable pub swap : (width f c x : ℕ) → ℕ
swap width f c x =
    let t = bit_and (bit_xor x (x <<< f % 2 ^ width)) c in bit_xor x (bit_xor t (t >>> f))

-- `(x & m) >> f | (x & n) << f`, on a word of `width` bits.
unfoldable pub exchange : (width f m n x : ℕ) → ℕ
exchange width f m n x = bit_or (bit_and x m >>> f) (bit_and x n <<< f % 2 ^ width)

pub r0_map_cb : List ℕ → List ℕ
r0_map_cb bytes = bytes

pub r90_map_cb : List ℕ → List ℕ
unfolding load64 store64 swap
r90_map_cb bytes =
    let x = load64 bytes in
    let x = swap 64 8 0xFF00FF00FF00FF00 x in
    let x = swap 64 9 0xAA00AA00AA00AA00 x in
    let x = swap 64 16 0xFFFF0000FFFF0000 x in
    let x = swap 64 18 0xCCCC0000CCCC0000 x in
    let x = swap 64 32 0xFFFFFFFF00000000 x in let x = swap 64 36 0xF0F0F0F000000000 x in store64 x

pub r180_map_cb : List ℕ → List ℕ
unfolding load64 store64 exchange
r180_map_cb bytes =
    let x = load64 bytes in
    let x = bit_or (x >>> 32) (u64 (x <<< 32)) in
    let x = exchange 64 16 0xFFFF0000FFFF0000 0x0000FFFF0000FFFF x in
    let x = exchange 64 8 0xFF00FF00FF00FF00 0x00FF00FF00FF00FF x in
    let x = exchange 64 4 0xF0F0F0F0F0F0F0F0 0x0F0F0F0F0F0F0F0F x in
    let x = exchange 64 2 0xCCCCCCCCCCCCCCCC 0x3333333333333333 x in
    let x = exchange 64 1 0xAAAAAAAAAAAAAAAA 0x5555555555555555 x in store64 x

pub r270_map_cb : List ℕ → List ℕ
unfolding load64 store64 swap
r270_map_cb bytes =
    let x = load64 bytes in
    let x = swap 64 8 0xFF00FF00FF00FF00 x in
    let x = swap 64 7 0x5500550055005500 x in
    let x = swap 64 16 0xFFFF0000FFFF0000 x in
    let x = swap 64 14 0x3333000033330000 x in
    let x = swap 64 32 0xFFFFFFFF00000000 x in let x = swap 64 28 0x0F0F0F0F00000000 x in store64 x

-- The `map_cb` of an entry of `rotspec`.
unfoldable pub map_cb : Rotate → List ℕ → List ℕ
unfolding r0_map_cb r90_map_cb r180_map_cb r270_map_cb
map_cb rotate_0 = r0_map_cb
map_cb rotate_90 = r90_map_cb
map_cb rotate_180 = r180_map_cb
map_cb rotate_270 = r270_map_cb
