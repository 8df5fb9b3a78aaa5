-- ===== src/StreamVByte/Avx.antt =====
-- The vector half of svb_decode_avx_d1_init in streamvbytedelta.c: 32 values for every 8 key bytes.
pub mod Tables
pub mod Quad
pub mod Scalar
pub mod Halves
pub mod Ones
pub mod Follows
pub mod Blocks
pub mod Decode
pub mod Short
mod Tests
use csearch.Common.{ℕ, zero, suc, ◌+◌, ◌*◌, ◌/◌, ◌%◌, ◌^◌, List, [], ◌∷◌, ◌++◌, Option, none, some}
use csearch.Common.{Bool, true, false, ◌==◌, ltb, leb, if◌then◌else◌, length, get_elem?, drop}
use csearch.Common.Words.{add32}
use csearch.Simd.{
  M128, byte_at, loadu_si128, loadl_epi64, lane, storeu_si128, add_epi32, set1_epi32,
}
use csearch.Simd.{shuffle_epi8, shuffle_epi32, slli_si128, cvtepu8_epi16, cvtepu16_epi32}
use csearch.StreamVByte.{◌>>=◌, key_len, svb_decode_scalar_d1_init}
use csearch.StreamVByte.Avx.Tables.{length_table, shuffle_table}

-- `_decode_avx`: the four values of a key, and `dataPtr` behind them.
unfoldable pub decode_avx : ℕ → List ℕ → Option (M128 × List ℕ)
decode_avx key p = do
  len ← get_elem? length_table key
  bytes ← loadu_si128 p
  shuf ← get_elem? shuffle_table key
  some (shuffle_epi8 bytes (byte_at shuf), drop len p)

-- `_write_avx_d1`: the vector that it stores and returns.
unfoldable pub write_avx_d1 : M128 → M128 → M128
write_avx_d1 vec prev =
    let shifted = slli_si128 vec 4 in
    let last = shuffle_epi32 prev 0xff in
    let pairs = add_epi32 vec shifted in
    let shifted' = slli_si128 pairs 8 in
    let with_prev = add_epi32 pairs last in add_epi32 with_prev shifted'

-- `High16To32`: two uint64_t.
unfoldable pub high16_to_32 : M128
high16_to_32 j =
    (if ltb j 8 then 0xffff0b0affff0908 else 0xffff0f0effff0d0c) / 2 ^ (8 * (j % 8)) % 256

-- `_write_16bit_avx_d1`: the two vectors that it stores; it returns the second.
unfoldable pub write_16bit_avx_d1 : M128 → M128 → M128 × M128
write_16bit_avx_d1 vec prev =
    let shifted = slli_si128 vec 2 in
    let last = shuffle_epi32 prev 0xff in
    let pairs = add_epi32 vec shifted in
    let shifted' = slli_si128 pairs 4 in
    let fours = add_epi32 pairs shifted' in
    let v1 = add_epi32 (cvtepu16_epi32 fours) last in
    (v1, add_epi32 v1 (shuffle_epi8 fours high16_to_32))

-- `Data = _decode_avx(key, &dataPtr); Prev = _write_avx_d1(out, Data, Prev);`: the values stored,
-- `dataPtr` and `Prev`.
unfoldable pub avx_quad : ℕ → List ℕ → M128 → Option (List ℕ × List ℕ × M128)
avx_quad key p prev = do
  (vec, p') ← decode_avx key p
  let prev' = write_avx_d1 vec prev
  some (storeu_si128 prev', p', prev')

-- The eight calls in a row: `n` times `keys & 0x00FF`, `(keys & 0xFF00) >> 8` and `keys >>= 16`.
unfoldable pub avx_pairs : ℕ → ℕ → List ℕ → M128 → Option (List ℕ × List ℕ × M128)
avx_pairs zero keys p prev = some ([], p, prev)
avx_pairs (suc n) keys p prev = do
  (out1, p1, prev1) ← avx_quad (keys % 256) p prev
  (out2, p2, prev2) ← avx_quad (keys / 256 % 256) p1 prev1
  (out, p', prev') ← avx_pairs n (keys / 2 ^ 16) p2 prev2
  some (out1 ++ (out2 ++ out), p', prev')

-- `Data = _mm_cvtepu8_epi16(...); Prev = _write_16bit_avx_d1(out, Data, Prev);` on a vector loaded.
unfoldable pub avx_eight : M128 → M128 → List ℕ × M128
avx_eight bytes prev =
    let (v1, v2) = write_16bit_avx_d1 (cvtepu8_epi16 bytes) prev in
    (storeu_si128 v1 ++ storeu_si128 v2, v2)

-- "32 1-byte ints in a row". The last load of the last block takes 8 bytes only.
unfoldable pub avx_ones : Bool → List ℕ → M128 → Option (List ℕ × List ℕ × M128)
avx_ones last p prev = do
  bytes1 ← loadu_si128 p
  let (out1, prev1) = avx_eight bytes1 prev
  bytes2 ← loadu_si128 (drop 8 p)
  let (out2, prev2) = avx_eight bytes2 prev1
  bytes3 ← loadu_si128 (drop 16 p)
  let (out3, prev3) = avx_eight bytes3 prev2
  bytes4 ← (if last then loadl_epi64 (drop 24 p) else loadu_si128 (drop 24 p))
  let (out4, prev4) = avx_eight bytes4 prev3
  some (out1 ++ (out2 ++ (out3 ++ out4)), drop 32 p, prev4)

-- One block of 8 key bytes.
unfoldable pub avx_block : Bool → ℕ → List ℕ → M128 → Option (List ℕ × List ℕ × M128)
avx_block last keys p prev = if keys == 0 then avx_ones last p prev else avx_pairs 4 keys p prev

-- A uint64_t load from the keys.
unfoldable pub load_keys : List ℕ → Option ℕ
load_keys (a ∷ b ∷ c ∷ d ∷ e ∷ f ∷ g ∷ h ∷ keys) =
    some
      (a + b * 2 ^ 8 + c * 2 ^ 16 + d * 2 ^ 24 + e * 2 ^ 32 + f * 2 ^ 40 + g * 2 ^ 48 + h * 2 ^ 56)
load_keys _ = none

-- The loop over `Offset`, with `n` rounds left, and the block behind it. `nextkeys` was loaded
-- before; `keys` stands behind it.
unfoldable pub avx_loop : ℕ → ℕ → List ℕ → List ℕ → M128 → Option (List ℕ × List ℕ × M128)
avx_loop zero nextkeys keys p prev = avx_block true nextkeys p prev
avx_loop (suc n) nextkeys keys p prev = do
  nextkeys' ← load_keys keys
  (out, p', prev') ← avx_block false nextkeys p prev
  (out', p'', prev'') ← avx_loop n nextkeys' (drop 8 keys) p' prev'
  some (out ++ out', p'', prev'')

-- The values decoded by vectors, `dataPtr`, and `prev = out[-1]`.
unfoldable pub avx_part : ℕ → List ℕ → List ℕ → ℕ → Option (List ℕ × List ℕ × ℕ)
avx_part zero keys p prev = some ([], p, prev)
avx_part (suc n) keys p prev = do
  nextkeys ← load_keys keys
  (out, p', prev') ← avx_loop n nextkeys (drop 8 keys) p (set1_epi32 prev)
  some (out, p', lane prev' 3)

-- `svb_decode_avx_d1_init`. `keybytes / 8` blocks go by vectors, `count & 31` values by the scalar
-- loop, from key byte `keybytes - (keybytes & 7)` on.
unfoldable pub svb_decode_avx_d1_init : List ℕ → List ℕ → ℕ → ℕ → Option (List ℕ × List ℕ)
svb_decode_avx_d1_init keys p count prev = do
  let blocks = count / 4 / 8
  (out, p', prev') ← avx_part blocks keys p prev
  (out', p'') ← svb_decode_scalar_d1_init (drop (8 * blocks) keys) p' (count % 32) prev'
  some (out ++ out', p'')

-- `streamvbyte_delta_decode`
unfoldable pub streamvbyte_delta_decode : List ℕ → ℕ → ℕ → Option (List ℕ × List ℕ)
streamvbyte_delta_decode bytes count prev =
    svb_decode_avx_d1_init bytes (drop (key_len count) bytes) count prev
