-- ===== src/PlainVByte/Avx.antt =====
-- svb_decode_avx_simple of streamvbyte.c: 32 values for every 8 key bytes.
pub mod Tables
pub mod Scalar
pub mod Follows
pub mod Decode
mod Tests
use csearch.Common.{ℕ, zero, suc, ◌+◌, ◌*◌, ◌/◌, ◌%◌, ◌^◌, List, [], ◌∷◌, ◌++◌, Option, none, some}
use csearch.Common.{get_elem?, drop}
use csearch.Simd.{M128, byte_at, loadu_si128, storeu_si128, shuffle_epi8}
use csearch.StreamVByte.{◌>>=◌, key_len}
use csearch.StreamVByte.Avx.{load_keys}
use csearch.PlainVByte.{svb_decode_scalar}
use csearch.PlainVByte.Avx.Tables.{plain_length_table, plain_shuffle_table}

-- `_decode_avx`: the four values of a key, and `dataPtr` behind them.
unfoldable pub plain_decode_avx : ℕ → List ℕ → Option (M128 × List ℕ)
plain_decode_avx key p = do
  len ← get_elem? plain_length_table key
  bytes ← loadu_si128 p
  shuf ← get_elem? plain_shuffle_table key
  some (shuffle_epi8 bytes (byte_at shuf), drop len p)

-- `Data = _decode_avx(key, &dataPtr); _write_avx(out, Data);`: the values stored and `dataPtr`.
unfoldable pub plain_quad : ℕ → List ℕ → Option (List ℕ × List ℕ)
plain_quad key p = do (vec, p') ← plain_decode_avx key p; some (storeu_si128 vec, p')

-- The eight calls in a row: `n` times `keys & 0xFF`, `(keys & 0xFF00) >> 8` and `keys >>= 16`.
unfoldable pub plain_pairs : ℕ → ℕ → List ℕ → Option (List ℕ × List ℕ)
plain_pairs zero keys p = some ([], p)
plain_pairs (suc n) keys p = do
  (out1, p1) ← plain_quad (keys % 256) p
  (out2, p2) ← plain_quad (keys / 256 % 256) p1
  (out, p') ← plain_pairs n (keys / 2 ^ 16) p2
  some (out1 ++ (out2 ++ out), p')

-- The loop over `Offset`, with `n` rounds left, and the block behind it. `nextkeys` was loaded
-- before; `keys` stands behind it.
unfoldable pub plain_avx_loop : ℕ → ℕ → List ℕ → List ℕ → Option (List ℕ × List ℕ)
plain_avx_loop zero nextkeys keys p = plain_pairs 4 nextkeys p
plain_avx_loop (suc n) nextkeys keys p = do
  nextkeys' ← load_keys keys
  (out, p') ← plain_pairs 4 nextkeys p
  (out', p'') ← plain_avx_loop n nextkeys' (drop 8 keys) p'
  some (out ++ out', p'')

-- The values decoded by vectors, and `dataPtr`.
unfoldable pub plain_avx_part : ℕ → List ℕ → List ℕ → Option (List ℕ × List ℕ)
plain_avx_part zero keys p = some ([], p)
plain_avx_part (suc n) keys p = do
  nextkeys ← load_keys keys
  plain_avx_loop n nextkeys (drop 8 keys) p

-- `keybytes / 8` blocks go by vectors, `count & 31` values by the scalar loop, from key byte
-- `keybytes - (keybytes & 7)` on.
unfoldable pub svb_decode_avx_simple : List ℕ → List ℕ → ℕ → Option (List ℕ × List ℕ)
svb_decode_avx_simple keys p count = do
  let blocks = count / 4 / 8
  (out, p') ← plain_avx_part blocks keys p
  (out', p'') ← svb_decode_scalar (drop (8 * blocks) keys) p' (count % 32)
  some (out ++ out', p'')

-- The values, and the bytes behind the last one read; the C result is the number of bytes read.
unfoldable pub streamvbyte_decode : List ℕ → ℕ → Option (List ℕ × List ℕ)
streamvbyte_decode bytes zero = some ([], bytes)
streamvbyte_decode bytes (suc count) =
    svb_decode_avx_simple bytes (drop (key_len (suc count)) bytes) (suc count)
