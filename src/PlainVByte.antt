-- ===== src/PlainVByte.antt =====
-- streamvbyte.c: the codec without differences. `_encode_data` and `_decode_data` are written there as
-- in streamvbytedelta.c, and `encode_data` and `decode_data` of StreamVByte stand for both.
pub mod Sums
pub mod RoundTrip
pub mod Avx
mod Tests
use csearch.Common.{
  ℕ, zero, suc, ◌+◌, ◌-◌, ◌*◌, ◌/◌, ◌%◌, ◌^◌, List, [], ◌∷◌, ◌++◌, Option, none, some,
}
use csearch.Common.{◌==◌, if◌then◌else◌, drop, length}
use csearch.StreamVByte.{◌>>=◌, encode_data, decode_data, next_key, key_len}
use Prim.Native.Nat.{bit_or}

-- `svb_encode_scalar` from one round of its loop on: the key bytes and the data bytes still to come.
unfoldable pub plain_encode_loop : List ℕ → ℕ → ℕ → List ℕ × List ℕ
plain_encode_loop [] shift key = (key ∷ [], [])
plain_encode_loop (val ∷ vals) shift key =
    let full = shift == 8 in
    let shift' : ℕ = if full then 0 else shift in
    let key' : ℕ = if full then 0 else key in
    let (code, bytes) = encode_data val in
    let (keys, data_bytes) =
      plain_encode_loop vals (shift' + 2) (bit_or key' (code * 2 ^ shift') % 256) in
    (if full then key ∷ keys else keys, bytes ++ data_bytes)

unfoldable pub svb_encode_scalar : List ℕ → List ℕ × List ℕ
svb_encode_scalar [] = ([], [])
svb_encode_scalar (val ∷ vals) = plain_encode_loop (val ∷ vals) 0 0

-- `streamvbyte_encode`: the bytes written; its result is their number. The data start at
-- `out + keyLen`, as in `streamvbyte_delta_encode`, and keys that reach behind that place are stored
-- over them.
unfoldable pub encode : List ℕ → List ℕ
encode vals =
    let (keys, data_bytes) = svb_encode_scalar vals in
    keys ++ drop (length keys - key_len (length vals)) data_bytes

-- The loop of `svb_decode_scalar` with `count` rounds left.
unfoldable pub plain_decode_loop : ℕ → ℕ → ℕ → List ℕ → List ℕ → Option (List ℕ × List ℕ)
plain_decode_loop zero shift key keys p = some ([], p)
plain_decode_loop (suc count) shift key keys p = do
  (shift', key', keys') ← next_key shift key keys
  (val, p') ← decode_data p (key' / 2 ^ shift' % 4)
  (out, p'') ← plain_decode_loop count (shift' + 2) key' keys' p'
  some (val ∷ out, p'')

unfoldable pub svb_decode_scalar : List ℕ → List ℕ → ℕ → Option (List ℕ × List ℕ)
svb_decode_scalar keys p zero = some ([], p)
svb_decode_scalar [] p (suc count) = none
svb_decode_scalar (key ∷ keys) p (suc count) = plain_decode_loop (suc count) 0 key keys p

-- The decoder with the scalar loop alone: the values, and the bytes behind the last one read. It is
-- `streamvbyte_decode` for fewer than 32 values.
unfoldable pub decode : List ℕ → ℕ → Option (List ℕ × List ℕ)
decode bytes count = svb_decode_scalar bytes (drop (key_len count) bytes) count
