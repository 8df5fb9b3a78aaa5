-- ===== src/StreamVByte.antt =====
-- streamvbytedelta.c (and the same routines of streamvbyte.c): the scalar code that writes a list of
-- uint32_t as key bytes of four 2-bit codes each, followed by 1 to 4 data bytes for each value.
-- A `uint8_t *` that is written is the list of the bytes written; one that is read is the list of
-- the bytes from it on, and a read behind its end is `none`.
pub mod Data
pub mod Keys
pub mod RoundTrip
pub mod Bounds
pub mod Words
pub mod Avx
mod Tests
use csearch.Common.{
  ℕ, zero, suc, ◌+◌, ◌-◌, ◌*◌, ◌/◌, ◌%◌, ◌^◌, List, [], ◌∷◌, ◌++◌, Option, none, some, ◌≡◌, refl,
}
use csearch.Common.{ltb, ◌==◌, if◌then◌else◌, length, drop}
use csearch.Common.Words.{add32, sub32, of_le32, le32}
use Prim.Native.Nat.{bit_or}

infixl 5 ◌>>=◌
abbrev pub ◌>>=◌ {ℓ κ} : {A : Type ℓ} {B : Type κ} → Option A → (A → Option B) → Option B
none >>= f = none
some a >>= f = f a

pub >>=-eq-some {ℓ κ} :
    {A : Type ℓ} {B : Type κ} (m : Option A) (f : A → Option B) {b : B}
    → (m >>= f) ≡ some b
    → (a : A) × (m ≡ some a) × (f a ≡ some b)
>>=-eq-some none f h = cc
>>=-eq-some (some a) f h = (a, refl, h)

-- `_encode_data`: the code, and the bytes that it stores at `dataPtr`.
unfoldable pub encode_data : ℕ → ℕ × List ℕ
encode_data val =
    if ltb val (2 ^ 8)
    then (0, (val % 256) ∷ [])
    else if ltb val (2 ^ 16)
    then (1, (val % 256) ∷ (val / 2 ^ 8 % 256) ∷ [])
    else if ltb val (2 ^ 24)
    then (2, (val % 256) ∷ (val / 2 ^ 8 % 256) ∷ (val / 2 ^ 16 % 256) ∷ [])
    else (3, le32 val)

-- `svb_encode_scalar_d1_init` from one round of its loop on: the key bytes and the data bytes that
-- are still to be written. `key` is the byte in the making.
unfoldable pub encode_loop : List ℕ → ℕ → ℕ → ℕ → List ℕ × List ℕ
encode_loop [] shift key prev = (key ∷ [], [])
encode_loop (x ∷ xs) shift key prev =
    let full = shift == 8 in
    let shift' : ℕ = if full then 0 else shift in
    let key' : ℕ = if full then 0 else key in
    let (code, bytes) = encode_data (sub32 x prev) in
    let (keys, data_bytes) =
      encode_loop xs (shift' + 2) (bit_or key' (code * 2 ^ shift') % 256) x in
    (if full then key ∷ keys else keys, bytes ++ data_bytes)

unfoldable pub svb_encode_scalar_d1_init : List ℕ → ℕ → List ℕ × List ℕ
svb_encode_scalar_d1_init [] prev = ([], [])
svb_encode_scalar_d1_init (x ∷ xs) prev = encode_loop (x ∷ xs) 0 0 prev

-- `keyLen` of the encoder and the decoder; `count + 3` may wrap.
abbrev pub key_len : ℕ → ℕ
key_len count = add32 count 3 / 4

-- `streamvbyte_delta_encode`: what is in `out` behind it; its result is the length of that. The data
-- start at `out + keyLen`. They run ahead of the keys, so that keys that reach behind that place, when
-- `count + 3` wraps, are stored over them.
unfoldable pub delta_encode : List ℕ → ℕ → List ℕ
delta_encode xs prev =
    let (keys, data_bytes) = svb_encode_scalar_d1_init xs prev in
    keys ++ drop (length keys - key_len (length xs)) data_bytes

-- Loads from `dataPtr`, with the bytes behind.
load8 : List ℕ → Option (ℕ × List ℕ)
load8 (a ∷ r) = some (a, r)
load8 [] = none

load16 : List ℕ → Option (ℕ × List ℕ)
load16 (a ∷ b ∷ r) = some (a + b * 2 ^ 8, r)
load16 _ = none

load32 : List ℕ → Option (ℕ × List ℕ)
load32 (a ∷ b ∷ c ∷ d ∷ r) = some (of_le32 a b c d, r)
load32 _ = none

-- `val |= *(dataPtr + 2) << 16` after the load of two bytes
load24 : List ℕ → Option (ℕ × List ℕ)
unfolding load16 load8
load24 p = do (lo, p') ← load16 p; (hi, p'') ← load8 p'; some (bit_or lo (hi * 2 ^ 16), p'')

-- `_decode_data`
unfoldable pub decode_data : List ℕ → ℕ → Option (ℕ × List ℕ)
unfolding load8 load16 load24 load32
decode_data p code =
    if code == 0
    then load8 p
    else if code == 1
    then load16 p
    else if code == 2
    then load24 p
    else load32 p

-- `key = *keyPtr++` with `shift = 0`
abbrev load_key : List ℕ → Option (ℕ × ℕ × List ℕ)
load_key [] = none
load_key (k ∷ keys) = some (0, k, keys)

-- `if (shift == 8) { shift = 0; key = *keyPtr++; }`: the shift, the key and `keyPtr` after it.
unfoldable pub next_key : ℕ → ℕ → List ℕ → Option (ℕ × ℕ × List ℕ)
next_key shift key keys = if shift == 8 then load_key keys else some (shift, key, keys)

-- The loop of `svb_decode_scalar_d1_init` with `count` rounds left: the values that it stores, and
-- `dataPtr` at the end.
unfoldable pub decode_loop : ℕ → ℕ → ℕ → List ℕ → List ℕ → ℕ → Option (List ℕ × List ℕ)
decode_loop zero shift key keys p prev = some ([], p)
decode_loop (suc count) shift key keys p prev = do
  (shift', key', keys') ← next_key shift key keys
  (val, p') ← decode_data p (key' / 2 ^ shift' % 4)
  let val' = add32 val prev
  (out, p'') ← decode_loop count (shift' + 2) key' keys' p' val'
  some (val' ∷ out, p'')

unfoldable pub svb_decode_scalar_d1_init : List ℕ → List ℕ → ℕ → ℕ → Option (List ℕ × List ℕ)
svb_decode_scalar_d1_init keys p zero prev = some ([], p)
svb_decode_scalar_d1_init [] p (suc count) prev = none
svb_decode_scalar_d1_init (key ∷ keys) p (suc count) prev =
    decode_loop (suc count) 0 key keys p prev

-- `streamvbyte_delta_decode` by the scalar loop: the values, and the bytes behind the last one read.
unfoldable pub delta_decode : List ℕ → ℕ → ℕ → Option (List ℕ × List ℕ)
delta_decode bytes count prev =
    svb_decode_scalar_d1_init bytes (drop (key_len count) bytes) count prev
