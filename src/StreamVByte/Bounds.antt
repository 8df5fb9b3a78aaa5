-- ===== src/StreamVByte/Bounds.antt =====
-- How many bytes the encoder writes.
use csearch.Common.{ℕ, ◌+◌, ◌-◌, ◌*◌, ◌%◌, ◌^◌, ◌≤◌, ◌<◌, ◌≡◌, refl, arith}
use csearch.Common.{
  List, [], ◌∷◌, length, All, All-append, All-drop, drop, length-append, length-drop, ltb, ◌==◌,
}
use csearch.Common.{Bool, true, false, if◌then◌else◌}
use csearch.Common.Words.{IsByte, sub32}
use csearch.StreamVByte.{svb_encode_scalar_d1_init, delta_encode, key_len, encode_data, encode_loop}
use csearch.StreamVByte.Data.{encode_data-IsByte}
use csearch.StreamVByte.RoundTrip.{length-keys}
use Prim.Native.Nat.{bit_or}

-- The bytes that a value takes: the fewest that hold it.
unfoldable pub width : ℕ → ℕ
width v = if ltb v (2 ^ 8) then 1 else if ltb v (2 ^ 16) then 2 else if ltb v (2 ^ 24) then 3 else 4

-- The size of the data for the differences of consecutive values.
unfoldable pub data_size : List ℕ → ℕ → ℕ
data_size [] prev = 0
data_size (x ∷ xs) prev = width (sub32 x prev) + data_size xs x

length_bytes : (v : ℕ) → length (encode_data v).1 ≡ width v
unfolding encode_data width
length_bytes v = ground arith

encode_loop-data :
    (xs : List ℕ) (shift key prev : ℕ)
    → length (encode_loop xs shift key prev).1 ≡ data_size xs prev
unfolding encode_loop data_size
encode_loop-data [] shift key prev = refl
encode_loop-data (x ∷ xs) shift key prev = omega (
  arith,
  length_bytes (sub32 x prev),
  length-append (encode_data (sub32 x prev)).1,
  λ (s k : ℕ). encode_loop-data xs s k x,
)

data-size :
    (xs : List ℕ) (prev : ℕ) → length (svb_encode_scalar_d1_init xs prev).1 ≡ data_size xs prev
unfolding svb_encode_scalar_d1_init
data-size [] prev = unfold data_size in refl
data-size (x ∷ xs) prev = encode_loop-data (x ∷ xs) 0 0 prev

width_bounds : (v : ℕ) → (1 ≤ width v) × (width v ≤ 4)
unfolding width
width_bounds v = ground arith

pub data_size_bounds :
    (xs : List ℕ) (prev : ℕ) → (length xs ≤ data_size xs prev) × (data_size xs prev ≤ 4 * length xs)
unfolding data_size
data_size_bounds [] prev = omega arith
data_size_bounds (x ∷ xs) prev = omega (arith, width_bounds (sub32 x prev), data_size_bounds xs x)

-- Of fewer than 2^32 values the encoder writes two bits for each, rounded up to bytes, or none if
-- there are 2^32 - 3 or more, and the width of each difference in bytes.
pub length-delta_encode :
    (xs : List ℕ) (prev : ℕ)
    → length xs < 2 ^ 32
    → length (delta_encode xs prev) ≡ key_len (length xs) + data_size xs prev
unfolding delta_encode
length-delta_encode xs prev small =
    let r = svb_encode_scalar_d1_init xs prev in
    let over = length r.0 - key_len (length xs) in
    omega (
      arith,
      length-append r.0 (drop over r.1),
      length-drop over r.1,
      length-keys xs prev,
      data-size xs prev,
      data_size_bounds xs prev,
    )

All-if :
    (b : Bool) (k : ℕ) (ks : List ℕ)
    → IsByte k
    → All IsByte ks
    → All IsByte (if b then k ∷ ks else ks)
All-if true k ks hk h = (hk, h)
All-if false k ks hk h = h

encode_loop-IsByte :
    (xs : List ℕ) (shift key prev : ℕ)
    → IsByte key
    → All IsByte (encode_loop xs shift key prev).0 × All IsByte (encode_loop xs shift key prev).1
unfolding encode_loop
encode_loop-IsByte [] shift key prev h = (omega arith, tt)
encode_loop-IsByte (x ∷ xs) shift key prev h =
    let full = shift == 8 in
    let s : ℕ = if full then 0 else shift in
    let k : ℕ = if full then 0 else key in
    let k' = bit_or k ((encode_data (sub32 x prev)).0 * 2 ^ s) % 256 in
    let (keys, bytes) = encode_loop-IsByte xs (s + 2) k' x (omega arith) in
    (All-if full key _ h keys, All-append IsByte _ _ (encode_data-IsByte (sub32 x prev)) bytes)

pub delta_encode-IsByte : (xs : List ℕ) (prev : ℕ) → All IsByte (delta_encode xs prev)
unfolding delta_encode svb_encode_scalar_d1_init
delta_encode-IsByte [] prev = tt
delta_encode-IsByte (x ∷ xs) prev =
    let (keys, bytes) = encode_loop-IsByte (x ∷ xs) 0 0 prev (omega arith) in
    All-append IsByte _ _ keys (All-drop IsByte _ _ bytes)

-- Every difference fits into 24 bits.
abbrev pub NarrowSteps : List ℕ → ℕ → Type 0
NarrowSteps [] prev = Unit {0}
NarrowSteps (x ∷ xs) prev = (sub32 x prev < 2 ^ 24) × NarrowSteps xs x

-- No difference fits into 24 bits.
abbrev pub WideSteps : List ℕ → ℕ → Type 0
WideSteps [] prev = Unit {0}
WideSteps (x ∷ xs) prev = (2 ^ 24 ≤ sub32 x prev) × WideSteps xs x

width-narrow : (v : ℕ) → v < 2 ^ 24 → width v ≤ 3
unfolding width
width-narrow v h = ground arith

width-wide : (v : ℕ) → 2 ^ 24 ≤ v → width v ≡ 4
unfolding width
width-wide v h = ground arith

pub data_size-narrow :
    (xs : List ℕ) (prev : ℕ) → NarrowSteps xs prev → data_size xs prev ≤ 3 * length xs
unfolding data_size
data_size-narrow [] prev h = omega arith
data_size-narrow (x ∷ xs) prev (h, hs) =
    omega (arith, width-narrow (sub32 x prev) h, data_size-narrow xs x hs)

pub data_size-wide :
    (xs : List ℕ) (prev : ℕ) → WideSteps xs prev → data_size xs prev ≡ 4 * length xs
unfolding data_size
data_size-wide [] prev h = omega arith
data_size-wide (x ∷ xs) prev (h, hs) =
    omega (arith, width-wide (sub32 x prev) h, data_size-wide xs x hs)
