-- ===== src/Simd.antt =====
-- The SSE intrinsics that the decoders use, as Intel documents them. A vector of 128 bits is its
-- bytes, lowest first: byte `j` for `j < 16`.
pub mod Lanes
use csearch.Common.{ℕ, zero, suc, ◌+◌, ◌-◌, ◌*◌, ◌/◌, ◌%◌, ◌^◌, List, [], ◌∷◌, Option, none, some}
use csearch.Common.{ltb, leb, ◌==◌, if◌then◌else◌, length}
use csearch.Common.Words.{add32, of_le32}

abbrev pub M128 : Type 0
M128 = ℕ → ℕ

-- Byte `j` behind a pointer; a load checks that it is there.
abbrev pub byte_at : List ℕ → ℕ → ℕ
byte_at [] j = 0
byte_at (b ∷ p) zero = b
byte_at (b ∷ p) (suc j) = byte_at p j

-- `_mm_loadu_si128` and `_mm_lddqu_si128`: 16 bytes from the pointer on.
unfoldable pub loadu_si128 : List ℕ → Option M128
loadu_si128 p = if leb 16 (length p) then some (byte_at p) else none

-- `_mm_loadl_epi64`: 8 bytes, and zeros above.
unfoldable pub loadl_epi64 : List ℕ → Option M128
loadl_epi64 p = if leb 8 (length p) then some (λ j. if ltb j 8 then byte_at p j else 0) else none

-- The 32-bit word `i` of a vector.
unfoldable pub lane : M128 → ℕ → ℕ
lane v i = of_le32 (v (4 * i)) (v (4 * i + 1)) (v (4 * i + 2)) (v (4 * i + 3))

-- `_mm_storeu_si128` to an array of uint32_t: the words stored.
abbrev pub storeu_si128 : M128 → List ℕ
storeu_si128 v = lane v 0 ∷ lane v 1 ∷ lane v 2 ∷ lane v 3 ∷ []

-- A vector from its 32-bit words.
unfoldable pub of_lanes : (ℕ → ℕ) → M128
of_lanes w j = w (j / 4) / 2 ^ (8 * (j % 4)) % 256

unfoldable pub add_epi32 : M128 → M128 → M128
add_epi32 v w = of_lanes (λ i. add32 (lane v i) (lane w i))

unfoldable pub set1_epi32 : ℕ → M128
set1_epi32 x = of_lanes (λ i. x)

unfoldable pub shuffle_epi8 : M128 → M128 → M128
shuffle_epi8 v s j = if leb 128 (s j) then 0 else v (s j % 16)

-- The word `i` of the result is the one that bits `2 * i` and `2 * i + 1` of `imm` name.
unfoldable pub shuffle_epi32 : M128 → ℕ → M128
shuffle_epi32 v imm j = v (4 * (imm / 4 ^ (j / 4) % 4) + j % 4)

-- A shift up by `k` bytes.
unfoldable pub slli_si128 : M128 → ℕ → M128
slli_si128 v k j = if ltb j k then 0 else v (j - k)

-- The low 8 bytes, as 16-bit words.
unfoldable pub cvtepu8_epi16 : M128 → M128
cvtepu8_epi16 v j = if j % 2 == 0 then v (j / 2) else 0

-- The low four 16-bit words, as 32-bit words.
unfoldable pub cvtepu16_epi32 : M128 → M128
cvtepu16_epi32 v j = if ltb (j % 4) 2 then v (2 * (j / 4) + j % 4) else 0
