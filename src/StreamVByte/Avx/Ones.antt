-- ===== src/StreamVByte/Avx/Ones.antt =====
-- Eight values of one byte each: the 16-bit sums of `_write_16bit_avx_d1` are the running sums.
use csearch.Common.{ℕ, zero, suc, ◌+◌, ◌%◌, ◌^◌, ◌<◌, ◌≡◌, refl, ap₂, arith}
use csearch.Common.{List, [], ◌∷◌, ◌++◌}
use csearch.Common.Words.{add32}
use csearch.Simd.{M128, lane, storeu_si128, add_epi32, shuffle_epi8, shuffle_epi32, slli_si128}
use csearch.Simd.{cvtepu8_epi16, cvtepu16_epi32}
use csearch.Simd.Lanes.{lane-add_epi32, lane-shuffle_epi32_last}
use csearch.StreamVByte.Avx.{high16_to_32, write_16bit_avx_d1, avx_eight}
use csearch.StreamVByte.Avx.Halves.{
  half, Halves, Halves-add, Halves-slli_2, Halves-slli_4, Halves-cvtepu8,
}

lane-cvtepu16 :
    (v : M128)
    → (lane (cvtepu16_epi32 v) 0 ≡ half v 0)
      × (lane (cvtepu16_epi32 v) 1 ≡ half v 1)
      × (lane (cvtepu16_epi32 v) 2 ≡ half v 2)
      × (lane (cvtepu16_epi32 v) 3 ≡ half v 3)
unfolding lane half cvtepu16_epi32
lane-cvtepu16 v = (omega arith, omega arith, omega arith, omega arith)

lane-high16 :
    (v : M128)
    → (lane (shuffle_epi8 v high16_to_32) 0 ≡ half v 4)
      × (lane (shuffle_epi8 v high16_to_32) 1 ≡ half v 5)
      × (lane (shuffle_epi8 v high16_to_32) 2 ≡ half v 6)
      × (lane (shuffle_epi8 v high16_to_32) 3 ≡ half v 7)
unfolding lane half shuffle_epi8 high16_to_32
lane-high16 v = (omega arith, omega arith, omega arith, omega arith)

-- The sums of up to four values that the 16-bit steps make.
fours-Halves :
    (v : M128) {a b c d e f g h : ℕ}
    → Halves v a b c d e f g h
    → (a < 2 ^ 8) × (b < 2 ^ 8) × (c < 2 ^ 8) × (d < 2 ^ 8)
    → (e < 2 ^ 8) × (f < 2 ^ 8) × (g < 2 ^ 8) × (h < 2 ^ 8)
    → let pairs = add_epi32 v (slli_si128 v 2) in
      Halves
        (add_epi32 pairs (slli_si128 pairs 4))
        (a + 0 + 0)
        (b + a + 0)
        (c + b + (a + 0))
        (d + c + (b + a))
        (e + d + (c + b))
        (f + e + (d + c))
        (g + f + (e + d))
        (h + g + (f + e))
fours-Halves v x low high =
    let pairs = add_epi32 v (slli_si128 v 2) in
    let y = Halves-add v (slli_si128 v 2) x (Halves-slli_2 v x) (omega arith) (omega arith) in
    Halves-add pairs (slli_si128 pairs 4) y (Halves-slli_4 pairs y) (omega arith) (omega arith)

-- The running sums of bytes.
abbrev pub byte_sum : M128 → ℕ → ℕ → ℕ
byte_sum bytes prev zero = add32 (bytes 0) prev
byte_sum bytes prev (suc i) = add32 (bytes (suc i)) (byte_sum bytes prev i)

abbrev pub Bytes8 : M128 → Type 0
Bytes8 v =
    (v 0 < 2 ^ 8)
    × (v 1 < 2 ^ 8)
    × (v 2 < 2 ^ 8)
    × (v 3 < 2 ^ 8)
    × (v 4 < 2 ^ 8)
    × (v 5 < 2 ^ 8)
    × (v 6 < 2 ^ 8)
    × (v 7 < 2 ^ 8)

abbrev pub sums_from : M128 → ℕ → ℕ → List ℕ
sums_from bytes prev i =
    byte_sum bytes prev i
    ∷ byte_sum bytes prev (suc i)
    ∷ byte_sum bytes prev (suc (suc i))
    ∷ byte_sum bytes prev (suc (suc (suc i)))
    ∷ []

storeu_si128-eq :
    (v : M128) {a b c d : ℕ}
    → lane v 0 ≡ a
    → lane v 1 ≡ b
    → lane v 2 ≡ c
    → lane v 3 ≡ d
    → storeu_si128 v ≡ a ∷ b ∷ c ∷ d ∷ []
storeu_si128-eq v e0 e1 e2 e3 = rw (e0, e1, e2, e3) refl

abbrev byte_total : M128 → ℕ → ℕ
byte_total bytes zero = bytes 0
byte_total bytes (suc i) = byte_total bytes i + bytes (suc i)

byte_sum_lem :
    (bytes : M128) (prev i : ℕ) → byte_sum bytes prev i ≡ (byte_total bytes i + prev) % 2 ^ 32
byte_sum_lem bytes prev zero = refl
byte_sum_lem bytes prev (suc i) = omega (arith, byte_sum_lem bytes prev i)

write-Halves :
    (bytes prev fours : M128) {a b c d e f g h : ℕ}
    → Halves fours a b c d e f g h
    → (a ≡ byte_total bytes 0)
      × (b ≡ byte_total bytes 1)
      × (c ≡ byte_total bytes 2)
      × (d ≡ byte_total bytes 3)
    → (a + e ≡ byte_total bytes 4)
      × (b + f ≡ byte_total bytes 5)
      × (c + g ≡ byte_total bytes 6)
      × (d + h ≡ byte_total bytes 7)
    → let v1 = add_epi32 (cvtepu16_epi32 fours) (shuffle_epi32 prev 0xff) in
      (storeu_si128 v1 ≡ sums_from bytes (lane prev 3) 0)
      × (storeu_si128 (add_epi32 v1 (shuffle_epi8 fours high16_to_32))
          ≡ sums_from bytes (lane prev 3) 4)
write-Halves bytes prev fours x (ka, kb, kc, kd) (ke, kf, kg, kh) =
    let last = shuffle_epi32 prev 0xff in
    let v1 = add_epi32 (cvtepu16_epi32 fours) last in
    let v2 = shuffle_epi8 fours high16_to_32 in
    let (c0, c1, c2, c3) = lane-cvtepu16 fours in
    let (t0, t1, t2, t3) = lane-high16 fours in
    let first = λ (i : ℕ) (h : i < 4). lane-add_epi32 (cvtepu16_epi32 fours) last i h in
    let second = λ (i : ℕ) (h : i < 4). lane-add_epi32 v1 v2 i h in
    let end = λ (i : ℕ) (h : i < 4). lane-shuffle_epi32_last prev i h in
    let sums = λ (i : ℕ). byte_sum_lem bytes (lane prev 3) i in
    let f0 = first 0 (omega arith) in
    let f1 = first 1 (omega arith) in
    let f2 = first 2 (omega arith) in
    let f3 = first 3 (omega arith) in
    let l0 = end 0 (omega arith) in
    let l1 = end 1 (omega arith) in
    let l2 = end 2 (omega arith) in
    let l3 = end 3 (omega arith) in
    (
      storeu_si128-eq v1 (omega (arith, f0, l0, c0, x.h0, ka, sums 0))
          (omega (arith, f1, l1, c1, x.h1, kb, sums 1))
          (omega (arith, f2, l2, c2, x.h2, kc, sums 2))
          (omega (arith, f3, l3, c3, x.h3, kd, sums 3)),
      storeu_si128-eq (add_epi32 v1 v2)
          (omega (arith, second 0 (omega arith), f0, l0, c0, t0, x.h0, x.h4, ke, sums 4))
          (omega (arith, second 1 (omega arith), f1, l1, c1, t1, x.h1, x.h5, kf, sums 5))
          (omega (arith, second 2 (omega arith), f2, l2, c2, t2, x.h2, x.h6, kg, sums 6))
          (omega (arith, second 3 (omega arith), f3, l3, c3, t3, x.h3, x.h7, kh, sums 7)),
    )

-- The two vectors hold the eight running sums.
write_16bit_lem :
    (bytes prev : M128)
    → Bytes8 bytes
    → let r = write_16bit_avx_d1 (cvtepu8_epi16 bytes) prev in
      (storeu_si128 r.0 ≡ sums_from bytes (lane prev 3) 0)
      × (storeu_si128 r.1 ≡ sums_from bytes (lane prev 3) 4)
unfolding write_16bit_avx_d1
write_16bit_lem bytes prev (b0, b1, b2, b3, b4, b5, b6, b7) =
    let vec = cvtepu8_epi16 bytes in
    let pairs = add_epi32 vec (slli_si128 vec 2) in
    write-Halves bytes prev (add_epi32 pairs (slli_si128 pairs 4))
      (fours-Halves vec (Halves-cvtepu8 bytes) (b0, b1, b2, b3) (b4, b5, b6, b7))
      (omega arith, omega arith, omega arith, omega arith)
      (omega arith, omega arith, omega arith, omega arith)

last_word : (a b c d : ℕ) (v : M128) → storeu_si128 v ≡ a ∷ b ∷ c ∷ d ∷ [] → lane v 3 ≡ d
last_word a b c d v h = cc

-- The eight values stored, and the last word of the vector returned.
pub avx_eight_lem :
    (bytes prev : M128)
    → Bytes8 bytes
    → ((avx_eight bytes prev).0
        ≡ sums_from bytes (lane prev 3) 0 ++ sums_from bytes (lane prev 3) 4)
      × (lane (avx_eight bytes prev).1 3 ≡ byte_sum bytes (lane prev 3) 7)
unfolding avx_eight
avx_eight_lem bytes prev small =
    let (e1, e2) = write_16bit_lem bytes prev small in
    (ap₂ (λ (s : List ℕ) (t : List ℕ). s ++ t) e1 e2, last_word _ _ _ _ _ e2)
