-- ===== src/StreamVByte/Avx/Halves.antt =====
-- The 16-bit words of a vector, on which `_write_16bit_avx_d1` computes.
use csearch.Common.{ℕ, zero, suc, ◌+◌, ◌*◌, ◌/◌, ◌%◌, ◌^◌, ◌<◌, ◌≡◌, refl, arith}
use csearch.Common.Words.{add32}
use csearch.Simd.{M128, lane, of_lanes, add_epi32, slli_si128}
use csearch.Simd.{cvtepu8_epi16}

-- The 16-bit word `i` of a vector.
unfoldable pub half : M128 → ℕ → ℕ
half v i = v (2 * i) + v (2 * i + 1) * 2 ^ 8

lane-half : (v : M128) (q : ℕ) → q < 4 → lane v q ≡ half v (2 * q) + half v (2 * q + 1) * 2 ^ 16
unfolding lane half
lane-half v zero h = omega arith
lane-half v (suc zero) h = omega arith
lane-half v (suc (suc zero)) h = omega arith
lane-half v (suc (suc (suc zero))) h = omega arith
lane-half v (suc (suc (suc (suc q)))) h = absurd (omega arith)

half-of_lanes :
    (w : ℕ → ℕ) (q : ℕ)
    → q < 4
    → (half (of_lanes w) (2 * q) ≡ w q % 2 ^ 16)
      × (half (of_lanes w) (2 * q + 1) ≡ w q / 2 ^ 16 % 2 ^ 16)
unfolding of_lanes half
half-of_lanes w zero h = (omega arith, omega arith)
half-of_lanes w (suc zero) h = (omega arith, omega arith)
half-of_lanes w (suc (suc zero)) h = (omega arith, omega arith)
half-of_lanes w (suc (suc (suc zero))) h = (omega arith, omega arith)
half-of_lanes w (suc (suc (suc (suc q)))) h = absurd (omega arith)

-- No carry passes from one 16-bit word to the next while the sums stay below 2^16.
half-add_epi32 :
    (v w : M128) (q : ℕ)
    → q < 4
    → half v (2 * q) + half w (2 * q) < 2 ^ 16
    → half v (2 * q + 1) + half w (2 * q + 1) < 2 ^ 16
    → (half (add_epi32 v w) (2 * q) ≡ half v (2 * q) + half w (2 * q))
      × (half (add_epi32 v w) (2 * q + 1) ≡ half v (2 * q + 1) + half w (2 * q + 1))
unfolding add_epi32
half-add_epi32 v w q h low high =
    let (a, b) = half-of_lanes (λ i. add32 (lane v i) (lane w i)) q h in
    (
      omega (arith, a, lane-half v q h, lane-half w q h),
      omega (arith, b, lane-half v q h, lane-half w q h),
    )

-- The eight 16-bit words of a vector.
pub record Halves (v : M128) (a b c d e f g h : ℕ) : Type 0 where
  pub h0 : half v 0 ≡ a
  pub h1 : half v 1 ≡ b
  pub h2 : half v 2 ≡ c
  pub h3 : half v 3 ≡ d
  pub h4 : half v 4 ≡ e
  pub h5 : half v 5 ≡ f
  pub h6 : half v 6 ≡ g
  pub h7 : half v 7 ≡ h

pub Halves-add :
    (v w : M128) {a b c d e f g h a' b' c' d' e' f' g' h' : ℕ}
    → Halves v a b c d e f g h
    → Halves w a' b' c' d' e' f' g' h'
    → (a + a' < 2 ^ 16) × (b + b' < 2 ^ 16) × (c + c' < 2 ^ 16) × (d + d' < 2 ^ 16)
    → (e + e' < 2 ^ 16) × (f + f' < 2 ^ 16) × (g + g' < 2 ^ 16) × (h + h' < 2 ^ 16)
    → Halves (add_epi32 v w) (a + a') (b + b') (c + c') (d + d') (e + e') (f + f') (g + g') (h + h')
Halves-add v w x y (ka, kb, kc, kd) (ke, kf, kg, kh) =
    let (p0, p1) =
      half-add_epi32 v w 0 (omega arith) (omega (arith, x.h0, y.h0)) (omega (arith, x.h1, y.h1)) in
    let (p2, p3) =
      half-add_epi32 v w 1 (omega arith) (omega (arith, x.h2, y.h2)) (omega (arith, x.h3, y.h3)) in
    let (p4, p5) =
      half-add_epi32 v w 2 (omega arith) (omega (arith, x.h4, y.h4)) (omega (arith, x.h5, y.h5)) in
    let (p6, p7) =
      half-add_epi32 v w 3 (omega arith) (omega (arith, x.h6, y.h6)) (omega (arith, x.h7, y.h7)) in
    record {
      h0 = omega (arith, p0, x.h0, y.h0);
      h1 = omega (arith, p1, x.h1, y.h1);
      h2 = omega (arith, p2, x.h2, y.h2);
      h3 = omega (arith, p3, x.h3, y.h3);
      h4 = omega (arith, p4, x.h4, y.h4);
      h5 = omega (arith, p5, x.h5, y.h5);
      h6 = omega (arith, p6, x.h6, y.h6);
      h7 = omega (arith, p7, x.h7, y.h7);
    }

pub Halves-slli_2 :
    (v : M128) {a b c d e f g h : ℕ}
    → Halves v a b c d e f g h
    → Halves (slli_si128 v 2) 0 a b c d e f g
unfolding half slli_si128
Halves-slli_2 v x = record {
  h0 = refl;
  h1 = x.h0;
  h2 = x.h1;
  h3 = x.h2;
  h4 = x.h3;
  h5 = x.h4;
  h6 = x.h5;
  h7 = x.h6;
}

pub Halves-slli_4 :
    (v : M128) {a b c d e f g h : ℕ}
    → Halves v a b c d e f g h
    → Halves (slli_si128 v 4) 0 0 a b c d e f
unfolding half slli_si128
Halves-slli_4 v x = record {
  h0 = refl;
  h1 = refl;
  h2 = x.h0;
  h3 = x.h1;
  h4 = x.h2;
  h5 = x.h3;
  h6 = x.h4;
  h7 = x.h5;
}

pub Halves-cvtepu8 :
    (v : M128) → Halves (cvtepu8_epi16 v) (v 0) (v 1) (v 2) (v 3) (v 4) (v 5) (v 6) (v 7)
unfolding half cvtepu8_epi16
Halves-cvtepu8 v = omega arith
