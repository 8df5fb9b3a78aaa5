-- ===== src/Simd/Lanes.antt =====
-- The 32-bit words of the results of the vector operations.
use csearch.Common.{ℕ, zero, suc, ◌<◌, ◌≡◌, refl, arith}
use csearch.Common.Words.{IsU32, add32}
use csearch.Simd.{M128, lane, of_lanes, add_epi32, set1_epi32, shuffle_epi32, slli_si128}

lane-of_lanes : (w : ℕ → ℕ) (i : ℕ) → i < 4 → IsU32 (w i) → lane (of_lanes w) i ≡ w i
unfolding of_lanes lane
lane-of_lanes w zero h u = omega arith
lane-of_lanes w (suc zero) h u = omega arith
lane-of_lanes w (suc (suc zero)) h u = omega arith
lane-of_lanes w (suc (suc (suc zero))) h u = omega arith
lane-of_lanes w (suc (suc (suc (suc i)))) h u = absurd (omega arith)

pub lane-add_epi32 :
    (v w : M128) (i : ℕ) → i < 4 → lane (add_epi32 v w) i ≡ add32 (lane v i) (lane w i)
unfolding add_epi32
lane-add_epi32 v w i h = lane-of_lanes (λ j. add32 (lane v j) (lane w j)) i h (omega arith)

pub lane-set1_epi32 : (x i : ℕ) → i < 4 → IsU32 x → lane (set1_epi32 x) i ≡ x
unfolding set1_epi32
lane-set1_epi32 x i h u = lane-of_lanes (λ j. x) i h u

pub lane-shuffle_epi32_last : (v : M128) (i : ℕ) → i < 4 → lane (shuffle_epi32 v 0xff) i ≡ lane v 3
unfolding shuffle_epi32 lane
lane-shuffle_epi32_last v zero h = refl
lane-shuffle_epi32_last v (suc zero) h = refl
lane-shuffle_epi32_last v (suc (suc zero)) h = refl
lane-shuffle_epi32_last v (suc (suc (suc zero))) h = refl
lane-shuffle_epi32_last v (suc (suc (suc (suc i)))) h = absurd (omega arith)

-- A shift by one word, and by two.
pub lane-slli_4 :
    (v : M128)
    → (lane (slli_si128 v 4) 0 ≡ 0)
      × (lane (slli_si128 v 4) 1 ≡ lane v 0)
      × (lane (slli_si128 v 4) 2 ≡ lane v 1)
      × (lane (slli_si128 v 4) 3 ≡ lane v 2)
unfolding slli_si128 lane
lane-slli_4 v = (refl, refl, refl, refl)

pub lane-slli_8 :
    (v : M128)
    → (lane (slli_si128 v 8) 0 ≡ 0)
      × (lane (slli_si128 v 8) 1 ≡ 0)
      × (lane (slli_si128 v 8) 2 ≡ lane v 0)
      × (lane (slli_si128 v 8) 3 ≡ lane v 1)
unfolding slli_si128 lane
lane-slli_8 v = (refl, refl, refl, refl)
