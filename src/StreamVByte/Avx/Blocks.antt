-- ===== src/StreamVByte/Avx/Blocks.antt =====
-- A block of eight key bytes, on both of its paths.
use csearch.Common.{ℕ, zero, suc, ◌^◌, ◌≤◌, ◌<◌, ◌≡◌, refl, sym, subst, ◌∙◌, arith}
use csearch.Common.{
  List, [], ◌∷◌, ◌++◌, append_assoc, some, All, length, length-drop, drop, ltb, lt→ltb, le→leb,
}
use csearch.Common.{if◌then◌else◌, Bool, true, false}
use csearch.Common.Words.{IsByte}
use csearch.Simd.{M128, byte_at, lane, loadu_si128, loadl_epi64}
use csearch.StreamVByte.Avx.{avx_eight, avx_ones}
use csearch.StreamVByte.Avx.Ones.{Bytes8, byte_sum, sums_from, avx_eight_lem}
use csearch.StreamVByte.Avx.Scalar.{
  scalar, scalar-four, sum_to, four, All-drop, drop-drop, byte_at-drop,
}
use csearch.StreamVByte.Avx.Follows.{Follows, eights, split_front, scalar-length}

byte_at-IsByte : (p : List ℕ) (j : ℕ) → All IsByte p → byte_at p j < 2 ^ 8
byte_at-IsByte [] j h = omega arith
byte_at-IsByte (b ∷ p) zero h = h.0
byte_at-IsByte (b ∷ p) (suc j) h = byte_at-IsByte p j h.1

-- A vector with the next eight bytes.
abbrev Holds8 : M128 → List ℕ → Type 0
Holds8 v p = (j : ℕ) → j < 8 → v j ≡ byte_at p j

Holds8-Bytes8 : (v : M128) (p : List ℕ) → Holds8 v p → All IsByte p → Bytes8 v
Holds8-Bytes8 v p e h = (
  omega (arith, e 0 (omega arith), byte_at-IsByte p 0 h),
  omega (arith, e 1 (omega arith), byte_at-IsByte p 1 h),
  omega (arith, e 2 (omega arith), byte_at-IsByte p 2 h),
  omega (arith, e 3 (omega arith), byte_at-IsByte p 3 h),
  omega (arith, e 4 (omega arith), byte_at-IsByte p 4 h),
  omega (arith, e 5 (omega arith), byte_at-IsByte p 5 h),
  omega (arith, e 6 (omega arith), byte_at-IsByte p 6 h),
  omega (arith, e 7 (omega arith), byte_at-IsByte p 7 h),
)

-- The sums under a key of 0 are sums of bytes.
ones_low :
    (v : M128) (p : List ℕ) (prev : ℕ)
    → Holds8 v p
    → (sum_to 0 p prev 1 ≡ byte_sum v prev 0)
      × (sum_to 0 p prev 2 ≡ byte_sum v prev 1)
      × (sum_to 0 p prev 3 ≡ byte_sum v prev 2)
      × (sum_to 0 p prev 4 ≡ byte_sum v prev 3)
ones_low v p prev e =
    let s0 : sum_to 0 p prev 1 ≡ byte_sum v prev 0 = omega (arith, e 0 (omega arith)) in
    let s1 : sum_to 0 p prev 2 ≡ byte_sum v prev 1 = omega (arith, e 1 (omega arith), s0) in
    let s2 : sum_to 0 p prev 3 ≡ byte_sum v prev 2 = omega (arith, e 2 (omega arith), s1) in
    (s0, s1, s2, omega (arith, e 3 (omega arith), s2))

ones_high :
    (v : M128) (p : List ℕ) (prev : ℕ)
    → Holds8 v p
    → let low = byte_sum v prev 3 in
      (sum_to 0 (drop 4 p) low 1 ≡ byte_sum v prev 4)
      × (sum_to 0 (drop 4 p) low 2 ≡ byte_sum v prev 5)
      × (sum_to 0 (drop 4 p) low 3 ≡ byte_sum v prev 6)
      × (sum_to 0 (drop 4 p) low 4 ≡ byte_sum v prev 7)
ones_high v p prev e =
    let low = byte_sum v prev 3 in
    let s0 : sum_to 0 (drop 4 p) low 1 ≡ byte_sum v prev 4 =
      omega (arith, e 4 (omega arith), byte_at-drop 4 0 p) in
    let s1 : sum_to 0 (drop 4 p) low 2 ≡ byte_sum v prev 5 =
      omega (arith, e 5 (omega arith), byte_at-drop 4 1 p, s0) in
    let s2 : sum_to 0 (drop 4 p) low 3 ≡ byte_sum v prev 6 =
      omega (arith, e 6 (omega arith), byte_at-drop 4 2 p, s1) in
    (s0, s1, s2, omega (arith, e 7 (omega arith), byte_at-drop 4 3 p, s2))

list4 :
    {a b c d a' b' c' d' : ℕ}
    → a ≡ a'
    → b ≡ b'
    → c ≡ c'
    → d ≡ d'
    → ◌≡◌ {A = List ℕ} (a ∷ b ∷ c ∷ d ∷ []) (a' ∷ b' ∷ c' ∷ d' ∷ [])
list4 ea eb ec ed = cc

two_parts :
    (a b a' b' more : List ℕ) {o m out : List ℕ}
    → o ≡ a ++ m
    → m ≡ b ++ more
    → a ≡ a'
    → b ≡ b'
    → out ≡ a' ++ b'
    → o ≡ out ++ more
two_parts a b a' b' more h k ea eb e = h ∙ rw (k, ea, eb, e) (sym (append_assoc a' b' more))

-- Eight values of one byte each.
eight-Follows :
    (v prev : M128) (n : ℕ) (keys p : List ℕ) {o q : List ℕ}
    → Holds8 v p
    → All IsByte p
    → 12 ≤ length q
    → scalar (eights 1 n) (0 ∷ 0 ∷ keys) p (lane prev 3) ≡ some (o, q)
    → (more : List ℕ) × (o ≡ (avx_eight v prev).0 ++ more)
      × (scalar n keys (drop 8 p) (lane (avx_eight v prev).1 3) ≡ some (more, q))
eight-Follows v prev n keys p {o} {q} e bytes slack h =
    let P = lane prev 3 in
    let long = scalar-length (eights 1 n) 8 0 (0 ∷ 0 ∷ keys) p P h in
    let (l0, l1, l2, l3) = ones_low v p P e in
    let (m0, m1, m2, m3) = ones_high v p P e in
    let (out, last) = avx_eight_lem v prev (Holds8-Bytes8 v p e bytes) in
    let (more1, go1, front1) =
      split_front (scalar (suc (suc (suc (suc n)))) (0 ∷ keys) (drop 4 p) (sum_to 0 p P 4))
        (four 0 p P)
        (sym (scalar-four (suc (suc (suc (suc n)))) 0 (0 ∷ keys) p P bytes (omega arith)) ∙ h) in
    let go1' : scalar (suc (suc (suc (suc n)))) (0 ∷ keys) (drop 4 p) (byte_sum v P 3)
        ≡ some (more1, q) =
      subst (λ (x : ℕ). scalar (suc (suc (suc (suc n)))) (0 ∷ keys) (drop 4 p) x ≡ some (more1, q))
        l3 go1 in
    let (more2, go2, front2) =
      split_front (scalar n keys (drop 4 (drop 4 p)) (sum_to 0 (drop 4 p) (byte_sum v P 3) 4))
        (four 0 (drop 4 p) (byte_sum v P 3))
        (sym (
            scalar-four n 0 keys (drop 4 p) (byte_sum v P 3) (All-drop 4 p bytes)
              (omega (arith, length-drop 4 p)))
          ∙ go1') in
    let eight : scalar n keys (drop 8 p) (byte_sum v P 7) ≡ some (more2, q) =
      subst (λ (x : ℕ). scalar n keys (drop 8 p) x ≡ some (more2, q)) m3
        (subst
          (λ (t : List ℕ).
            scalar n keys t (sum_to 0 (drop 4 p) (byte_sum v P 3) 4) ≡ some (more2, q))
          (drop-drop 4 4 p) go2) in
    (
      more2,
      two_parts (four 0 p P) (four 0 (drop 4 p) (byte_sum v P 3)) (sums_from v P 0)
          (sums_from v P 4) more2 front1 front2 (list4 l0 l1 l2 l3) (list4 m0 m1 m2 m3) out,
      subst (λ (x : ℕ). scalar n keys (drop 8 p) x ≡ some (more2, q)) (sym last) eight,
    )

loadu_si128_lem : (p : List ℕ) → 16 ≤ length p → (v : M128) × (loadu_si128 p ≡ some v) × Holds8 v p
unfolding loadu_si128
loadu_si128_lem p h = (byte_at p, rw (le→leb 16 (length p) h) refl, λ j lt. refl)

loadl_epi64_lem : (p : List ℕ) → 8 ≤ length p → (v : M128) × (loadl_epi64 p ≡ some v) × Holds8 v p
unfolding loadl_epi64
loadl_epi64_lem p h = (
  λ j. if ltb j 8 then byte_at p j else 0,
  rw (le→leb 8 (length p) h) refl,
  λ j lt. rw (lt→ltb j 8 lt) refl,
)

-- The last load of the path for values of one byte.
last_load :
    (last : Bool) (p : List ℕ)
    → 16 ≤ length p
    → (v : M128) × ((if last then loadl_epi64 p else loadu_si128 p) ≡ some v) × Holds8 v p
last_load true p h = loadl_epi64_lem p (omega arith)
last_load false p h = loadu_si128_lem p h

abbrev zeros : List ℕ → List ℕ
zeros keys = 0 ∷ 0 ∷ 0 ∷ 0 ∷ 0 ∷ 0 ∷ 0 ∷ 0 ∷ keys

four_parts :
    (a b c d more : List ℕ) {o o1 o2 o3 : List ℕ}
    → o ≡ a ++ o1
    → o1 ≡ b ++ o2
    → o2 ≡ c ++ o3
    → o3 ≡ d ++ more
    → o ≡ (a ++ (b ++ (c ++ d))) ++ more
four_parts a b c d more h h1 h2 h3 =
    rw
      (
        h,
        h1,
        h2,
        h3,
        append_assoc a (b ++ (c ++ d)) more,
        append_assoc b (c ++ d) more,
        append_assoc c d more,
      )
      refl

pub ones-Follows :
    (last : Bool) (n : ℕ) (keys p : List ℕ) (prev : M128) {o q : List ℕ}
    → All IsByte p
    → 12 ≤ length q
    → scalar (eights 4 n) (zeros keys) p (lane prev 3) ≡ some (o, q)
    → Follows (avx_ones last p prev) n keys o q
unfolding avx_ones
ones-Follows last n keys p prev {o} {q} bytes slack h =
    let long = scalar-length (eights 4 n) 8 0 (zeros keys) p (lane prev 3) h in
    let (v1, e1, k1) = loadu_si128_lem p (omega arith) in
    let (m1, s1, g1) =
      eight-Follows v1 prev (eights 3 n) (0 ∷ 0 ∷ 0 ∷ 0 ∷ 0 ∷ 0 ∷ keys) p k1 bytes slack h in
    let w1 = (avx_eight v1 prev).1 in
    let (v2, e2, k2) = loadu_si128_lem (drop 8 p) (omega (arith, length-drop 8 p)) in
    let (m2, s2, g2) =
      eight-Follows v2 w1 (eights 2 n) (0 ∷ 0 ∷ 0 ∷ 0 ∷ keys) (drop 8 p) k2 (All-drop 8 p bytes)
        slack g1 in
    let w2 = (avx_eight v2 w1).1 in
    let (v3, e3, k3) = loadu_si128_lem (drop 16 p) (omega (arith, length-drop 16 p)) in
    let (m3, s3, g3) =
      eight-Follows v3 w2 (eights 1 n) (0 ∷ 0 ∷ keys) (drop 16 p) k3 (All-drop 16 p bytes) slack (
        subst
          (λ (t : List ℕ). scalar (eights 2 n) (0 ∷ 0 ∷ 0 ∷ 0 ∷ keys) t (lane w2 3) ≡ some (m2, q))
          (drop-drop 8 8 p) g2) in
    let w3 = (avx_eight v3 w2).1 in
    let (v4, e4, k4) = last_load last (drop 24 p) (omega (arith, length-drop 24 p)) in
    let (m4, s4, g4) = eight-Follows v4 w3 n keys (drop 24 p) k4 (All-drop 24 p bytes) slack (
      subst (λ (t : List ℕ). scalar (eights 1 n) (0 ∷ 0 ∷ keys) t (lane w3 3) ≡ some (m3, q))
        (drop-drop 8 16 p) g3) in
    record {
      out =
          (avx_eight v1 prev).0
          ++ ((avx_eight v2 w1).0 ++ ((avx_eight v3 w2).0 ++ (avx_eight v4 w3).0));
      p' = drop 32 p;
      prev' = (avx_eight v4 w3).1;
      more = m4;
      returns = rw (e1, e2, e3, e4) refl;
      stored =
          four_parts (avx_eight v1 prev).0 (avx_eight v2 w1).0 (avx_eight v3 w2).0
            (avx_eight v4 w3).0 m4 s1 s2 s3 s4;
      goes_on =
          subst (λ (t : List ℕ). scalar n keys t (lane (avx_eight v4 w3).1 3) ≡ some (m4, q))
            (drop-drop 8 24 p) g4;
      bytes = All-drop 32 p bytes;
    }
