-- ===== src/StreamVByte/Avx/Quad.antt =====
-- One key: the four values that `_decode_avx` and `_write_avx_d1` give are those of four rounds of the
-- scalar loop.
use csearch.Common.{ℕ, zero, suc, ◌+◌, ◌*◌, ◌%◌, ◌^◌, ◌≤◌, ◌<◌, ◌≡◌, refl, arith}
use csearch.Common.{List, some, length, drop, leb, le→leb, leb-false, if◌then◌else◌}
use csearch.Common.Words.{add32, of_le32}
use csearch.Simd.{
  M128, byte_at, lane, loadu_si128, shuffle_epi8, slli_si128, shuffle_epi32, add_epi32,
}
use csearch.Simd.Lanes.{lane-add_epi32, lane-shuffle_epi32_last, lane-slli_4, lane-slli_8}
use csearch.StreamVByte.Avx.{decode_avx, write_avx_d1}
use csearch.StreamVByte.Avx.Tables.{code, start, key_row, shuffle_table_lem, length_table_lem}

-- The value of `c + 1` bytes from byte `s` on.
abbrev pub value : M128 → ℕ → ℕ → ℕ
value v s c =
    v s
    + (if leb 1 c then v (s + 1) * 2 ^ 8 else 0)
    + (if leb 2 c then v (s + 2) * 2 ^ 16 else 0)
    + (if leb 3 c then v (s + 3) * 2 ^ 24 else 0)

-- What `shuffle_epi8` takes for one selector.
abbrev pick : M128 → ℕ → ℕ
pick v x = if leb 128 x then 0 else v (x % 16)

pick-lt : (v : M128) (x : ℕ) → x < 16 → pick v x ≡ v x
pick-lt v x h = let same : x % 16 ≡ x = omega arith in rw (leb-false 128 x (omega arith), same) refl

pick-value :
    (v : M128) (s c : ℕ)
    → c < 4
    → s ≤ 12
    → of_le32
        (pick v s)
        (pick v (if leb 1 c then s + 1 else 255))
        (pick v (if leb 2 c then s + 2 else 255))
        (pick v (if leb 3 c then s + 3 else 255))
      ≡ value v s c
pick-value v s zero hc hs = omega (arith, pick-lt v s (omega arith))
pick-value v s (suc zero) hc hs =
    omega (arith, pick-lt v s (omega arith), pick-lt v (s + 1) (omega arith))
pick-value v s (suc (suc zero)) hc hs = omega (
  arith,
  pick-lt v s (omega arith),
  pick-lt v (s + 1) (omega arith),
  pick-lt v (s + 2) (omega arith),
)
pick-value v s (suc (suc (suc zero))) hc hs = omega (
  arith,
  pick-lt v s (omega arith),
  pick-lt v (s + 1) (omega arith),
  pick-lt v (s + 2) (omega arith),
  pick-lt v (s + 3) (omega arith),
)
pick-value v s (suc (suc (suc (suc c)))) hc hs = absurd (omega arith)

-- The vector of a key holds its four values.
pub decode_avx_lem :
    (key : ℕ) (p : List ℕ)
    → key < 256
    → 16 ≤ length p
    → (v : M128) × (decode_avx key p ≡ some (v, drop (start key 4) p))
      × (lane v 0 ≡ value (byte_at p) (start key 0) (code key 0))
      × (lane v 1 ≡ value (byte_at p) (start key 1) (code key 1))
      × (lane v 2 ≡ value (byte_at p) (start key 2) (code key 2))
      × (lane v 3 ≡ value (byte_at p) (start key 3) (code key 3))
unfolding decode_avx loadu_si128 shuffle_epi8 lane
decode_avx_lem key p h long = (
  shuffle_epi8 (byte_at p) (byte_at (key_row key)),
  rw (length_table_lem key h, le→leb 16 (length p) long, shuffle_table_lem key h) refl,
  pick-value (byte_at p) (start key 0) (code key 0) (omega arith) (omega arith),
  pick-value (byte_at p) (start key 1) (code key 1) (omega arith) (omega arith),
  pick-value (byte_at p) (start key 2) (code key 2) (omega arith) (omega arith),
  pick-value (byte_at p) (start key 3) (code key 3) (omega arith) (omega arith),
)

-- The steps of `_write_avx_d1` in one word.
write_lane :
    (v prev : M128) (i : ℕ)
    → i < 4
    → let pairs = add_epi32 v (slli_si128 v 4) in
      lane (write_avx_d1 v prev) i
      ≡ add32
          (add32 (add32 (lane v i) (lane (slli_si128 v 4) i)) (lane prev 3))
          (lane (slli_si128 pairs 8) i)
unfolding write_avx_d1
write_lane v prev i h =
    let pairs = add_epi32 v (slli_si128 v 4) in
    let last = shuffle_epi32 prev 0xff in
    rw
      (
        lane-add_epi32 (add_epi32 pairs last) (slli_si128 pairs 8) i h,
        lane-add_epi32 pairs last i h,
        lane-add_epi32 v (slli_si128 v 4) i h,
        lane-shuffle_epi32_last prev i h,
      )
      refl

-- The vector stored holds the running sums, from the last word of the vector before.
pub write_avx_d1_lem :
    (v prev : M128)
    → let w0 = add32 (lane v 0) (lane prev 3) in
      let w1 = add32 (lane v 1) w0 in
      let w2 = add32 (lane v 2) w1 in
      let w3 = add32 (lane v 3) w2 in
      (lane (write_avx_d1 v prev) 0 ≡ w0)
      × (lane (write_avx_d1 v prev) 1 ≡ w1)
      × (lane (write_avx_d1 v prev) 2 ≡ w2)
      × (lane (write_avx_d1 v prev) 3 ≡ w3)
write_avx_d1_lem v prev =
    let pairs = add_epi32 v (slli_si128 v 4) in
    let (s0, s1, s2, s3) = lane-slli_4 v in
    let (t0, t1, t2, t3) = lane-slli_8 pairs in
    let p0 = lane-add_epi32 v (slli_si128 v 4) 0 (omega arith) in
    let p1 = lane-add_epi32 v (slli_si128 v 4) 1 (omega arith) in
    (
      omega (arith, write_lane v prev 0 (omega arith), s0, t0),
      omega (arith, write_lane v prev 1 (omega arith), s1, t1),
      omega (arith, write_lane v prev 2 (omega arith), s2, t2, p0, s0),
      omega (arith, write_lane v prev 3 (omega arith), s3, t3, p1, s1),
    )
