-- ===== src/Buff/Overflow.antt =====
-- What happens to a byte buffer that needs more than 2^31 bytes.
use csearch.Common.{ℕ, ◌+◌, ◌-◌, ◌*◌, ◌/◌, ◌%◌, ◌^◌, ◌≤◌, ◌<◌, ◌≡◌, refl, ap, ◌∙◌, arith}
use csearch.Common.{List, ◌∷◌, some, length, le→leb, leb-false}
use csearch.Common.Bits.{le-bit_or, le-bit_or_right, bit_or-lt, bit_or-high}
use csearch.Common.Outcome.{fault, heap_overflow}
use csearch.Runtime.{Runtime}
use csearch.Chunk.Laws.{length-realloc}
use csearch.Buff.{Buff, smear, nearest_power, buff_grow, buff_cat, append}
use csearch.Buff.Laws.{IsValid}
use Prim.Native.Nat.{bit_or}

-- In a uint32_t whose top bit is set, the top bits double by each step.
smear-top :
    (x k a low : ℕ)
    → x ≡ a * 2 ^ k + low
    → low < 2 ^ k
    → x / 2 ^ (32 - k) < 2 ^ k
    → a * 2 ^ k + x / 2 ^ (32 - k) ≤ smear x (32 - k)
smear-top x k a low e hl hz =
    let z = x / 2 ^ (32 - k) in
    let high : bit_or x z ≡ a * 2 ^ k + bit_or low z =
      ap (λ (t : ℕ). bit_or t z) e ∙ bit_or-high k a low z hl hz in
    omega (arith, high, le-bit_or_right low z)

smear-word : (x k : ℕ) → x < 2 ^ 32 → x / 2 ^ k ≤ x → (smear x k < 2 ^ 32) × (x ≤ smear x k)
smear-word x k h small = (bit_or-lt 32 x (x / 2 ^ k) h (omega arith), le-bit_or x (x / 2 ^ k))

-- Above 2^31 and up to 2^32, the capacity computed is 0.
pub nearest_power-wraps : (num : ℕ) → 2 ^ 31 < num → num ≤ 2 ^ 32 → nearest_power num ≡ 0
unfolding nearest_power
nearest_power-wraps num big small =
    let n0 : ℕ = (num + (2 ^ 64 - 1)) % 2 ^ 64 in
    let e0 : n0 + 1 ≡ num = omega arith in
    let w0 : n0 < 2 ^ 32 = omega arith in
    let t1 = smear-top n0 31 1 (n0 - 2 ^ 31) (omega arith) (omega arith) (omega arith) in
    let n1 : ℕ = smear n0 1 in
    let w1 = smear-word n0 1 w0 (omega arith) in
    let t2 =
      smear-top n1 30 3 (n1 - 3 * 2 ^ 30) (omega (arith, t1, w1)) (omega (arith, w1))
        (omega (arith, w1)) in
    let n2 : ℕ = smear n1 2 in
    let w2 = smear-word n1 2 w1.0 (omega arith) in
    let t3 =
      smear-top n2 28 15 (n2 - 15 * 2 ^ 28) (omega (arith, t1, t2)) (omega (arith, w2))
        (omega (arith, w2)) in
    let n3 : ℕ = smear n2 4 in
    let w3 = smear-word n2 4 w2.0 (omega arith) in
    let t4 =
      smear-top n3 24 255 (n3 - 255 * 2 ^ 24) (omega (arith, t1, t2, t3)) (omega (arith, w3))
        (omega (arith, w3)) in
    let n4 : ℕ = smear n3 8 in
    let w4 = smear-word n3 8 w3.0 (omega arith) in
    let t5 =
      smear-top n4 16 65535 (n4 - 65535 * 2 ^ 16) (omega (arith, t1, t2, t3, t4))
        (omega (arith, w4)) (omega (arith, w4)) in
    let n5 : ℕ = smear n4 16 in
    let w5 = smear-word n4 16 w4.0 (omega arith) in
    let w6 = smear-word n5 32 w5.0 (omega arith) in omega (arith, t1, t2, t3, t4, t5, w5, w6)

module _ (r : Runtime) where
  -- If a valid buffer is too small for a string that is not empty, and its capacity with the string and one
  -- more byte is above 2^31 and at most 2^32, `buff_cat` stores behind the buffer.
  pub buff_cat-overflows :
      (c : ℕ) (cs : List ℕ) {b : Buff}
      → IsValid b
      → b.cap ≤ b.size + length (c ∷ cs)
      → 2 ^ 31 < b.cap + length (c ∷ cs) + 1
      → b.cap + length (c ∷ cs) + 1 ≤ 2 ^ 32
      → buff_cat r b (some (c ∷ cs)) ≡ fault heap_overflow
  unfolding buff_cat buff_grow append
  buff_cat-overflows c cs {b} v full big small =
      let len : ℕ = length (c ∷ cs) in
      let word : (b.size + len) % 2 ^ 64 ≡ b.size + len = omega (arith, v.within) in
      let word' : (b.cap + len + 1) % 2 ^ 64 ≡ b.cap + len + 1 = omega arith in
      rw
        (
          word,
          word',
          le→leb b.cap (b.size + len) full,
          nearest_power-wraps (b.cap + len + 1) big small,
          length-realloc r b.buff 0,
          leb-false (b.size + len) 0 (omega arith),
        )
        refl
