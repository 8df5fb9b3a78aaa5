-- ===== src/Buff/Laws.antt =====
-- The capacity of a byte buffer, and what growing it does.
use csearch.Common.{ℕ, ◌+◌, ◌-◌, ◌/◌, ◌%◌, ◌^◌, ◌≤◌, ◌<◌, ◌≡◌, refl, arith}
use csearch.Common.{List, length, take, replicate, le→leb, leb-false, take-take-append}
use csearch.Common.Bits.{le-bit_or, bit_or-lt}
use csearch.Runtime.{Runtime}
use csearch.Chunk.Laws.{length-realloc}
use csearch.Buff.{Buff, smear, nearest_power, buff_grow}
use native.Mathlib.Decide.{dec_le}

pub record IsValid (b : Buff) : Type 0 where
  pub allocated : length b.buff ≡ b.cap
  pub within : b.size ≤ b.cap
  pub word : b.cap < 2 ^ 32

-- the bytes added so far
abbrev pub contents : Buff → List ℕ
contents b = take b.size b.buff

smear-bounds : (n k : ℕ) → n < 2 ^ 31 → n / 2 ^ k ≤ n → (n ≤ smear n k) × (smear n k < 2 ^ 31)
smear-bounds n k h small = (le-bit_or n (n / 2 ^ k), bit_or-lt 31 n (n / 2 ^ k) h (omega arith))

-- From 1 to 2 ^ 31, the result is not below the argument, and fits into the capacity.
pub nearest_power-bounds :
    (num : ℕ) → 1 ≤ num → num ≤ 2 ^ 31 → (num ≤ nearest_power num) × (nearest_power num ≤ 2 ^ 31)
unfolding nearest_power
nearest_power-bounds num pos small =
    let n0 : ℕ = (num + (2 ^ 64 - 1)) % 2 ^ 64 in
    let e0 : n0 + 1 ≡ num = omega arith in
    let b1 = smear-bounds n0 1 (omega arith) (omega arith) in
    let n1 : ℕ = smear n0 1 in
    let b2 = smear-bounds n1 2 b1.1 (omega arith) in
    let n2 : ℕ = smear n1 2 in
    let b3 = smear-bounds n2 4 b2.1 (omega arith) in
    let n3 : ℕ = smear n2 4 in
    let b4 = smear-bounds n3 8 b3.1 (omega arith) in
    let n4 : ℕ = smear n3 8 in
    let b5 = smear-bounds n4 16 b4.1 (omega arith) in
    let n5 : ℕ = smear n4 16 in
    let b6 = smear-bounds n5 32 b5.1 (omega arith) in
    (omega (arith, b1, b2, b3, b4, b5, b6), omega (arith, b1, b2, b3, b4, b5, b6))

module _ (r : Runtime) where
  -- Below 2 ^ 30 bytes in total, growing makes room for the bytes and one more, and keeps the rest.
  pub buff_grow_lem :
      (len : ℕ) {b : Buff}
      → IsValid b
      → b.size + len < 2 ^ 30
      → let b' = buff_grow r b len in
        IsValid b' × (b.size + len < b'.cap) × (b'.size ≡ b.size) × (contents b' ≡ contents b)
  unfolding buff_grow
  buff_grow_lem len {b} v small = elim (dec_le b.cap (b.size + len)) [
    | yes full ↦
        let word : (b.size + len) % 2 ^ 64 ≡ b.size + len = omega arith in
        let word' : (b.cap + len + 1) % 2 ^ 64 ≡ b.cap + len + 1 = omega arith in
        let n : ℕ = nearest_power (b.cap + len + 1) in
        let (low, high) = nearest_power-bounds (b.cap + len + 1) (omega arith) (omega arith) in
        rw (word, word', le→leb b.cap (b.size + len) full)
          (
            record {
              allocated = length-realloc r b.buff n;
              within = omega arith;
              word = omega arith;
            },
            omega arith,
            refl,
            take-take-append b.size n b.buff (replicate (n - length b.buff) r.junk) (omega arith)
                (omega arith),
          )
    | no room ↦
        let word : (b.size + len) % 2 ^ 64 ≡ b.size + len = omega arith in
        rw (word, leb-false b.cap (b.size + len) (omega arith)) (v, omega arith, refl, refl)
  ]
