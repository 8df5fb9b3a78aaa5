-- ===== src/Ring/Index.antt =====
-- Indices of a ring of 2^k slots, as counters modulo 2^k.
use csearch.Common.{ℕ, ◌+◌, ◌-◌, ◌%◌, ◌^◌, ◌≤◌, ◌<◌, ◌≡◌, sym, ap, ◌∙◌, arith}
use csearch.Common.Bits.{bit_and-mask, pow_pos}
use csearch.Common.Words.{add32}
use csearch.Ring.{next_index}
use native.Mathlib.Decide.{dec_lt}
use native.Mathlib.Nat.{mod-lt, mod-eq_of_lt, mod-eq-sub-mod, mod-add-mod, add-mod_right}

pub next_index-counter :
    (k a : ℕ) → 2 ^ k ≤ 2 ^ 31 → next_index (a % 2 ^ k) (2 ^ k - 1) ≡ (a + 1) % 2 ^ k
next_index-counter k a small =
    let below : a % 2 ^ k < 2 ^ k = mod-lt a (pow_pos k) in
    let word : add32 (a % 2 ^ k) 1 ≡ a % 2 ^ k + 1 = omega arith in
    rw (word, bit_and-mask k (a % 2 ^ k + 1)) (mod-add-mod a (2 ^ k) 1)

-- Counters less than a lap apart are told apart by their indices.
pub index-injective : (n a b : ℕ) → a ≤ b → b < a + n → a % n ≡ b % n → a ≡ b
index-injective n a b le lap same =
    let d = b - a in
    let r = a % n in
    let below : r < n = mod-lt a (omega arith) in
    let there : b ≡ a + d = omega arith in
    let moved : r ≡ (r + d) % n = same ∙ ap (λ (t : ℕ). t % n) there ∙ sym (mod-add-mod a n d) in
    elim (dec_lt (r + d) n) [
      | yes lt ↦ omega (arith, moved, mod-eq_of_lt lt)
      | no ge ↦
          let back : (r + d) % n ≡ r + d - n =
            mod-eq-sub-mod (omega arith) ∙ mod-eq_of_lt (omega arith) in
          omega (arith, moved, back)
    ]

-- The distance of two counters less than a lap apart, from their indices.
pub index-gap : (n a d : ℕ) → d < n → (n + (a + d) % n - a % n) % n ≡ d
index-gap n a d lt =
    let r = a % n in
    let below : r < n = mod-lt a (omega arith) in
    let there : (r + d) % n ≡ (a + d) % n = mod-add-mod a n d in
    elim (dec_lt (r + d) n) [
      | yes low ↦
          let at : (a + d) % n ≡ r + d = sym there ∙ mod-eq_of_lt low in
          let gap : n + (a + d) % n - r ≡ d + n = omega arith in
          rw (gap) (add-mod_right d n ∙ mod-eq_of_lt lt)
      | no ge ↦
          let at : (a + d) % n ≡ r + d - n =
            sym there ∙ mod-eq-sub-mod (omega arith) ∙ mod-eq_of_lt (omega arith) in
          let gap : n + (a + d) % n - r ≡ d = omega arith in rw (gap) (mod-eq_of_lt lt)
    ]
