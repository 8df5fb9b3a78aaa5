-- ===== src/Ring/Queries.antt =====
-- Allocation, putback and the queries of a ring that no other thread works on.
use csearch.Common.{ℕ, zero, suc, ◌+◌, ◌-◌, ◌%◌, ◌^◌, ◌≤◌, ◌<◌, ◌≡◌, ◌≢◌, refl, sym, ap, ◌∙◌}
use csearch.Common.{List, [], ◌∷◌, length, get_elem?, set, some, arith}
use csearch.Common.{
  ◌==◌, length-set, get_elem?-set, get_elem?-set_other, lt→ltb, ==-cong, replicate,
  length-replicate,
}
use csearch.Common.Outcome.{ok}
use csearch.Common.Bits.{bit_and-mask, bit_and-pow, pow_pos}
use csearch.Ring.{BufRing, buf_ring_alloc}
use csearch.Ring.{buf_ring_putback_sc, buf_ring_full, buf_ring_empty, buf_ring_count}
use csearch.Ring.Index.{next_index-counter, index-injective, index-gap}
use native.Mathlib.Nat.{mod-lt, zero-mod, add-mod_right}
use native.Mathlib.Decide.{dec_lt}
use csearch.Ring.Queue.{Holds}

-- `buf_ring_putback_sc` on a ring that is not empty replaces its oldest pointer.
pub putback_sc-Holds :
    (k : ℕ) (br : BufRing) (x new : ℕ) (q : List ℕ)
    → Holds k br (x ∷ q)
    → (br' : BufRing) × (buf_ring_putback_sc br new ≡ ok br') × Holds k br' (new ∷ q)
unfolding buf_ring_putback_sc
putback_sc-Holds k br x new q h =
    let c = br.br_cons_head in
    let inside : c < length br.br_ring =
      omega (arith, h.slots, h.cons_head, mod-lt h.first (pow_pos k)) in
    let zeroth : (h.first + 0) % 2 ^ k ≡ c = ap (λ t. t % 2 ^ k) (omega arith) ∙ sym h.cons_head in
    let other : (i : ℕ) → suc i < length (x ∷ q) → c ≢ (h.first + suc i) % 2 ^ k = λ i lt e.
      let lap : h.first + suc i < h.first + 2 ^ k = omega (arith, h.room) in
      absurd (
        omega (
          arith,
          index-injective (2 ^ k) h.first (h.first + suc i) (omega arith) lap (sym h.cons_head ∙ e),
        )) in
    (
      record br { br_ring = set br.br_ring c new },
      rw (lt→ltb c (length br.br_ring) inside) refl,
      record {
        first = h.first;
        small = h.small;
        room = omega (arith, h.room);
        prod_head = h.prod_head;
        prod_tail = h.prod_tail;
        cons_head = h.cons_head;
        cons_tail = h.cons_tail;
        prod_mask = h.prod_mask;
        cons_mask = h.cons_mask;
        prod_size = h.prod_size;
        slots = length-set br.br_ring c new ∙ h.slots;
        held = elim [
          | zero ↦ λ lt.
              ap (get_elem? (set br.br_ring c new)) zeroth ∙ get_elem?-set br.br_ring c new inside
          | suc i ↦ λ lt.
              get_elem?-set_other br.br_ring c ((h.first + suc i) % 2 ^ k) new (other i lt)
              ∙ h.held (suc i) lt
        ];
      },
    )

-- `buf_ring_count` is the number of pointers in the ring, `buf_ring_empty` tells whether it is 0
-- and `buf_ring_full` whether it is one less than the number of slots.
pub count-Holds :
    (k : ℕ) (br : BufRing) (q : List ℕ)
    → Holds k br q
    → (buf_ring_count br ≡ length q)
      × (buf_ring_empty br ≡ (length q == 0))
      × (buf_ring_full br ≡ (length q + 1 == 2 ^ k))
unfolding buf_ring_count buf_ring_empty buf_ring_full
count-Holds k br q h =
    let n = 2 ^ k in
    let p = (h.first + length q) % n in
    let c = h.first % n in
    let c_below : c < n = mod-lt h.first (pow_pos k) in
    let p_below : p < n = mod-lt (h.first + length q) (pow_pos k) in
    let word : (n + p + (2 ^ 32 - c)) % 2 ^ 32 ≡ n + p - c = omega (arith, h.small) in
    let next = next_index-counter k (h.first + length q) h.small in
    (
      rw (h.prod_size, h.prod_tail, h.cons_tail, h.prod_mask, word, bit_and-mask k (n + p - c))
          (index-gap n h.first (length q) h.room),
      rw (h.cons_head, h.prod_tail)
          (==-cong c p (length q) 0
            (λ e.
              let same =
                index-injective n h.first (h.first + length q) (omega arith) (omega (arith, h.room))
                  e in
              omega arith)
            (λ e. ap (λ t. t % n) (omega arith))),
      rw (h.prod_head, h.prod_mask, h.cons_tail, next)
          (==-cong ((h.first + length q + 1) % n) c (length q + 1) n
            (λ e. elim (dec_lt (length q + 1) n) [
              | yes lt ↦
                  let same =
                    index-injective n h.first (h.first + length q + 1) (omega arith) (omega arith)
                      (sym e) in
                  absurd (omega arith)
              | no ge ↦ omega (arith, h.room)
            ])
            (λ e. ap (λ t. t % n) (omega arith) ∙ add-mod_right h.first n)),
    )

abbrev pub new_ring : ℕ → BufRing
new_ring k = record {
  br_prod_head = 0;
  br_prod_tail = 0;
  br_prod_size = 2 ^ k;
  br_prod_mask = 2 ^ k - 1;
  br_drops = 0;
  br_cons_head = 0;
  br_cons_tail = 0;
  br_cons_size = 2 ^ k;
  br_cons_mask = 2 ^ k - 1;
  br_ring = replicate (2 ^ k) 0;
}

pub alloc_new : (k : ℕ) → 2 ^ k ≤ 2 ^ 31 → buf_ring_alloc (2 ^ k) ≡ some (new_ring k)
unfolding buf_ring_alloc
alloc_new k small =
    let word : (2 ^ k + (2 ^ 32 - 1)) % 2 ^ 32 ≡ 2 ^ k - 1 = omega (arith, pow_pos k) in
    rw (word, bit_and-pow k) refl

-- `buf_ring_alloc` of a power of two makes an empty ring.
pub alloc-Holds :
    (k : ℕ) → 2 ^ k ≤ 2 ^ 31 → (br : BufRing) × (buf_ring_alloc (2 ^ k) ≡ some br) × Holds k br []
alloc-Holds k small =
    let n = 2 ^ k in
    (
      new_ring k,
      alloc_new k small,
      record {
        first = 0;
        small = small;
        room = pow_pos k;
        prod_head = sym (zero-mod n);
        prod_tail = sym (zero-mod n);
        cons_head = sym (zero-mod n);
        cons_tail = sym (zero-mod n);
        prod_mask = refl;
        cons_mask = refl;
        prod_size = refl;
        slots = length-replicate n 0;
        held = λ i lt. absurd (omega arith);
      },
    )
