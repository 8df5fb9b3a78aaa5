-- ===== src/Ring/Queue.antt =====
-- The single-consumer operations on a ring that no other thread works on.
use csearch.Common.{ℕ, suc, ◌+◌, ◌-◌, ◌%◌, ◌^◌, ◌≤◌, ◌<◌, ◌≡◌, refl, sym, ap, ◌∙◌}
use csearch.Common.{List, [], ◌∷◌, length, get_elem?, Option, none, some, arith}
use csearch.Common.{true, false, ◌==◌, eq→==, ne→==, Bool-cases, inl, inr}
use csearch.Common.Outcome.{ok, ◌>>=◌, >>=-assoc}
use csearch.Ring.{BufRing, next_index, load_slot, buf_ring_dequeue_sc, buf_ring_advance_sc}
use csearch.Ring.{buf_ring_peek}
use csearch.Ring.Index.{next_index-counter, index-injective}

-- A ring of 2^k slots at rest, with the pointers `q` in it, the oldest first. `first` counts the
-- pointers that were taken out before.
pub record Holds (k : ℕ) (br : BufRing) (q : List ℕ) : Type 0 where
  pub first : ℕ
  pub small : 2 ^ k ≤ 2 ^ 31
  pub room : length q < 2 ^ k
  pub prod_head : br.br_prod_head ≡ (first + length q) % 2 ^ k
  pub prod_tail : br.br_prod_tail ≡ (first + length q) % 2 ^ k
  pub cons_head : br.br_cons_head ≡ first % 2 ^ k
  pub cons_tail : br.br_cons_tail ≡ first % 2 ^ k
  pub prod_mask : br.br_prod_mask ≡ 2 ^ k - 1
  pub cons_mask : br.br_cons_mask ≡ 2 ^ k - 1
  pub prod_size : br.br_prod_size ≡ 2 ^ k
  pub slots : length br.br_ring ≡ 2 ^ k
  pub held : (i : ℕ) → i < length q → get_elem? br.br_ring ((first + i) % 2 ^ k) ≡ get_elem? q i

abbrev pub front : List ℕ → Option ℕ
front [] = none
front (x ∷ q) = some x

abbrev pub rest : List ℕ → List ℕ
rest [] = []
rest (x ∷ q) = q

-- The indices of the two sides are equal only in an empty ring.
not_empty :
    {k x : ℕ} {br : BufRing} {q : List ℕ}
    → Holds k br (x ∷ q)
    → (br.br_cons_head == br.br_prod_tail) ≡ false
not_empty {k} {x} {br} {q} h = ne→== br.br_cons_head br.br_prod_tail (λ e.
    let same = sym h.cons_head ∙ e ∙ h.prod_tail in
    let lap : h.first + suc (length q) < h.first + 2 ^ k = omega (arith, h.room) in
    absurd (
      omega
        (arith, index-injective (2 ^ k) h.first (h.first + suc (length q)) (omega arith) lap same)))

pub is_empty : {k : ℕ} {br : BufRing} → Holds k br [] → (br.br_cons_head == br.br_prod_tail) ≡ true
is_empty {k} {br} h =
    eq→== br.br_cons_head br.br_prod_tail
      (h.cons_head ∙ ap (λ t. t % 2 ^ k) (omega arith) ∙ sym h.prod_tail)

load_slot-some :
    (br : BufRing) (i : ℕ) {x : ℕ} → get_elem? br.br_ring i ≡ some x → load_slot br i ≡ ok x
unfolding load_slot
load_slot-some br i e = rw (load_slot, e) refl

first_slot :
    {k x : ℕ} {br : BufRing} {q : List ℕ}
    → Holds k br (x ∷ q)
    → get_elem? br.br_ring br.br_cons_head ≡ some x
first_slot {k} {x} {br} {q} h =
    ap (get_elem? br.br_ring) (h.cons_head ∙ ap (λ t. t % 2 ^ k) (omega arith))
    ∙ h.held 0 (omega arith)

-- Both indices of the consumer one further
advance : BufRing → BufRing
advance br =
    let cons_next = next_index br.br_cons_head br.br_cons_mask in
    record br { br_cons_head = cons_next; br_cons_tail = cons_next }

advance-Holds : {k x : ℕ} {br : BufRing} {q : List ℕ} → Holds k br (x ∷ q) → Holds k (advance br) q
unfolding advance
advance-Holds {k} {x} {br} {q} h =
    let next : next_index br.br_cons_head br.br_cons_mask ≡ (h.first + 1) % 2 ^ k =
      rw (h.cons_head, h.cons_mask) (next_index-counter k h.first h.small) in
    let moved : (i : ℕ) → (h.first + 1 + i) % 2 ^ k ≡ (h.first + suc i) % 2 ^ k =
      λ i. ap (λ t. t % 2 ^ k) (omega arith) in
    record {
      first = h.first + 1;
      small = h.small;
      room = omega (arith, h.room);
      prod_head = h.prod_head ∙ sym (moved (length q));
      prod_tail = h.prod_tail ∙ sym (moved (length q));
      cons_head = next;
      cons_tail = next;
      prod_mask = h.prod_mask;
      cons_mask = h.cons_mask;
      prod_size = h.prod_size;
      slots = h.slots;
      held = λ i lt. ap (get_elem? br.br_ring) (moved i) ∙ h.held (suc i) (omega arith);
    }

-- What a dequeue from a ring that holds `q` leaves as it was: all of an empty ring, and of others the
-- slots and the count of drops.
abbrev pub Kept : List ℕ → BufRing → BufRing → Type 0
Kept [] br br' = br' ≡ br
Kept (x ∷ q) br br' = (br'.br_ring ≡ br.br_ring) × (br'.br_drops ≡ br.br_drops)

-- On a ring that holds `q`, `buf_ring_dequeue_sc` returns the oldest pointer and leaves a ring that
-- holds the others, with the same slots and count of drops; on an empty ring it returns NULL and
-- changes nothing.
pub dequeue_sc-Holds :
    (k : ℕ) (br : BufRing) (q : List ℕ)
    → Holds k br q
    → (br' : BufRing) × (buf_ring_dequeue_sc br ≡ ok (front q, br'))
      × Holds k br' (rest q)
      × Kept q br br'
unfolding buf_ring_dequeue_sc advance
dequeue_sc-Holds k br [] h = (br, rw (is_empty h) refl, h, refl)
dequeue_sc-Holds k br (x ∷ q) h =
    let next = next_index br.br_cons_head br.br_cons_mask in
    let loaded =
      load_slot-some (record br { br_cons_head = next }) br.br_cons_head (first_slot h) in
    (advance br, rw (not_empty h, loaded) refl, advance-Holds h, (refl, refl))

-- On every ring `buf_ring_dequeue_sc` is `buf_ring_peek` followed by `buf_ring_advance_sc`.
pub dequeue_sc-peek-advance :
    (br : BufRing)
    → buf_ring_dequeue_sc br ≡ (do buf ← buf_ring_peek br; ok (buf, buf_ring_advance_sc br))
unfolding buf_ring_dequeue_sc buf_ring_peek buf_ring_advance_sc load_slot
dequeue_sc-peek-advance br = elim (Bool-cases (br.br_cons_head == br.br_prod_tail)) [
  | inl e ↦ rw (e) refl
  | inr e ↦
      let next = next_index br.br_cons_head br.br_cons_mask in
      let advanced = record br { br_cons_head = next; br_cons_tail = next } in
      rw (e) (
        sym (
          >>=-assoc (load_slot br br.br_cons_head) (λ buf. ok (some buf))
            (λ taken. ok (taken, advanced))))
]

-- `buf_ring_peek` returns the oldest pointer, or NULL when the ring is empty.
pub peek-Holds :
    (k : ℕ) (br : BufRing) (q : List ℕ) → Holds k br q → buf_ring_peek br ≡ ok (front q)
unfolding buf_ring_peek
peek-Holds k br [] h = rw (is_empty h) refl
peek-Holds k br (x ∷ q) h = rw (not_empty h, load_slot-some br br.br_cons_head (first_slot h)) refl

-- `buf_ring_advance_sc` removes the oldest pointer, if there is one.
pub advance_sc-Holds :
    (k : ℕ) (br : BufRing) (q : List ℕ) → Holds k br q → Holds k (buf_ring_advance_sc br) (rest q)
unfolding buf_ring_advance_sc advance
advance_sc-Holds k br [] h = rw (is_empty h) h
advance_sc-Holds k br (x ∷ q) h = rw (not_empty h) (advance-Holds h)
