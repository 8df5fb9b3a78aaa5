-- ===== src/Ring/Invariant/Slots.antt =====
-- The writes of buf_ring_enqueue that claim a slot, fill it and publish it.
use csearch.Common.{ℕ, ◌+◌, ◌%◌, ◌^◌, ◌≤◌, ◌<◌, ◌≡◌, ◌≢◌, refl, sym, ap, subst, ◌∙◌}
use csearch.Common.{List, [], ◌∷◌, ◌++◌, length, get_elem?, set, some, arith}
use csearch.Common.{
  length-append, get_elem?-append, get_elem?-lt, length-set, get_elem?-set, get_elem?-set_other,
  take_append_le,
}
use csearch.Common.Bits.{pow_pos}
use csearch.Ring.{BufRing, next_index, p_idle, p_cas}
use csearch.Ring.{p_claimed, p_wait, p_publish, Consumer, c_idle, c_start, c_head, c_cas, c_claimed}
use csearch.Ring.{c_wait, c_publish}
use csearch.Ring.Index.{next_index-counter, index-injective}
use csearch.Ring.Invariant.{Inv, Shared, ConsumerAt}
use native.Mathlib.Nat.{mod-lt}
use native.Mathlib.Decide.{ℕ_discrete}

-- Publishing and storing more does not disturb the consumer.
pub consumer_stays :
    (k : ℕ) {P P' C : ℕ} (head : ℕ) (sent sent' : List ℕ) (c : Consumer)
    → P ≤ P'
    → (C < P → get_elem? sent' C ≡ get_elem? sent C)
    → ConsumerAt k P C head sent c
    → ConsumerAt k P' C head sent' c
consumer_stays k head sent sent' c_idle le keep at = at
consumer_stays k head sent sent' c_start le keep at = at
consumer_stays k head sent sent' (c_head h) le keep at = (at.0, at.1)
consumer_stays k head sent sent' (c_cas h) le keep (at, here, lt) = (at, here, omega arith)
consumer_stays k head sent sent' (c_claimed h) le keep (at, here, lt) = (at, here, omega arith)
consumer_stays k head sent sent' (c_wait h buf) le keep ((at, here, lt), got) =
    ((at, here, omega arith), keep lt ∙ got)
consumer_stays k head sent sent' (c_publish h buf) le keep ((at, here, lt), got) =
    ((at, here, omega arith), keep lt ∙ got)

pub next_slot :
    {k P C : ℕ} {br : BufRing} {sent received : List ℕ}
    → Shared k P C br sent received
    → {h : ℕ} → h ≡ P % 2 ^ k
    → next_index h br.br_prod_mask ≡ (P + 1) % 2 ^ k
next_slot {k} {P} s e = rw (e, s.prod_mask) (next_index-counter k P s.small)

-- `cas_win`: the slot P is claimed.
pub claim-Inv :
    {k : ℕ} {br : BufRing} {buf h : ℕ} {c : Consumer} {sent received : List ℕ}
    → Inv k br (p_cas buf h) c sent received
    → Inv k
        (record br { br_prod_head = next_index h br.br_prod_mask })
        (p_claimed buf h)
        c
        sent
        received
claim-Inv {k} {br} {buf} {h} {c} {sent} v =
    let s = v.shared in
    let ((head, len), here, room) = v.producer_at in
    record {
      published = v.published;
      released = v.released;
      shared = record {
        small = s.small;
        prod_tail = s.prod_tail;
        cons_tail = s.cons_tail;
        prod_mask = s.prod_mask;
        cons_mask = s.cons_mask;
        slots = s.slots;
        ordered = s.ordered;
        lap = s.lap;
        known = s.known;
        held = s.held;
        prefix = s.prefix;
      };
      producer_at = ((next_slot s here, here, room), len);
      consumer_at =
          consumer_stays k br.br_cons_head sent sent c (omega arith) (λ _. refl) v.consumer_at;
    }

-- `store`: the claimed slot gets the pointer.
pub store-Inv :
    {k : ℕ} {br : BufRing} {buf h : ℕ} {c : Consumer} {sent received : List ℕ}
    → Inv k br (p_claimed buf h) c sent received
    → Inv k (record br { br_ring = set br.br_ring h buf }) (p_wait h) c (sent ++ buf ∷ []) received
store-Inv {k} {br} {buf} {h} {c} {sent} v =
    let s = v.shared in
    let n = 2 ^ k in
    let P = v.published in
    let C = v.released in
    let ((head, here, room), len) = v.producer_at in
    let inside : h < length br.br_ring = omega (arith, s.slots, here, mod-lt P (pow_pos k)) in
    let grown : length (sent ++ buf ∷ []) ≡ P + 1 = omega (arith, length-append sent (buf ∷ [])) in
    let last : get_elem? (sent ++ buf ∷ []) P ≡ some buf =
      subst (λ i. get_elem? (sent ++ buf ∷ []) i ≡ some buf) len (get_elem?-append sent [] buf) in
    let old : (i : ℕ) → i < P → get_elem? (sent ++ buf ∷ []) i ≡ get_elem? sent i =
      λ i lt. get_elem?-lt sent (buf ∷ []) i (omega arith) in
    let apart : (i : ℕ) → C ≤ i → i < P → h ≢ i % n = λ i le lt e.
      let lap : P < i + n = omega (arith, s.lap) in
      absurd (omega (arith, index-injective n i P (omega arith) lap (sym e ∙ here))) in
    record {
      published = P;
      released = C;
      shared = record {
        small = s.small;
        prod_tail = s.prod_tail;
        cons_tail = s.cons_tail;
        prod_mask = s.prod_mask;
        cons_mask = s.cons_mask;
        slots = length-set br.br_ring h buf ∙ s.slots;
        ordered = s.ordered;
        lap = s.lap;
        known = omega arith;
        held = λ i le lt.
            get_elem?-set_other br.br_ring h (i % n) buf (apart i le lt)
            ∙ s.held i le lt
            ∙ sym (old i lt);
        prefix = s.prefix ∙ sym (take_append_le C sent (buf ∷ []) (omega (arith, s.ordered)));
      };
      producer_at = (
        (head, here, room),
        (
          grown,
          ap (get_elem? (set br.br_ring h buf)) (sym here)
              ∙ get_elem?-set br.br_ring h buf inside
              ∙ sym last,
        ),
      );
      consumer_at =
          consumer_stays k br.br_cons_head sent (sent ++ buf ∷ []) c (omega arith) (λ lt. old C lt)
            v.consumer_at;
    }

-- `publish`: the consumer may take the pointer.
pub publish-Inv :
    {k : ℕ} {br : BufRing} {h : ℕ} {c : Consumer} {sent received : List ℕ}
    → Inv k br (p_publish h) c sent received
    → Inv k (record br { br_prod_tail = next_index h br.br_prod_mask }) p_idle c sent received
publish-Inv {k} {br} {h} {c} {sent} v =
    let s = v.shared in
    let P = v.published in
    let ((head, here, room), (len, stored)) = v.producer_at in
    record {
      published = P + 1;
      released = v.released;
      shared = record {
        small = s.small;
        prod_tail = next_slot s here;
        cons_tail = s.cons_tail;
        prod_mask = s.prod_mask;
        cons_mask = s.cons_mask;
        slots = s.slots;
        ordered = omega (arith, s.ordered);
        lap = room;
        known = omega arith;
        held = λ i le lt. elim (ℕ_discrete i P) [
          | yes e ↦ subst (λ j. get_elem? br.br_ring (j % 2 ^ k) ≡ get_elem? sent j) (sym e) stored
          | no d ↦ s.held i le (omega arith)
        ];
        prefix = s.prefix;
      };
      producer_at = (head, len);
      consumer_at =
          consumer_stays k br.br_cons_head sent sent c (omega arith) (λ _. refl) v.consumer_at;
    }
