-- ===== src/Ring/Invariant/Consume.antt =====
-- Every access of buf_ring_dequeue_mc keeps the invariant.
use csearch.Common.{ℕ, suc, ◌+◌, ◌%◌, ◌^◌, ◌≤◌, ◌≡◌, ◌≢◌, sym, ap, ◌∙◌}
use csearch.Common.{List, [], ◌∷◌, ◌++◌, get_elem?, take, some, arith, take-next}
use csearch.Ring.{BufRing, next_index, Producer, p_idle, p_start, p_head, p_tail, p_full, p_cas}
use csearch.Ring.{p_claimed, p_wait, p_publish, Consumer, c_idle, c_head, c_cas, c_claimed}
use csearch.Ring.{c_wait, c_publish, Dequeue}
use csearch.Ring.Dequeue.{call_mc, load_cons, is_empty, has_some, cons_win, cons_fail, load_buf}
use csearch.Ring.Dequeue.{spin_mc, turn_mc, release}
use csearch.Ring.Index.{next_index-counter}
use csearch.Ring.Threads.{log_received}
use csearch.Ring.Invariant.{Inv, Shared, ProducerAt, ConsumerAt}

consumer_moves :
    {k : ℕ} {br : BufRing} {p : Producer} {c c' : Consumer} {sent received : List ℕ}
    → (v : Inv k br p c sent received) → ConsumerAt k v.published v.released br.br_cons_head sent c'
    → Inv k br p c' sent received
consumer_moves v at = record {
  published = v.published;
  released = v.released;
  shared = v.shared;
  producer_at = v.producer_at;
  consumer_at = at;
}

-- Taking does not disturb the producer.
producer_stays :
    (k P : ℕ) {C C' : ℕ} (br : BufRing) (head tail : ℕ) (sent : List ℕ) (p : Producer)
    → C ≤ C'
    → ProducerAt k P C br sent p
    → ProducerAt k P C' (record br { br_cons_head = head; br_cons_tail = tail }) sent p
producer_stays k P br head tail sent p_idle le at = at
producer_stays k P br head tail sent (p_start buf) le at = at
producer_stays k P br head tail sent (p_head buf h) le at = at
producer_stays k P br head tail sent (p_tail buf h c) le (free, here, (seen, old, e, lap)) =
    (free, here, (seen, omega arith, e, lap))
producer_stays k P br head tail sent (p_full buf h c) le (free, here, (seen, old, e, lap), next) =
    (free, here, (seen, omega arith, e, lap), next)
producer_stays k P br head tail sent (p_cas buf h) le (free, here, room) = (free, here, omega arith)
producer_stays k P br head tail sent (p_claimed buf h) le ((at, here, room), len) =
    ((at, here, omega arith), len)
producer_stays k P br head tail sent (p_wait h) le ((at, here, room), stored) =
    ((at, here, omega arith), stored)
producer_stays k P br head tail sent (p_publish h) le ((at, here, room), stored) =
    ((at, here, omega arith), stored)

following :
    {k P C : ℕ} {br : BufRing} {sent received : List ℕ}
    → Shared k P C br sent received
    → {h : ℕ} → h ≡ C % 2 ^ k
    → next_index h br.br_cons_mask ≡ (C + 1) % 2 ^ k
following {k} {P} {C} s e = rw (e, s.cons_mask) (next_index-counter k C s.small)

-- `cons_win`: the slot of the oldest pointer is claimed.
taking-Inv :
    {k : ℕ} {br : BufRing} {h : ℕ} {p : Producer} {sent received : List ℕ}
    → Inv k br p (c_cas h) sent received
    → Inv k
        (record br { br_cons_head = next_index h br.br_cons_mask })
        p
        (c_claimed h)
        sent
        received
taking-Inv {k} {br} {h} {p} {sent} v =
    let s = v.shared in
    let (at, here, lt) = v.consumer_at in
    record {
      published = v.published;
      released = v.released;
      shared = record {
        small = s.small;
        prod_tail = s.prod_tail;
        cons_tail = s.cons_tail;
        prod_mask = s.prod_mask;
        cons_mask = s.cons_mask;
        slots = s.slots;
        ordered = s.ordered;
        lap = s.lap;
        known = s.known;
        held = s.held;
        prefix = s.prefix;
      };
      producer_at =
          producer_stays k v.published br (next_index h br.br_cons_mask) br.br_cons_tail sent p
            (omega arith) v.producer_at;
      consumer_at = (following s here, here, lt);
    }

-- `release`: the slot is free again, and the call returns the pointer.
release-Inv :
    {k : ℕ} {br : BufRing} {h buf : ℕ} {p : Producer} {sent received : List ℕ}
    → Inv k br p (c_publish h buf) sent received
    → Inv k
        (record br { br_cons_tail = next_index h br.br_cons_mask })
        p
        c_idle
        sent
        (received ++ buf ∷ [])
release-Inv {k} {br} {h} {buf} {p} {sent} v =
    let s = v.shared in
    let C = v.released in
    let ((at, here, lt), got) = v.consumer_at in
    let count : suc C ≡ C + 1 = omega arith in
    record {
      published = v.published;
      released = C + 1;
      shared = record {
        small = s.small;
        prod_tail = s.prod_tail;
        cons_tail = following s here;
        prod_mask = s.prod_mask;
        cons_mask = s.cons_mask;
        slots = s.slots;
        ordered = omega arith;
        lap = omega (arith, s.lap);
        known = s.known;
        held = λ i le below. s.held i (omega arith) below;
        prefix =
            ap (λ t. t ++ buf ∷ []) s.prefix
            ∙ sym (take-next C sent got)
            ∙ ap (λ m. take m sent) count;
      };
      producer_at =
          producer_stays k v.published br br.br_cons_head (next_index h br.br_cons_mask) sent p
            (omega arith) v.producer_at;
      consumer_at = at;
    }

not_last :
    {k : ℕ} {br : BufRing} {h : ℕ} {p : Producer} {sent received : List ℕ}
    → h ≢ br.br_prod_tail
    → Inv k br p (c_head h) sent received
    → Inv k br p (c_cas h) sent received
not_last {k} ne v =
    let s = v.shared in
    let (at, here) = v.consumer_at in
    let apart : v.released ≢ v.published =
      λ q. ne (here ∙ ap (λ t. t % 2 ^ k) q ∙ sym s.prod_tail) in
    consumer_moves v (at, here, omega (arith, apart, s.ordered))

loaded-Inv :
    {k : ℕ} {br : BufRing} {h buf : ℕ} {p : Producer} {sent received : List ℕ}
    → get_elem? br.br_ring h ≡ some buf
    → Inv k br p (c_claimed h) sent received
    → Inv k br p (c_wait h buf) sent received
loaded-Inv {br = br} e v =
    let (at, here, lt) = v.consumer_at in
    let slot = v.shared.held v.released (omega arith) lt in
    consumer_moves v ((at, here, lt), sym slot ∙ ap (get_elem? br.br_ring) (sym here) ∙ e)

pub Dequeue-Inv :
    {k : ℕ} {br br' : BufRing} {p : Producer} {c c' : Consumer} {sent received : List ℕ}
    → Dequeue br c br' c'
    → Inv k br p c sent received
    → Inv k br' p c' sent (log_received c received)
Dequeue-Inv call_mc v = consumer_moves v v.consumer_at
Dequeue-Inv load_cons v = consumer_moves v (v.consumer_at, v.consumer_at)
Dequeue-Inv (is_empty _) v = consumer_moves v v.consumer_at.0
Dequeue-Inv (has_some ne) v = not_last ne v
Dequeue-Inv (cons_win _) v = taking-Inv v
Dequeue-Inv cons_fail v = consumer_moves v v.consumer_at.0
Dequeue-Inv (load_buf e) v = loaded-Inv e v
Dequeue-Inv (spin_mc _) v = v
Dequeue-Inv (turn_mc _) v = consumer_moves v v.consumer_at
Dequeue-Inv release v = release-Inv v
