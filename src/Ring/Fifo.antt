-- ===== src/Ring/Fifo.antt =====
-- The ring between the producer and the consumer is a queue of bounded length.
use csearch.Common.{ℕ, ◌+◌, ◌%◌, ◌^◌, ◌≤◌, ◌<◌, ◌≡◌, refl, sym, ap, subst, ◌∙◌}
use csearch.Common.{List, [], ◌++◌, length, drop, some, arith}
use csearch.Common.{length-take, length-drop, take-append-drop, length-replicate}
use csearch.Common.Bits.{pow_pos}
use csearch.Ring.{BufRing, buf_ring_alloc, Producer, p_idle, p_start, p_head, p_tail, p_full, p_cas}
use csearch.Ring.{p_claimed, p_wait, p_publish, c_idle, c_head}
use csearch.Ring.Index.{index-injective}
use csearch.Ring.Queries.{alloc_new}
use csearch.Ring.Threads.{System, produce, consume, Step, by_producer, by_consumer}
use csearch.Ring.Threads.{Reach, start, later}
use csearch.Ring.Invariant.{Inv, Shared, ProducerAt, ConsumerAt}
use csearch.Ring.Invariant.Produce.{Enqueue-Inv}
use csearch.Ring.Invariant.Consume.{Dequeue-Inv}
use mathlib.Core.Option.{some-injective}
use native.Mathlib.Nat.{zero-mod}
use native.Mathlib.Decide.{dec_lt}

abbrev pub HasInv : ℕ → System → Type 0
HasInv k s = Inv k s.ring s.producer s.consumer s.sent s.received

pub Step-Inv : {k : ℕ} {s t : System} → Step s t → HasInv k s → HasInv k t
Step-Inv (by_producer (produce m)) v = Enqueue-Inv m v
Step-Inv (by_consumer (consume m)) v = Dequeue-Inv m v

alloc-Inv :
    {k : ℕ} {br : BufRing}
    → 2 ^ k ≤ 2 ^ 31
    → buf_ring_alloc (2 ^ k) ≡ some br
    → Inv k br p_idle c_idle [] []
alloc-Inv {k} {br} small e =
    let zeroth = sym (zero-mod (2 ^ k)) in
    let same = some-injective _ _ (sym (alloc_new k small) ∙ e) in
    subst (λ b. Inv k b p_idle c_idle [] []) same
      (record {
        published = 0;
        released = 0;
        shared = record {
          small = small;
          prod_tail = zeroth;
          cons_tail = zeroth;
          prod_mask = refl;
          cons_mask = refl;
          slots = length-replicate (2 ^ k) 0;
          ordered = omega arith;
          lap = omega (arith, pow_pos k);
          known = omega arith;
          held = λ i le lt. absurd (omega arith);
          prefix = refl;
        };
        producer_at = (zeroth, refl);
        consumer_at = zeroth;
      })

pub Reach-Inv : {k : ℕ} {s : System} → 2 ^ k ≤ 2 ^ 31 → Reach k s → HasInv k s
Reach-Inv small (start e) = alloc-Inv small e
Reach-Inv small (later r st) = Step-Inv st (Reach-Inv small r)

-- Pointers that are stored in the ring, and not published yet.
abbrev pub in_flight : Producer → ℕ
in_flight (p_wait _) = 1
in_flight (p_publish _) = 1
in_flight _ = 0

-- What is sent is what is published or in flight, and it fits.
pub sent_count :
    (k P C : ℕ) (br : BufRing) (sent : List ℕ) (p : Producer)
    → P < C + 2 ^ k
    → ProducerAt k P C br sent p
    → (length sent ≡ P + in_flight p) × (length sent < C + 2 ^ k)
sent_count k P C br sent p_idle lap at = (omega (arith, at.1), omega (arith, at.1))
sent_count k P C br sent (p_start buf) lap at = (omega (arith, at.1), omega (arith, at.1))
sent_count k P C br sent (p_head buf h) lap at = (omega (arith, at.0.1), omega (arith, at.0.1))
sent_count k P C br sent (p_tail buf h c) lap at = (omega (arith, at.0.1), omega (arith, at.0.1))
sent_count k P C br sent (p_full buf h c) lap at = (omega (arith, at.0.1), omega (arith, at.0.1))
sent_count k P C br sent (p_cas buf h) lap at = (omega (arith, at.0.1), omega (arith, at.0.1))
sent_count k P C br sent (p_claimed buf h) lap at = (omega (arith, at.1), omega (arith, at.1))
sent_count k P C br sent (p_wait h) lap ((_, _, room), (len, _)) = (len, omega arith)
sent_count k P C br sent (p_publish h) lap ((_, _, room), (len, _)) = (len, omega arith)

pub received_count :
    {k P C : ℕ} {br : BufRing} {sent received : List ℕ}
    → Shared k P C br sent received
    → length received ≡ C
received_count {C = C} {sent = sent} s =
    ap length s.prefix ∙ length-take C sent ∙ omega (arith, s.ordered, s.known)

-- Whatever one producer and one consumer have done on a new ring of 2^k slots, 2^31 at most, the
-- pointers that the consumer has returned are the first ones that the producer has stored, in their
-- order, and at most 2^k - 1 are on their way.
pub fifo :
    (k : ℕ) (s : System)
    → 2 ^ k ≤ 2 ^ 31
    → Reach k s
    → (pending : List ℕ) × (s.sent ≡ s.received ++ pending) × (length pending < 2 ^ k)
fifo k s small r =
    let v = Reach-Inv small r in
    let C = v.released in
    let count = sent_count k v.published C s.ring s.sent s.producer v.shared.lap v.producer_at in
    (
      drop C s.sent,
      subst (λ t. s.sent ≡ t ++ drop C s.sent) (sym v.shared.prefix) (take-append-drop C s.sent),
      omega (arith, length-drop C s.sent, count.1, pow_pos k),
    )

-- In every state that one producer and one consumer reach on a new ring of 2^k slots, 2^31 at most: if
-- the producer is about to drop its pointer, because br_cons_tail is still the index it has read, then
-- 2^k - 1 pointers are stored and not yet returned.
pub drop_when_full :
    (k : ℕ) (s : System) (buf prod_head : ℕ)
    → 2 ^ k ≤ 2 ^ 31
    → Reach k s
    → s.producer ≡ p_full buf prod_head s.ring.br_cons_tail
    → length s.sent + 1 ≡ length s.received + 2 ^ k
drop_when_full k s buf prod_head small r e =
    let v = Reach-Inv small r in
    let n = 2 ^ k in
    let P = v.published in
    let C = v.released in
    let (free, here, _, oldest) = subst (ProducerAt k P C s.ring s.sent) e v.producer_at in
    let got = received_count v.shared in
    let same : C % n ≡ (P + 1) % n = sym v.shared.cons_tail ∙ oldest in
    let full : P + 1 ≡ C + n = elim (dec_lt (P + 1) (C + n)) [
      | yes lt ↦
          let early = index-injective n C (P + 1) (omega (arith, v.shared.ordered)) lt same in
          absurd (omega (arith, v.shared.ordered))
      | no ge ↦ omega (arith, v.shared.lap)
    ] in
    omega (arith, free.1)

-- In every state that one producer and one consumer reach on a new ring of 2^k slots, 2^31 at most: if
-- buf_ring_dequeue_mc is about to return NULL, because br_prod_tail is the index it has read, then all
-- stored pointers have been returned, but for one that the producer has not yet published.
pub null_when_empty :
    (k : ℕ) (s : System)
    → 2 ^ k ≤ 2 ^ 31
    → Reach k s
    → s.consumer ≡ c_head s.ring.br_prod_tail
    → length s.sent ≡ length s.received + in_flight s.producer
null_when_empty k s small r e =
    let v = Reach-Inv small r in
    let P = v.published in
    let C = v.released in
    let (_, here) = subst (ConsumerAt k P C s.ring.br_cons_head s.sent) e v.consumer_at in
    let same : C ≡ P =
      index-injective (2 ^ k) C P v.shared.ordered v.shared.lap (sym here ∙ v.shared.prod_tail) in
    let count = sent_count k P C s.ring s.sent s.producer v.shared.lap v.producer_at in
    omega (arith, received_count v.shared, count.0)
