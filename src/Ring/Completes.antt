-- ===== src/Ring/Completes.antt =====
-- A call can always finish, without a step of the other thread.
use csearch.Common.{ℕ, suc, ◌+◌, ◌%◌, ◌^◌, ◌≤◌, ◌<◌, ◌≡◌, ◌≢◌, refl, sym, ap, subst, ◌∙◌}
use csearch.Common.{
  List, [], ◌∷◌, ◌++◌, length, get_elem?, take, some, arith, ltb, if◌then◌else◌, lt→ltb, ltb-false,
}
use csearch.Common.{drop-get_elem?, take-next}
use csearch.Common.Bits.{pow_pos}
use csearch.Ring.{BufRing, next_index, Producer, p_idle, p_start, Consumer, c_idle, c_start}
use csearch.Ring.Enqueue.{load_head, load_tail, has_room, same_head, drop_buf}
use csearch.Ring.Enqueue.{cas_win, store, my_turn, publish}
use csearch.Ring.Dequeue.{load_cons, is_empty, has_some, cons_win, load_buf, turn_mc, release}
use csearch.Ring.Index.{index-injective}
use csearch.Ring.Threads.{System, Produce, produce, Consume, consume, Steps, stop, next, Reach}
use csearch.Ring.Invariant.{Inv}
use csearch.Ring.Invariant.Slots.{next_slot}
use csearch.Ring.Fifo.{Reach-Inv, in_flight, sent_count, received_count}
use native.Mathlib.Decide.{dec_lt}
use native.Mathlib.Nat.{mod-lt, add-mod_right}

-- From a call of buf_ring_enqueue in `s`, at the head of its loop, the producer alone comes to where it
-- is idle again, has sent `sent` and has counted `drops`. Only the branch that returns -1 counts one.
abbrev pub Enqueues : System → ℕ → List ℕ → ℕ → Type 0
Enqueues s buf sent drops =
    (t : System) × Steps Produce (record s { producer = p_start buf }) t
    × (t.producer ≡ p_idle)
    × (t.consumer ≡ s.consumer)
    × (t.received ≡ s.received)
    × (t.sent ≡ sent)
    × (t.ring.br_drops ≡ drops)

-- From a call of buf_ring_dequeue_mc in `s`, at the head of its loop, the consumer alone comes to where
-- it is idle again and has returned the pointers `received`. Only the branch that returns NULL leaves
-- them as they were.
abbrev pub Dequeues : System → List ℕ → Type 0
Dequeues s received =
    (t : System) × Steps Consume (record s { consumer = c_start }) t
    × (t.consumer ≡ c_idle)
    × (t.producer ≡ s.producer)
    × (t.sent ≡ s.sent)
    × (t.received ≡ received)

abbrev system : BufRing → Producer → Consumer → List ℕ → List ℕ → System
system br p c sent received = record {
  ring = br;
  producer = p;
  consumer = c;
  sent = sent;
  received = received;
}

module _ {k : ℕ} {br : BufRing} {c : Consumer} {sent received : List ℕ} where
  enqueue_stores :
      (v : Inv k br p_idle c sent received) (buf : ℕ)
      → v.published + 1 < v.released + 2 ^ k
      → Enqueues (system br p_idle c sent received) buf (sent ++ buf ∷ []) br.br_drops
  enqueue_stores v buf room =
      let s = v.shared in
      let n = 2 ^ k in
      let P = v.published in
      let C = v.released in
      let (head, _) = v.producer_at in
      let apart : next_index br.br_prod_head br.br_prod_mask ≢ br.br_cons_tail = λ e.
        let same : C % n ≡ (P + 1) % n = sym s.cons_tail ∙ sym e ∙ next_slot s head in
        absurd (
          omega
            (arith, index-injective n C (P + 1) (omega (arith, s.ordered)) room same, s.ordered)) in
      let inside : br.br_prod_head < length br.br_ring =
        omega (arith, s.slots, head, mod-lt P (pow_pos k)) in
      (
        _,
        next (produce load_head) (
            next (produce load_tail) (
              next (produce (has_room apart)) (
                next (produce (cas_win refl)) (
                  next (produce (store (lt→ltb _ _ inside))) (
                    next (produce (my_turn (s.prod_tail ∙ sym head)))
                      (next (produce publish) stop)))))),
        refl,
        refl,
        refl,
        refl,
        refl,
      )

  enqueue_drops :
      (v : Inv k br p_idle c sent received) (buf : ℕ)
      → v.published + 1 ≡ v.released + 2 ^ k
      → Enqueues (system br p_idle c sent received) buf sent ((br.br_drops + 1) % 2 ^ 64)
  enqueue_drops v buf full =
      let s = v.shared in
      let (head, _) = v.producer_at in
      let same : next_index br.br_prod_head br.br_prod_mask ≡ br.br_cons_tail =
        next_slot s head
        ∙ ap (λ t. t % 2 ^ k) full
        ∙ add-mod_right v.released (2 ^ k)
        ∙ sym s.cons_tail in
      (
        _,
        next (produce load_head) (
            next (produce load_tail)
              (next (produce (same_head same refl)) (next (produce (drop_buf refl)) stop))),
        refl,
        refl,
        refl,
        refl,
        refl,
      )

module _ {k : ℕ} {br : BufRing} {p : Producer} {sent received : List ℕ} where
  dequeue_takes :
      (v : Inv k br p c_idle sent received)
      → v.released < v.published
      → Dequeues (system br p c_idle sent received) (take (length received + 1) sent)
  dequeue_takes v more =
      let s = v.shared in
      let n = 2 ^ k in
      let C = v.released in
      let (buf, got, _) = drop-get_elem? sent C (omega (arith, s.known)) in
      let apart : br.br_cons_head ≢ br.br_prod_tail = λ e.
        let same : C % n ≡ v.published % n = sym v.consumer_at ∙ e ∙ s.prod_tail in
        absurd (omega (arith, index-injective n C v.published s.ordered s.lap same)) in
      let slot : get_elem? br.br_ring br.br_cons_head ≡ some buf =
        ap (get_elem? br.br_ring) v.consumer_at ∙ s.held C (omega arith) more ∙ got in
      let count : suc C ≡ length received + 1 = omega (arith, received_count s) in
      (
        _,
        next (consume load_cons) (
            next (consume (has_some apart)) (
              next (consume (cons_win refl)) (
                next (consume (load_buf slot)) (
                  next (consume (turn_mc (s.cons_tail ∙ sym v.consumer_at)))
                    (next (consume release) stop))))),
        refl,
        refl,
        refl,
        ap (λ t. t ++ buf ∷ []) s.prefix ∙ sym (take-next C sent got) ∙ ap (λ m. take m sent) count,
      )

  dequeue_null :
      (v : Inv k br p c_idle sent received)
      → v.released ≡ v.published
      → Dequeues (system br p c_idle sent received) received
  dequeue_null v none_left =
      let same : br.br_cons_head ≡ br.br_prod_tail =
        v.consumer_at ∙ ap (λ t. t % 2 ^ k) none_left ∙ sym v.shared.prod_tail in
      (_, next (consume load_cons) (next (consume (is_empty same)) stop), refl, refl, refl, refl)

-- In every state that one producer and one consumer reach on a new ring of 2^k slots, 2^31 at most,
-- with the producer idle, a call of buf_ring_enqueue can run to its end without a step of the consumer.
-- It stores the pointer last and counts no drop if fewer than 2^k - 1 are in the ring; otherwise it
-- stores nothing and counts one drop, as only the branch that returns -1 does.
pub enqueue-returns :
    (k : ℕ) (s : System) (buf : ℕ)
    → 2 ^ k ≤ 2 ^ 31
    → Reach k s
    → s.producer ≡ p_idle
    → Enqueues s buf
        (if ltb (length s.sent + 1) (length s.received + 2 ^ k) then s.sent ++ buf ∷ [] else s.sent)
        (if ltb (length s.sent + 1) (length s.received + 2 ^ k)
          then s.ring.br_drops
          else (s.ring.br_drops + 1) % 2 ^ 64)
enqueue-returns k s buf small r e =
    let goal : Producer → Type 0 = λ p.
      Enqueues (system s.ring p s.consumer s.sent s.received) buf
        (if ltb (length s.sent + 1) (length s.received + 2 ^ k) then s.sent ++ buf ∷ [] else s.sent)
        (if ltb (length s.sent + 1) (length s.received + 2 ^ k)
          then s.ring.br_drops
          else (s.ring.br_drops + 1) % 2 ^ 64) in
    let v : Inv k s.ring p_idle s.consumer s.sent s.received =
      subst (λ p. Inv k s.ring p s.consumer s.sent s.received) e (Reach-Inv small r) in
    let got = received_count v.shared in
    let (_, len) = v.producer_at in
    subst goal (sym e) (elim (dec_lt (v.published + 1) (v.released + 2 ^ k)) [
      | yes room ↦
          rw (lt→ltb (length s.sent + 1) (length s.received + 2 ^ k) (omega arith))
            (enqueue_stores v buf room)
      | no ge ↦
          rw (ltb-false (length s.sent + 1) (length s.received + 2 ^ k) (omega arith))
            (enqueue_drops v buf (omega (arith, v.shared.lap)))
    ])

-- In every state that one producer and one consumer reach on a new ring of 2^k slots, 2^31 at most,
-- with the consumer idle, a call of buf_ring_dequeue_mc can run to its end without a step of the
-- producer. It returns the first pointer not yet returned if one is published, and otherwise comes to
-- its end without returning a pointer, by the branch that returns NULL.
pub dequeue-returns :
    (k : ℕ) (s : System)
    → 2 ^ k ≤ 2 ^ 31
    → Reach k s
    → s.consumer ≡ c_idle
    → Dequeues s (
        if ltb (length s.received + in_flight s.producer) (length s.sent)
        then take (length s.received + 1) s.sent
        else s.received)
dequeue-returns k s small r e =
    let goal : Consumer → Type 0 = λ c. Dequeues (system s.ring s.producer c s.sent s.received) (
      if ltb (length s.received + in_flight s.producer) (length s.sent)
      then take (length s.received + 1) s.sent
      else s.received) in
    let v : Inv k s.ring s.producer c_idle s.sent s.received =
      subst (λ c. Inv k s.ring s.producer c s.sent s.received) e (Reach-Inv small r) in
    let got = received_count v.shared in
    let count =
      sent_count k v.published v.released s.ring s.sent s.producer v.shared.lap v.producer_at in
    subst goal (sym e) (elim (dec_lt v.released v.published) [
      | yes more ↦
          rw
            (lt→ltb (length s.received + in_flight s.producer) (length s.sent)
              (omega (arith, count.0)))
            (dequeue_takes v more)
      | no ge ↦
          rw
            (ltb-false (length s.received + in_flight s.producer) (length s.sent)
              (omega (arith, count.0)))
            (dequeue_null v (omega (arith, v.shared.ordered)))
    ])
