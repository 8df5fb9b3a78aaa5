-- ===== src/Ring/Tests.antt =====
-- Rings of two and four slots.
use csearch.Common.{ℕ, zero, suc, ◌+◌, ◌<◌, ◌≡◌, refl, List, [], ◌∷◌, ◌++◌, length, some, arith}
use csearch.Common.{false}
use csearch.Common.Outcome.{ok, ◌>>=◌}
use csearch.Ring.{BufRing, buf_ring_alloc, buf_ring_dequeue_sc, buf_ring_advance_sc}
use csearch.Ring.{buf_ring_putback_sc, buf_ring_peek, buf_ring_full, buf_ring_empty, buf_ring_count}
use csearch.Ring.{p_idle, p_full, p_wait, c_idle, c_head}
use csearch.Ring.Enqueue.{
  call, load_head, load_tail, has_room, same_head, cas_win, store, my_turn, publish,
}
use csearch.Ring.Dequeue.{call_mc, load_cons}
use csearch.Ring.Queue.{
  Holds, dequeue_sc-Holds, dequeue_sc-peek-advance, peek-Holds, advance_sc-Holds,
}
use csearch.Ring.Queries.{putback_sc-Holds, count-Holds, alloc-Holds, new_ring, alloc_new}
use csearch.Ring.Threads.{System, Produce, produce, consume, Steps, stop, next, Reach, start}
use csearch.Ring.Threads.{later, by_producer, by_consumer}
use csearch.Ring.Fifo.{fifo, drop_when_full, null_when_empty, in_flight}
use csearch.Ring.Completes.{Enqueues, Dequeues, enqueue-returns, dequeue-returns}

abbrev wrapped : BufRing
wrapped = record {
  br_prod_head = 1;
  br_prod_tail = 1;
  br_prod_size = 4;
  br_prod_mask = 3;
  br_drops = 0;
  br_cons_head = 3;
  br_cons_tail = 3;
  br_cons_size = 4;
  br_cons_mask = 3;
  br_ring = 8 ∷ 0 ∷ 0 ∷ 7 ∷ [];
}

wrapped-Holds : Holds 2 wrapped (7 ∷ 8 ∷ [])
wrapped-Holds = record {
  first = 3;
  small = omega arith;
  room = omega arith;
  prod_head = refl;
  prod_tail = refl;
  cons_head = refl;
  cons_tail = refl;
  prod_mask = refl;
  cons_mask = refl;
  prod_size = refl;
  slots = refl;
  held = elim [
    | zero ↦ λ lt. refl
    | suc zero ↦ λ lt. refl
    | suc (suc i) ↦ λ lt. absurd (omega arith)
  ];
}

dequeue_sc-Holds_example :
    (br : BufRing) × (buf_ring_dequeue_sc wrapped ≡ ok (some 7, br))
    × Holds 2 br (8 ∷ [])
    × ((br.br_ring ≡ 8 ∷ 0 ∷ 0 ∷ 7 ∷ []) × (br.br_drops ≡ 0))
dequeue_sc-Holds_example = dequeue_sc-Holds 2 wrapped (7 ∷ 8 ∷ []) wrapped-Holds

peek_wrapped : buf_ring_peek wrapped ≡ ok (some 7)
peek_wrapped = peek-Holds 2 wrapped (7 ∷ 8 ∷ []) wrapped-Holds

advance_wrapped : Holds 2 (buf_ring_advance_sc wrapped) (8 ∷ [])
advance_wrapped = advance_sc-Holds 2 wrapped (7 ∷ 8 ∷ []) wrapped-Holds

putback_wrapped : (br : BufRing) × (buf_ring_putback_sc wrapped 9 ≡ ok br) × Holds 2 br (9 ∷ 8 ∷ [])
putback_wrapped = putback_sc-Holds 2 wrapped 7 9 (8 ∷ []) wrapped-Holds

count-Holds_example :
    (buf_ring_count wrapped ≡ 2)
    × (buf_ring_empty wrapped ≡ false)
    × (buf_ring_full wrapped ≡ false)
count-Holds_example = count-Holds 2 wrapped (7 ∷ 8 ∷ []) wrapped-Holds

alloc_eight : (br : BufRing) × (buf_ring_alloc 8 ≡ some br) × Holds 3 br []
alloc_eight = alloc-Holds 3 (omega arith)

produced : {k : ℕ} {s t : System} → Reach k s → Steps Produce s t → Reach k t
produced r stop = r
produced r (next m ms) = produced (later r (by_producer m)) ms

abbrev new_system : System
new_system = record {
  ring = new_ring 1;
  producer = p_idle;
  consumer = c_idle;
  sent = [];
  received = [];
}

-- 5 is published, and the next call has found both slots in use.
abbrev full_system : System
full_system = record {
  ring = record (new_ring 1) { br_prod_head = 1; br_prod_tail = 1; br_ring = 5 ∷ 0 ∷ [] };
  producer = p_full 6 1 0;
  consumer = c_idle;
  sent = 5 ∷ [];
  received = [];
}

abbrev waiting_system : System
waiting_system = record {
  ring = record (new_ring 1) { br_prod_head = 1; br_ring = 5 ∷ 0 ∷ [] };
  producer = p_wait 0;
  consumer = c_head 0;
  sent = 5 ∷ [];
  received = [];
}

storing : Steps Produce new_system (record waiting_system { consumer = c_idle })
storing = next (produce (call {buf = 5})) (
    next (produce load_head) (
      next (produce load_tail) (
        next (produce (has_room (λ e. cc)))
          (next (produce (cas_win refl)) (next (produce (store refl)) stop)))))

wrapped_peek :
    buf_ring_dequeue_sc wrapped
    ≡ (do buf ← buf_ring_peek wrapped; ok (buf, buf_ring_advance_sc wrapped))
wrapped_peek = dequeue_sc-peek-advance wrapped

new-Reach : Reach 1 new_system
new-Reach = start (alloc_new 1 (omega arith))

waiting-Reach : Reach 1 waiting_system
waiting-Reach =
    later (later (produced new-Reach storing) (by_consumer (consume call_mc)))
      (by_consumer (consume load_cons))

full-Reach : Reach 1 full_system
full-Reach = produced (produced new-Reach storing) (
    next (produce (my_turn refl)) (
      next (produce publish) (
        next (produce (call {buf = 6})) (
          next (produce load_head)
            (next (produce load_tail) (next (produce (same_head refl refl)) stop))))))

fifo_example :
    (pending : List ℕ) × (full_system.sent ≡ full_system.received ++ pending) × (length pending < 2)
fifo_example = fifo 1 full_system (omega arith) full-Reach

drop_when_full_example : length full_system.sent + 1 ≡ length full_system.received + 2
drop_when_full_example = drop_when_full 1 full_system 6 1 (omega arith) full-Reach refl

nothing_stored :
    length waiting_system.sent ≡ length waiting_system.received + in_flight waiting_system.producer
nothing_stored = null_when_empty 1 waiting_system (omega arith) waiting-Reach refl

enqueue-returns_example : Enqueues new_system 5 (5 ∷ []) 0
enqueue-returns_example = enqueue-returns 1 new_system 5 (omega arith) new-Reach refl

dequeue-returns_example : Dequeues full_system (5 ∷ [])
dequeue-returns_example = dequeue-returns 1 full_system (omega arith) full-Reach refl
