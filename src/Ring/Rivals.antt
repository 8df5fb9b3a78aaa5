-- ===== src/Ring/Rivals.antt =====
-- Two threads in buf_ring_enqueue and one in buf_ring_dequeue_mc, on a ring of two slots: a run that
-- loses two pointers, since a compare-exchange succeeds on an index that has come round.
use csearch.Common.{ℕ, ◌≡◌, ◌≢◌, refl, [], ◌∷◌, length, set, ltb, true}
use csearch.Ring.{
  BufRing, next_index, Producer, p_idle, Enqueue, Consumer, c_idle, Dequeue, buf_ring_empty,
}
use csearch.Ring.Enqueue.{call, load_head, load_tail, has_room, cas_win, store, my_turn, publish}
use csearch.Ring.Dequeue.{call_mc, load_cons, has_some, cons_win, load_buf, turn_mc, release}
use csearch.Ring.Queries.{new_ring}

record Rivals : Type 0 where
  ring : BufRing
  one : Producer
  other : Producer
  consumer : Consumer

data Move (s : Rivals) : Rivals → Type 0 where
  first :
      {r : BufRing} {p : Producer}
      → Enqueue s.ring s.one r p
      → Move s (record s { ring = r; one = p })
  second :
      {r : BufRing} {p : Producer}
      → Enqueue s.ring s.other r p
      → Move s (record s { ring = r; other = p })
  taker :
      {r : BufRing} {c : Consumer}
      → Dequeue s.ring s.consumer r c
      → Move s (record s { ring = r; consumer = c })

-- What the three threads can reach from a new ring of two slots.
data Reached : Rivals → Type 0 where
  start : Reached (record { ring = new_ring 1; one = p_idle; other = p_idle; consumer = c_idle })
  later : {s t : Rivals} → Reached s → Move s t → Reached t

-- The whole of a call of each kind
enqueues :
    {r : BufRing} {p : Producer} {c : Consumer} (buf : ℕ)
    → (next_index r.br_prod_head r.br_prod_mask ≢ r.br_cons_tail)
    → ltb r.br_prod_head (length r.br_ring) ≡ true
    → r.br_prod_tail ≡ r.br_prod_head
    → Reached (record { ring = r; one = p; other = p_idle; consumer = c })
    → let h = r.br_prod_head in
      let next = next_index h r.br_prod_mask in
      Reached (record {
        ring = record r { br_prod_head = next; br_prod_tail = next; br_ring = set r.br_ring h buf };
        one = p;
        other = p_idle;
        consumer = c;
      })
enqueues buf room inside turn s =
    let s1 = later s (second (call {buf = buf})) in
    let s2 = later s1 (second load_head) in
    let s3 = later s2 (second load_tail) in
    let s4 = later s3 (second (has_room room)) in
    let s5 = later s4 (second (cas_win refl)) in
    let s6 = later s5 (second (store inside)) in
    let s7 = later s6 (second (my_turn turn)) in later s7 (second publish)

-- 6 and 9 are in the slots.
abbrev lost : BufRing
lost = record (new_ring 1) {
  br_prod_head = 1;
  br_prod_tail = 1;
  br_cons_head = 1;
  br_cons_tail = 1;
  br_ring = 9 ∷ 6 ∷ [];
}

lost_is_empty : buf_ring_empty lost ≡ true
unfolding buf_ring_empty
lost_is_empty = refl

-- The first thread reads the indices; the second sends 5, which is taken, and 6; then the first goes on.
reaches_lost : Reached (record { ring = lost; one = p_idle; other = p_idle; consumer = c_idle })
reaches_lost =
    let a1 = later start (first (call {buf = 9})) in
    let a2 = later a1 (first load_head) in
    let a3 = later a2 (first load_tail) in
    let a4 = later a3 (first (has_room (λ e. cc))) in
    let b = enqueues 5 (λ e. cc) refl refl a4 in
    let c1 = later b (taker call_mc) in
    let c2 = later c1 (taker load_cons) in
    let c3 = later c2 (taker (has_some (λ e. cc))) in
    let c4 = later c3 (taker (cons_win refl)) in
    let c5 = later c4 (taker (load_buf {buf = 5} refl)) in
    let c6 = later c5 (taker (turn_mc refl)) in
    let c7 = later c6 (taker release) in
    let d = enqueues 6 (λ e. cc) refl refl c7 in
    let a5 = later d (first (cas_win refl)) in
    let a6 = later a5 (first (store refl)) in
    let a7 = later a6 (first (my_turn refl)) in later a7 (first publish)
