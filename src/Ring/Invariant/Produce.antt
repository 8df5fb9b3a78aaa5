-- ===== src/Ring/Invariant/Produce.antt =====
-- Every access of buf_ring_enqueue keeps the invariant.
use csearch.Common.{ℕ, ◌+◌, ◌%◌, ◌^◌, ◌≤◌, ◌<◌, ◌≢◌, refl, sym, ap, ◌∙◌}
use csearch.Common.{List, arith}
use csearch.Ring.{BufRing, next_index, Producer, p_idle, p_tail, p_full, p_cas}
use csearch.Ring.{Consumer}
use csearch.Ring.{Enqueue}
use csearch.Ring.Enqueue.{call, load_head, load_tail, has_room, same_head, head_moved, drop_buf}
use csearch.Ring.Enqueue.{tail_moved, cas_win, cas_fail, store, spin, my_turn, publish}
use csearch.Ring.Threads.{log_sent}
use csearch.Ring.Invariant.{Inv, ProducerAt}
use native.Mathlib.Nat.{add-mod_right}
use native.Mathlib.Decide.{ℕ_discrete}
use csearch.Ring.Invariant.Slots.{consumer_stays, next_slot, claim-Inv, store-Inv, publish-Inv}

producer_moves :
    {k : ℕ} {br : BufRing} {p p' : Producer} {c : Consumer} {sent received : List ℕ}
    → (v : Inv k br p c sent received) → ProducerAt k v.published v.released br sent p'
    → Inv k br p' c sent received
producer_moves v at = record {
  published = v.published;
  released = v.released;
  shared = v.shared;
  producer_at = at;
  consumer_at = v.consumer_at;
}

-- When the slot after the next one is not the oldest, one more pointer fits.
fits : (n P C seen : ℕ) → seen ≤ C → P < seen + n → (P + 1) % n ≢ seen % n → P + 1 < C + n
fits n P C seen le lap ne = elim (ℕ_discrete (P + 1) (seen + n)) [
  | yes e ↦ absurd (ne (ap (λ t. t % n) e ∙ add-mod_right seen n))
  | no d ↦ omega arith
]

-- A ring found full, with the slot after the next one still the oldest, is left as it is.
drop-Inv :
    {k : ℕ} {br : BufRing} {buf h t drops : ℕ} {c : Consumer} {sent received : List ℕ}
    → Inv k br (p_full buf h t) c sent received
    → Inv k (record br { br_drops = drops }) p_idle c sent received
drop-Inv {k} {br} {c = c} {sent} v =
    let s = v.shared in
    record {
      published = v.published;
      released = v.released;
      shared = record {
        small = s.small;
        prod_tail = s.prod_tail;
        cons_tail = s.cons_tail;
        prod_mask = s.prod_mask;
        cons_mask = s.cons_mask;
        slots = s.slots;
        ordered = s.ordered;
        lap = s.lap;
        known = s.known;
        held = s.held;
        prefix = s.prefix;
      };
      producer_at = v.producer_at.0;
      consumer_at =
          consumer_stays k br.br_cons_head sent sent c (omega arith) (λ _. refl) v.consumer_at;
    }

-- A compare-exchange that follows a test of the index that was read.
has_room-Inv :
    {k : ℕ} {br : BufRing} {buf h t : ℕ} {c : Consumer} {sent received : List ℕ}
    → next_index h br.br_prod_mask ≢ t
    → Inv k br (p_tail buf h t) c sent received
    → Inv k br (p_cas buf h) c sent received
has_room-Inv {k} ne v =
    let (free, here, (seen, le, e, lap)) = v.producer_at in
    let n = 2 ^ k in
    let apart : (v.published + 1) % n ≢ seen % n = λ q. ne (next_slot v.shared here ∙ q ∙ sym e) in
    producer_moves v (free, here, fits n v.published v.released seen le lap apart)

tail_moved-Inv :
    {k : ℕ} {br : BufRing} {buf h t : ℕ} {c : Consumer} {sent received : List ℕ}
    → t ≢ br.br_cons_tail
    → Inv k br (p_full buf h t) c sent received
    → Inv k br (p_cas buf h) c sent received
tail_moved-Inv {k} ne v =
    let (free, here, (seen, le, e, lap), next) = v.producer_at in
    let later : seen ≢ v.released = λ q. ne (e ∙ ap (λ t. t % 2 ^ k) q ∙ sym v.shared.cons_tail) in
    producer_moves v (free, here, omega (arith, later))

pub Enqueue-Inv :
    {k : ℕ} {br br' : BufRing} {p p' : Producer} {c : Consumer} {sent received : List ℕ}
    → Enqueue br p br' p'
    → Inv k br p c sent received
    → Inv k br' p' c (log_sent p sent) received
Enqueue-Inv call v = producer_moves v v.producer_at
Enqueue-Inv load_head v = producer_moves v (v.producer_at, v.producer_at.0)
Enqueue-Inv load_tail v =
    let s = v.shared in
    producer_moves v
      (v.producer_at.0, v.producer_at.1, (v.released, omega arith, s.cons_tail, s.lap))
Enqueue-Inv (has_room ne) v = has_room-Inv ne v
Enqueue-Inv (same_head e _) v =
    let (free, here, stale) = v.producer_at in
    producer_moves v (free, here, stale, sym e ∙ next_slot v.shared here)
Enqueue-Inv (head_moved e ne) v =
    let (free, here, stale) = v.producer_at in absurd (ne (here ∙ sym free.0))
Enqueue-Inv (drop_buf _) v = drop-Inv v
Enqueue-Inv (tail_moved ne) v = tail_moved-Inv ne v
Enqueue-Inv (cas_win _) v = claim-Inv v
Enqueue-Inv cas_fail v = producer_moves v v.producer_at.0
Enqueue-Inv (store _) v = store-Inv v
Enqueue-Inv (spin _) v = v
Enqueue-Inv (my_turn _) v = producer_moves v v.producer_at
Enqueue-Inv publish v = publish-Inv v
