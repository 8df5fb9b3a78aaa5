-- ===== src/Ring/Threads.antt =====
-- One thread in buf_ring_enqueue and one in buf_ring_dequeue_mc, in any interleaving of their
-- accesses to the ring. Memory is sequentially consistent.
use csearch.Common.{ℕ, ◌^◌, ◌≡◌, List, [], ◌∷◌, ◌++◌, some}
use csearch.Ring.{BufRing, buf_ring_alloc, Producer, p_idle, p_claimed, Enqueue}
use csearch.Ring.{Consumer, c_idle, c_publish, Dequeue}

-- `sent` is what the producer has stored in the ring, `received` what calls of the consumer have
-- returned, the oldest first.
pub record System : Type 0 where
  pub ring : BufRing
  pub producer : Producer
  pub consumer : Consumer
  pub sent : List ℕ
  pub received : List ℕ

-- The store of `buf` is the only access of a thread at `p_claimed`.
abbrev pub log_sent : Producer → List ℕ → List ℕ
log_sent (p_claimed buf _) sent = sent ++ buf ∷ []
log_sent _ sent = sent

abbrev pub log_received : Consumer → List ℕ → List ℕ
log_received (c_publish _ buf) received = received ++ buf ∷ []
log_received _ received = received

pub data Produce (s : System) : System → Type 0 where
  produce :
      {r : BufRing} {p : Producer}
      → Enqueue s.ring s.producer r p
      → Produce s (record s { ring = r; producer = p; sent = log_sent s.producer s.sent })

pub data Consume (s : System) : System → Type 0 where
  consume :
      {r : BufRing} {c : Consumer}
      → Dequeue s.ring s.consumer r c
      → Consume s
          (record s { ring = r; consumer = c; received = log_received s.consumer s.received })

pub data Step (s t : System) : Type 0 where
  by_producer : Produce s t → Step s t
  by_consumer : Consume s t → Step s t

-- Some steps in a row.
pub data Steps (R : System → System → Type 0) : System → System → Type 0 where
  stop : {s : System} → Steps R s s
  next : {s t u : System} → R s t → Steps R t u → Steps R s u

-- What the two threads can reach from a new ring of 2^k slots.
pub data Reach (k : ℕ) : System → Type 0 where
  start :
      {br : BufRing}
      → buf_ring_alloc (2 ^ k) ≡ some br
      → Reach k
          (record { ring = br; producer = p_idle; consumer = c_idle; sent = []; received = [] })
  later : {s t : System} → Reach k s → Step s t → Reach k t
