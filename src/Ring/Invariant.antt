-- ===== src/Ring/Invariant.antt =====
-- What holds of a producer and a consumer whenever neither is inside an access to the ring.
pub mod Slots
pub mod Produce
pub mod Consume
use csearch.Common.{ℕ, suc, ◌+◌, ◌-◌, ◌%◌, ◌^◌, ◌≤◌, ◌<◌, ◌≡◌, List, length, get_elem?, take, some}
use csearch.Ring.{BufRing, Producer, p_idle, p_start, p_head, p_tail, p_full, p_cas, p_claimed}
use csearch.Ring.{p_wait, p_publish, Consumer, c_idle, c_start, c_head, c_cas, c_claimed, c_wait}
use csearch.Ring.{c_publish}

-- `P` counts the pointers published by the producer, `C` those released by the consumer.
module _ (k P C : ℕ) (br : BufRing) (sent : List ℕ) where
  -- No slot is claimed.
  abbrev pub Unclaimed : Type 0
  Unclaimed = (br.br_prod_head ≡ P % 2 ^ k) × (length sent ≡ P)

  -- `cons_tail` was br_cons_tail at some time since the last store of br_prod_tail.
  abbrev pub Stale : ℕ → Type 0
  Stale cons_tail = (seen : ℕ) × (seen ≤ C) × (cons_tail ≡ seen % 2 ^ k) × (P < seen + 2 ^ k)

  abbrev pub Claimed : ℕ → Type 0
  Claimed prod_head =
      (br.br_prod_head ≡ (P + 1) % 2 ^ k) × (prod_head ≡ P % 2 ^ k) × (P + 1 < C + 2 ^ k)

  abbrev pub Stored : Type 0
  Stored = (length sent ≡ P + 1) × (get_elem? br.br_ring (P % 2 ^ k) ≡ get_elem? sent P)

  abbrev pub ProducerAt : Producer → Type 0
  ProducerAt p_idle = Unclaimed
  ProducerAt (p_start buf) = Unclaimed
  ProducerAt (p_head buf h) = Unclaimed × (h ≡ P % 2 ^ k)
  ProducerAt (p_tail buf h c) = Unclaimed × (h ≡ P % 2 ^ k) × Stale c
  ProducerAt (p_full buf h c) = Unclaimed × (h ≡ P % 2 ^ k) × Stale c × (c ≡ (P + 1) % 2 ^ k)
  ProducerAt (p_cas buf h) = Unclaimed × (h ≡ P % 2 ^ k) × (P + 1 < C + 2 ^ k)
  ProducerAt (p_claimed buf h) = Claimed h × (length sent ≡ P)
  ProducerAt (p_wait h) = Claimed h × Stored
  ProducerAt (p_publish h) = Claimed h × Stored

  -- What the two threads share.
  pub record Shared (received : List ℕ) : Type 0 where
    pub small : 2 ^ k ≤ 2 ^ 31
    pub prod_tail : br.br_prod_tail ≡ P % 2 ^ k
    pub cons_tail : br.br_cons_tail ≡ C % 2 ^ k
    pub prod_mask : br.br_prod_mask ≡ 2 ^ k - 1
    pub cons_mask : br.br_cons_mask ≡ 2 ^ k - 1
    pub slots : length br.br_ring ≡ 2 ^ k
    pub ordered : C ≤ P
    pub lap : P < C + 2 ^ k
    pub known : P ≤ length sent
    pub held : (i : ℕ) → C ≤ i → i < P → get_elem? br.br_ring (i % 2 ^ k) ≡ get_elem? sent i
    pub prefix : received ≡ take C sent

-- `at` is br_cons_head.
module _ (k P C at : ℕ) (sent : List ℕ) where
  abbrev pub Taking : ℕ → Type 0
  Taking cons_head = (at ≡ (C + 1) % 2 ^ k) × (cons_head ≡ C % 2 ^ k) × (C < P)

  abbrev pub ConsumerAt : Consumer → Type 0
  ConsumerAt c_idle = at ≡ C % 2 ^ k
  ConsumerAt c_start = at ≡ C % 2 ^ k
  ConsumerAt (c_head h) = (at ≡ C % 2 ^ k) × (h ≡ C % 2 ^ k)
  ConsumerAt (c_cas h) = (at ≡ C % 2 ^ k) × (h ≡ C % 2 ^ k) × (C < P)
  ConsumerAt (c_claimed h) = Taking h
  ConsumerAt (c_wait h buf) = Taking h × (get_elem? sent C ≡ some buf)
  ConsumerAt (c_publish h buf) = Taking h × (get_elem? sent C ≡ some buf)

pub record Inv (k : ℕ) (br : BufRing) (p : Producer) (c : Consumer) (sent received : List ℕ)
    : Type 0 where
  pub published : ℕ
  pub released : ℕ
  pub shared : Shared k published released br sent received
  pub producer_at : ProducerAt k published released br sent p
  pub consumer_at : ConsumerAt k published released br.br_cons_head sent c
