-- ===== src/Ring.antt =====
-- buf_ring.h and buf_ring.c: a ring of pointers with head and tail of a producer and of a consumer
-- side. Indices are reduced by a mask, so a ring of `count` slots holds `count - 1` pointers.
pub mod Index
pub mod Queue
pub mod Queries
pub mod Threads
pub mod Invariant
pub mod Fifo
pub mod Completes
mod Rivals
mod Tests
use csearch.Common.{ℕ, zero, suc, ◌+◌, ◌-◌, ◌%◌, ◌^◌, Bool, List, Option, none, some}
use csearch.Common.{◌==◌, if◌then◌else◌, ltb, length, get_elem?, set, replicate, ◌≡◌, true}
use csearch.Common.Outcome.{Outcome, ok, fault, heap_overflow, check, ◌>>=◌, ◌>>◌}
use csearch.Common.Words.{add32}
use Prim.Native.Nat.{bit_and}

-- A pointer is a number, and `br_ring` the slots behind the struct.
pub record BufRing : Type 0 where
  pub br_prod_head : ℕ
  pub br_prod_tail : ℕ
  pub br_prod_size : ℕ
  pub br_prod_mask : ℕ
  pub br_drops : ℕ
  pub br_cons_head : ℕ
  pub br_cons_tail : ℕ
  pub br_cons_size : ℕ
  pub br_cons_mask : ℕ
  pub br_ring : List ℕ

-- `powerof2(x)`, and `count-1` as the unsigned word that the masks are used as.
abbrev is_power_of_2 : ℕ → Bool
is_power_of_2 count = bit_and ((count + (2 ^ 32 - 1)) % 2 ^ 32) count == 0

-- An `int` count is below 2^31; from 2^31 on this is what an unsigned count would give. `malloc` does
-- not fail.
unfoldable pub buf_ring_alloc : ℕ → Option BufRing
buf_ring_alloc count =
    if is_power_of_2 count
    then some (record {
      br_prod_head = 0;
      br_prod_tail = 0;
      br_prod_size = count;
      br_prod_mask = (count + (2 ^ 32 - 1)) % 2 ^ 32;
      br_drops = 0;
      br_cons_head = 0;
      br_cons_tail = 0;
      br_cons_size = count;
      br_cons_mask = (count + (2 ^ 32 - 1)) % 2 ^ 32;
      br_ring = replicate count 0;
    })
    else none

-- `(head + 1) & mask`
abbrev pub next_index : ℕ → ℕ → ℕ
next_index head mask = bit_and (add32 head 1) mask

-- `br->br_ring[i]`
unfoldable pub load_slot : BufRing → ℕ → Outcome ℕ
load_slot br i = elim (get_elem? br.br_ring i) [ none ↦ fault heap_overflow | some buf ↦ ok buf ]

-- `buf_ring_dequeue_sc`; `none` is NULL.
unfoldable pub buf_ring_dequeue_sc : BufRing → Outcome (Option ℕ × BufRing)
buf_ring_dequeue_sc br =
    let cons_next = next_index br.br_cons_head br.br_cons_mask in
    let taken = (do
      buf ← load_slot (record br { br_cons_head = cons_next }) br.br_cons_head
      ok (some buf, record br { br_cons_head = cons_next; br_cons_tail = cons_next })) in
    if br.br_cons_head == br.br_prod_tail then ok (none, br) else taken

unfoldable pub buf_ring_advance_sc : BufRing → BufRing
buf_ring_advance_sc br =
    let cons_next = next_index br.br_cons_head br.br_cons_mask in
    if br.br_cons_head == br.br_prod_tail
    then br
    else record br { br_cons_head = cons_next; br_cons_tail = cons_next }

unfoldable pub buf_ring_putback_sc : BufRing → ℕ → Outcome BufRing
buf_ring_putback_sc br new = do
  check (ltb br.br_cons_head (length br.br_ring)) heap_overflow
  ok (record br { br_ring = set br.br_ring br.br_cons_head new })

unfoldable pub buf_ring_peek : BufRing → Outcome (Option ℕ)
buf_ring_peek br =
    let first = (do buf ← load_slot br br.br_cons_head; ok (some buf)) in
    if br.br_cons_head == br.br_prod_tail then ok none else first

unfoldable pub buf_ring_full : BufRing → Bool
buf_ring_full br = next_index br.br_prod_head br.br_prod_mask == br.br_cons_tail

unfoldable pub buf_ring_empty : BufRing → Bool
buf_ring_empty br = br.br_cons_head == br.br_prod_tail

unfoldable pub buf_ring_count : BufRing → ℕ
buf_ring_count br =
    bit_and ((br.br_prod_size + br.br_prod_tail + (2 ^ 32 - br.br_cons_tail)) % 2 ^ 32)
      br.br_prod_mask

-- Where a thread stands in `buf_ring_enqueue`, with the local variables that are live there.
pub data Producer : Type 0 where
  p_idle : Producer
  p_start : (buf : ℕ) → Producer  -- head of the loop
  p_head : (buf prod_head : ℕ) → Producer
  p_tail : (buf prod_head cons_tail : ℕ) → Producer  -- before `prod_next == cons_tail`
  p_full : (buf prod_head cons_tail : ℕ) → Producer  -- before the second load of br_cons_tail
  p_cas : (buf prod_head : ℕ) → Producer  -- condition of the loop
  p_claimed : (buf prod_head : ℕ) → Producer  -- before the store of `buf`
  p_wait : (prod_head : ℕ) → Producer
  p_publish : (prod_head : ℕ) → Producer

-- One access to the ring by `buf_ring_enqueue`. `continue` goes on to the compare-exchange, and a
-- weak one may fail at any time.
pub data Enqueue (r : BufRing) : Producer → BufRing → Producer → Type 0 where
  call : {buf : ℕ} → Enqueue r p_idle r (p_start buf)
  load_head : {buf : ℕ} → Enqueue r (p_start buf) r (p_head buf r.br_prod_head)
  load_tail : {buf h : ℕ} → Enqueue r (p_head buf h) r (p_tail buf h r.br_cons_tail)
  has_room :
      {buf h c : ℕ}
      → (next_index h r.br_prod_mask ≡ c → ⊥)
      → Enqueue r (p_tail buf h c) r (p_cas buf h)
  same_head :
      {buf h c : ℕ}
      → next_index h r.br_prod_mask ≡ c
      → h ≡ r.br_prod_head
      → Enqueue r (p_tail buf h c) r (p_full buf h c)
  head_moved :
      {buf h c : ℕ}
      → next_index h r.br_prod_mask ≡ c
      → (h ≡ r.br_prod_head → ⊥)
      → Enqueue r (p_tail buf h c) r (p_cas buf h)
  drop_buf :
      {buf h c : ℕ}
      → c ≡ r.br_cons_tail
      → Enqueue r (p_full buf h c) (record r { br_drops = (r.br_drops + 1) % 2 ^ 64 }) p_idle
  tail_moved : {buf h c : ℕ} → (c ≡ r.br_cons_tail → ⊥) → Enqueue r (p_full buf h c) r (p_cas buf h)
  cas_win :
      {buf h : ℕ}
      → r.br_prod_head ≡ h
      → Enqueue r
          (p_cas buf h)
          (record r { br_prod_head = next_index h r.br_prod_mask })
          (p_claimed buf h)
  cas_fail : {buf h : ℕ} → Enqueue r (p_cas buf h) r (p_start buf)
  store :
      {buf h : ℕ}
      → ltb h (length r.br_ring) ≡ true
      → Enqueue r (p_claimed buf h) (record r { br_ring = set r.br_ring h buf }) (p_wait h)
  spin : {h : ℕ} → (r.br_prod_tail ≡ h → ⊥) → Enqueue r (p_wait h) r (p_wait h)
  my_turn : {h : ℕ} → r.br_prod_tail ≡ h → Enqueue r (p_wait h) r (p_publish h)
  publish :
      {h : ℕ}
      → Enqueue r (p_publish h) (record r { br_prod_tail = next_index h r.br_prod_mask }) p_idle

-- Where a thread stands in `buf_ring_dequeue_mc`.
pub data Consumer : Type 0 where
  c_idle : Consumer
  c_start : Consumer
  c_head : (cons_head : ℕ) → Consumer  -- before the load of br_prod_tail
  c_cas : (cons_head : ℕ) → Consumer
  c_claimed : (cons_head : ℕ) → Consumer  -- before the load of the slot
  c_wait : (cons_head buf : ℕ) → Consumer
  c_publish : (cons_head buf : ℕ) → Consumer

-- One access to the ring by `buf_ring_dequeue_mc`.
pub data Dequeue (r : BufRing) : Consumer → BufRing → Consumer → Type 0 where
  call_mc : Dequeue r c_idle r c_start
  load_cons : Dequeue r c_start r (c_head r.br_cons_head)
  is_empty : {h : ℕ} → h ≡ r.br_prod_tail → Dequeue r (c_head h) r c_idle
  has_some : {h : ℕ} → (h ≡ r.br_prod_tail → ⊥) → Dequeue r (c_head h) r (c_cas h)
  cons_win :
      {h : ℕ}
      → r.br_cons_head ≡ h
      → Dequeue r (c_cas h) (record r { br_cons_head = next_index h r.br_cons_mask }) (c_claimed h)
  cons_fail : {h : ℕ} → Dequeue r (c_cas h) r c_start
  load_buf :
      {h buf : ℕ} → get_elem? r.br_ring h ≡ some buf → Dequeue r (c_claimed h) r (c_wait h buf)
  spin_mc : {h buf : ℕ} → (r.br_cons_tail ≡ h → ⊥) → Dequeue r (c_wait h buf) r (c_wait h buf)
  turn_mc : {h buf : ℕ} → r.br_cons_tail ≡ h → Dequeue r (c_wait h buf) r (c_publish h buf)
  release :
      {h buf : ℕ}
      → Dequeue r (c_publish h buf) (record r { br_cons_tail = next_index h r.br_cons_mask }) c_idle
