-- ===== src/Chunk/Laws.antt =====
-- The buffer of a chunk: its invariant, and what a resize and a push do.
use csearch.Common.{ℕ, ◌+◌, ◌-◌, ◌%◌, ◌^◌, ◌≤◌, ◌<◌, ◌≡◌, refl, ◌∙◌, arith}
use csearch.Common.{
  List, [], ◌∷◌, ◌++◌, length, take, ◌==◌, set, replicate, ne→==, lt→ltb, ltb-false,
}
use csearch.Common.{
  length-append, length-take, length-replicate, length-set, take-set, take-take-append,
}
use csearch.Common.Outcome.{ok, fault, heap_overflow}
use csearch.Runtime.{Runtime}
use csearch.Chunk.{Chunk, realloc, store, chunk_resize, chunk_push}
use native.Mathlib.Numerals.{add-one}

pub record IsValid (c : Chunk) : Type 0 where
  pub allocated : length c.buffer ≡ c.cap
  pub within : c.size ≤ c.cap
  pub word : c.cap < 2 ^ 32

-- the values pushed
abbrev pub contents : Chunk → List ℕ
contents c = take c.size c.buffer

pub length-contents : {c : Chunk} → IsValid c → length (contents c) ≡ c.size
length-contents {c} v = omega (arith, length-take c.size c.buffer)

module _ (r : Runtime) where
  pub length-realloc : (b : List ℕ) (n : ℕ) → length (realloc r b n) ≡ n
  length-realloc b n = omega (
    arith,
    length-append (take n b) (replicate (n - length b) r.junk),
    length-take n b,
    length-replicate (n - length b) r.junk,
  )

  -- A resize keeps the invariant and the values pushed.
  pub resize_lem :
      (n : ℕ) {c : Chunk}
      → IsValid c
      → n < 2 ^ 32
      → let c' = chunk_resize r c n in
        IsValid c' × (n ≤ c'.cap) × (c'.size ≡ c.size) × (contents c' ≡ contents c)
  unfolding chunk_resize
  resize_lem n {c} v h = ground (
    arith,
    length-realloc c.buffer n,
    take-take-append c.size n c.buffer (replicate (n - length c.buffer) r.junk),
  )

  pub resize_grows : (n : ℕ) (c : Chunk) → c.size < n → n < 2 ^ 32 → (chunk_resize r c n).cap ≡ n
  unfolding chunk_resize
  resize_grows n c lt h = ground arith

  resize_same : (n : ℕ) (c : Chunk) → n ≤ c.size → 0 < c.cap → chunk_resize r c n ≡ c
  unfolding chunk_resize
  resize_same n c le h = rw (ltb-false c.size n le, ne→== c.cap 0 (omega arith))

  store_lem :
      (value : ℕ) {c : Chunk}
      → IsValid c
      → c.size < c.cap
      → (c' : Chunk) × (store c value ≡ ok c')
        × IsValid c'
        × (c'.cap ≡ c.cap)
        × (c'.size ≡ c.size + 1)
        × (contents c' ≡ contents c ++ value ∷ [])
  store_lem value {c} v lt = (
    record c { buffer = set c.buffer c.size value; size = (c.size + 1) % 2 ^ 32 },
    rw (lt→ltb c.size (length c.buffer) (omega arith)),
    omega (arith, length-set c.buffer c.size value),
    refl,
    bump,
    rw (bump, add-one) (take-set c.buffer c.size value (omega arith)),
  )
    where
      bump : (c.size + 1) % 2 ^ 32 ≡ c.size + 1
      bump = omega arith

  -- On a valid chunk of fewer than 256 values, `chunk_push` succeeds, keeps it valid with a
  -- capacity of 256, adds the value at the end, and returns whether the size is 256 now.
  pub push-ok :
      (value : ℕ) {c : Chunk}
      → IsValid c
      → c.size < 256
      → (c' : Chunk) × (chunk_push r c value ≡ ok (c'.size == 256, c'))
        × IsValid c'
        × (c'.cap ≡ 256)
        × (c'.size ≡ c.size + 1)
        × (contents c' ≡ contents c ++ value ∷ [])
  unfolding chunk_push
  push-ok value {c} v h =
      let d = chunk_resize r c 256 in
      let (dv, room, same, kept) = resize_lem 256 v (omega arith) in
      let cap : d.cap ≡ 256 = resize_grows 256 c h (omega arith) in
      let (c', e, v', cap', size', all) = store_lem value dv (omega arith) in
      (c', rw (e, cap', cap), v', cap' ∙ cap, omega arith, rw (all, kept))

  -- A push on a full chunk of 256 values or more stores behind the end of the buffer.
  pub push_overflow :
      (value : ℕ) {c : Chunk}
      → IsValid c
      → c.size ≡ c.cap
      → 256 ≤ c.size
      → chunk_push r c value ≡ fault heap_overflow
  unfolding chunk_push
  push_overflow value {c} v full h =
      rw (resize_same 256 c h (omega arith), ltb-false c.size (length c.buffer) (omega arith))
