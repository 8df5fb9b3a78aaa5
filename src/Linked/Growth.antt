-- ===== src/Linked/Growth.antt =====
-- A chunk that grows by doubling, up to 2^23 values.
use csearch.Common.{ℕ, zero, suc, ◌+◌, ◌-◌, ◌*◌, ◌%◌, ◌^◌, ◌≤◌, ◌<◌, ◌≡◌, ◌≢◌, refl, ap, ◌∙◌, arith}
use csearch.Common.{
  Bool, false, ◌&&◌, List, [], ◌∷◌, ◌++◌, none, some, length, take, set, take-set, replicate,
}
use csearch.Common.{
  ◌==◌, if◌then◌else◌, eq→==, ne→==, lt→ltb, length-set, length-take, take-take-append, ◌⊎◌, inl,
  inr,
}
use native.Mathlib.Numerals.{add-one, unary_clauses}
use native.Mathlib.Decide.{ℕ_discrete}
use csearch.Common.Outcome.{ok}
use csearch.Runtime.{Runtime}
use csearch.Chunk.{realloc}
use csearch.Chunk.Laws.{length-realloc}
use csearch.Linked.{buffer, LinkedChunk, zeroed, chunk_init, grow, store, chunk_push}

-- A capacity that some doublings bring to 2^23, or none yet.
abbrev pub Doubles : ℕ → Type 0
Doubles capacity = (capacity ≡ 0) ⊎ ((j : ℕ) × (capacity * 2 ^ j ≡ 2 ^ 23))

-- A chunk that holds values and is not compressed.
pub record IsOpen (c : LinkedChunk) (xs : List ℕ) : Type 0 where
  pub block : List ℕ
  pub cells_is : c.cells ≡ buffer block
  pub allocated : length block ≡ c.capacity
  pub held : take c.size block ≡ xs
  pub within : c.size ≤ c.capacity
  pub doubles : Doubles c.capacity
  pub not_compressed : c.is_compressed ≡ false
  pub limit : c.max_size ≡ 2 ^ 23

pub chunk_init-IsOpen : IsOpen (chunk_init zeroed) []
unfolding chunk_init
chunk_init-IsOpen = record {
  block = [];
  cells_is = refl;
  allocated = refl;
  held = refl;
  within = omega arith;
  doubles = inl refl;
  not_compressed = refl;
  limit = refl;
}

pub size_is : {c : LinkedChunk} {xs : List ℕ} → IsOpen c xs → c.size ≡ length xs
size_is {c} o = omega (arith, o.within, o.allocated, ap length o.held, length-take c.size o.block)

below : (n p m : ℕ) → 0 < p → n * p ≡ m → n ≤ m
below n zero m pos e = absurd (omega arith)
below n (suc p) m pos e = omega (arith, e)

pow-pos : (j : ℕ) → 0 < 2 ^ j
pow-pos zero = omega arith
pow-pos (suc j) = omega (arith, pow-pos j)

pub Doubles-le : (capacity : ℕ) → Doubles capacity → capacity ≤ 2 ^ 23
Doubles-le capacity (inl e) = omega arith
Doubles-le capacity (inr (j, e)) = below capacity (2 ^ j) (2 ^ 23) (pow-pos j) e

-- The next capacity
abbrev pub doubled : ℕ → ℕ
doubled capacity = if capacity == 0 then 4 else capacity * 2 % 2 ^ 64

halve : (n j m : ℕ) → n * 2 ^ suc j ≡ m → n * 2 * 2 ^ j ≡ m
halve n j m e = omega (arith, simp unary_clauses at e)

doubled-Doubles :
    (capacity : ℕ)
    → Doubles capacity
    → capacity ≢ 2 ^ 23
    → Doubles (doubled capacity) × (capacity < doubled capacity)
doubled-Doubles capacity (inl e) ne = rw (eq→== capacity 0 e) (inr (21, refl), omega arith)
doubled-Doubles capacity (inr (zero, e)) ne = absurd (omega arith)
doubled-Doubles capacity (inr (suc j, e)) ne =
    let small = Doubles-le capacity (inr (suc j, e)) in
    let wraps : capacity * 2 % 2 ^ 64 ≡ capacity * 2 = omega arith in
    let some_cell : capacity ≢ 0 = λ z. absurd (omega (arith, e, ap (λ n. n * 2 ^ suc j) z)) in
    rw (ne→== capacity 0 some_cell, wraps) (inr (j, halve capacity j (2 ^ 23) e), omega arith)

module _ (r : Runtime) where
  open r use {junk}

  store-IsOpen :
      (c : LinkedChunk) (value : ℕ) {xs : List ℕ}
      → IsOpen c xs
      → c.size < c.capacity
      → (c' : LinkedChunk) × (store r c value ≡ ok (some (c.size + 1 == c.capacity), c'))
        × IsOpen c' (xs ++ value ∷ [])
  store-IsOpen c value o lt =
      let bump : (c.size + 1) % 2 ^ 32 ≡ c.size + 1 =
        omega (arith, Doubles-le c.capacity o.doubles) in
      let cells = set o.block c.size value in
      (
        record c { cells = buffer cells; size = c.size + 1 },
        rw (o.cells_is, lt→ltb c.size (length o.block) (omega (arith, o.allocated)), bump) refl,
        record {
          block = cells;
          cells_is = refl;
          allocated = length-set o.block c.size value ∙ o.allocated;
          held =
              rw add-one (take-set o.block c.size value (omega (arith, o.allocated)))
              ∙ ap (λ l. l ++ value ∷ []) o.held;
          within = omega arith;
          doubles = o.doubles;
          not_compressed = o.not_compressed;
          limit = o.limit;
        },
      )

  grow-IsOpen :
      (c : LinkedChunk) {xs : List ℕ} (o : IsOpen c xs)
      → c.size ≡ c.capacity
      → c.capacity ≢ 2 ^ 23
      → IsOpen (grow r c o.block) xs × (c.size < (grow r c o.block).capacity)
  grow-IsOpen c o full ne =
      let (doubles, more) = doubled-Doubles c.capacity o.doubles ne in
      let capacity = doubled c.capacity in
      (
        record {
          block = realloc r o.block capacity;
          cells_is = refl;
          allocated = length-realloc r o.block capacity;
          held =
              take-take-append c.size capacity o.block (replicate (capacity - length o.block) junk)
                (omega arith) (omega (arith, o.allocated))
              ∙ o.held;
          within = omega arith;
          doubles = doubles;
          not_compressed = o.not_compressed;
          limit = o.limit;
        },
        omega arith,
      )

  -- Behind the assertion and the access to the block
  push_is :
      (c : LinkedChunk) (value : ℕ) {xs : List ℕ} (o : IsOpen c xs)
      → chunk_push r c value ≡ (
          if c.size == c.capacity && c.capacity == 2 ^ 23
          then ok (none, c)
          else store r (if c.size == c.capacity then grow r c o.block else c) value)
  unfolding chunk_push
  push_is c value o = rw (o.not_compressed, o.cells_is, o.limit) refl

  -- On an open chunk of fewer than 2^23 values `chunk_push` adds the value at the end.
  pub push-IsOpen :
      (c : LinkedChunk) (value : ℕ) {xs : List ℕ}
      → IsOpen c xs
      → length xs < 2 ^ 23
      → (full : Bool) × (c' : LinkedChunk) × (chunk_push r c value ≡ ok (some full, c'))
        × IsOpen c' (xs ++ value ∷ [])
  push-IsOpen c value o small = elim (ℕ_discrete c.size c.capacity) [
    | yes full ↦
        let ne : c.capacity ≢ 2 ^ 23 = λ e. absurd (omega (arith, size_is o)) in
        let (o', lt) = grow-IsOpen c o full ne in
        let d = grow r c o.block in
        let (c', e, open') = store-IsOpen d value o' lt in
        (
          d.size + 1 == d.capacity,
          c',
          push_is c value o ∙ rw (eq→== c.size c.capacity full, ne→== c.capacity (2 ^ 23) ne) e,
          open',
        )
    | no room ↦
        let (c', e, open') = store-IsOpen c value o (omega (arith, o.within)) in
        (
          c.size + 1 == c.capacity,
          c',
          push_is c value o ∙ rw (ne→== c.size c.capacity room) e,
          open',
        )
  ]

  -- On an open chunk of 2^23 values it returns -1 and changes nothing.
  pub push-full :
      (c : LinkedChunk) (value : ℕ) {xs : List ℕ}
      → IsOpen c xs
      → length xs ≡ 2 ^ 23
      → chunk_push r c value ≡ ok (none, c)
  push-full c value o full =
      let size = size_is o in
      let cap : c.capacity ≡ 2 ^ 23 = omega (arith, o.within, Doubles-le c.capacity o.doubles) in
      push_is c value o
      ∙ rw (eq→== c.size c.capacity (omega arith), eq→== c.capacity (2 ^ 23) cap) refl
