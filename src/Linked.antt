-- ===== src/Linked.antt =====
-- chunk.c: chunks of up to 2^23 values in a list, the full ones compressed.
pub mod Growth
pub mod Held
pub mod Pushes
pub mod Reopen
mod Tests
use csearch.Common.{
  ℕ, ◌+◌, ◌*◌, ◌%◌, ◌^◌, ◌≡◌, Bool, true, false, List, [], ◌∷◌, ◌++◌, Option, none, some,
}
use csearch.Common.{
  leb, ltb, ◌==◌, ◌&&◌, ◌||◌, not, if◌then◌else◌, length, get_elem?, set, take, replicate,
}
use csearch.Common.Outcome.{
  Outcome, ok, fault, heap_overflow, assert_failed, bad_entry, check, ◌>>=◌, ◌>>◌,
}
use csearch.Runtime.{Runtime}
use csearch.Stdio.{File, fread, stored}
use csearch.Chunk.{realloc}

-- The union of `buffer` and `cbuff`: the cells of a block of uint32_t or of bytes.
pub data Cells : Type 0 where
  buffer : List ℕ → Cells
  cbuff : List ℕ → Cells

-- chunk_t, without its place in a list.
pub record LinkedChunk : Type 0 where
  pub capacity : ℕ
  pub size : ℕ
  pub is_compressed : Bool
  pub max_size : ℕ
  pub cells : Cells
  pub bcount : ℕ

-- A chunk_t with all bytes 0
abbrev pub zeroed : LinkedChunk
zeroed = record {
  capacity = 0;
  size = 0;
  is_compressed = false;
  max_size = 0;
  cells = buffer [];
  bcount = 0;
}

unfoldable pub chunk_init : LinkedChunk → LinkedChunk
chunk_init c = record c { max_size = 2 ^ 23; capacity = 0; cells = buffer [] }

unfoldable pub chunk_full : LinkedChunk → Bool
chunk_full c = c.size == c.max_size

-- Values that are read through `buffer`. Where the union holds bytes the model stops.
abbrev pub values_of : Cells → Outcome (List ℕ)
values_of (buffer xs) = ok xs
values_of (cbuff bytes) = fault bad_entry

abbrev pub bytes_of : Cells → Outcome (List ℕ)
bytes_of (buffer xs) = fault bad_entry
bytes_of (cbuff bytes) = ok bytes

-- `(*off)++`: the value and the next offset
abbrev pub cell_at : List ℕ → ℕ → Outcome (Option (ℕ × ℕ))
cell_at xs off = elim (get_elem? xs off) [
  | none ↦ fault heap_overflow
  | some value ↦ ok (some (value, (off + 1) % 2 ^ 32))
]

-- `none` is the result -1.
unfoldable pub chunk_get : LinkedChunk → ℕ → Outcome (Option (ℕ × ℕ))
chunk_get c off =
    let got = (do xs ← values_of c.cells; cell_at xs off) in
    if c.is_compressed || leb c.capacity off then ok none else got

module _ (r : Runtime) where
  open r use {delta_encode, delta_decode, junk}

  -- The block and its capacity, when it is full.
  abbrev pub grow : LinkedChunk → List ℕ → LinkedChunk
  grow c xs =
      let capacity = if c.capacity == 0 then 4 else c.capacity * 2 % 2 ^ 64 in
      record c { capacity = capacity; cells = buffer (realloc r xs capacity) }

  -- `chunk->buffer[ chunk->size++ ] = value`, and the result
  abbrev pub store : LinkedChunk → ℕ → Outcome (Option Bool × LinkedChunk)
  store c value = do
    xs ← values_of c.cells
    check (ltb c.size (length xs)) heap_overflow
    let c' : LinkedChunk = record c {
      cells = buffer (set xs c.size value);
      size = (c.size + 1) % 2 ^ 32;
    }
    ok (some (c'.size == c'.capacity), c')

  -- `none` for -1, and else whether the size is now the capacity.
  unfoldable pub chunk_push : LinkedChunk → ℕ → Outcome (Option Bool × LinkedChunk)
  chunk_push c value = do
    check (not c.is_compressed) assert_failed
    xs ← values_of c.cells
    let room : LinkedChunk = if c.size == c.capacity then grow c xs else c
    let stored = store room value
    if c.size == c.capacity && c.capacity == c.max_size then ok (none, c) else stored

  -- The number of bytes, and the chunk.
  unfoldable pub chunk_compress : LinkedChunk → Outcome (ℕ × LinkedChunk)
  chunk_compress c = do
    check (ltb 0 c.size && not c.is_compressed) assert_failed
    xs ← values_of c.cells
    check (leb c.size (length xs)) heap_overflow
    let out = delta_encode (take c.size xs) 0
    check (leb (length out) (c.size * 4)) heap_overflow
    let block = replicate (c.size * 4) junk
    ok (length out % 2 ^ 32, record c { is_compressed = true; cells = cbuff (stored out block) })

  -- The flag is_compressed stays set.
  unfoldable pub chunk_decompress : LinkedChunk → ℕ → Outcome LinkedChunk
  chunk_decompress c n = do
    check c.is_compressed assert_failed
    bytes ← bytes_of c.cells
    elim (delta_decode bytes n 0) [
      | none ↦ fault heap_overflow
      | some (values, rest) ↦ ok (record c { cells = buffer values })
    ]

  -- The bytes that were read are given back unused; the chunk's own are decompressed.
  unfoldable pub read_block : File → ℕ → ℕ → LinkedChunk → Outcome (File × LinkedChunk)
  read_block file n bcount c = do
    let (got, _, file') = fread bcount file
    check (leb (length got) (n * 4)) heap_overflow
    c' ← chunk_decompress c n
    ok (file', c')

-- The lists of list.h over objects that hold a list_head. `entries` are the objects in order.
pub record ListHead (C : Type 0) : Type 1 where
  pub Head : Type 0
  pub entries : Head → List C
  pub init_list_head : Head
  pub list_empty : Head → Bool
  -- The object of `head->prev`; `none` on an empty list.
  pub last_entry : Head → Option C
  pub list_add_tail : C → Head → Head
  -- The list after the last object was changed in memory.
  pub write_last : C → Head → Head
  pub entries-init_list_head : entries init_list_head ≡ []
  pub list_empty_nil : (l : Head) → entries l ≡ [] → list_empty l ≡ true
  pub list_empty_cons :
      (l : Head) (cs : List C) (c : C) → entries l ≡ cs ++ c ∷ [] → list_empty l ≡ false
  pub last_entry_is :
      (l : Head) (cs : List C) (c : C) → entries l ≡ cs ++ c ∷ [] → last_entry l ≡ some c
  pub entries-list_add_tail : (l : Head) (c : C) → entries (list_add_tail c l) ≡ entries l ++ c ∷ []
  pub entries-write_last :
      (l : Head) (cs : List C) (c c' : C)
      → entries l ≡ cs ++ c ∷ []
      → entries (write_last c' l) ≡ cs ++ c' ∷ []

module _ (lists : ListHead LinkedChunk) where
  open lists use {Head, last_entry, list_add_tail}

  -- `list_entry(entry->prev, chunk_t, list)`
  abbrev pub last_chunk : Head → Outcome LinkedChunk
  last_chunk l = elim (last_entry l) [ none ↦ fault bad_entry | some c ↦ ok c ]

  abbrev pub add_chunk : Head → Head
  add_chunk l = list_add_tail (chunk_init zeroed) l

module _ (r : Runtime) (lists : ListHead LinkedChunk) where
  open lists use {Head, list_empty, write_last}

  -- `if( c ) chunk_compress( c, &c->bcount )`, for the last chunk of a list that is not empty.
  unfoldable pub compress_last : Head → LinkedChunk → Outcome Head
  compress_last l c = do
    (bytes, c') ← chunk_compress r c
    ok (write_last (record c' { bcount = bytes }) l)

  -- The list with room in its last chunk.
  unfoldable pub make_room : Head → Outcome Head
  make_room l =
      let others = (do
        c ← last_chunk lists l
        let next = (do l' ← compress_last l c; ok (add_chunk lists l'))
        if chunk_full c then next else ok l) in
      if list_empty l then ok (add_chunk lists l) else others

  unfoldable pub chunk_list_push : Head → ℕ → Outcome (Option Bool × Head)
  chunk_list_push l doc = do
    l' ← make_room l
    c ← last_chunk lists l'
    (rc, c') ← chunk_push r c doc
    ok (rc, write_last c' l')
