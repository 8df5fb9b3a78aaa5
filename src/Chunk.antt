-- ===== src/Chunk.antt =====
-- chunk_t of tool.c: a buffer of uint32_t that grows by realloc, and its compressed
-- form on disk.
pub mod Laws
pub mod Codec
pub mod Overflow
mod Tests
use csearch.Common.{
  ℕ, zero, suc, ◌+◌, ◌-◌, ◌*◌, ◌%◌, ◌^◌, Bool, List, [], ◌∷◌, ◌++◌, Option, none, some,
}
use csearch.Common.{
  ltb, leb, ◌==◌, if◌then◌else◌, ◌||◌, length, get_elem?, set, take, drop, replicate,
}
use csearch.Common.Outcome.{Outcome, ok, fault, heap_overflow, assert_failed, check, ◌>>=◌, ◌>>◌}
use csearch.Runtime.{Runtime}
use csearch.Stdio.{File, fread, stored}

-- `buffer` holds the cells of the allocated block.
pub record Chunk : Type 0 where
  pub size : ℕ
  pub cap : ℕ
  pub buffer : List ℕ

-- A chunk_t with all bytes 0, which is how every chunk starts.
abbrev pub empty : Chunk
empty = record { size = 0; cap = 0; buffer = [] }

abbrev pub chunk_size : Chunk → ℕ
chunk_size c = c.size

unfoldable pub chunk_reset : Chunk → Chunk
chunk_reset c = record c { size = 0 }

-- `chunk->buffer[ chunk->size++ ] = value`
abbrev store : Chunk → ℕ → Outcome Chunk
store c value = do
  check (ltb c.size (length c.buffer)) heap_overflow
  ok (record c { buffer = set c.buffer c.size value; size = (c.size + 1) % 2 ^ 32 })

module _ (r : Runtime) where
  open r use {delta_encode, delta_decode, junk}

  -- `realloc` keeps the cells that fit; what is new has no defined content.
  abbrev pub realloc : List ℕ → ℕ → List ℕ
  realloc block n = take n block ++ replicate (n - length block) junk

  unfoldable pub chunk_resize : Chunk → ℕ → Chunk
  chunk_resize c size =
      if ltb c.size size || c.cap == 0
      then record c { buffer = realloc c.buffer size; cap = size % 2 ^ 32 }
      else c

  -- The result is true where the C code returns 1: the chunk is full.
  unfoldable pub chunk_push : Chunk → ℕ → Outcome (Bool × Chunk)
  chunk_push c value = do c' ← store (chunk_resize c 256) value; ok (c'.size == c'.cap, c')

  -- The value at the offset and the next offset; `none` where the C code returns -1.
  unfoldable pub chunk_get : Chunk → ℕ → Outcome (Option (ℕ × ℕ))
  chunk_get c off = if leb c.cap off then ok none else elim (get_elem? c.buffer off) [
    | none ↦ fault heap_overflow
    | some value ↦ ok (some (value, (off + 1) % 2 ^ 32))
  ]

  -- The compressed bytes, for which `size * sizeof(uint32_t)` bytes are allocated, and `*bcount`.
  unfoldable pub chunk_compress : Chunk → Outcome (List ℕ × ℕ)
  chunk_compress c = do
    check (ltb 0 c.size) assert_failed
    check (leb c.size (length c.buffer)) heap_overflow
    let out = delta_encode (take c.size c.buffer) 0
    check (leb (length out) (c.size * 4)) heap_overflow
    ok (out, length out % 2 ^ 32)

  -- The decoder stores `n` values from the start of the buffer on.
  abbrev decode_into : Chunk → List ℕ → ℕ → Outcome Chunk
  decode_into c cbuffer n = do
    check (leb n (length c.buffer)) heap_overflow
    elim (delta_decode cbuffer n 0) [
      | none ↦ fault heap_overflow
      | some (values, rest) ↦ ok (record c { buffer = stored values c.buffer })
    ]

  unfoldable pub chunk_decompress : Chunk → List ℕ → ℕ → Outcome Chunk
  chunk_decompress c cbuffer n = decode_into (chunk_resize c n) cbuffer n

  -- `fread` of `bcount` bytes into a block of `n * sizeof(uint32_t)`. It always returns 0.
  unfoldable pub read_block : File → ℕ → ℕ → Chunk → Outcome (File × Chunk)
  read_block file n bcount c = do
    let (got, _, file') = fread bcount file
    check (leb (length got) (n * 4)) heap_overflow
    c' ← chunk_decompress c (stored got (replicate (n * 4) junk)) n
    ok (file', c')
