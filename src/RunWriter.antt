-- ===== src/RunWriter.antt =====
-- The writer of index_writer.c: runs of documents of one term, compressed by libvbyte.
pub mod Stuck
mod Tests
use csearch.Common.{
  ℕ, ◌+◌, ◌*◌, ◌/◌, ◌%◌, ◌^◌, ◌≤◌, ◌<◌, ◌≡◌, Bool, true, false, List, [], ◌∷◌, ◌++◌, Option, none,
  some,
}
use csearch.Common.{leb, ltb, ◌==◌, ◌&&◌, ◌||◌, not, if◌then◌else◌, length}
use csearch.Common.Outcome.{Outcome, ok, heap_overflow, check, ◌>>=◌, ◌>>◌}
use csearch.IFile.{Status, done, failed}

-- run_t; `kv_data` is its field `data`.
pub record Run : Type 0 where
  pub term : ℕ
  pub first_doc : ℕ
  pub kv_data : List ℕ

-- index_writer_t, without the descriptor
pub record RunWriter : Type 0 where
  pub last_term : ℕ
  pub last_doc : ℕ
  pub run : Run

unfoldable pub index_writer_init : RunWriter
index_writer_init = record {
  last_term = 0;
  last_doc = 0;
  run = record { term = 0; first_doc = 0; kv_data = [] };
}

abbrev pub run_max : ℕ
run_max = 32

-- The 8 bytes of a uint64_t or size_t in memory, lowest first
abbrev pub le64 : ℕ → List ℕ
le64 v = byte 0 ∷ byte 1 ∷ byte 2 ∷ byte 3 ∷ byte 4 ∷ byte 5 ∷ byte 6 ∷ byte 7 ∷ []
  where
    byte : ℕ → ℕ
    byte k = v / 2 ^ (8 * k) % 2 ^ 8

abbrev pub total : List (List ℕ) → ℕ
total [] = 0
total (b ∷ bs) = length b + total bs

-- What the code takes from the system and from libvbyte, over what is behind the descriptor.
pub record Writes (W : Type 0) : Type 0 where
  -- `writev`, with the blocks of bytes; `none` is the result -1.
  pub writev : List (List ℕ) → W → Option ℕ × W
  -- `vbyte_compress_sorted64`: the bytes that it stores
  pub vbyte_compress_sorted64 : List ℕ → ℕ → List ℕ
  -- "writev() returns the number of bytes written"; it writes no more than it gets.
  pub writev_bounded :
      (blocks : List (List ℕ)) (world : W) (n : ℕ)
      → (writev blocks world).0 ≡ some n
      → n ≤ total blocks
  -- A value takes a byte at least.
  pub compress_some :
      (docs : List ℕ) (prev : ℕ) → length docs ≤ length (vbyte_compress_sorted64 docs prev)

-- What a call returns; `no_value` where the C function ends without a return.
pub data Returned : Type 0 where
  returned : Status → Returned
  no_value : Returned

-- `if( rc != ... ) return -1; return 0;`
abbrev pub result_of : ℕ → Option ℕ → Status
result_of all none = failed
result_of all (some n) = if n == all then done else failed

module _ {W : Type 0} (sys : Writes W) where
  open sys use {writev, vbyte_compress_sorted64}

  -- The `length` bytes at `p`; the fourth block is not passed to writev.
  unfoldable pub index_writer_write2 : RunWriter → List ℕ → W → Status × W
  index_writer_write2 w p world =
      let length_bytes = le64 (length p) in
      let (rc, world') =
        writev (le64 w.run.term ∷ le64 w.run.first_doc ∷ length_bytes ∷ []) world in
      (result_of (8 + 8 + 8 + length p) rc, world')

  unfoldable pub index_writer_write : RunWriter → ℕ → ℕ → W → Outcome (Returned × RunWriter × W)
  index_writer_write w term doc world =
      let flushed = (do
        let p = vbyte_compress_sorted64 w.run.kv_data w.run.first_doc
        check (leb (length p) (length w.run.kv_data * 5)) heap_overflow
        let (rc, world') = index_writer_write2 w p world
        ok (returned rc, w, world')) in
      let pushed : RunWriter = record w {
        run = record w.run { kv_data = w.run.kv_data ++ 1 ∷ [] };
        last_doc = doc;
        last_term = term;
      } in
      if not (term == w.last_term) && not (w.last_term == 0) || ltb run_max (length w.run.kv_data)
      then flushed
      else ok (no_value, pushed, world)
