-- ===== src/IFile/Reader.antt =====
-- What `ifile_read` returns, call by call, on a file of blocks.
use csearch.Common.{ℕ, zero, suc, ◌+◌, ◌-◌, ◌%◌, ◌^◌, ◌≤◌, ◌<◌, max, ◌≡◌, refl, ap, subst, arith}
use csearch.Common.{
  List, [], ◌∷◌, ◌++◌, length, drop, some, none, get_elem?, drop-get_elem?, drop_all,
}
use csearch.Common.{le→leb, leb-false}
use csearch.Common.Outcome.{ok}
use csearch.Runtime.{Runtime}
use csearch.Chunk.{Chunk, chunk_get}
use csearch.Chunk.Laws.{IsValid}
use csearch.Chunk.Codec.{Holds}
use csearch.IFile.{Tupe, IFile, done, failed, ifile_read}
use csearch.IFile.Blocks.{
  Block, tuples, file_bytes, AllRuns, AllSlack, first, block_head, real_read-block, real_read-end,
}

-- What a reader at offset `roff` returns on a file of blocks: the first document of each, and of the
-- others only those behind the offset that it carries over from the block before.
unfoldable pub read_tuples : ℕ → List Block → List Tupe
read_tuples roff [] = []
read_tuples roff (b ∷ bs) =
    record { term = b.term; doc = first b.docs }
    ∷ (tuples b.term (drop (suc roff) b.docs) ++ read_tuples (max (suc roff) (length b.docs)) bs)

module _ (r : Runtime) where
  -- A reader from which successive calls of `ifile_read` return exactly these tuples, then -1.
  abbrev pub Source : IFile → List Tupe → Type 0
  Source f [] = (f' : IFile) × (ifile_read r f ≡ ok (failed, f'))
  Source f (t ∷ ts) = (f' : IFile) × (ifile_read r f ≡ ok (done, f')) × (f'.tupe ≡ t) × Source f' ts

  get-some :
      (c : Chunk) (off : ℕ) (xs : List ℕ) {x : ℕ}
      → Holds c xs
      → off < length xs
      → get_elem? xs off ≡ some x
      → chunk_get r c off ≡ ok (some (x, suc off))
  unfolding chunk_get
  get-some c off xs {x} h lt e =
      let len : length c.buffer ≡ length xs = ap length h.values in
      let at : get_elem? c.buffer off ≡ some x = rw h.values e in
      let next : (off + 1) % 2 ^ 32 ≡ suc off = omega arith in
      rw (leb-false c.cap off (omega arith), at, next)

  get-none : (c : Chunk) (off : ℕ) → c.cap ≤ off → chunk_get r c off ≡ ok none
  unfolding chunk_get
  get-none c off le = rw (le→leb c.cap off le)

  -- One call that finds a value in the chunk.
  read-next :
      (f : IFile) (docs : List ℕ) {x : ℕ}
      → Holds f.chunk docs
      → f.roff < length docs
      → get_elem? docs f.roff ≡ some x
      → ifile_read r f
        ≡ ok (done, record f { tupe = record { term = f.tupe.term; doc = x }; roff = suc f.roff })
  unfolding ifile_read
  read-next f docs h lt e = rw (get-some f.chunk f.roff docs h lt e)

  -- The rest of the chunk is returned, and then what the reader returns at its end.
  Source-chunk :
      (n : ℕ) (f : IFile) (docs : List ℕ) (ts : List Tupe)
      → Holds f.chunk docs
      → n ≡ length docs - f.roff
      → ((g : IFile)
          → Holds g.chunk docs
          → g.file ≡ f.file
          → g.roff ≡ max f.roff (length docs)
          → Source g ts)
      → Source f (tuples f.tupe.term (drop f.roff docs) ++ ts)
  Source-chunk zero f docs ts h e rest =
      rw (drop_all f.roff docs (omega arith)) (rest f h refl (omega arith))
  Source-chunk (suc n) f docs ts h e rest =
      let (x, at, split) = drop-get_elem? docs f.roff (omega arith) in
      let f' : IFile = record f {
        tupe = record { term = f.tupe.term; doc = x };
        roff = suc f.roff;
      } in
      rw split (
        f',
        read-next f docs h (omega arith) at,
        refl,
        Source-chunk n f' docs ts h (omega arith) (λ g gh same off. rest g gh same (omega arith)),
      )

  -- From any state with a valid chunk of size 0 and an offset behind its capacity, on any file of
  -- blocks of runs, whose number stays below 2^31 and, with the offset, below 2^32, and of which
  -- those of 32 documents or more leave 12 of the four bytes a document unused, successive reads
  -- return exactly the tuples of `read_tuples`, then -1.
  pub Source-file :
      (bs : List Block) (f : IFile)
      → IsValid f.chunk
      → f.chunk.size ≡ 0
      → f.chunk.cap ≤ f.roff
      → AllRuns r bs
      → AllSlack r bs
      → length bs < 2 ^ 31
      → f.roff + length bs < 2 ^ 32
      → f.file.unread ≡ file_bytes r bs
      → Source f (read_tuples f.roff bs)
  unfolding ifile_read read_tuples
  Source-file [] f v empty drained runs slack few off e =
      let (f', end) = real_read-end r f (omega (arith, ap length e)) in
      (f', rw (get-none f.chunk f.roff drained, end))
  Source-file (b ∷ bs) f v empty drained (run, runs) (slack, slacks) few off e =
      let (c, reads, holds) =
        real_read-block r b.term b.docs (file_bytes r bs) f v empty run slack e in
      let g : IFile = record f {
        file = record f.file { unread = file_bytes r bs };
        tupe = record { term = b.term; doc = first b.docs };
        h = block_head r b.term b.docs;
        chunk = c;
        roff = suc f.roff;
      } in
      let next : (f.roff + 1) % 2 ^ 32 ≡ suc f.roff = omega arith in
      (
        g,
        rw (get-none f.chunk f.roff drained, reads, next),
        refl,
        Source-chunk (length b.docs - suc f.roff) g b.docs
            (read_tuples (max (suc f.roff) (length b.docs)) bs) holds refl
            (λ k kh same off'.
              let cap = ap length kh.values in
              subst (λ n. Source k (read_tuples n bs)) off'
                (Source-file bs k kh.valid kh.unpushed (omega arith) runs slacks (omega arith)
                  (omega (arith, run.few)) (ap (λ file. file.unread) same))),
      )
