-- ===== src/IFile/RoundTrip.antt =====
-- An index file written by `ifile_write` and `ifile_flush`, and read by `ifile_read`.
use csearch.Common.{ℕ, suc, ◌-◌, ◌≤◌, ◌<◌, ◌^◌, max, ◌≡◌, refl, sym, ap, subst, ◌∙◌, arith}
use csearch.Common.{List, [], ◌∷◌, ◌++◌, map, length, drop_all, append-nil, append_assoc}
use csearch.Common.Outcome.{Outcome, ok, fault, assert_failed, ◌>>=◌}
use csearch.Runtime.{Runtime}
use csearch.Stdio.{File}
use csearch.Chunk.Laws.{length-contents}
use csearch.Chunk.Codec.{Slack}
use csearch.IFile.{Tupe, IFile, ifile_init, ifile_flush}
use csearch.IFile.Blocks.{Block, tuples, file_bytes, AllRuns, AllSlack, first, IsRun, block_bytes}
use csearch.IFile.Reader.{Source, read_tuples, Source-file}
use csearch.IFile.Writer.{Pending, wrote, wrote-Pending, flush_lem, flush-empty}
use csearch.IFile.Runs.{full_blocks, left_over, below_256, write_all, write_all-run}

-- `fopen( name, "wb" )` and `fopen( name, "rb" )`
abbrev pub created : File
created = record { unread = []; written = [] }

abbrev pub opened : List ℕ → File
opened bytes = record { unread = bytes; written = [] }

-- What the callers do: write the tuples and flush.
unfoldable pub save : Runtime → List Tupe → Outcome IFile
save r ts = write_all r (ifile_init created) ts >>= ifile_flush r

init-Pending : (term : ℕ) → Pending (ifile_init created) [] term []
unfolding ifile_init
init-Pending term = record {
  valid = omega arith;
  room = omega arith;
  held = refl;
  file_is = refl;
  term_is = λ h. absurd (omega arith);
  doc_is = λ h. absurd (omega arith);
}

-- All blocks of a run, the full ones and the last.
pub run_blocks : ℕ → List ℕ → List Block
run_blocks term ds = full_blocks term [] ds ++ record { term = term; docs = left_over [] ds } ∷ []

read_tuples-one :
    (term d : ℕ) (docs : List ℕ)
    → read_tuples 0 (record { term = term; docs = d ∷ docs } ∷ []) ≡ tuples term (d ∷ docs)
unfolding read_tuples
read_tuples-one term d docs = rw append-nil

module _ (r : Runtime) where
  file_bytes-append :
      (bs cs : List Block) → file_bytes r (bs ++ cs) ≡ file_bytes r bs ++ file_bytes r cs
  file_bytes-append [] cs = refl
  file_bytes-append (b ∷ bs) cs =
      rw (file_bytes-append bs cs, append_assoc (block_bytes r b.term b.docs))

  -- A run of tuples of one term whose last block is not empty, where all blocks of 256 and the
  -- last hold uint32 documents that need at most four bytes each, is written to a new file, and
  -- flushed, as these blocks in order.
  pub save-run :
      (term : ℕ) (ds : List ℕ)
      → AllRuns r (full_blocks term [] ds)
      → IsRun r term (left_over [] ds)
      → (f : IFile) × (save r (tuples term ds) ≡ ok f)
        × (f.file.written ≡ file_bytes r (run_blocks term ds))
  unfolding save run_blocks
  save-run term ds runs last =
      let (f, w, p) = write_all-run r ds (ifile_init created) (init-Pending term) runs in
      let term_is = p.term_is last.some_doc in
      let run' = subst (λ t. IsRun r t (left_over [] ds)) (sym term_is) last in
      let q =
        wrote-Pending r f _ term term (left_over [] ds) p.valid p.file_is term_is
          (p.doc_is last.some_doc) in
      (
        wrote r f (left_over [] ds),
        rw w (flush_lem r f (left_over [] ds) p.valid p.held run'),
        q.file_is ∙ rw (file_bytes-append (full_blocks term [] ds), append-nil),
      )

  -- If no documents are left over for a last block, and the full blocks are of uint32 documents
  -- that need at most four bytes each, the last flush aborts by the assertion.
  pub save-aborts :
      (term : ℕ) (ds : List ℕ)
      → AllRuns r (full_blocks term [] ds)
      → left_over [] ds ≡ []
      → save r (tuples term ds) ≡ fault assert_failed
  unfolding save
  save-aborts term ds runs none_left =
      let (f, w, p) = write_all-run r ds (ifile_init created) (init-Pending term) runs in
      let size : f.chunk.size ≡ 0 =
        sym (length-contents p.valid) ∙ ap length p.held ∙ ap length none_left in
      rw w (flush-empty r f size)

  -- A reader of a file returns its tuples, as far as `read_tuples` says.
  reader_lem :
      (bs : List Block)
      → AllRuns r bs
      → AllSlack r bs
      → length bs < 2 ^ 31
      → Source r (ifile_init (opened (file_bytes r bs))) (read_tuples 0 bs)
  unfolding ifile_init
  reader_lem bs runs slack few =
      Source-file r bs (ifile_init (opened (file_bytes r bs))) (omega arith) refl (omega arith) runs
        slack few (omega arith) refl

  -- A file of one block gives back all its tuples.
  pub read-one_block :
      (term : ℕ) (docs : List ℕ)
      → IsRun r term docs
      → Slack r docs
      → Source r
          (ifile_init (opened (file_bytes r (record { term = term; docs = docs } ∷ []))))
          (tuples term docs)
  read-one_block term [] run slack = absurd (omega (arith, run.some_doc))
  read-one_block term (d ∷ docs) run slack =
      let bs : List Block = record { term = term; docs = d ∷ docs } ∷ [] in
      subst (Source r (ifile_init (opened (file_bytes r bs)))) (read_tuples-one term d docs)
        (reader_lem bs (run, tt) (slack, tt) (omega arith))

  -- A run of tuples of one term, at least one and fewer than 256, of uint32 documents that need at
  -- most four bytes each, and 12 bytes less than that in all from 32 documents on, is written to a
  -- new file and flushed; successive reads of that file return the tuples in order, then -1.
  pub read-save :
      (term : ℕ) (docs : List ℕ)
      → length docs < 256
      → IsRun r term docs
      → Slack r docs
      → (f : IFile) × (save r (tuples term docs) ≡ ok f)
        × Source r (ifile_init (opened f.file.written)) (tuples term docs)
  read-save term docs small run slack =
      let (no_blocks, all) = below_256 term docs [] (omega arith) in
      let (f, saved, bytes) = save-run term docs (rw no_blocks tt) (rw all run) in
      (f, saved, rw (bytes, one_block no_blocks all) (read-one_block term docs run slack))
    where
      one_block :
          full_blocks term [] docs ≡ []
          → left_over [] docs ≡ docs
          → run_blocks term docs ≡ record { term = term; docs = docs } ∷ []
      one_block a b = unfold run_blocks in rw (a, b)

-- Blocks behind one that is as long as any of them but for one document.
abbrev pub NoLonger : ℕ → List Block → Type 0
NoLonger n [] = Unit {0}
NoLonger n (b ∷ bs) = (length b.docs ≤ n) × NoLonger n bs

abbrev pub heads : List Block → List Tupe
heads bs = map (λ b. record { term = b.term; doc = first b.docs }) bs

NoLonger-mono : (n m : ℕ) (bs : List Block) → n ≤ m → NoLonger n bs → NoLonger m bs
NoLonger-mono n m [] le h = tt
NoLonger-mono n m (b ∷ bs) le (h, hs) = (omega arith, NoLonger-mono n m bs le hs)

read_tuples-heads :
    (roff : ℕ) (bs : List Block) → NoLonger (suc roff) bs → read_tuples roff bs ≡ heads bs
unfolding read_tuples
read_tuples-heads roff [] h = refl
read_tuples-heads roff (b ∷ bs) (h, hs) =
    let carried : max (suc roff) (length b.docs) ≡ suc roff = omega arith in
    rw (
      drop_all (suc roff) b.docs h,
      carried,
      read_tuples-heads (suc roff) bs
          (NoLonger-mono (suc roff) (suc (suc roff)) bs (omega arith) hs),
    )

read_tuples-lost :
    (term d : ℕ) (docs : List ℕ) (bs : List Block)
    → NoLonger (suc (length (d ∷ docs))) bs
    → read_tuples 0 (record { term = term; docs = d ∷ docs } ∷ bs)
      ≡ tuples term (d ∷ docs) ++ heads bs
unfolding read_tuples
read_tuples-lost term d docs bs h =
    let carried : max 1 (length (d ∷ docs)) ≡ length (d ∷ docs) = omega arith in
    rw (carried, read_tuples-heads (length (d ∷ docs)) bs h)

module _ (r : Runtime) where
  -- On a file of fewer than 2^31 blocks of runs, of which those of 32 documents or more leave 12
  -- of the four bytes a document unused, where no block behind the first is longer than the first
  -- by two documents or more, successive reads return the first block, of each other block only
  -- the first document, and then -1.
  pub read_loses :
      (term : ℕ) (docs : List ℕ) (bs : List Block)
      → IsRun r term docs
      → AllRuns r bs
      → Slack r docs
      → AllSlack r bs
      → length bs < 2 ^ 31 - 1
      → NoLonger (suc (length docs)) bs
      → Source r
          (ifile_init (opened (file_bytes r (record { term = term; docs = docs } ∷ bs))))
          (tuples term docs ++ heads bs)
  read_loses term [] bs run runs slack slacks few h = absurd (omega (arith, run.some_doc))
  read_loses term (d ∷ docs) bs run runs slack slacks few h =
      let all : List Block = record { term = term; docs = d ∷ docs } ∷ bs in
      subst (Source r (ifile_init (opened (file_bytes r all)))) (read_tuples-lost term d docs bs h)
        (reader_lem r all (run, runs) (slack, slacks) (omega arith))
