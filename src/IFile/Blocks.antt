-- ===== src/IFile/Blocks.antt =====
-- A block on disk, a chunk_head_t and the compressed documents, and `ifile_real_read` on it.
use csearch.Common.{
  ℕ, ◌*◌, ◌^◌, ◌≤◌, ◌<◌, ◌≡◌, refl, arith, List, [], ◌∷◌, ◌++◌, length, All, map, take, drop,
}
use csearch.Common.{append_assoc, leb-false, le→leb}
use csearch.Common.Words.{IsU32, of_le32-le32}
use csearch.Common.Outcome.{ok}
use csearch.Runtime.{Runtime}
use csearch.Stdio.{File, stored}
use csearch.Chunk.{Chunk}
use csearch.Chunk.Laws.{IsValid}
use csearch.Chunk.Codec.{Holds, Slack, read_block-encode}
use csearch.IFile.{Tupe, ChunkHead, IFile, done, failed, head_bytes, head_of, ifile_real_read}

-- A block of an index file: the documents of one term.
pub record Block : Type 0 where
  pub term : ℕ
  pub docs : List ℕ

abbrev pub tuples : ℕ → List ℕ → List Tupe
tuples term docs = map (λ d. record { term = term; doc = d }) docs

abbrev pub first : List ℕ → ℕ
first [] = 0
first (d ∷ docs) = d

module _ (r : Runtime) where
  open r use {delta_encode}

  -- The header that belongs to a run of documents of one term.
  abbrev pub block_head : ℕ → List ℕ → ChunkHead
  block_head term docs = record {
    count = length docs;
    term = term;
    doc = first docs;
    bcount = length (delta_encode docs 0);
  }

  abbrev pub block_bytes : ℕ → List ℕ → List ℕ
  block_bytes term docs = head_bytes (block_head term docs) ++ delta_encode docs 0

  -- A run that a block can hold: it is not empty, its compressed form fits into the block of memory
  -- that the writer and the reader allocate, and no field of the header wraps.
  pub record IsRun (term : ℕ) (docs : List ℕ) : Type 0 where
    pub some_doc : 0 < length docs
    pub few : length docs * 4 < 2 ^ 32
    pub term_word : IsU32 term
    pub doc_words : All IsU32 docs
    pub fits : length (delta_encode docs 0) ≤ length docs * 4

module _ (r : Runtime) where
  abbrev pub file_bytes : List Block → List ℕ
  file_bytes [] = []
  file_bytes (b ∷ bs) = block_bytes r b.term b.docs ++ file_bytes bs

  abbrev pub AllRuns : List Block → Type 0
  AllRuns [] = Unit {0}
  AllRuns (b ∷ bs) = IsRun r b.term b.docs × AllRuns bs

  -- Blocks that the decoder reads without a load behind the memory allocated for them.
  abbrev pub AllSlack : List Block → Type 0
  AllSlack [] = Unit {0}
  AllSlack (b ∷ bs) = Slack r b.docs × AllSlack bs

first-IsU32 : (docs : List ℕ) → All IsU32 docs → IsU32 (first docs)
first-IsU32 [] h = omega arith
first-IsU32 (d ∷ docs) h = h.0

-- The header is read back from its bytes, whatever lies behind them.
pub head_of-head_bytes :
    (h : ChunkHead) (rest : List ℕ)
    → IsU32 h.count
    → IsU32 h.term
    → IsU32 h.doc
    → IsU32 h.bcount
    → head_of (head_bytes h ++ rest) ≡ h
unfolding head_of head_bytes
head_of-head_bytes h rest a b c d = λ i. record {
  count = of_le32-le32 h.count a i;
  term = of_le32-le32 h.term b i;
  doc = of_le32-le32 h.doc c i;
  bcount = of_le32-le32 h.bcount d i;
}

pub take-head_bytes :
    (h : ChunkHead) (rest : List ℕ) → take 16 (head_bytes h ++ rest) ≡ head_bytes h
unfolding head_bytes
take-head_bytes h rest = refl

pub drop-head_bytes : (h : ChunkHead) (rest : List ℕ) → drop 16 (head_bytes h ++ rest) ≡ rest
unfolding head_bytes
drop-head_bytes h rest = refl

pub length-head_bytes : (h : ChunkHead) (rest : List ℕ) → 16 ≤ length (head_bytes h ++ rest)
unfolding head_bytes
length-head_bytes h rest = omega arith

module _ (r : Runtime) where
  open r use {delta_encode}

  -- Reading a block brings in its header and its documents, and leaves the file behind it.
  pub real_read-block :
      (term : ℕ) (docs rest : List ℕ) (f : IFile)
      → IsValid f.chunk
      → f.chunk.size ≡ 0
      → IsRun r term docs
      → Slack r docs
      → f.file.unread ≡ block_bytes r term docs ++ rest
      → (c : Chunk) × (ifile_real_read r f
          ≡ ok (
            done,
            record f {
              file = record f.file { unread = rest };
              h = block_head r term docs;
              chunk = c;
            },
          ))
        × Holds c docs
  unfolding ifile_real_read
  real_read-block term docs rest f v empty run slack e =
      let head = block_head r term docs in
      let bytes = delta_encode docs 0 in
      let after : File = record f.file { unread = bytes ++ rest } in
      let (c, reads, holds) =
        read_block-encode r docs rest after v empty run.some_doc (omega arith) run.doc_words
          run.fits slack refl in
      (
        c,
        rw (
          e,
          append_assoc (head_bytes head) bytes rest,
          take-head_bytes head (bytes ++ rest),
          drop-head_bytes head (bytes ++ rest),
          le→leb 16 _ (length-head_bytes head (bytes ++ rest)),
          head_of-head_bytes head (drop (length (head_bytes head)) (head_bytes f.h)) (omega arith)
              run.term_word (first-IsU32 docs run.doc_words) (omega (arith, run.fits)),
          reads,
        ),
        holds,
      )

  -- Where fewer than 16 bytes are left, there is no block.
  pub real_read-end :
      (f : IFile)
      → length f.file.unread < 16
      → (f' : IFile) × (ifile_real_read r f ≡ ok (failed, f'))
  unfolding ifile_real_read
  real_read-end f short = (
    record f {
      file = record f.file { unread = drop 16 f.file.unread };
      h = head_of (stored (take 16 f.file.unread) (head_bytes f.h));
    },
    rw (leb-false 16 (length f.file.unread) short),
  )
