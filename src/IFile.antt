-- ===== src/IFile.antt =====
-- ifile_t of tool.c: an index file of (term, doc) tuples, written and read in
-- compressed blocks, each behind a chunk_head_t.
pub mod Blocks
pub mod Writer
pub mod Reader
pub mod Runs
pub mod RoundTrip
pub mod NewTerm
mod Tests
use csearch.Common.{ℕ, ◌+◌, ◌%◌, ◌^◌, Bool, List, [], ◌∷◌, ◌++◌, Option, none, some}
use csearch.Common.{◌==◌, if◌then◌else◌, take, drop}
use csearch.Common.Words.{le32, of_le32}
use csearch.Common.Outcome.{Outcome, ok, ◌>>=◌}
use csearch.Runtime.{Runtime}
use csearch.Stdio.{File, fread, fwrite, stored}
use csearch.Chunk
use csearch.Chunk.{
  Chunk, chunk_size, chunk_reset, chunk_push, chunk_get, chunk_compress, read_block,
}

-- tupe_t
pub record Tupe : Type 0 where
  pub term : ℕ
  pub doc : ℕ

-- chunk_head_t; `count` is its field `N`.
pub record ChunkHead : Type 0 where
  pub count : ℕ
  pub term : ℕ
  pub doc : ℕ
  pub bcount : ℕ

-- ifile_t; `file` is its field `in`.
pub record IFile : Type 0 where
  pub file : File
  pub tupe : Tupe
  pub h : ChunkHead
  pub chunk : Chunk
  pub roff : ℕ

-- What a C function returns as 0 and -1.
pub data Status : Type 0 where
  done failed : Status

-- The 16 bytes of a chunk_head_t in memory.
unfoldable pub head_bytes : ChunkHead → List ℕ
head_bytes h = le32 h.count ++ (le32 h.term ++ (le32 h.doc ++ le32 h.bcount))

abbrev pub word : List ℕ → ℕ
word (a ∷ b ∷ c ∷ d ∷ rest) = of_le32 a b c d
word _ = 0

unfoldable pub head_of : List ℕ → ChunkHead
head_of bytes = record {
  count = word bytes;
  term = word (drop 4 bytes);
  doc = word (drop 8 bytes);
  bcount = word (drop 12 bytes);
}

abbrev pub zero_head : ChunkHead
zero_head = record { count = 0; term = 0; doc = 0; bcount = 0 }

-- `ifile_init`, and the assignment of an open FILE that follows it.
unfoldable pub ifile_init : File → IFile
ifile_init file = record {
  file = file;
  tupe = record { term = 0; doc = 0 };
  h = zero_head;
  chunk = Chunk.empty;
  roff = 0;
}

-- The last branch of `ifile_read`: the first tuple of the block that was just read.
abbrev pub after_real_read : Status → IFile → Status × IFile
after_real_read failed f = (failed, f)
after_real_read done f = (
  done,
  record f { tupe = record { term = f.h.term; doc = f.h.doc }; roff = (f.roff + 1) % 2 ^ 32 },
)

-- "Is our buffer empty?"
abbrev pub start_block : IFile → Tupe → IFile
start_block f t =
    if chunk_size f.chunk == 0
    then record f { h = record f.h { term = t.term; doc = t.doc } }
    else f

module _ (r : Runtime) where
  unfoldable pub ifile_real_read : IFile → Outcome (Status × IFile)
  ifile_real_read f =
      let (got, whole, file) = fread 16 f.file in
      let h = head_of (stored got (head_bytes f.h)) in
      if whole
      then (do
        (file', chunk) ← read_block r file h.count h.bcount f.chunk
        ok (done, record f { file = file'; h = h; chunk = chunk }))
      else ok (failed, record f { file = file; h = h })

  unfoldable pub ifile_real_write : IFile → Outcome IFile
  ifile_real_write f = do
    (cbuff, bcount) ← chunk_compress r f.chunk
    let h : ChunkHead = record {
      count = chunk_size f.chunk;
      term = f.h.term;
      doc = f.h.doc;
      bcount = bcount;
    }
    ok (record f { file = fwrite (take bcount cbuff) (fwrite (head_bytes h) f.file) })

  -- The tuple read is the `tupe` of the new state.
  unfoldable pub ifile_read : IFile → Outcome (Status × IFile)
  ifile_read f = do
    got ← chunk_get r f.chunk f.roff
    elim got [
      | some (doc, roff) ↦
          ok (done, record f { tupe = record { term = f.tupe.term; doc = doc }; roff = roff })
      | none ↦ (do (s, f') ← ifile_real_read f; ok (after_real_read s f'))
    ]

  -- `ifile_real_write( file ); chunk_reset( &file->chunk );`
  unfoldable pub write_out : IFile → Outcome IFile
  write_out f = do f' ← ifile_real_write f; ok (record f' { chunk = chunk_reset f'.chunk })

  unfoldable pub ifile_write : IFile → Tupe → Outcome IFile
  ifile_write f t = do
    let f1 = start_block f t
    f2 ← (if t.term == f1.h.term then ok f1 else write_out f1)
    (full, chunk) ← chunk_push r f2.chunk t.doc
    let f3 : IFile = record f2 { chunk = chunk }
    if full then write_out f3 else ok f3

  unfoldable pub ifile_flush : IFile → Outcome IFile
  ifile_flush f = do
    f' ← ifile_real_write f
    ok (record f' { chunk = record f'.chunk { size = 0 } })
