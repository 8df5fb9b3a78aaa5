-- ===== src/Tool/Documents.antt =====
-- tool::document and tool::idocument: a document with its terms, and a stream of such documents.
pub mod Faults
use csearch.Common.{
  ℕ, ◌==◌, ◌%◌, ◌^◌, Bool, true, false, List, [], ◌++◌, if◌then◌else◌, length, take, drop,
}
use csearch.Common.Words.{le32}
use csearch.Common.Outcome.{Outcome, ok, ◌>>=◌}
use csearch.Runtime.{Runtime}
use csearch.Stdio.{stored}
use csearch.IFile.{word}
use csearch.Tool.Stream
use csearch.Tool.Stream.{FStream, eof}
use csearch.Tool.Chunks.{compress, read_block}

-- doc_head; `count` is its field `N`.
pub record DocHead : Type 0 where
  pub id : ℕ
  pub count : ℕ
  pub bcount : ℕ

-- tool::document
pub record Document : Type 0 where
  pub h : DocHead
  pub id : ℕ
  pub c : List ℕ

-- The 12 bytes of a doc_head in memory.
unfoldable pub head_bytes : DocHead → List ℕ
head_bytes h = le32 h.id ++ (le32 h.count ++ le32 h.bcount)

unfoldable pub head_of : List ℕ → DocHead
head_of bytes = record {
  id = word bytes;
  count = word (drop 4 bytes);
  bcount = word (drop 8 bytes);
}

-- `document()`
abbrev pub new_document : Document
new_document = record { h = record { id = 0; count = 0; bcount = 0 }; id = 0; c = [] }

-- tool::idocument: a file of documents and the last one that was read.
pub record Idocument : Type 0 where
  pub fs : FStream
  pub doc : Document

unfoldable pub new_idocument : FStream → Idocument
new_idocument fs = record { fs = fs; doc = new_document }

module _ (r : Runtime) where
  unfoldable pub document_write : Document → FStream → Outcome (Document × FStream)
  document_write d fs =
      let written = (do
        (cbuff, bcount) ← compress r d.c
        let h : DocHead = record {
          id = d.id % 2 ^ 32;
          count = length d.c % 2 ^ 32;
          bcount = bcount;
        }
        ok (
          record d { h = h },
          Stream.write (take bcount cbuff) (Stream.write (head_bytes h) fs),
        )) in
      if length d.c == 0 then ok (d, fs) else written

  -- The head is not looked at for a short read.
  unfoldable pub document_read : Document → FStream → Outcome (Bool × Document × FStream)
  document_read d fs =
      let (got, fs1) = Stream.read 12 fs in
      let h = head_of (stored got (head_bytes d.h)) in
      let filled = (do
        (fs2, c) ← read_block r fs1 h.count h.bcount
        ok (true, record { h = h; id = h.id; c = c }, fs2)) in
      if eof fs then ok (false, d, fs) else filled

  -- `idocument::read()`, into its own document
  unfoldable pub idocument_read : Idocument → Outcome (Bool × Idocument)
  idocument_read f = do
    (more, d, fs) ← document_read f.doc f.fs
    ok (more, record { fs = fs; doc = d })

  -- `idocument::read( dd )`
  unfoldable pub idocument_read_other : Idocument → Document → Outcome (Bool × Document × Idocument)
  idocument_read_other f dd = do
    (more, d, fs) ← document_read dd f.fs
    ok (more, d, record f { fs = fs })

  -- `idocument::write`
  unfoldable pub idocument_write : Idocument → Document → Outcome (Idocument × Document)
  idocument_write f dd = do (d, fs) ← document_write dd f.fs; ok (record f { fs = fs }, d)
