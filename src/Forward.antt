-- ===== src/Forward.antt =====
-- forward_t and iforward_t of tool.c: a document with its list of terms, and the file
-- of such documents.
pub mod Terms
pub mod RoundTrip
mod Tests
use csearch.Common.{ℕ, List, [], ◌∷◌, ◌++◌, if◌then◌else◌, take, drop}
use csearch.Common.Words.{le32}
use csearch.Common.Outcome.{Outcome, ok, ◌>>=◌}
use csearch.Runtime.{Runtime}
use csearch.Stdio.{File, fread, fwrite, stored}
use csearch.Chunk
use csearch.Chunk.{Chunk, chunk_size, chunk_push, chunk_compress, read_block}
use csearch.IFile.{Status, done, failed, word}

-- forward_head_t; `count` is its field `N`.
pub record ForwardHead : Type 0 where
  pub count : ℕ
  pub bcount : ℕ
  pub id : ℕ

-- forward_t
pub record Forward : Type 0 where
  pub h : ForwardHead
  pub chunk : Chunk

-- iforward_t is a FILE, its field `in`.

-- `forward_t doc = {{0},{0}}`
abbrev pub zero_forward : Forward
zero_forward = record { h = record { count = 0; bcount = 0; id = 0 }; chunk = Chunk.empty }

-- The 12 bytes of a forward_head_t in memory.
unfoldable pub head_bytes : ForwardHead → List ℕ
head_bytes h = le32 h.count ++ (le32 h.bcount ++ le32 h.id)

unfoldable pub head_of : List ℕ → ForwardHead
head_of bytes = record {
  count = word bytes;
  bcount = word (drop 4 bytes);
  id = word (drop 8 bytes);
}

unfoldable pub forward_set_id : Forward → ℕ → Forward
forward_set_id f id = record f { h = record f.h { id = id } }

module _ (r : Runtime) where
  -- The result of `chunk_push` is dropped.
  unfoldable pub forward_push_term : Forward → ℕ → Outcome Forward
  forward_push_term f term = do
    (full, chunk) ← chunk_push r f.chunk term
    ok (record f { chunk = chunk })

  unfoldable pub iforward_read : File → Forward → Outcome (Status × File × Forward)
  iforward_read file f =
      let (got, whole, file') = fread 12 file in
      let h = head_of (stored got (head_bytes f.h)) in
      if whole
      then (do
        (file'', chunk) ← read_block r file' h.count h.bcount f.chunk
        ok (done, file'', record { h = h; chunk = chunk }))
      else ok (failed, file', record f { h = h })

  unfoldable pub iforward_write : File → Forward → Outcome (File × Forward)
  iforward_write file f = do
    (cbuff, bcount) ← chunk_compress r f.chunk
    let h : ForwardHead = record { count = chunk_size f.chunk; bcount = bcount; id = f.h.id }
    ok (fwrite (take bcount cbuff) (fwrite (head_bytes h) file), record f { h = h })
