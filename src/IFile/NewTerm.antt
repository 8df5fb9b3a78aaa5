-- ===== src/IFile/NewTerm.antt =====
-- `ifile_write` with a tuple of another term than that of the documents in the chunk.
use csearch.Common.{ℕ, ◌≡◌, ◌≢◌, sym, ap, subst, ◌∙◌, arith}
use csearch.Common.{List, [], ◌∷◌, ◌++◌, length, ne→==, append_assoc}
use csearch.Common.Outcome.{ok, ◌>>=◌}
use csearch.Runtime.{Runtime}
use csearch.Chunk.Laws.{IsValid, contents, length-contents, push-ok}
use csearch.IFile.{Tupe, IFile, head_bytes, ifile_write, ifile_flush}
use csearch.IFile.Blocks.{block_head, block_bytes, first, IsRun}
use csearch.IFile.Writer.{Pending, wrote, wrote-Pending, write_out_lem, flush_lem}

module _ (r : Runtime) where
  open r use {delta_encode}

  -- The documents held back become a block of their term. The new document goes into the empty
  -- chunk, and the header keeps the old term and the old first document.
  pub write-new_term :
      (f : IFile) (t : Tupe) {out : List ℕ} {term : ℕ} {docs : List ℕ}
      → Pending f out term docs
      → IsRun r term docs
      → t.term ≢ term
      → (f' : IFile) × (ifile_write r f t ≡ ok f')
        × IsValid f'.chunk
        × (contents f'.chunk ≡ t.doc ∷ [])
        × (f'.file.written ≡ out ++ block_bytes r term docs)
        × (f'.h.term ≡ term)
        × (f'.h.doc ≡ first docs)
  unfolding ifile_write
  write-new_term f t {out} {term} {docs} p run ne =
      let size : f.chunk.size ≡ length docs = sym (length-contents p.valid) ∙ ap length p.held in
      let te = p.term_is run.some_doc in
      let run' = subst (λ x. IsRun r x docs) (sym te) run in
      let q = wrote-Pending r f out term t.term docs p.valid p.file_is te (p.doc_is run.some_doc) in
      let (c, e, v, cap, size', held) = push-ok r t.doc q.valid q.room in
      (
        record (wrote r f docs) { chunk = c },
        rw (
          ne→== f.chunk.size 0 (omega (arith, run.some_doc)),
          ne→== t.term f.h.term (λ x. ne (x ∙ te)),
          write_out_lem r f docs p.valid p.held run',
          e,
          ne→== c.size 256 (omega arith),
        ),
        v,
        held,
        q.file_is,
        te,
        p.doc_is run.some_doc,
      )

  -- If the chunk holds a run under a term, a tuple of another term is written, and the file is
  -- flushed, then the file gets the block of the run and a block of the new document alone, whose
  -- header has the old term and the run's first document. Both blocks need at most four bytes a
  -- document.
  pub flush-new_term :
      (f : IFile) (t : Tupe) {out : List ℕ} {term : ℕ} {docs : List ℕ}
      → Pending f out term docs
      → IsRun r term docs
      → IsRun r term (t.doc ∷ [])
      → t.term ≢ term
      → (f' : IFile) × ((ifile_write r f t >>= ifile_flush r) ≡ ok f')
        × (f'.file.written
            ≡ out
              ++ (block_bytes r term docs
                  ++ (head_bytes (record (block_head r term (t.doc ∷ [])) { doc = first docs })
                      ++ delta_encode (t.doc ∷ []) 0)))
  flush-new_term f t {out} {term} {docs} p run run' ne =
      let (g, e, v, held, file, te, de) = write-new_term f t p run ne in
      let last = subst (λ x. IsRun r x (t.doc ∷ [])) (sym te) run' in
      (
        wrote r g (t.doc ∷ []),
        rw e (flush_lem r g (t.doc ∷ []) v held last),
        rw (file, te, de, append_assoc out (block_bytes r term docs)),
      )
