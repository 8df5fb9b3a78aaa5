-- ===== src/IFile/Writer.antt =====
-- `ifile_write` and `ifile_flush`: what reaches the file, and what waits in the chunk.
use csearch.Common.{ℕ, suc, ◌%◌, ◌^◌, ◌<◌, ◌≡◌, refl, sym, ap, ◌∙◌, arith}
use csearch.Common.{List, [], ◌∷◌, ◌++◌, length, eq→==, ne→==, append_assoc, take_all}
use csearch.Common.{ltb-false}
use csearch.Common.Outcome.{ok, fault, assert_failed}
use csearch.Runtime.{Runtime}
use csearch.Chunk.{chunk_reset, chunk_compress}
use csearch.Chunk.Laws.{IsValid, contents, length-contents}
use csearch.Chunk.Codec.{compress-ok}
use csearch.IFile.{IFile, head_bytes, ifile_real_write, write_out, start_block, ifile_flush}
use csearch.IFile.Blocks.{first, block_head, block_bytes, IsRun}

-- A writer that has put `out` into its file and holds `docs` back, for a block under `term`.
pub record Pending (f : IFile) (out : List ℕ) (term : ℕ) (docs : List ℕ) : Type 0 where
  pub valid : IsValid f.chunk
  pub room : f.chunk.size < 256
  pub held : contents f.chunk ≡ docs
  pub file_is : f.file.written ≡ out
  pub term_is : 0 < length docs → f.h.term ≡ term
  pub doc_is : 0 < length docs → f.h.doc ≡ first docs

module _ (r : Runtime) where
  open r use {delta_encode}

  -- The block of the header's term, its first document and what the chunk holds.
  pub real_write_lem :
      (f : IFile) (docs : List ℕ)
      → IsValid f.chunk
      → contents f.chunk ≡ docs
      → IsRun r f.h.term docs
      → ifile_real_write r f
        ≡ ok (record f {
          file = record f.file {
            written =
                f.file.written
                ++ (head_bytes (record (block_head r f.h.term docs) { doc = f.h.doc })
                    ++ delta_encode docs 0);
          };
        })
  unfolding ifile_real_write
  real_write_lem f docs v held run =
      let bytes = delta_encode docs 0 in
      let size : f.chunk.size ≡ length docs = sym (length-contents v) ∙ ap length held in
      let small : length bytes % 2 ^ 32 ≡ length bytes = omega (arith, run.fits) in
      let done = compress-ok r v (omega arith) (rw held (omega (arith, run.fits))) in
      rw (done, held, small, take_all (length bytes) bytes (omega arith), size, append_assoc)

  -- The state after a block was written out: the chunk is empty, and the header is as it was.
  abbrev pub wrote : IFile → List ℕ → IFile
  wrote f docs = record f {
    file = record f.file {
      written =
          f.file.written
          ++ (head_bytes (record (block_head r f.h.term docs) { doc = f.h.doc })
              ++ delta_encode docs 0);
    };
    chunk = record f.chunk { size = 0 };
  }

  pub write_out_lem :
      (f : IFile) (docs : List ℕ)
      → IsValid f.chunk
      → contents f.chunk ≡ docs
      → IsRun r f.h.term docs
      → write_out r f ≡ ok (wrote f docs)
  unfolding write_out chunk_reset
  write_out_lem f docs v held run = rw (real_write_lem f docs v held run)

  -- `ifile_flush` writes the block out and empties the chunk.
  pub flush_lem :
      (f : IFile) (docs : List ℕ)
      → IsValid f.chunk
      → contents f.chunk ≡ docs
      → IsRun r f.h.term docs
      → ifile_flush r f ≡ ok (wrote f docs)
  unfolding ifile_flush
  flush_lem f docs v held run = rw (real_write_lem f docs v held run)

  -- On an empty chunk the assertion of `chunk_compress` fails.
  pub flush-empty : (f : IFile) → f.chunk.size ≡ 0 → ifile_flush r f ≡ fault assert_failed
  unfolding ifile_flush ifile_real_write chunk_compress
  flush-empty f e = rw (ltb-false 0 f.chunk.size (omega arith))

  -- What was written out is a block of the run, if the header belongs to the run.
  pub wrote-Pending :
      (f : IFile) (out : List ℕ) (term term' : ℕ) (docs : List ℕ)
      → IsValid f.chunk
      → f.file.written ≡ out
      → f.h.term ≡ term
      → f.h.doc ≡ first docs
      → Pending (wrote f docs) (out ++ block_bytes r term docs) term' []
  wrote-Pending f out term term' docs v file term_eq doc_eq = record {
    valid = omega arith;
    room = omega arith;
    held = refl;
    file_is = rw (file, term_eq, doc_eq);
    term_is = λ h. absurd (omega arith);
    doc_is = λ h. absurd (omega arith);
  }

  -- The state that `ifile_write` pushes to: the header of a new block is set.
  pub start_lem :
      (f : IFile) {out : List ℕ} {term : ℕ} {docs : List ℕ} (d : ℕ)
      → Pending f out term docs
      → let f1 = start_block f (record { term = term; doc = d }) in
        (f1.h.term ≡ term)
        × (f1.h.doc ≡ first (docs ++ d ∷ []))
        × (f1.chunk ≡ f.chunk)
        × (f1.file ≡ f.file)
  start_lem f {docs = []} d p =
      let size : f.chunk.size ≡ 0 = sym (length-contents p.valid) ∙ ap length p.held in
      rw (eq→== f.chunk.size 0 size) (refl, refl, refl, refl)
  start_lem f {docs = x ∷ docs} d p =
      let size : f.chunk.size ≡ suc (length docs) =
        sym (length-contents p.valid) ∙ ap length p.held in
      rw (ne→== f.chunk.size 0 (omega arith))
        (p.term_is (omega arith), p.doc_is (omega arith), refl, refl)
