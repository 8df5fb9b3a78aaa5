-- ===== src/Tool/Faults.antt =====
-- What merge and dsort do with files that hold something.
use csearch.Common.{ℕ, ◌≡◌, refl, sym, ap, subst, ◌∙◌, arith}
use csearch.Common.{false, List, [], ◌∷◌, ◌++◌, append_assoc, length, All, eq→==, ne→==}
use native.Mathlib.Decide.{ℕ_discrete}
use csearch.Common.Outcome.{ok, fault, heap_overflow}
use csearch.Common.Words.{IsU32}
use csearch.Runtime.{Runtime, stream_vbyte}
use csearch.IFile.{Tupe, ChunkHead, head_bytes}
use csearch.Tool.Stream.{FStream}
use csearch.Tool.Index.{Ifile, new_ifile, capacity}
use csearch.Tool.Index.Blocks.{Block, cut, file_bytes, Fits, IsBlock, cut-IsBlock}
use csearch.Tool.Index.Save.{save}
use csearch.Tool.Index.Output.{save-blocks}
use csearch.Tool.Index.Reader.{InFront, read-faults}
use csearch.Tool.Sorts.{merge, read_first}

-- A first block keeps the head it was begun under.
first_block :
    (ts : List Tupe) (term doc d : ℕ) (docs : List ℕ)
    → (all : List ℕ) × (bs : List Block) × (cut term doc (d ∷ docs) ts
        ≡ record { term = term; doc = doc; docs = all } ∷ bs)
unfolding cut
first_block [] term doc d docs = (d ∷ docs, [], refl)
first_block (t ∷ ts) term doc d docs =
    let all = (d ∷ docs) ++ t.doc ∷ [] in
    elim (ℕ_discrete t.term term) [
      | yes same ↦ elim (ℕ_discrete (length all) capacity) [
        | yes full ↦ (
          all,
          cut term doc [] ts,
          rw (eq→== t.term term same, eq→== (length all) capacity full) refl,
        )
        | no room ↦
            let (whole, bs, e) = first_block ts term doc d (docs ++ t.doc ∷ []) in
            (whole, bs, rw (eq→== t.term term same, ne→== (length all) capacity room) e)
      ]
      | no new ↦ (d ∷ docs, cut t.term doc (t.doc ∷ []) ts, rw (ne→== t.term term new) refl)
    ]

module _ (junk : ℕ) where
  abbrev r : Runtime
  r = stream_vbyte junk

  open r use {delta_encode}

  -- What a new writer has saved, of a first tuple and more, puts a reader in front of a block.
  saved-InFront :
      (t : Tupe) (ts : List Tupe)
      → IsU32 t.term
      → IsU32 t.doc
      → All (Fits r) (cut 0 0 [] (t ∷ ts))
      → (h : ChunkHead) × InFront junk h
          (record { unread = file_bytes r (cut 0 0 [] (t ∷ ts)); written = []; at_end = false })
  unfolding cut
  saved-InFront t ts term_word doc_word fits =
      let (docs, bs, e) = first_block ts t.term t.doc t.doc [] in
      let ((some_doc, few), _) =
        subst (All IsBlock) e (cut-IsBlock ts t.term t.doc (t.doc ∷ []) (omega arith)) in
      let (fit, _) = subst (All (Fits r)) e fits in
      let bytes = delta_encode docs 0 in
      let h : ChunkHead = record {
        count = length docs;
        term = t.term;
        doc = t.doc;
        bcount = length bytes;
      } in
      (
        h,
        record {
          rest = bytes ++ file_bytes r bs;
          unread_is = ap (file_bytes r) e ∙ append_assoc (head_bytes h) bytes (file_bytes r bs);
          not_ended = refl;
          some_doc = some_doc;
          few = omega arith;
          words = (term_word, doc_word, omega arith);
        },
      )

  pub merge-faults :
      (f : Ifile) {h : ChunkHead} (fs : List Ifile) (outs : Ifile) (sort : List Ifile → List Ifile)
      (fuel : ℕ) (into : Tupe)
      → f.it ≡ length f.c
      → InFront junk h f.fs
      → merge r sort fuel into (f ∷ fs) outs ≡ fault heap_overflow
  unfolding merge read_first
  merge-faults f fs outs sort fuel into drained at = rw (read-faults junk f into drained at) refl

  -- A new ifile that is given one tuple or more, with a uint32 first term and document and whose
  -- blocks need at most four bytes a document, and then flushed, succeeds; but `merge` of files of
  -- which the first is a new ifile on what was written is undefined behaviour, whatever the others
  -- are.
  pub save-merge :
      (t : Tupe) (ts : List Tupe) (fs : List Ifile) (outs : Ifile) (sort : List Ifile → List Ifile)
      (fuel : ℕ) (into : Tupe)
      → IsU32 t.term
      → IsU32 t.doc
      → All (Fits r) (cut 0 0 [] (t ∷ ts))
      → let empty : FStream = record { unread = []; written = []; at_end = false } in
        (f : Ifile) × (save r (new_ifile empty) (t ∷ ts) ≡ ok f)
        × (merge r sort fuel into (new_ifile (record empty { unread = f.fs.written }) ∷ fs) outs
            ≡ fault heap_overflow)
  unfolding new_ifile
  save-merge t ts fs outs sort fuel into term_word doc_word fits =
      let empty : FStream = record { unread = []; written = []; at_end = false } in
      let (f, saved, out, _, _) = save-blocks r empty (t ∷ ts) fits in
      let (h, at) = saved-InFront t ts term_word doc_word fits in
      let at' : InFront junk h (record empty { unread = f.fs.written }) =
        subst (λ l. InFront junk h (record empty { unread = l })) (sym out) at in
      (
        f,
        saved,
        merge-faults (new_ifile (record empty { unread = f.fs.written })) fs outs sort fuel into
            refl at',
      )
