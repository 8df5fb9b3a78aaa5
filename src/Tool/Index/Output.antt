-- ===== src/Tool/Index/Output.antt =====
-- What a sequence of writes and a flush leave in the stream.
use csearch.Common.{◌≡◌, ◌≢◌, refl, sym, ap, subst, ◌∙◌, arith}
use csearch.Common.{List, [], ◌∷◌, ◌++◌, append-nil, All, ne→==}
use csearch.Common.Outcome.{ok}
use csearch.Runtime.{Runtime}
use csearch.IFile.{Tupe}
use csearch.Tool.Stream.{FStream}
use csearch.Tool.Index.{Ifile, new_ifile}
use csearch.Tool.Index.Blocks.{Block, cut, tuples_of, tuples_of-cut, IsBlock, cut-IsBlock}
use csearch.Tool.Index.Blocks.{block_bytes, file_bytes, Fits}
use csearch.Tool.Index.Save.{save, save-cut}

module _ (r : Runtime) where
  -- A new `ifile` to which tuples are written, and which is then flushed, puts blocks into its
  -- stream, if the compressed documents of each need at most four bytes each: these hold the tuples,
  -- in order and under their terms, and each has from one to ten documents.
  pub save-blocks :
      (fs : FStream) (ts : List Tupe)
      → let blocks = cut 0 0 [] ts in
        All (Fits r) blocks
        → (f : Ifile) × (save r (new_ifile fs) ts ≡ ok f)
          × (f.fs.written ≡ fs.written ++ file_bytes r blocks)
          × (tuples_of blocks ≡ ts)
          × All IsBlock blocks
  unfolding new_ifile
  save-blocks fs ts fits =
      let s =
        save-cut r ts (new_ifile fs) fs.written 0 0 []
          (record {
            held_is = refl;
            out_is = refl;
            term_is = λ h. absurd (omega arith);
            doc_is = λ h. absurd (omega arith);
            room = omega arith;
          })
          fits in
      (s.end, s.saved, s.out_is, tuples_of-cut ts 0 0 [], cut-IsBlock ts 0 0 [] (omega arith))

  -- Two tuples of different terms, each of whose documents compresses to four bytes or fewer, are
  -- written and flushed as two blocks of which the second has the document of the first tuple in its
  -- head.
  pub second_head :
      (fs : FStream) (t u : Tupe)
      → u.term ≢ t.term
      → let b : Block = record { term = t.term; doc = t.doc; docs = t.doc ∷ [] } in
        let c : Block = record { term = u.term; doc = t.doc; docs = u.doc ∷ [] } in
        Fits r b
        → Fits r c
        → (f : Ifile) × (save r (new_ifile fs) (t ∷ u ∷ []) ≡ ok f)
          × (f.fs.written ≡ fs.written ++ (block_bytes r b ++ block_bytes r c))
  unfolding cut
  second_head fs t u new fit_t fit_u =
      let b : Block = record { term = t.term; doc = t.doc; docs = t.doc ∷ [] } in
      let c : Block = record { term = u.term; doc = t.doc; docs = u.doc ∷ [] } in
      let two : cut 0 0 [] (t ∷ u ∷ []) ≡ b ∷ c ∷ [] = rw (ne→== u.term t.term new) refl in
      let (f, s, w, _, _) =
        save-blocks fs (t ∷ u ∷ []) (subst (All (Fits r)) (sym two) (fit_t, (fit_u, tt))) in
      (
        f,
        s,
        w
            ∙ ap (λ bs. fs.written ++ file_bytes r bs) two
            ∙ ap (λ l. fs.written ++ (block_bytes r b ++ l)) (append-nil (block_bytes r c)),
      )
