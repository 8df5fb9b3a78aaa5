-- ===== src/Tool/Index/Save.antt =====
-- A sequence of calls of `ifile::write` and a flush: the blocks in the stream.
use csearch.Common.{ℕ, ◌<◌, ◌≡◌, ◌≢◌, refl, sym, ap, subst, ◌∙◌, arith}
use csearch.Common.{
  List, [], ◌∷◌, ◌++◌, append-nil, append_assoc, length, length-append, All, eq→==, ne→==,
}
use native.Mathlib.Decide.{ℕ_discrete}
use csearch.Common.Outcome.{Outcome, ok, ◌>>=◌}
use csearch.Runtime.{Runtime}
use csearch.IFile.{Tupe}
use csearch.Tool.Index.{Ifile, capacity, clear, real_write, flush, write}
use csearch.Tool.Index.Blocks.{Block, rest, cut}
use csearch.Tool.Index.Blocks.{block_bytes, file_bytes, Fits}
use csearch.Tool.Index.Writer.{
  Pending, held_block, wrote, real_write_lem, wrote_out, write_empty, write_same, write_new,
}

block_is :
    (f : Ifile) {out : List ℕ} {term doc : ℕ} {held : List ℕ}
    → Pending f out term doc held
    → 0 < length held
    → held_block f ≡ record { term = term; doc = doc; docs = held }
block_is f p some_doc =
    λ i. record { term = p.term_is some_doc i; doc = p.doc_is some_doc i; docs = p.held_is i }

module _ (r : Runtime) where
  -- A caller's loop over `write`, such as that of `test` in tool.cc, with the flush behind it.
  unfoldable pub save : Ifile → List Tupe → Outcome Ifile
  save f [] = flush r f
  save f (t ∷ ts) = do f' ← write r f t; save f' ts

  -- What `save` does with the tuples that are still to be written.
  pub record Saved (f : Ifile) (out : List ℕ) (blocks : List Block) (ts : List Tupe) : Type 0 where
    pub end : Ifile
    pub saved : save f ts ≡ ok end
    pub out_is : end.fs.written ≡ out ++ file_bytes r blocks
    pub emptied : end.c ≡ []

  then_block :
      {f f1 : Ifile} {t : Tupe} {ts : List Tupe} {out : List ℕ} {b : Block} {bs : List Block}
      → write r f t ≡ ok f1
      → Saved f1 (out ++ block_bytes r b) bs ts
      → Saved f out (b ∷ bs) (t ∷ ts)
  unfolding save
  then_block {out = out} {b = b} {bs = bs} e s = record {
    end = s.end;
    saved = rw e s.saved;
    out_is = s.out_is ∙ append_assoc out (block_bytes r b) (file_bytes r bs);
    emptied = s.emptied;
  }

  then_held :
      {f f1 : Ifile} {t : Tupe} {ts : List Tupe} {out : List ℕ} {bs : List Block}
      → write r f t ≡ ok f1
      → Saved f1 out bs ts
      → Saved f out bs (t ∷ ts)
  unfolding save
  then_held e s = record {
    end = s.end;
    saved = rw e s.saved;
    out_is = s.out_is;
    emptied = s.emptied;
  }

  save-nothing :
      (f : Ifile) {out : List ℕ} {term doc : ℕ} (held : List ℕ)
      → Pending f out term doc held
      → All (Fits r) (rest term doc held)
      → Saved f out (rest term doc held) []
  unfolding save flush real_write
  save-nothing f {out} [] p fits = record {
    end = clear f;
    saved = rw (p.held_is) refl;
    out_is = p.out_is ∙ sym (append-nil out);
    emptied = refl;
  }
  save-nothing f {out} {term} {doc} (d ∷ docs) p (fits, _) =
      let done =
        real_write_lem r f (omega (arith, ap length p.held_is))
          (omega (arith, ap length p.held_is, p.room))
          (subst (Fits r) (sym (block_is f p (omega arith))) fits) in
      let b : Block = record { term = term; doc = doc; docs = d ∷ docs } in
      record {
        end = clear (wrote r f);
        saved = ap (λ o. o >>= λ f'. ok (clear f')) done;
        out_is =
            wrote_out r f p.out_is p.held_is (p.term_is (omega arith)) (p.doc_is (omega arith))
            ∙ ap (λ l. out ++ l) (sym (append-nil (block_bytes r b)));
        emptied = refl;
      }

  -- A tuple of the same term fills the block, or is held back with the others.
  abbrev pub GoesOn : List Tupe → Type 0
  GoesOn ts =
      (f : Ifile) (out : List ℕ) (term doc : ℕ) (held : List ℕ)
      → Pending f out term doc held
      → All (Fits r) (cut term doc held ts)
      → Saved f out (cut term doc held ts) ts

  save-full :
      (f : Ifile) (t : Tupe) (ts : List Tupe) {out : List ℕ} {term doc : ℕ} {held : List ℕ}
      → Pending f out term doc held
      → 0 < length held
      → t.term ≡ term
      → let b : Block = record { term = term; doc = doc; docs = held ++ t.doc ∷ [] } in
        length b.docs ≡ capacity
        → Fits r b
        → All (Fits r) (cut term doc [] ts)
        → GoesOn ts
        → Saved f out (b ∷ cut term doc [] ts) (t ∷ ts)
  save-full f t ts {out} {term} {doc} {held} p pos same full fit fits go =
      let te = p.term_is pos in
      let de = p.doc_is pos in
      let g : Ifile = record f { c = f.c ++ t.doc ∷ [] } in
      let gc : g.c ≡ held ++ t.doc ∷ [] = ap (λ l. l ++ t.doc ∷ []) p.held_is in
      let b : Block = record { term = term; doc = doc; docs = held ++ t.doc ∷ [] } in
      let is_b : held_block g ≡ b = λ i. record { term = te i; doc = de i; docs = gc i } in
      let len : length g.c ≡ capacity = ap length gc ∙ full in
      let done = real_write_lem r g (omega arith) (omega arith) (subst (Fits r) (sym is_b) fit) in
      then_block
        (write_same r f t (omega (arith, ap length p.held_is)) te same
          ∙ rw (eq→== (length g.c) capacity len, done) refl)
        (go (clear (wrote r g)) (out ++ block_bytes r b) term doc []
          (record {
            held_is = refl;
            out_is = wrote_out r g p.out_is gc te de;
            term_is = λ h. te;
            doc_is = λ h. de;
            room = omega arith;
          })
          fits)

  save-more :
      (f : Ifile) (t : Tupe) (ts : List Tupe) {out : List ℕ} {term doc : ℕ} {held : List ℕ}
      → Pending f out term doc held
      → 0 < length held
      → t.term ≡ term
      → let all = held ++ t.doc ∷ [] in
        length all ≢ capacity
        → All (Fits r) (cut term doc all ts)
        → GoesOn ts
        → Saved f out (cut term doc all ts) (t ∷ ts)
  save-more f t ts {out} {term} {doc} {held} p pos same room fits go =
      let te = p.term_is pos in
      let de = p.doc_is pos in
      let all = held ++ t.doc ∷ [] in
      let g : Ifile = record f { c = f.c ++ t.doc ∷ [] } in
      let gc : g.c ≡ all = ap (λ l. l ++ t.doc ∷ []) p.held_is in
      then_held
        (write_same r f t (omega (arith, ap length p.held_is)) te same
          ∙ rw (ne→== (length g.c) capacity (omega (arith, ap length gc))) refl)
        (go g out term doc all
          (record {
            held_is = gc;
            out_is = p.out_is;
            term_is = λ h. te;
            doc_is = λ h. de;
            room = omega (arith, p.room, length-append held (t.doc ∷ []));
          })
          fits)

  -- Another term ends the block; the document of the head is kept.
  save-new :
      (f : Ifile) (t : Tupe) (ts : List Tupe) {out : List ℕ} {term doc : ℕ} {held : List ℕ}
      → Pending f out term doc held
      → 0 < length held
      → t.term ≢ term
      → let b : Block = record { term = term; doc = doc; docs = held } in
        Fits r b
        → All (Fits r) (cut t.term doc (t.doc ∷ []) ts)
        → GoesOn ts
        → Saved f out (b ∷ cut t.term doc (t.doc ∷ []) ts) (t ∷ ts)
  save-new f t ts {out} {term} {doc} {held} p pos new fit fits go =
      let te = p.term_is pos in
      let de = p.doc_is pos in
      let b : Block = record { term = term; doc = doc; docs = held } in
      then_block
        (write_new r f t (omega (arith, ap length p.held_is)) (λ e. new (e ∙ te))
          (omega (arith, ap length p.held_is, p.room))
          (subst (Fits r) (sym (block_is f p pos)) fit))
        (go (record (wrote r f) { h = record (wrote r f).h { term = t.term }; c = t.doc ∷ [] })
          (out ++ block_bytes r b) t.term doc (t.doc ∷ [])
          (record {
            held_is = refl;
            out_is = wrote_out r f p.out_is p.held_is te de;
            term_is = λ h. refl;
            doc_is = λ h. de;
            room = omega arith;
          })
          fits)

  pub save-cut : (ts : List Tupe) → GoesOn ts
  unfolding cut
  save-cut [] f out term doc [] p fits = save-nothing f [] p fits
  save-cut [] f out term doc (d ∷ docs) p fits = save-nothing f (d ∷ docs) p fits
  save-cut (t ∷ ts) f out term doc [] p fits =
      let (f1, w, p1) = write_empty r f t p in
      then_held w (save-cut ts f1 out t.term t.doc (t.doc ∷ []) p1 fits)
  save-cut (t ∷ ts) f out term doc (d ∷ docs) p fits =
      let all = (d ∷ docs) ++ t.doc ∷ [] in
      let pos : 0 < length (d ∷ docs) = omega arith in
      elim (ℕ_discrete t.term term) [
        | yes same ↦ elim (ℕ_discrete (length all) capacity) [
          | yes full ↦
              let (fit, fits') =
                rw (eq→== t.term term same, eq→== (length all) capacity full) at fits in
              rw (eq→== t.term term same, eq→== (length all) capacity full)
                (save-full f t ts p pos same full fit fits' (save-cut ts))
          | no room ↦
              let fits' = rw (eq→== t.term term same, ne→== (length all) capacity room) at fits in
              rw (eq→== t.term term same, ne→== (length all) capacity room)
                (save-more f t ts p pos same room fits' (save-cut ts))
        ]
        | no new ↦
            let (fit, fits') = rw (ne→== t.term term new) at fits in
            rw (ne→== t.term term new) (save-new f t ts p pos new fit fits' (save-cut ts))
      ]
