-- ===== src/IFile/Runs.antt =====
-- Sequences of `ifile_write` with tuples of one term.
use csearch.Common.{ℕ, ◌+◌, ◌<◌, ◌≡◌, ◌≢◌, refl, sym, ap, subst, ◌∙◌, arith, if◌then◌else◌}
use csearch.Common.{
  List, [], ◌∷◌, ◌++◌, length, ◌==◌, eq→==, ne→==, append-nil, append_assoc, length-append,
}
use native.Mathlib.Decide.{ℕ_discrete}
use csearch.Common.Outcome.{Outcome, ok, ◌>>=◌}
use csearch.Runtime.{Runtime}
use csearch.Chunk.{Chunk}
use csearch.Chunk.Laws.{IsValid, contents, length-contents, push-ok}
use csearch.IFile.{Tupe, IFile, write_out, start_block, ifile_write}
use csearch.IFile.Blocks.{Block, tuples, file_bytes, AllRuns, first, block_bytes, IsRun}
use csearch.IFile.Writer.{Pending, wrote, wrote-Pending, write_out_lem, start_lem}

-- A run of documents cut into blocks of 256, with `held` in front: the blocks that are full, and the
-- rest.
unfoldable pub full_blocks : ℕ → List ℕ → List ℕ → List Block
full_blocks term held [] = []
full_blocks term held (d ∷ ds) =
    let all = held ++ d ∷ [] in
    let more = full_blocks term [] ds in
    let less = full_blocks term all ds in
    if length held + 1 == 256 then record { term = term; docs = all } ∷ more else less

unfoldable pub left_over : List ℕ → List ℕ → List ℕ
left_over held [] = held
left_over held (d ∷ ds) =
    let more = left_over [] ds in
    let less = left_over (held ++ d ∷ []) ds in if length held + 1 == 256 then more else less

pub below_256 :
    (term : ℕ) (ds held : List ℕ)
    → length held + length ds < 256
    → (full_blocks term held ds ≡ []) × (left_over held ds ≡ held ++ ds)
unfolding full_blocks left_over
below_256 term [] held h = (refl, sym (append-nil held))
below_256 term (d ∷ ds) held h =
    let (a, b) = below_256 term ds (held ++ d ∷ []) (omega (arith, length-append held (d ∷ []))) in
    rw (ne→== (length held + 1) 256 (omega arith)) (a, b ∙ append_assoc held (d ∷ []) ds)

module _ (r : Runtime) where
  -- A caller's loop over `ifile_write`, such as those of `test2` and `merge`.
  unfoldable pub write_all : IFile → List Tupe → Outcome IFile
  write_all f [] = ok f
  write_all f (t ∷ ts) = do f' ← ifile_write r f t; write_all f' ts

  -- The state in front of the test for a full chunk, after a write of the header's term.
  record Pushed (f : IFile) (out : List ℕ) (term : ℕ) (docs : List ℕ) (d : ℕ) : Type 0 where
    chunk : Chunk
    valid : IsValid chunk
    held : contents chunk ≡ docs ++ d ∷ []
    size_is : chunk.size ≡ length docs + 1
    start : IFile
    file_is : start.file.written ≡ out
    term_is : start.h.term ≡ term
    doc_is : start.h.doc ≡ first (docs ++ d ∷ [])
    goes_on : ifile_write r f (record { term = term; doc = d }) ≡ (
        if chunk.size == 256
        then write_out r (record start { chunk = chunk })
        else ok (record start { chunk = chunk }))

  pushed :
      (f : IFile) (d : ℕ) {out : List ℕ} {term : ℕ} {docs : List ℕ}
      → Pending f out term docs
      → Pushed f out term docs d
  unfolding ifile_write
  pushed f d {term} p =
      let t : Tupe = record { term = term; doc = d } in
      let f1 = start_block f t in
      let (te, de, ce, fe) = start_lem r f d p in
      let v : IsValid f1.chunk = subst IsValid (sym ce) p.valid in
      let held = ap contents ce ∙ p.held in
      let (c, e, v', cap, size, all) = push-ok r d v (omega (arith, p.room, ap (λ c. c.size) ce)) in
      record {
        chunk = c;
        valid = v';
        held = all ∙ ap (λ docs. docs ++ d ∷ []) held;
        size_is = size ∙ ap (λ n. n + 1) (sym (length-contents v) ∙ ap length held);
        start = f1;
        file_is = ap (λ file. file.written) fe ∙ p.file_is;
        term_is = te;
        doc_is = de;
        goes_on = rw (eq→== term f1.h.term (sym te), e);
      }

  write_below :
      (f : IFile) (d : ℕ) {out : List ℕ} {term : ℕ} {docs : List ℕ}
      → Pending f out term docs
      → length docs + 1 ≢ 256
      → (f' : IFile) × (ifile_write r f (record { term = term; doc = d }) ≡ ok f')
        × Pending f' out term (docs ++ d ∷ [])
  write_below f d {out} {term} {docs} p ne =
      let q = pushed f d p in
      (
        record q.start { chunk = q.chunk },
        q.goes_on ∙ rw (ne→== q.chunk.size 256 (omega (arith, q.size_is, ne))),
        record {
          valid = q.valid;
          room = omega (arith, q.size_is, p.room, ne, length-contents p.valid, ap length p.held);
          held = q.held;
          file_is = q.file_is;
          term_is = λ h. q.term_is;
          doc_is = λ h. q.doc_is;
        },
      )

  write_full :
      (f : IFile) (d : ℕ) {out : List ℕ} {term : ℕ} {docs : List ℕ}
      → Pending f out term docs
      → length docs + 1 ≡ 256
      → IsRun r term (docs ++ d ∷ [])
      → (f' : IFile) × (ifile_write r f (record { term = term; doc = d }) ≡ ok f')
        × Pending f' (out ++ block_bytes r term (docs ++ d ∷ [])) term []
  write_full f d {out} {term} {docs} p e run =
      let q = pushed f d p in
      let g : IFile = record q.start { chunk = q.chunk } in
      let run' = subst (λ t. IsRun r t (docs ++ d ∷ [])) (sym q.term_is) run in
      (
        wrote r g (docs ++ d ∷ []),
        q.goes_on
            ∙ rw (eq→== q.chunk.size 256 (omega (arith, q.size_is)))
                (write_out_lem r g (docs ++ d ∷ []) q.valid q.held run'),
        wrote-Pending r g out term term (docs ++ d ∷ []) q.valid q.file_is q.term_is q.doc_is,
      )

  -- Writing a run puts its full blocks into the file and keeps the rest in the chunk.
  pub write_all-run :
      (ds : List ℕ) (f : IFile) {out : List ℕ} {term : ℕ} {held : List ℕ}
      → Pending f out term held
      → AllRuns r (full_blocks term held ds)
      → (f' : IFile) × (write_all f (tuples term ds) ≡ ok f')
        × Pending f' (out ++ file_bytes r (full_blocks term held ds)) term (left_over held ds)
  unfolding write_all full_blocks left_over
  write_all-run [] f {out} p runs = (f, refl, rw (append-nil out) p)
  write_all-run (d ∷ ds) f {out} {term} {held} p runs = elim (ℕ_discrete (length held + 1) 256) [
    | yes e ↦
        let (run, runs') = rw (eq→== (length held + 1) 256 e) at runs in
        let (f1, w1, p1) = write_full f d p e run in
        let (f2, w2, p2) = write_all-run ds f1 p1 runs' in
        (
          f2,
          rw w1 w2,
          rw
              (
                eq→== (length held + 1) 256 e,
                ← append_assoc out (block_bytes r term (held ++ d ∷ []))
                    (file_bytes r (full_blocks term [] ds)),
              )
              p2,
        )
    | no ne ↦
        let runs' = rw (ne→== (length held + 1) 256 ne) at runs in
        let (f1, w1, p1) = write_below f d p ne in
        let (f2, w2, p2) = write_all-run ds f1 p1 runs' in
        (f2, rw w1 w2, rw (ne→== (length held + 1) 256 ne) p2)
  ]
