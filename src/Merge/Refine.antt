-- ===== src/Merge/Refine.antt =====
-- The main loop of `merge` writes the merged tuples of its files.
use csearch.Common.{ℕ, zero, suc, ◌≤◌, ◌≡◌, refl, sym, ap, subst, ◌∙◌, arith, List, [], ◌∷◌, some}
use csearch.Common.{All, length, lt→ltb, ltb-false, ne→==}
use csearch.Common.Outcome.{ok, ◌>>=◌, >>=-assoc, >>=-cong}
use csearch.Runtime.{Runtime}
use csearch.IFile.{Tupe, IFile, ifile_write}
use csearch.IFile.Reader.{Source}
use csearch.IFile.Runs.{write_all}
use csearch.Merge.{Files, merge_round, merge_loop}
use csearch.Merge.Search.{Ascend, insert_file, reinsert-insert_file}
use csearch.Merge.Queues.{
  Queue, place, after, merged, total, HeadsAscend, Sorted, after-Sorted, total-after,
}
use native.Mathlib.Decide.{dec_lt}

module _ (r : Runtime) where
  -- The file stands at the queue's first tuple and will return the others.
  pub record Shows (f : IFile) (q : Queue) : Type 0 where
    pub current : f.tupe ≡ q.head
    pub source : Source r f q.rest

  abbrev pub Show : List IFile → List Queue → Type 0
  Show [] [] = Unit {0}
  Show (f ∷ fs) (q ∷ qs) = Shows f q × Show fs qs
  Show [] (q ∷ qs) = ⊥
  Show (f ∷ fs) [] = ⊥

  doc-head : {f : IFile} {q : Queue} → Shows f q → f.tupe.doc ≡ q.head.doc
  doc-head s = ap (λ t. t.doc) s.current

  All-Show :
      (d : ℕ) (fs : List IFile) (qs : List Queue)
      → Show fs qs
      → All (λ p. d ≤ p.head.doc) qs
      → All (λ g. d ≤ g.tupe.doc) fs
  All-Show d [] [] s h = tt
  All-Show d (f ∷ fs) (q ∷ qs) (s, ss) (h, hs) = (omega (arith, doc-head s), All-Show d fs qs ss hs)
  All-Show d [] (q ∷ qs) s h = absurd s
  All-Show d (f ∷ fs) [] s h = absurd s

  Show-Ascend : (fs : List IFile) (qs : List Queue) → Show fs qs → HeadsAscend qs → Ascend fs
  Show-Ascend [] [] s h = tt
  Show-Ascend (f ∷ fs) (q ∷ qs) (s, ss) (h, hs) = (
    subst (λ (d : ℕ). All (λ g. d ≤ g.tupe.doc) fs) (sym (doc-head s)) (All-Show _ fs qs ss h),
    Show-Ascend fs qs ss hs,
  )
  Show-Ascend [] (q ∷ qs) s h = absurd s
  Show-Ascend (f ∷ fs) [] s h = absurd s

  Show-place :
      (f : IFile) (q : Queue) (fs : List IFile) (qs : List Queue)
      → Shows f q
      → Show fs qs
      → Show (insert_file f fs) (place q qs)
  unfolding insert_file place
  Show-place f q [] [] s ss = (s, tt)
  Show-place f q (g ∷ gs) (p ∷ ps) s (t, ts) = elim (dec_lt p.head.doc q.head.doc) [
    | yes lt ↦
        rw
          (
            lt→ltb p.head.doc q.head.doc lt,
            lt→ltb g.tupe.doc f.tupe.doc (omega (arith, doc-head t, doc-head s)),
          )
          (t, Show-place f q gs ps s ts)
    | no ge ↦
        rw
          (
            ltb-false p.head.doc q.head.doc (omega arith),
            ltb-false g.tupe.doc f.tupe.doc (omega (arith, doc-head t, doc-head s)),
          )
          (s, (t, ts))
  ]
  Show-place f q [] (p ∷ ps) s ss = absurd ss
  Show-place f q (g ∷ gs) [] s ss = absurd ss

  -- What one round does: the tuple is written, and the files show the queues after it.
  round-after :
      (f : IFile) (ts : List Tupe) (fs closed : List IFile) (qs : List Queue) (outs : IFile)
      → Source r f ts
      → Show fs qs
      → HeadsAscend qs
      → (files : Files) × Show files.live (after ts qs)
        × (merge_round r f fs closed outs ≡ (ifile_write r outs f.tupe >>= λ o. ok (files, o)))
  unfolding merge_round after place
  round-after f [] fs closed qs outs (f', e) ss up =
      (record { live = fs; closed = f' ∷ closed }, ss, rw e refl)
  round-after f (t ∷ ts) [] closed [] outs (f', e, cur, src) ss up = (
    record { live = f' ∷ []; closed = closed },
    (record { current = cur; source = src }, tt),
    rw e refl,
  )
  round-after f (t ∷ ts) (g ∷ gs) closed (p ∷ ps) outs (f', e, cur, src) ss up =
      let now =
        Show-place f' (record { head = t; rest = ts }) (g ∷ gs) (p ∷ ps)
          (record { current = cur; source = src }) ss in
      (
        record { live = insert_file f' (g ∷ gs); closed = closed },
        now,
        rw
            (
              e,
              ne→== (suc (length gs)) 0 (omega arith),
              reinsert-insert_file f' (g ∷ gs) (Show-Ascend (g ∷ gs) (p ∷ ps) ss up),
            )
            refl,
      )
  round-after f ts [] closed (p ∷ ps) outs src ss up = absurd ss
  round-after f ts (g ∷ gs) closed [] outs src ss up = absurd ss

  -- With at least as many rounds as there are tuples, the main loop does not run out of rounds, and
  -- does what writing the tuples that the merge of the queues gives does: if each file stands at the
  -- first tuple of its queue and will return the others, the tuples of each queue ascend, and the
  -- files stand in order.
  pub merge_loop-merged :
      (n : ℕ) (live closed : List IFile) (qs : List Queue) (outs : IFile)
      → Show live qs
      → Sorted qs
      → total qs ≤ n
      → merge_loop r n (record { live = live; closed = closed }) outs
        ≡ (write_all r outs (merged n qs) >>= λ o. ok (some o))
  unfolding merge_loop merged write_all total
  merge_loop-merged zero [] closed [] outs s up fuel = refl
  merge_loop-merged zero (f ∷ fs) closed (q ∷ qs) outs s up fuel = absurd (omega arith)
  merge_loop-merged (suc n) [] closed [] outs s up fuel = refl
  merge_loop-merged (suc n) (f ∷ fs) closed (q ∷ qs) outs (s, ss) (heads, each) fuel =
      let (files, now, round) = round-after f q.rest fs closed qs outs s.source ss heads.1 in
      let rec = λ (o : IFile).
        merge_loop-merged n files.live files.closed (after q.rest qs) o now
          (after-Sorted q.head q.rest qs (heads, each)) (omega (arith, total-after q.rest qs)) in
      let next = λ (o : IFile). merge_loop r n files o in
      rw (round, s.current)
        (>>=-assoc (ifile_write r outs q.head) _ _
          ∙ >>=-cong (ifile_write r outs q.head) next _ rec
          ∙ sym (>>=-assoc (ifile_write r outs q.head) _ _))
  merge_loop-merged n [] closed (q ∷ qs) outs s up fuel = absurd s
  merge_loop-merged n (f ∷ fs) closed [] outs s up fuel = absurd s
