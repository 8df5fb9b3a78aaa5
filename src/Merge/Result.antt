-- ===== src/Merge/Result.antt =====
-- `merge` as a whole, from its files to the tuples that it writes.
use csearch.Common.{
  ℕ, zero, suc, ◌+◌, ◌-◌, ◌*◌, ◌%◌, ◌^◌, ◌<◌, ◌≡◌, refl, sym, ap, ◌∙◌, arith, List, [], ◌∷◌, ◌++◌,
}
use csearch.Common.{some, length, leb, leb-false, false}
use csearch.Common.Outcome.{
  Outcome, ok, fault, heap_overflow, bad_entry, check, ◌>>◌, ◌>>=◌, >>=-assoc, >>=-cong,
}
use csearch.Runtime.{Runtime}
use csearch.IFile.{Tupe, IFile, ifile_write, ifile_flush}
use csearch.IFile.Reader.{Source}
use csearch.IFile.Runs.{write_all}
use csearch.Merge.{merge, merge_loop, merge_round, read_first, sort_files, remove_first}
use csearch.Merge.Queues.{Queue}
use csearch.Merge.Refine.{Show}

-- Below eight pointers the count of the `memmove` wraps around, to more than there are behind.
remove_first-wraps :
    {F : Type 0} (n : ℕ) → n < 7 → remove_first {F = F} (suc n) ≡ fault heap_overflow
unfolding remove_first
remove_first-wraps n few =
    let count = (suc n + (2 ^ 64 - 1 * 8)) % 2 ^ 64 in
    let behind = (suc n - 1) * 8 in
    let beyond : leb count behind ≡ false = leb-false count behind (omega arith) in
    ap (λ b. check b heap_overflow >> fault bad_entry) beyond

module _ (r : Runtime) where
  -- Each file returns the tuples of its queue from the first one on.
  abbrev pub Sources : List IFile → List Queue → Type 0
  Sources [] [] = Unit {0}
  Sources (f ∷ fs) (q ∷ qs) = Source r f (q.head ∷ q.rest) × Sources fs qs
  Sources [] (q ∷ qs) = ⊥
  Sources (f ∷ fs) [] = ⊥

  read_first-Show :
      (fs : List IFile) (qs : List Queue)
      → Sources fs qs
      → (live : List IFile) × (read_first r fs ≡ ok live)
        × (length live ≡ length fs)
        × Show r live qs
  unfolding read_first
  read_first-Show [] [] s = ([], refl, refl, tt)
  read_first-Show (f ∷ fs) (q ∷ qs) ((f', e, cur, src), ss) =
      let (live, es, len, now) = read_first-Show fs qs ss in
      (f' ∷ live, rw (e, es) refl, ap suc len, (record { current = cur; source = src }, now))
  read_first-Show [] (q ∷ qs) s = absurd s
  read_first-Show (f ∷ fs) [] s = absurd s

  loop_none :
      (n : ℕ) (closed : List IFile) (outs : IFile)
      → merge_loop r n (record { live = []; closed = closed }) outs ≡ ok (some outs)
  unfolding merge_loop
  loop_none zero closed outs = refl
  loop_none (suc n) closed outs = refl

  -- One file: the loop writes what the file returns.
  loop_one :
      (fuel : ℕ) (f : IFile) (ts : List Tupe) (closed : List IFile) (outs : IFile)
      → Source r f ts
      → length ts < fuel
      → merge_loop r fuel (record { live = f ∷ []; closed = closed }) outs
        ≡ (write_all r outs (f.tupe ∷ ts) >>= λ o. ok (some o))
  unfolding merge_loop merge_round write_all
  loop_one zero f ts closed outs s enough = absurd (omega arith)
  loop_one (suc n) f [] closed outs (f', e) enough =
      let next = λ (o : IFile). merge_loop r n (record { live = []; closed = f' ∷ closed }) o in
      rw e (
        >>=-assoc (ifile_write r outs f.tupe) _ _
        ∙ >>=-cong (ifile_write r outs f.tupe) next _ (loop_none n (f' ∷ closed))
        ∙ sym (>>=-assoc (ifile_write r outs f.tupe) _ _))
  loop_one (suc n) f (t ∷ ts) closed outs (f', e, cur, s) enough =
      let next = λ (o : IFile). merge_loop r n (record { live = f' ∷ []; closed = closed }) o in
      let rec = λ (o : IFile). loop_one n f' ts closed o s (omega arith) in
      rw (e, sym cur)
        (>>=-assoc (ifile_write r outs f.tupe) _ _
          ∙ >>=-cong (ifile_write r outs f.tupe) next _ rec
          ∙ sym (>>=-assoc (ifile_write r outs f.tupe) _ _))

  -- `merge` of one file, which returns one tuple or more, in any order, writes these tuples as they
  -- are and flushes, if there are as many rounds as tuples, or more, and `qsort` leaves an array of one
  -- element as it is.
  pub merge-one_file :
      (sort_words : ℕ → IFile → Outcome IFile) (f outs : IFile) (t : Tupe) (ts : List Tupe)
      (fuel : ℕ)
      → ((g : IFile) → sort_words 1 g ≡ ok g)
      → Source r f (t ∷ ts)
      → length ts < fuel
      → merge r sort_words fuel (f ∷ []) outs
        ≡ (write_all r outs (t ∷ ts) >>= λ o. ifile_flush r o >>= λ o'. ok (some o'))
  unfolding merge read_first sort_files
  merge-one_file sort_words f outs t ts fuel one (f', e, cur, s) enough =
      rw (e, one f', loop_one fuel f' ts [] outs s enough, cur)
        (>>=-assoc (write_all r outs (t ∷ ts)) _ _)

  read_first-empty :
      (fs rest : List IFile) (f : IFile) (qs : List Queue)
      → Sources fs qs
      → Source r f []
      → length rest < 7
      → read_first r (fs ++ f ∷ rest) ≡ fault heap_overflow
  unfolding read_first
  read_first-empty [] rest f [] s (f', e) few = rw (e, remove_first-wraps (length rest) few) refl
  read_first-empty (g ∷ gs) rest f (q ∷ qs) ((g', eg, cur, src), ss) eof few =
      rw (eg, read_first-empty gs rest f qs ss eof few) refl
  read_first-empty [] rest f (q ∷ qs) s eof few = absurd s
  read_first-empty (g ∷ gs) rest f [] s eof few = absurd s

  -- A file without a tuple, with fewer than seven others behind it and only files with tuples in
  -- front, makes the first loop move memory behind the array of files.
  pub merge-empty_file :
      (sort_words : ℕ → IFile → Outcome IFile) (files rest : List IFile) (f : IFile)
      (qs : List Queue) (outs : IFile) (fuel : ℕ)
      → Sources files qs
      → Source r f []
      → length rest < 7
      → merge r sort_words fuel (files ++ f ∷ rest) outs ≡ fault heap_overflow
  unfolding merge
  merge-empty_file sort_words files rest f qs outs fuel s eof few =
      rw (read_first-empty files rest f qs s eof few) refl
