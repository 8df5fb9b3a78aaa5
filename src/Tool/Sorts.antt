-- ===== src/Tool/Sorts.antt =====
-- `merge` of merge.cc and `dsort` of dsort.cc, which share their main loop.
pub mod Place
mod Tests
use csearch.Common.{ℕ, zero, suc, ◌+◌, ◌-◌, ◌/◌, ◌%◌, ◌^◌, Bool, List, [], ◌∷◌, ◌++◌, none, some}
use csearch.Common.{◌==◌, ltb, leb, if◌then◌else◌, length, take, drop, get_elem?}
use csearch.Common.Outcome.{Outcome, ok, fault, heap_overflow, bad_entry, out_of_fuel, ◌>>=◌}
use csearch.Runtime.{Runtime}
use csearch.IFile.{Tupe}
use csearch.Merge.{remove_first}
use csearch.Tool.Documents.{Idocument, idocument_read}
use csearch.Tool.Index
use csearch.Tool.Index.{Ifile}

-- The array of pointers: a file is `F`, which has a current document and can be read.
module _ {F : Type 0} (doc : F → ℕ) where
  -- `files[0]->t.doc <= files[probe]->t.doc`, with the first file and the others
  abbrev pub goes_before : F → List F → ℕ → Outcome Bool
  goes_before f fs probe = elim (get_elem? (f ∷ fs) probe) [
    | none ↦ fault heap_overflow
    | some g ↦ ok (leb (doc f) (doc g))
  ]

  -- The binary search: the final `lo`. The fuel is the first distance of `lo` and `hi`.
  unfoldable pub find_place : ℕ → F → List F → ℕ → ℕ → ℕ → Outcome ℕ
  find_place zero f fs lo hi probe = ok lo
  find_place (suc fuel) f fs lo hi probe =
      let round = (do
        before ← goes_before f fs probe
        let lo' : ℕ = if before then lo else probe + 1
        let hi' : ℕ = if before then probe else hi
        find_place fuel f fs lo' hi' ((lo' + hi') / 2)) in
      if ltb lo hi then round else ok lo

  -- The first file moves behind `count_of_smaller_lines` others.
  unfoldable pub move_first : F → List F → Outcome (List F)
  move_first f fs = do
    lo ← find_place (length fs) f fs 1 (suc (length fs)) 1
    let count = lo - 1
    ok (take count fs ++ f ∷ drop count fs)

module _ {F : Type 0} (doc : F → ℕ) (read : F → Outcome (Bool × F)) where
  -- The next tuple of the first file, and the array after it; a file at its end is closed.
  unfoldable pub advance_first : F → List F → Outcome (List F)
  advance_first f fs = do
    (more, f') ← read f
    let moved = move_first doc f' fs
    if more then (if length fs == 0 then ok (f' ∷ []) else moved) else ok fs

  -- The loop that reads the first tuple of each file. For a file without one `memmove` gets the count
  -- `nfiles-k-1*sizeof(ifile*)`, as in tool.c.
  unfoldable pub read_first : List F → Outcome (List F)
  read_first [] = ok []
  read_first (f ∷ fs) = do
    (more, f') ← read f
    let others = (do fs' ← read_first fs; ok (f' ∷ fs'))
    let torn = remove_first (suc (length fs))
    if more then others else torn

  -- `while( nfiles )`, with a bound on the rounds. `use_first` is what a round does with the first
  -- file before it reads on.
  unfoldable pub main_loop : {S : Type 0} → (F → S → Outcome S) → ℕ → List F → S → Outcome S
  main_loop use_first fuel [] s = ok s
  main_loop use_first zero (f ∷ fs) s = fault out_of_fuel
  main_loop use_first (suc fuel) (f ∷ fs) s = do
    s' ← use_first f s
    files ← advance_first f fs
    main_loop use_first fuel files s'

-- The map of dsort: the documents of each term. The element type of the vectors is uint32_t.
abbrev pub TermMap : Type 0
TermMap = ℕ → List ℕ

-- `for( auto term : f->doc.c ) map[ term ].push_back( f->doc.id )`
unfoldable pub push_ids : ℕ → List ℕ → TermMap → TermMap
push_ids id [] map = map
push_ids id (term ∷ terms) map =
    push_ids id terms (λ key. if key == term then map key ++ (id % 2 ^ 32) ∷ [] else map key)

module _ (r : Runtime) where
  -- `files[k]->read( tt )`, with tt as `into`; merge does not look at it.
  abbrev pub read_tupe : Tupe → Ifile → Outcome (Bool × Ifile)
  read_tupe into f = do (more, _, f') ← Index.read r f into; ok (more, f')

  -- `sort` is std::sort of the pointers by the terms of their files. `fuel` bounds the rounds.
  unfoldable pub merge : (List Ifile → List Ifile) → ℕ → Tupe → List Ifile → Ifile → Outcome Ifile
  merge sort fuel into files outs = do
    files' ← read_first (λ f. f.t.doc) (read_tupe into) files
    outs' ←
        main_loop (λ f. f.t.doc) (read_tupe into) (λ f o. Index.write r o f.t) fuel (sort files')
          outs
    Index.flush r outs'

  -- `sort` is std::sort of the pointers by the documents. `limit` is not used.
  unfoldable pub dsort :
      (List Idocument → List Idocument) → ℕ → List Idocument → ℕ → Ifile → Outcome Ifile
  dsort sort fuel files limit outs = do
    files' ← read_first (λ f. f.doc.id) (idocument_read r) files
    map ←
        main_loop (λ f. f.doc.id) (idocument_read r)
          (λ f (m : TermMap). ok (push_ids f.doc.id f.doc.c m)) fuel (sort files') (λ key. [])
    Index.flush r outs
