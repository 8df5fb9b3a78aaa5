-- ===== src/Merge.antt =====
-- `merge` of tool.c: several index files into one, by the document of each file's current tuple.
pub mod Search
pub mod Queues
pub mod Refine
pub mod Order
pub mod Result
mod Tests
use csearch.Common.{
  ℕ, zero, suc, ◌+◌, ◌-◌, ◌*◌, ◌/◌, ◌%◌, ◌^◌, ◌<◌, ◌≡◌, List, [], ◌∷◌, ◌++◌, Option, none, some,
  Bool, true, false,
}
use csearch.Common.{ltb, leb, ◌==◌, if◌then◌else◌, length, take, drop, get_elem?}
use csearch.Common.Outcome.{Outcome, ok, fault, heap_overflow, bad_entry, check, ◌>>=◌, ◌>>◌}
use csearch.Runtime.{Runtime}
use csearch.IFile.{Tupe, IFile, Status, done, failed, ifile_read, ifile_write, ifile_flush}

-- What `compare_ifile` returns as -1, 0 and 1.
pub data Cmp : Type 0 where
  less equal greater : Cmp

unfoldable pub compare_ifile : IFile → IFile → Cmp
compare_ifile a b =
    if ltb a.tupe.doc b.tupe.doc then less else if ltb b.tupe.doc a.tupe.doc then greater else equal

-- `cmp < 0 || cmp == 0`
abbrev pub not_after : Cmp → Bool
not_after greater = false
not_after _ = true

-- `compare_ifile( files[0], files[probe] )`; a probe behind the array is a fault.
abbrev pub probe_at : List IFile → ℕ → Outcome Bool
probe_at [] probe = fault heap_overflow
probe_at (f ∷ fs) probe = elim (get_elem? (f ∷ fs) probe) [
  | none ↦ fault heap_overflow
  | some g ↦ ok (not_after (compare_ifile f g))
]

-- The binary search loop: the final `lo`. Every round brings `lo` and `hi` closer, and the fuel is
-- their first distance.
unfoldable pub search_place : ℕ → List IFile → ℕ → ℕ → ℕ → Outcome ℕ
search_place zero files lo hi probe = ok lo
search_place (suc fuel) files lo hi probe =
    let round = (do
      before ← probe_at files probe
      let lo' : ℕ = if before then lo else probe + 1
      let hi' : ℕ = if before then probe else hi
      search_place fuel files lo' hi' ((lo' + hi') / 2)) in
    if ltb lo hi then round else ok lo

-- The first file moves behind the `count_of_smaller_lines` files that follow it.
unfoldable pub reinsert : IFile → List IFile → Outcome (List IFile)
reinsert f fs = do
  lo ← search_place (length fs) (f ∷ fs) 1 (suc (length fs)) 1
  let count = lo - 1
  ok (take count fs ++ f ∷ drop count fs)

-- The array of file pointers: the first `nfiles` entries, and the files closed behind them.
pub record Files : Type 0 where
  pub live : List IFile
  pub closed : List IFile

module _ (r : Runtime) where
  -- One round of the main loop, with the first file and the others.
  unfoldable pub merge_round : IFile → List IFile → List IFile → IFile → Outcome (Files × IFile)
  merge_round f fs closed outs = do
    outs' ← ifile_write r outs f.tupe
    (s, f') ← ifile_read r f
    elim s [
      | failed ↦ ok (record { live = fs; closed = f' ∷ closed }, outs')
      | done ↦
          if length fs == 0
          then ok (record { live = f' ∷ []; closed = closed }, outs')
          else (do live ← reinsert f' fs; ok (record { live = live; closed = closed }, outs'))
    ]

  -- `while( nfiles )`, with a bound on the rounds; `none` if it is used up.
  unfoldable pub merge_loop : ℕ → Files → IFile → Outcome (Option IFile)
  merge_loop zero files outs = elim files.live [ [] ↦ ok (some outs) | f ∷ fs ↦ ok none ]
  merge_loop (suc fuel) files outs = elim files.live [
    | [] ↦ ok (some outs)
    | f ∷ fs ↦ (do
      (files', outs') ← merge_round f fs files.closed outs
      merge_loop fuel files' outs')
  ]

-- `memmove( &files[k], &files[k+1], nfiles-k-1*sizeof(ifile_t*) )` with `remaining = nfiles-k`, a
-- size_t: it may move the `remaining - 1` pointers behind the first. A count that stays within them
-- is too small, so that the array keeps the closed file, a torn pointer or one file twice; the
-- model follows it no further.
unfoldable pub remove_first : {F : Type 0} → ℕ → Outcome (List F)
remove_first remaining = do
  let count = (remaining + (2 ^ 64 - 1 * 8)) % 2 ^ 64
  check (leb count ((remaining - 1) * 8)) heap_overflow
  fault bad_entry

module _ (r : Runtime) where
  -- The loop that reads the first tuple of each file.
  unfoldable pub read_first : List IFile → Outcome (List IFile)
  read_first [] = ok []
  read_first (f ∷ fs) = do
    (s, f') ← ifile_read r f
    elim s [
      | failed ↦ remove_first (suc (length fs))
      | done ↦ (do fs' ← read_first fs; ok (f' ∷ fs'))
    ]

-- `qsort( *files, nfiles, sizeof(ifile_t *), compare_ifile )`. The array it gets is the first
-- `ifile_t`, not the array of pointers: `sort_words n f` is what it makes of the first `n` words
-- of that struct.
unfoldable pub sort_files : (ℕ → IFile → Outcome IFile) → List IFile → Outcome (List IFile)
sort_files sort_words [] = ok []
sort_files sort_words (f ∷ fs) = do f' ← sort_words (suc (length fs)) f; ok (f' ∷ fs)

module _ (r : Runtime) (sort_words : ℕ → IFile → Outcome IFile) where
  -- `merge`, with a bound on the rounds of its main loop; `none` if it is used up.
  unfoldable pub merge : ℕ → List IFile → IFile → Outcome (Option IFile)
  merge fuel files outs = do
    read ← read_first r files
    live ← sort_files sort_words read
    end ← merge_loop r fuel (record { live = live; closed = [] }) outs
    elim end [ none ↦ ok none | some o ↦ (do o' ← ifile_flush r o; ok (some o')) ]
