-- ===== src/Merge/Search.antt =====
-- The binary search of `merge` finds the place of the first file among the others.
use csearch.Common.{
  ℕ, zero, suc, ◌+◌, ◌-◌, ◌≤◌, ◌<◌, ◌≡◌, refl, ap, subst, arith, List, [], ◌∷◌, ◌++◌,
}
use csearch.Common.{
  Bool, Bool-cases, inl, inr, leb→le, leb→gt, some, length, take, drop, get_elem?, drop-get_elem?,
  All, ltb, leb, if◌then◌else◌, lt→ltb, ltb-false, true, false,
}
use csearch.Common.Outcome.{ok}
use csearch.IFile.{IFile}
use csearch.Merge.{compare_ifile, not_after, probe_at, search_place, reinsert}
use mathlib.Core.Option.{some-injective}
use native.Mathlib.Decide.{dec_lt}

-- The current documents ascend.
abbrev pub Ascend : List IFile → Type 0
Ascend [] = Unit {0}
Ascend (g ∷ gs) = All (λ h. g.tupe.doc ≤ h.tupe.doc) gs × Ascend gs

-- The files in front whose current document is below `d`.
pub rank : ℕ → List IFile → ℕ
rank d [] = 0
rank d (g ∷ gs) = if ltb g.tupe.doc d then suc (rank d gs) else 0

rank-le : (d : ℕ) (gs : List IFile) → rank d gs ≤ length gs
unfolding rank
rank-le d [] = omega arith
rank-le d (g ∷ gs) = ground (arith, rank-le d gs)

All-get_elem? :
    (P : IFile → Type 0) (gs : List IFile) (i : ℕ) {g : IFile}
    → All P gs
    → get_elem? gs i ≡ some g
    → P g
All-get_elem? P [] i h e = cc
All-get_elem? P (x ∷ gs) zero h e = subst P (some-injective x _ e) h.0
All-get_elem? P (x ∷ gs) (suc i) h e = All-get_elem? P gs i h.1 e

-- In ascending order all documents from the rank on are `d` or more, and those before are below it.
below-rank :
    (d : ℕ) (gs : List IFile) (i : ℕ) {g : IFile}
    → get_elem? gs i ≡ some g
    → i < rank d gs
    → g.tupe.doc < d
unfolding rank
below-rank d [] i e h = cc
below-rank d (x ∷ gs) zero {g} e h =
    let same : x.tupe.doc ≡ g.tupe.doc = ap (λ (f : IFile). f.tupe.doc) (some-injective x g e) in
    ground arith
below-rank d (x ∷ gs) (suc i) {g} e h = ground (arith, below-rank d gs i e)

from-rank :
    (d : ℕ) (gs : List IFile) (i : ℕ) {g : IFile}
    → Ascend gs
    → get_elem? gs i ≡ some g
    → rank d gs ≤ i
    → d ≤ g.tupe.doc
unfolding rank
from-rank d [] i up e h = cc
from-rank d (x ∷ gs) zero {g} up e h =
    let same : x.tupe.doc ≡ g.tupe.doc = ap (λ (f : IFile). f.tupe.doc) (some-injective x g e) in
    ground arith
from-rank d (x ∷ gs) (suc i) {g} up e h = elim (dec_lt x.tupe.doc d) [
  | yes lt ↦ from-rank d gs i up.1 e (ground arith)
  | no ge ↦ let le = All-get_elem? (λ h. x.tupe.doc ≤ h.tupe.doc) gs i up.0 e in omega arith
]

not_after-compare : (f g : IFile) → not_after (compare_ifile f g) ≡ leb f.tupe.doc g.tupe.doc
unfolding compare_ifile
not_after-compare f g = ground arith

-- A probe inside the array tells on which side of the rank it is.
probe-rank :
    (f : IFile) (gs : List IFile) (i : ℕ)
    → Ascend gs
    → i < length gs
    → (b : Bool) × (probe_at (f ∷ gs) (suc i) ≡ ok b)
      × (b ≡ true → rank f.tupe.doc gs ≤ i)
      × (b ≡ false → suc i ≤ rank f.tupe.doc gs)
probe-rank f gs i up lt =
    let (g, at, split) = drop-get_elem? gs i lt in
    (
      leb f.tupe.doc g.tupe.doc,
      rw (at, probe_at) (ap ok (not_after-compare f g)),
      (λ before. elim (dec_lt i (rank f.tupe.doc gs)) [
        | yes in_front ↦
            absurd (omega (arith, leb→le _ _ before, below-rank f.tupe.doc gs i at in_front))
        | no rest ↦ omega arith
      ]),
      (λ behind. elim (dec_lt i (rank f.tupe.doc gs)) [
        | yes in_front ↦ in_front
        | no rest ↦
            absurd (omega (arith, leb→gt _ _ behind, from-rank f.tupe.doc gs i up at (omega arith)))
      ]),
    )

search-rank :
    (fuel : ℕ) (f : IFile) (gs : List IFile) (lo hi probe : ℕ)
    → Ascend gs
    → hi ≤ lo + fuel
    → lo ≤ suc (rank f.tupe.doc gs)
    → suc (rank f.tupe.doc gs) ≤ hi
    → hi ≤ suc (length gs)
    → 1 ≤ lo
    → (lo < hi → (lo ≤ probe) × (probe < hi))
    → search_place fuel (f ∷ gs) lo hi probe ≡ ok (suc (rank f.tupe.doc gs))
unfolding search_place
search-rank zero f gs lo hi probe up fuel low high len pos mid = ap ok (omega arith)
search-rank (suc fuel) f gs lo hi zero up fits low high len pos mid = elim (dec_lt lo hi) [
  | no done ↦ rw (ltb-false lo hi (omega arith)) (ap ok (omega arith))
  | yes more ↦ let (l, h) = mid more in absurd (omega arith)
]
search-rank (suc fuel) f gs lo hi (suc i) up fits low high len pos mid = elim (dec_lt lo hi) [
  | no done ↦ rw (ltb-false lo hi (omega arith)) (ap ok (omega arith))
  | yes more ↦
      let (l, h) = mid more in
      let (b, e, before, behind) = probe-rank f gs i up (omega arith) in
      rw (lt→ltb lo hi more, e)
        (elim (Bool-cases b) [
          | inl t ↦ rw t (
              search-rank fuel f gs lo (suc i) _ up (omega arith) low (omega (arith, before t))
                (omega arith) pos (λ m. omega arith))
          | inr n ↦ rw n (
              search-rank fuel f gs (suc i + 1) hi _ up (omega arith) (omega (arith, behind n)) high
                len (omega arith) (λ m. omega arith))
        ])
]

-- The files with `f` in front of the first one whose document is not below its own.
unfoldable pub insert_file : IFile → List IFile → List IFile
insert_file f [] = f ∷ []
insert_file f (g ∷ gs) = if ltb g.tupe.doc f.tupe.doc then g ∷ insert_file f gs else f ∷ g ∷ gs

take-insert_file :
    (f : IFile) (gs : List IFile)
    → take (rank f.tupe.doc gs) gs ++ f ∷ drop (rank f.tupe.doc gs) gs ≡ insert_file f gs
unfolding rank insert_file
take-insert_file f [] = refl
take-insert_file f (g ∷ gs) = elim (dec_lt g.tupe.doc f.tupe.doc) [
  | yes lt ↦ rw (lt→ltb _ _ lt) (ap (λ t. g ∷ t) (take-insert_file f gs))
  | no ge ↦ rw (ltb-false g.tupe.doc f.tupe.doc (omega arith)) refl
]

-- If the other files ascend by document, the binary search and the moves put the first file behind
-- exactly those that stand in front and have a document below its own, as the insertion by a walk
-- does.
pub reinsert-insert_file :
    (f : IFile) (gs : List IFile) → Ascend gs → reinsert f gs ≡ ok (insert_file f gs)
unfolding reinsert
reinsert-insert_file f gs up =
    let minus : suc (rank f.tupe.doc gs) - 1 ≡ rank f.tupe.doc gs = omega arith in
    let place =
      search-rank (length gs) f gs 1 (suc (length gs)) 1 up (omega arith) (omega arith)
        (omega (arith, rank-le f.tupe.doc gs)) (omega arith) (omega arith) (λ m. omega arith) in
    rw (place, minus) (ap ok (take-insert_file f gs))
