-- ===== src/Tool/Sorts/Place.antt =====
-- The binary search that merge.cc and dsort.cc share.
use csearch.Common.{ℕ, zero, suc, ◌+◌, ◌-◌, ◌≤◌, ◌<◌, ◌≡◌, refl, ap, subst, arith}
use csearch.Common.{
  Bool, Bool-cases, inl, inr, true, false, List, [], ◌∷◌, ◌++◌, some, All, length, take, drop,
  get_elem?,
}
use csearch.Common.{drop-get_elem?, ltb, leb, leb→le, leb→gt, lt→ltb, ltb-false, if◌then◌else◌}
use csearch.Common.Outcome.{ok}
use csearch.Tool.Sorts.{goes_before, find_place, move_first}
use mathlib.Core.Option.{some-injective}
use native.Mathlib.Decide.{dec_lt}

module _ {F : Type 0} (doc : F → ℕ) where
  -- The documents ascend.
  abbrev pub Ascend : List F → Type 0
  Ascend [] = Unit {0}
  Ascend (g ∷ gs) = All (λ h. doc g ≤ doc h) gs × Ascend gs

  -- The first file behind those whose document is below its own, by a walk.
  unfoldable pub insert : F → List F → List F
  insert f [] = f ∷ []
  insert f (g ∷ gs) = if ltb (doc g) (doc f) then g ∷ insert f gs else f ∷ g ∷ gs

  -- How many files the walk passes.
  unfoldable smaller : ℕ → List F → ℕ
  smaller d [] = 0
  smaller d (g ∷ gs) = if ltb (doc g) d then suc (smaller d gs) else 0

  smaller-le : (d : ℕ) (gs : List F) → smaller d gs ≤ length gs
  unfolding smaller
  smaller-le d [] = omega arith
  smaller-le d (g ∷ gs) = ground (arith, smaller-le d gs)

  All-at :
      (d : ℕ) (gs : List F) (i : ℕ) {g : F}
      → All (λ h. d ≤ doc h) gs
      → get_elem? gs i ≡ some g
      → d ≤ doc g
  All-at d [] i h e = cc
  All-at d (x ∷ gs) zero {g} h e = subst (λ y. d ≤ doc y) (some-injective x g e) h.0
  All-at d (x ∷ gs) (suc i) h e = All-at d gs i h.1 e

  -- Exactly the documents in front of that many are below.
  in_front :
      (d : ℕ) (gs : List F) (i : ℕ) {g : F} → get_elem? gs i ≡ some g → i < smaller d gs → doc g < d
  unfolding smaller
  in_front d [] i e h = cc
  in_front d (x ∷ gs) zero {g} e h =
      let same : doc x ≡ doc g = ap doc (some-injective x g e) in ground arith
  in_front d (x ∷ gs) (suc i) e h = ground (arith, in_front d gs i e)

  not_in_front :
      (d : ℕ) (gs : List F) (i : ℕ) {g : F}
      → Ascend gs
      → get_elem? gs i ≡ some g
      → smaller d gs ≤ i
      → d ≤ doc g
  unfolding smaller
  not_in_front d [] i up e h = cc
  not_in_front d (x ∷ gs) zero {g} up e h =
      let same : doc x ≡ doc g = ap doc (some-injective x g e) in ground arith
  not_in_front d (x ∷ gs) (suc i) up e h = elim (dec_lt (doc x) d) [
    | yes lt ↦ not_in_front d gs i up.1 e (ground arith)
    | no ge ↦ let le = All-at (doc x) gs i up.0 e in omega arith
  ]

  -- What a probe says of the place.
  record Probed (f : F) (gs : List F) (i : ℕ) (before : Bool) : Type 0 where
    probed : goes_before doc f gs (suc i) ≡ ok before
    if_before : before ≡ true → smaller (doc f) gs ≤ i
    if_behind : before ≡ false → suc i ≤ smaller (doc f) gs

  probe-Probed :
      (f : F) (gs : List F) (i : ℕ)
      → Ascend gs
      → i < length gs
      → (before : Bool) × Probed f gs i before
  probe-Probed f gs i up lt =
      let (g, at, split) = drop-get_elem? gs i lt in
      let place = smaller (doc f) gs in
      (
        leb (doc f) (doc g),
        record {
          probed = rw (goes_before, at) refl;
          if_before = λ before. elim (dec_lt i place) [
            | yes less ↦ absurd (omega (arith, leb→le _ _ before, in_front (doc f) gs i at less))
            | no rest ↦ omega arith
          ];
          if_behind = λ behind. elim (dec_lt i place) [
            | yes less ↦ less
            | no rest ↦
                absurd
                  (omega (arith, leb→gt _ _ behind, not_in_front (doc f) gs i up at (omega arith)))
          ];
        },
      )

  finds :
      (fuel : ℕ) (f : F) (gs : List F) (lo hi probe : ℕ)
      → Ascend gs
      → hi ≤ lo + fuel
      → lo ≤ suc (smaller (doc f) gs)
      → suc (smaller (doc f) gs) ≤ hi
      → hi ≤ suc (length gs)
      → 1 ≤ lo
      → (lo < hi → (lo ≤ probe) × (probe < hi))
      → find_place doc fuel f gs lo hi probe ≡ ok (suc (smaller (doc f) gs))
  unfolding find_place
  finds zero f gs lo hi probe up fuel low high len pos mid = ap ok (omega arith)
  finds (suc fuel) f gs lo hi zero up fits low high len pos mid = elim (dec_lt lo hi) [
    | no over ↦ rw (ltb-false lo hi (omega arith)) (ap ok (omega arith))
    | yes more ↦ let (l, h) = mid more in absurd (omega arith)
  ]
  finds (suc fuel) f gs lo hi (suc i) up fits low high len pos mid = elim (dec_lt lo hi) [
    | no over ↦ rw (ltb-false lo hi (omega arith)) (ap ok (omega arith))
    | yes more ↦
        let (l, h) = mid more in
        let (before, p) = probe-Probed f gs i up (omega arith) in
        rw (lt→ltb lo hi more, p.probed)
          (elim (Bool-cases before) [
            | inl t ↦ rw t (
                finds fuel f gs lo (suc i) _ up (omega arith) low (omega (arith, p.if_before t))
                  (omega arith) pos (λ m. omega arith))
            | inr n ↦ rw n (
                finds fuel f gs (suc i + 1) hi _ up (omega arith) (omega (arith, p.if_behind n))
                  high len (omega arith) (λ m. omega arith))
          ])
  ]

  take-insert :
      (f : F) (gs : List F)
      → take (smaller (doc f) gs) gs ++ f ∷ drop (smaller (doc f) gs) gs ≡ insert f gs
  unfolding smaller insert
  take-insert f [] = refl
  take-insert f (g ∷ gs) = elim (dec_lt (doc g) (doc f)) [
    | yes lt ↦ rw (lt→ltb _ _ lt) (ap (λ t. g ∷ t) (take-insert f gs))
    | no ge ↦ rw (ltb-false (doc g) (doc f) (omega arith)) refl
  ]

  -- If the other files ascend by document, the binary search and the moves put the first file
  -- behind exactly those that stand in front and have a document below its own, as the insertion
  -- by a walk does.
  pub move_first-insert : (f : F) (gs : List F) → Ascend gs → move_first doc f gs ≡ ok (insert f gs)
  unfolding move_first
  move_first-insert f gs up =
      let minus : suc (smaller (doc f) gs) - 1 ≡ smaller (doc f) gs = omega arith in
      let place =
        finds (length gs) f gs 1 (suc (length gs)) 1 up (omega arith) (omega arith)
          (omega (arith, smaller-le (doc f) gs)) (omega arith) (omega arith) (λ m. omega arith) in
      rw (place, minus) (ap ok (take-insert f gs))
