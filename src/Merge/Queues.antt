-- ===== src/Merge/Queues.antt =====
-- What a merge does with the tuples alone: the queue with the smallest first tuple stands in front.
use csearch.Common.{
  ℕ, ◌≡◌, refl, arith, ltb-false, lt→ltb, zero, suc, ◌+◌, ◌≤◌, List, [], ◌∷◌, All, ltb,
  if◌then◌else◌, length,
}
use csearch.IFile.{Tupe}
use native.Mathlib.Decide.{dec_lt}

-- The tuples that a file has left: the current one, and those that it will return.
pub record Queue : Type 0 where
  pub head : Tupe
  pub rest : List Tupe

unfoldable pub place : Queue → List Queue → List Queue
place q [] = q ∷ []
place q (p ∷ ps) = if ltb p.head.doc q.head.doc then p ∷ place q ps else q ∷ p ∷ ps

-- The queues after the first tuple of the first was taken; `rest` is what follows it.
unfoldable pub after : List Tupe → List Queue → List Queue
after [] qs = qs
after (t ∷ ts) qs = place (record { head = t; rest = ts }) qs

unfoldable pub merged : ℕ → List Queue → List Tupe
merged zero qs = []
merged (suc n) [] = []
merged (suc n) (q ∷ qs) = q.head ∷ merged n (after q.rest qs)

unfoldable pub total : List Queue → ℕ
total [] = 0
total (q ∷ qs) = suc (length q.rest) + total qs

-- The first documents ascend.
abbrev pub HeadsAscend : List Queue → Type 0
HeadsAscend [] = Unit {0}
HeadsAscend (q ∷ qs) = All (λ p. q.head.doc ≤ p.head.doc) qs × HeadsAscend qs

-- The documents of the tuples ascend.
abbrev pub DocsAscend : List Tupe → Type 0
DocsAscend [] = Unit {0}
DocsAscend (t ∷ ts) = All (λ u. t.doc ≤ u.doc) ts × DocsAscend ts

-- Each queue ascends, and so do the first tuples of the queues.
abbrev pub Sorted : List Queue → Type 0
Sorted qs = HeadsAscend qs × All (λ q. DocsAscend (q.head ∷ q.rest)) qs

pub All-place :
    (P : Queue → Type 0) (q : Queue) (ps : List Queue) → P q → All P ps → All P (place q ps)
unfolding place
All-place P q [] h hs = (h, tt)
All-place P q (p ∷ ps) h (k, ks) = elim (dec_lt p.head.doc q.head.doc) [
  | yes lt ↦ rw (lt→ltb p.head.doc q.head.doc lt) (k, All-place P q ps h ks)
  | no ge ↦ rw (ltb-false p.head.doc q.head.doc (omega arith)) (h, (k, ks))
]

at_least :
    (d e : ℕ) (ps : List Queue)
    → d ≤ e
    → All (λ p. e ≤ p.head.doc) ps
    → All (λ p. d ≤ p.head.doc) ps
at_least d e [] h hs = tt
at_least d e (p ∷ ps) h (k, ks) = (omega arith, at_least d e ps h ks)

place-HeadsAscend : (q : Queue) (ps : List Queue) → HeadsAscend ps → HeadsAscend (place q ps)
unfolding place
place-HeadsAscend q [] h = (tt, tt)
place-HeadsAscend q (p ∷ ps) (h, hs) = elim (dec_lt p.head.doc q.head.doc) [
  | yes lt ↦
      rw (lt→ltb p.head.doc q.head.doc lt)
        (All-place (λ s. p.head.doc ≤ s.head.doc) q ps (omega arith) h, place-HeadsAscend q ps hs)
  | no ge ↦
      rw (ltb-false p.head.doc q.head.doc (omega arith))
        ((omega arith, at_least q.head.doc p.head.doc ps (omega arith) h), (h, hs))
]

pub after-Sorted :
    (t : Tupe) (ts : List Tupe) (qs : List Queue)
    → Sorted (record { head = t; rest = ts } ∷ qs)
    → Sorted (after ts qs)
unfolding after
after-Sorted t [] qs ((h, hs), (k, ks)) = (hs, ks)
after-Sorted t (u ∷ us) qs ((h, hs), (k, ks)) =
    let q : Queue = record { head = u; rest = us } in
    (place-HeadsAscend q qs hs, All-place (λ p. DocsAscend (p.head ∷ p.rest)) q qs k.1 ks)

total-place : (q : Queue) (ps : List Queue) → total (place q ps) ≡ suc (length q.rest) + total ps
unfolding place total
total-place q [] = refl
total-place q (p ∷ ps) = elim (dec_lt p.head.doc q.head.doc) [
  | yes lt ↦ rw (lt→ltb p.head.doc q.head.doc lt) (omega (arith, total-place q ps))
  | no ge ↦ rw (ltb-false p.head.doc q.head.doc (omega arith)) refl
]

pub total-after : (ts : List Tupe) (qs : List Queue) → total (after ts qs) ≡ length ts + total qs
unfolding after
total-after [] qs = omega arith
total-after (t ∷ ts) qs = total-place (record { head = t; rest = ts }) qs
