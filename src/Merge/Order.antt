-- ===== src/Merge/Order.antt =====
-- What the merged tuples are: all tuples of the queues, with the documents in ascending order.
use csearch.Common.{ℕ, zero, suc, ◌≤◌, arith, List, [], ◌∷◌, ◌++◌, All}
use csearch.Common.{lt→ltb, ltb-false, append_assoc, subst}
use csearch.IFile.{Tupe}
use csearch.Merge.Queues.{Queue, place, after, merged, total}
use csearch.Merge.Queues.{DocsAscend, Sorted, All-place, after-Sorted, total-after}
use mathlib.Core.List.{Perm, perm_append_comm}
use mathlib.Core.List.Perm
use native.Mathlib.Decide.{dec_lt}

-- The tuples of all queues.
unfoldable pub all_tuples : List Queue → List Tupe
all_tuples [] = []
all_tuples (q ∷ qs) = (q.head ∷ q.rest) ++ all_tuples qs

swap_front : (xs ys zs : List Tupe) → Perm (xs ++ (ys ++ zs)) (ys ++ (xs ++ zs))
swap_front xs ys zs =
    subst (λ (l : List Tupe). Perm l (ys ++ (xs ++ zs))) (append_assoc xs ys zs)
      (subst (λ (l : List Tupe). Perm ((xs ++ ys) ++ zs) l) (append_assoc ys xs zs)
        (Perm.append_right zs (perm_append_comm xs ys)))

place-Perm : (q : Queue) (ps : List Queue) → Perm (all_tuples (place q ps)) (all_tuples (q ∷ ps))
unfolding place all_tuples
place-Perm q [] = Perm.rfl
place-Perm q (p ∷ ps) = elim (dec_lt p.head.doc q.head.doc) [
  | yes lt ↦ rw (lt→ltb p.head.doc q.head.doc lt) (
      Perm.trans (Perm.append_left (p.head ∷ p.rest) (place-Perm q ps))
        (swap_front (p.head ∷ p.rest) (q.head ∷ q.rest) (all_tuples ps)))
  | no ge ↦ rw (ltb-false p.head.doc q.head.doc (omega arith)) Perm.rfl
]

after-Perm :
    (ts : List Tupe) (qs : List Queue) → Perm (all_tuples (after ts qs)) (ts ++ all_tuples qs)
unfolding after all_tuples
after-Perm [] qs = Perm.rfl
after-Perm (t ∷ ts) qs = place-Perm (record { head = t; rest = ts }) qs

-- With enough rounds, no tuple is lost and none is written twice.
pub merged-Perm : (n : ℕ) (qs : List Queue) → total qs ≤ n → Perm (merged n qs) (all_tuples qs)
unfolding merged total all_tuples
merged-Perm zero [] h = Perm.rfl
merged-Perm zero (q ∷ qs) h = absurd (omega arith)
merged-Perm (suc n) [] h = Perm.rfl
merged-Perm (suc n) (q ∷ qs) h = Perm.cons q.head (
    Perm.trans (merged-Perm n (after q.rest qs) (omega (arith, total-after q.rest qs)))
      (after-Perm q.rest qs))

-- Every tuple of the queue has a document of at least `d`.
abbrev Above : ℕ → Queue → Type 0
Above d q = All (λ t. d ≤ t.doc) (q.head ∷ q.rest)

after-Above :
    (d : ℕ) (ts : List Tupe) (qs : List Queue)
    → All (λ t. d ≤ t.doc) ts
    → All (Above d) qs
    → All (Above d) (after ts qs)
unfolding after
after-Above d [] qs h hs = hs
after-Above d (t ∷ ts) qs h hs = All-place (Above d) (record { head = t; rest = ts }) qs h hs

merged-Above : (d n : ℕ) (qs : List Queue) → All (Above d) qs → All (λ t. d ≤ t.doc) (merged n qs)
unfolding merged
merged-Above d zero qs h = tt
merged-Above d (suc n) [] h = tt
merged-Above d (suc n) (q ∷ qs) (h, hs) =
    (h.0, merged-Above d n (after q.rest qs) (after-Above d q.rest qs h.1 hs))

at_least : (d e : ℕ) (ts : List Tupe) → d ≤ e → All (λ t. e ≤ t.doc) ts → All (λ t. d ≤ t.doc) ts
at_least d e [] h hs = tt
at_least d e (t ∷ ts) h (k, ks) = (omega arith, at_least d e ts h ks)

Sorted-Above :
    (d : ℕ) (qs : List Queue)
    → All (λ p. d ≤ p.head.doc) qs
    → All (λ p. DocsAscend (p.head ∷ p.rest)) qs
    → All (Above d) qs
Sorted-Above d [] h up = tt
Sorted-Above d (q ∷ qs) (h, hs) (up, ups) =
    ((h, at_least d q.head.doc q.rest h up.0), Sorted-Above d qs hs ups)

-- The documents ascend if those of each queue do and the queues stand in order.
pub merged-DocsAscend : (n : ℕ) (qs : List Queue) → Sorted qs → DocsAscend (merged n qs)
unfolding merged
merged-DocsAscend zero qs up = tt
merged-DocsAscend (suc n) [] up = tt
merged-DocsAscend (suc n) (q ∷ qs) ((h, hs), (k, ks)) = (
  merged-Above q.head.doc n (after q.rest qs)
      (after-Above q.head.doc q.rest qs k.0 (Sorted-Above q.head.doc qs h ks)),
  merged-DocsAscend n (after q.rest qs) (after-Sorted q.head q.rest qs ((h, hs), (k, ks))),
)
