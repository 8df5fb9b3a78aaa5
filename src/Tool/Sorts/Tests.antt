-- ===== src/Tool/Sorts/Tests.antt =====
-- The first of some files moves behind the smaller ones.
use csearch.Common.{ℕ, ◌≡◌, refl, arith, [], ◌∷◌}
use csearch.Common.Outcome.{ok}
use csearch.Tool.Sorts.{push_ids, move_first}
use csearch.Tool.Sorts.Place.{insert, move_first-insert}

-- Files that are their documents
move_first-insert_example :
    move_first {F = ℕ} (λ d. d) 7 (2 ∷ 5 ∷ 7 ∷ 9 ∷ []) ≡ ok (2 ∷ 5 ∷ 7 ∷ 7 ∷ 9 ∷ [])
unfolding insert
move_first-insert_example = move_first-insert (λ d. d) 7 (2 ∷ 5 ∷ 7 ∷ 9 ∷ []) (omega arith)

-- The map of dsort after the documents 1 and 2 with the term 5
two_documents : push_ids 2 (5 ∷ []) (push_ids 1 (5 ∷ 6 ∷ []) (λ key. [])) 5 ≡ 1 ∷ 2 ∷ []
unfolding push_ids
two_documents = refl
