-- ===== src/PairWriter/Tests.antt =====
-- Groups of two documents, with a callback that records what it gets.
use csearch.Common.{ℕ, ◌≡◌, refl, arith, List, [], ◌∷◌, ◌++◌}
use csearch.Common.Outcome.{ok, fault, heap_overflow, ◌>>=◌}
use csearch.PairWriter.{Pair, PairWriter, index_writer_init, index_writer_write}
use csearch.PairWriter.Runs.{write_docs, concat, deliver, Wrote}
use csearch.PairWriter.Groups.{writes_groups}
use csearch.PairWriter.NewTerm.{new_term_loses, new_term_faults}

-- The numbers as they are, in place of compressed ones
abbrev as_is : ℕ → List ℕ → List ℕ
as_is before docs = docs

abbrev record_first : Pair → List ℕ → List ℕ → ℕ × List ℕ
record_first pair bytes log = (0, log ++ pair.doc ∷ bytes)

writes_groups_example :
    (w : PairWriter (List ℕ)) × (write_docs as_is record_first 7
        (index_writer_init 2 [])
        (3 ∷ 4 ∷ 9 ∷ [])
      ≡ ok w)
    × Wrote as_is record_first 7 (index_writer_init 2 []) (3 ∷ 4 ∷ 9 ∷ []) w
writes_groups_example =
    writes_groups as_is record_first 7 2 3 (4 ∷ 9 ∷ []) [] (omega arith) (omega arith)
      (omega arith, (omega arith, tt))

abbrev seven_nine : PairWriter (List ℕ)
seven_nine = record {
  last_pair = record { term = 7; doc = 9 };
  maxy = 2;
  kv_data = 9 ∷ [];
  user_data = [];
}

new_term_loses_example :
    (w : PairWriter (List ℕ)) × (groups : List (List ℕ)) × (write_docs as_is record_first 8
        seven_nine
        (1 ∷ 2 ∷ [])
      ≡ ok w)
    × (concat groups ++ w.kv_data ≡ 2 ∷ [])
    × (w.user_data
        ≡ deliver as_is record_first 8 groups (deliver as_is record_first 7 ((9 ∷ []) ∷ []) []))
new_term_loses_example =
    new_term_loses as_is record_first (record { term = 7; doc = 9 }) 2 9 [] [] 8 1 (2 ∷ [])
      (omega arith) (omega arith) (omega arith) (omega arith, tt)

faults_after_two :
    (write_docs as_is record_first 7 (index_writer_init 2 []) (3 ∷ 4 ∷ []) >>= λ w.
    index_writer_write as_is record_first w (record { term = 8; doc = 1 }))
    ≡ fault heap_overflow
faults_after_two =
    new_term_faults as_is record_first 2 [] 7 3 (4 ∷ []) (record { term = 8; doc = 1 })
      (omega arith) (omega arith) (omega arith, tt) refl (omega arith)
