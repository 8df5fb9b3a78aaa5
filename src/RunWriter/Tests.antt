-- ===== src/RunWriter/Tests.antt =====
-- Two documents of one term, and two of others.
use csearch.Common.{ℕ, ◌≡◌, arith, List, [], ◌∷◌, ◌++◌, some}
use csearch.Common.Outcome.{ok}
use csearch.IFile.{failed}
use csearch.RunWriter.{RunWriter, index_writer_init, Writes, total, returned, no_value}
use csearch.RunWriter.Stuck.{Holding, write_all, run-stays}
use mathlib.Core.Option.{some-injective}

-- A writev that writes all it gets, to a list of blocks, and a byte for each number.
abbrev sys : Writes (List (List ℕ))
sys = record {
  writev = λ blocks world. (some (total blocks), world ++ blocks);
  vbyte_compress_sorted64 = λ docs prev. docs;
  writev_bounded = λ blocks world n e. omega (arith, some-injective (total blocks) n e);
  compress_some = λ docs prev. omega arith;
}

run-stays_example :
    (w : RunWriter) × (world : List (List ℕ)) × (write_all sys index_writer_init
        (record { term = 1; doc = 7 }
          ∷ record { term = 1; doc = 9 }
          ∷ record { term = 2; doc = 3 }
          ∷ [])
        []
      ≡ ok (no_value ∷ no_value ∷ returned failed ∷ [], w, world))
    × (write_all sys index_writer_init
          (record { term = 1; doc = 7 } ∷ record { term = 1; doc = 9 } ∷ [])
          []
        ≡ ok (no_value ∷ no_value ∷ [], w, []))
    × Holding w 1 2
run-stays_example =
    run-stays sys 1 (7 ∷ 9 ∷ []) (record { term = 2; doc = 3 } ∷ []) [] (omega arith) (omega arith)
      (omega arith) (omega arith, tt) (omega arith)
