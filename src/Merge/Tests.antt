-- ===== src/Merge/Tests.antt =====
-- A merge of two concrete index files, and the theorems about `merge` at concrete inputs.
use csearch.Common.{ℕ, ◌≡◌, refl, arith, List, [], ◌∷◌, ◌++◌}
use csearch.Common.Outcome.{Outcome, ok, fault, heap_overflow, ◌>>=◌}
use csearch.Common.{some}
use csearch.Runtime.{Runtime, stream_vbyte}
use csearch.StreamVByte
use csearch.StreamVByte.{encode_data, encode_loop, svb_encode_scalar_d1_init}
use csearch.IFile.{IFile, ifile_init, ifile_flush}
use csearch.IFile.Blocks.{file_bytes}
use csearch.IFile.Reader.{read_tuples, Source, Source-file}
use csearch.IFile.RoundTrip.{created, opened}
use csearch.IFile.Runs.{write_all}
use csearch.Merge.{merge}
use csearch.Merge.Queues.{Queue, merged, after, place, total}
use csearch.Merge.Result.{merge-one_file, merge-empty_file}
use csearch.Merge.{merge_loop, reinsert}
use csearch.Merge.Search.{insert_file, reinsert-insert_file}
use csearch.Merge.Refine.{merge_loop-merged}

abbrev rt : Runtime
rt = stream_vbyte 0xa5

abbrev file_of : ℕ → List ℕ → IFile
file_of term docs = ifile_init (opened (file_bytes rt (record { term = term; docs = docs } ∷ [])))

abbrev low : Queue
low = record { head = record { term = 7; doc = 2 }; rest = record { term = 7; doc = 800 } ∷ [] }

abbrev high : Queue
high = record { head = record { term = 8; doc = 4 }; rest = record { term = 8; doc = 9 } ∷ [] }

low-Source : Source rt (file_of 7 (2 ∷ 800 ∷ [])) (low.head ∷ low.rest)
unfolding ifile_init read_tuples StreamVByte.delta_encode svb_encode_scalar_d1_init encode_loop
    encode_data
low-Source =
    Source-file rt (record { term = 7; docs = 2 ∷ 800 ∷ [] } ∷ []) (file_of 7 (2 ∷ 800 ∷ []))
      (omega arith) refl (omega arith) (omega arith, tt) (omega arith, tt) (omega arith)
      (omega arith) refl

high-Source : Source rt (file_of 8 (4 ∷ 9 ∷ [])) (high.head ∷ high.rest)
unfolding ifile_init read_tuples StreamVByte.delta_encode svb_encode_scalar_d1_init encode_loop
    encode_data
high-Source =
    Source-file rt (record { term = 8; docs = 4 ∷ 9 ∷ [] } ∷ []) (file_of 8 (4 ∷ 9 ∷ []))
      (omega arith) refl (omega arith) (omega arith, tt) (omega arith, tt) (omega arith)
      (omega arith) refl

abbrev two_files : List IFile
two_files = file_of 7 (2 ∷ 800 ∷ []) ∷ file_of 8 (4 ∷ 9 ∷ []) ∷ []

abbrev outs : IFile
outs = ifile_init created

abbrev words_kept : ℕ → IFile → Outcome IFile
words_kept n f = ok f

merge-one_file_example :
    merge rt words_kept 2 (file_of 8 (4 ∷ 9 ∷ []) ∷ []) outs
    ≡ (write_all rt outs (high.head ∷ high.rest) >>= λ o. ifile_flush rt o >>= λ o'. ok (some o'))
merge-one_file_example =
    merge-one_file rt words_kept (file_of 8 (4 ∷ 9 ∷ [])) outs high.head high.rest 2 (λ g. refl)
      high-Source (omega arith)

empty_file : Source rt (ifile_init created) []
unfolding ifile_init read_tuples
empty_file =
    Source-file rt [] (ifile_init created) (omega arith) refl (omega arith) tt tt (omega arith)
      (omega arith) refl

merge-empty_file_example :
    merge rt words_kept 9 (file_of 8 (4 ∷ 9 ∷ []) ∷ ifile_init created ∷ []) outs
    ≡ fault heap_overflow
merge-empty_file_example =
    merge-empty_file rt words_kept (file_of 8 (4 ∷ 9 ∷ []) ∷ []) [] (ifile_init created) (high ∷ [])
      outs 9 (high-Source, tt) empty_file (omega arith)

abbrev at_doc : ℕ → IFile
at_doc doc = record outs { tupe = record { term = 7; doc = doc } }

abbrev five : List IFile
five = at_doc 1 ∷ at_doc 5 ∷ at_doc 5 ∷ at_doc 8 ∷ at_doc 9 ∷ []

-- An equal document stays behind the moved file.
insert_file-five :
    insert_file (at_doc 5) five
    ≡ at_doc 1 ∷ at_doc 5 ∷ at_doc 5 ∷ at_doc 5 ∷ at_doc 8 ∷ at_doc 9 ∷ []
unfolding insert_file
insert_file-five = refl

reinsert-insert_file_example : reinsert (at_doc 6) five ≡ ok (insert_file (at_doc 6) five)
reinsert-insert_file_example = reinsert-insert_file (at_doc 6) five (omega arith)

loop_of_two :
    merge_loop rt 4 (record { live = low-Source.0 ∷ high-Source.0 ∷ []; closed = [] }) outs
    ≡ (write_all rt outs (low.head ∷ high.head ∷ high.rest ++ low.rest) >>= λ o. ok (some o))
unfolding total merged after place
loop_of_two =
    merge_loop-merged rt 4 (low-Source.0 ∷ high-Source.0 ∷ []) [] (low ∷ high ∷ []) outs
      (
        record { current = low-Source.2; source = low-Source.3 },
        (record { current = high-Source.2; source = high-Source.3 }, tt),
      )
      (omega arith) (omega arith)
