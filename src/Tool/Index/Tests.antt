-- ===== src/Tool/Index/Tests.antt =====
-- Runs of tool::ifile, merge and dsort.
use csearch.Common.{ℕ, ◌≡◌, refl, arith, false, List, [], ◌∷◌, ◌++◌, All}
use csearch.Common.Outcome.{ok, fault, heap_overflow}
use csearch.Runtime.{Runtime, stream_vbyte}
use csearch.StreamVByte.{delta_encode, svb_encode_scalar_d1_init, encode_loop, encode_data}
use csearch.IFile.{Tupe}
use csearch.Tool.Stream.{FStream}
use csearch.Tool.Documents.{Document, new_document, new_idocument, document_write}
use csearch.Tool.Documents.Faults.{document_head, document_bytes, IsDocument, write-dsort}
use csearch.Tool.Index.{Ifile, new_ifile}
use csearch.Tool.Index.Blocks.{Block, cut, block_bytes, file_bytes, Fits, IsBlock, tuples_of}
use csearch.Tool.Index.Save.{save}
use csearch.Tool.Index.Output.{save-blocks, second_head}
use csearch.Tool.Faults.{save-merge}
use csearch.Tool.Sorts.{merge, dsort}

abbrev r : Runtime
r = stream_vbyte 0xa5

abbrev empty : FStream
empty = record { unread = []; written = []; at_end = false }

abbrev tupe : ℕ → ℕ → Tupe
tupe term doc = record { term = term; doc = doc }

abbrev two : List Tupe
two = tupe 1 5 ∷ tupe 1 9 ∷ []

abbrev one_block : List Block
one_block = record { term = 1; doc = 5; docs = 5 ∷ 9 ∷ [] } ∷ []

cut-two : cut 0 0 [] two ≡ one_block
unfolding cut
cut-two = refl

two-Fits : All (Fits r) (cut 0 0 [] two)
unfolding cut delta_encode svb_encode_scalar_d1_init encode_loop encode_data
two-Fits = omega arith

save-blocks_example :
    (f : Ifile) × (save r (new_ifile empty) two ≡ ok f)
    × (f.fs.written ≡ file_bytes r (cut 0 0 [] two))
    × (tuples_of (cut 0 0 [] two) ≡ two)
    × All IsBlock (cut 0 0 [] two)
save-blocks_example = save-blocks r empty two two-Fits

five-Fits : (term doc : ℕ) → Fits r (record { term = term; doc = doc; docs = 5 ∷ [] })
unfolding delta_encode svb_encode_scalar_d1_init encode_loop encode_data
five-Fits term doc = omega arith

second_head_example :
    (f : Ifile) × (save r (new_ifile empty) (tupe 1 5 ∷ tupe 2 5 ∷ []) ≡ ok f)
    × (f.fs.written
        ≡ block_bytes r (record { term = 1; doc = 5; docs = 5 ∷ [] })
          ++ block_bytes r (record { term = 2; doc = 5; docs = 5 ∷ [] }))
second_head_example =
    second_head r empty (tupe 1 5) (tupe 2 5) (omega arith) (five-Fits 1 5) (five-Fits 2 5)

save-merge_example :
    (f : Ifile) × (save r (new_ifile empty) two ≡ ok f)
    × (merge r
          (λ fs. fs)
          20
          (tupe 0 0)
          (new_ifile (record empty { unread = f.fs.written }) ∷ [])
          (new_ifile empty)
        ≡ fault heap_overflow)
save-merge_example =
    save-merge 0xa5 (tupe 1 5) (tupe 1 9 ∷ []) [] (new_ifile empty) (λ fs. fs) 20 (tupe 0 0)
      (omega arith) (omega arith) two-Fits

-- The document of dtest in tool.cc
abbrev d : Document
d = record new_document { id = 123; c = 1 ∷ 2 ∷ [] }

d-IsDocument : IsDocument 0xa5 d
unfolding delta_encode svb_encode_scalar_d1_init encode_loop encode_data
d-IsDocument = record { some_term = omega arith; few = omega arith; fits = omega arith }

write-dsort_example :
    (document_write r d empty
      ≡ ok
          (record d { h = document_head 0xa5 d }, record empty { written = document_bytes 0xa5 d }))
    × (dsort r
          (λ fs. fs)
          20
          (new_idocument (record empty { unread = document_bytes 0xa5 d }) ∷ [])
          10
          (new_ifile empty)
        ≡ fault heap_overflow)
write-dsort_example = write-dsort 0xa5 d [] (new_ifile empty) (λ fs. fs) 20 10 d-IsDocument
