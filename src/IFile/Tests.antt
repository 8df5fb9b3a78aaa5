-- ===== src/IFile/Tests.antt =====
-- Concrete index files, and the theorems about them at concrete inputs.
use csearch.Common.{ℕ, ◌≡◌, refl, arith, List, [], ◌∷◌, ◌++◌, replicate}
use csearch.Common.Outcome.{ok, fault, assert_failed, ◌>>=◌}
use csearch.Runtime.{Runtime, stream_vbyte}
use csearch.StreamVByte
use csearch.StreamVByte.{encode_data, encode_loop, svb_encode_scalar_d1_init}
use csearch.Chunk.Codec.{Slack}
use csearch.IFile.{IFile, ifile_init, head_bytes, ifile_write, ifile_flush}
use csearch.IFile.Blocks.{Block, tuples, file_bytes, IsRun, block_bytes, block_head}
use csearch.IFile.RoundTrip.{save-run}
use csearch.IFile.Reader.{Source}
use csearch.IFile.Writer.{Pending}
use csearch.IFile.Runs.{full_blocks, left_over}
use csearch.IFile.RoundTrip.{created, opened, save, read-save, save-aborts, read_loses}
use csearch.IFile.NewTerm.{flush-new_term}
use csearch.IFile.RoundTrip.{run_blocks}
use csearch.IFile.Reader.{read_tuples, Source-file}

abbrev rt : Runtime
rt = stream_vbyte 0xa5

abbrev docs : List ℕ
docs = 2 ∷ 4 ∷ 800 ∷ []

docs-IsRun : IsRun rt 7 docs
unfolding StreamVByte.delta_encode svb_encode_scalar_d1_init encode_loop encode_data
docs-IsRun = omega arith

nine-IsRun : IsRun rt 7 (9 ∷ [])
unfolding StreamVByte.delta_encode svb_encode_scalar_d1_init encode_loop encode_data
nine-IsRun = omega arith

read-save_example :
    (f : IFile) × (save rt (tuples 7 docs) ≡ ok f)
    × Source rt (ifile_init (opened f.file.written)) (tuples 7 docs)
read-save_example = read-save rt 7 docs (omega arith) docs-IsRun (omega arith)

-- Forty documents, of which the vector code decodes 32.
abbrev forty : List ℕ
forty = replicate 40 3

forty-IsRun : IsRun rt 7 forty
unfolding StreamVByte.delta_encode svb_encode_scalar_d1_init encode_loop encode_data
forty-IsRun = omega arith

forty-Slack : Slack rt forty
unfolding StreamVByte.delta_encode svb_encode_scalar_d1_init encode_loop encode_data
forty-Slack = omega arith

forty_read_back :
    (f : IFile) × (save rt (tuples 7 forty) ≡ ok f)
    × Source rt (ifile_init (opened f.file.written)) (tuples 7 forty)
forty_read_back = read-save rt 7 forty (omega arith) forty-IsRun forty-Slack

abbrev same : List ℕ
same = replicate 256 3

same-IsRun : IsRun rt 7 same
unfolding StreamVByte.delta_encode svb_encode_scalar_d1_init encode_loop encode_data
same-IsRun = record {
  some_doc = omega arith;
  few = omega arith;
  term_word = omega arith;
  doc_words = omega arith;
  fits = omega arith;
}

save-aborts_example : save rt (tuples 7 same) ≡ fault assert_failed
unfolding full_blocks left_over
save-aborts_example = save-aborts rt 7 same (same-IsRun, tt) refl

abbrev second : Block
second = record { term = 7; docs = 9 ∷ [] }

read_loses_example :
    Source rt
      (ifile_init (
        opened (
          file_bytes rt
            (record { term = 7; docs = docs } ∷ record { term = 7; docs = docs } ∷ []))))
      (record { term = 7; doc = 2 }
        ∷ record { term = 7; doc = 4 }
        ∷ record { term = 7; doc = 800 }
        ∷ record { term = 7; doc = 2 }
        ∷ [])
read_loses_example =
    read_loses rt 7 docs (record { term = 7; docs = docs } ∷ []) docs-IsRun (docs-IsRun, tt)
      (omega arith) (omega arith) (omega arith) (omega arith)

abbrev holding : IFile
holding = record {
  file = created;
  tupe = record { term = 0; doc = 0 };
  h = record { count = 0; term = 7; doc = 2; bcount = 0 };
  chunk = record { size = 3; cap = 256; buffer = docs ++ replicate 253 0xa5 };
  roff = 0;
}

holding-Pending : Pending holding [] 7 docs
holding-Pending = record {
  valid = record { allocated = refl; within = omega arith; word = omega arith };
  room = omega arith;
  held = refl;
  file_is = refl;
  term_is = λ h. refl;
  doc_is = λ h. refl;
}

flush-new_term_example :
    (f : IFile) × ((ifile_write rt holding (record { term = 8; doc = 9 }) >>= ifile_flush rt)
      ≡ ok f)
    × (f.file.written
        ≡ []
          ++ (block_bytes rt 7 docs
              ++ (head_bytes (record (block_head rt 7 (9 ∷ [])) { doc = 2 })
                  ++ StreamVByte.delta_encode (9 ∷ []) 0)))
flush-new_term_example =
    flush-new_term rt holding (record { term = 8; doc = 9 }) holding-Pending docs-IsRun nine-IsRun
      (omega arith)

save-run_example :
    (f : IFile) × (save rt (tuples 7 docs) ≡ ok f)
    × (f.file.written ≡ file_bytes rt (run_blocks 7 docs))
unfolding full_blocks left_over
save-run_example = save-run rt 7 docs tt docs-IsRun

abbrev two_blocks : List Block
two_blocks = record { term = 7; docs = docs } ∷ second ∷ []

Source-file_example :
    Source rt (ifile_init (opened (file_bytes rt two_blocks))) (read_tuples 0 two_blocks)
unfolding ifile_init
Source-file_example =
    Source-file rt two_blocks (ifile_init (opened (file_bytes rt two_blocks))) (omega arith) refl
      (omega arith) (docs-IsRun, (nine-IsRun, tt)) (omega arith) (omega arith) (omega arith) refl
