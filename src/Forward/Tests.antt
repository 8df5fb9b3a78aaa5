-- ===== src/Forward/Tests.antt =====
-- The theorems about document files at concrete inputs.
use csearch.Common.{ℕ, ◌≡◌, refl, arith, List, [], ◌∷◌, ◌++◌, replicate}
use csearch.Common.Outcome.{ok, fault, heap_overflow}
use csearch.Runtime.{Runtime, stream_vbyte}
use csearch.StreamVByte
use csearch.StreamVByte.{encode_data, encode_loop, svb_encode_scalar_d1_init}
use csearch.Stdio.{File}
use csearch.Chunk.Codec.{Holds}
use csearch.IFile.{done}
use csearch.Forward.{Forward, zero_forward, forward_set_id, iforward_read}
use csearch.Forward.Terms.{Filled, push_terms, push_terms-ok, push_terms-faults}
use csearch.Forward.RoundTrip.{IsDocument, document_bytes, document_head, read-document}
use csearch.Forward.{iforward_write}
use csearch.Forward.RoundTrip.{write-document}

abbrev rt : Runtime
rt = stream_vbyte 0xa5

abbrev terms : List ℕ
terms = 1 ∷ 2 ∷ 3 ∷ 4 ∷ 5 ∷ []

terms-IsDocument : IsDocument rt 15 terms
unfolding StreamVByte.delta_encode svb_encode_scalar_d1_init encode_loop encode_data
terms-IsDocument = omega arith

terms_pushed :
    (f : Forward) × (push_terms rt (forward_set_id zero_forward 15) terms ≡ ok f)
    × (f.h.id ≡ 15)
    × Filled f terms
terms_pushed = push_terms-ok rt 15 terms (omega arith)

push_terms-faults_example : push_terms rt zero_forward (replicate 257 1) ≡ fault heap_overflow
push_terms-faults_example = push_terms-faults rt (replicate 257 1) (omega arith)

abbrev on_disk : File
on_disk = record { unread = document_bytes rt 15 terms ++ 3 ∷ []; written = [] }

read-document_example :
    (f : Forward) × (iforward_read rt on_disk zero_forward
      ≡ ok (done, record on_disk { unread = 3 ∷ [] }, f))
    × (f.h ≡ document_head rt 15 terms)
    × Holds f.chunk terms
read-document_example =
    read-document rt 15 terms (3 ∷ []) on_disk zero_forward (omega arith) refl terms-IsDocument
      (omega arith) refl

abbrev filled : Forward
filled = record {
  h = record { count = 0; bcount = 0; id = 15 };
  chunk = record { size = 5; cap = 256; buffer = terms ++ replicate 251 0xa5 };
}

filled-Filled : Filled filled terms
filled-Filled = record {
  valid = record { allocated = refl; within = omega arith; word = omega arith };
  held = refl;
  size_is = refl;
  cap_is = λ h. refl;
}

document_written :
    iforward_write rt (record { unread = []; written = [] }) filled
    ≡ ok (
      record { unread = []; written = [] ++ document_bytes rt 15 terms },
      record filled { h = document_head rt 15 terms },
    )
document_written =
    write-document rt (record { unread = []; written = [] }) filled terms filled-Filled
      terms-IsDocument
