-- ===== src/Forward/RoundTrip.antt =====
-- A document written by `iforward_write` and read by `iforward_read`.
use csearch.Common.{ℕ, ◌*◌, ◌%◌, ◌^◌, ◌≤◌, ◌<◌, ◌≡◌, refl, arith}
use csearch.Common.{List, ◌++◌, length, take, drop, All, le→leb, append_assoc, take_all}
use csearch.Common.Words.{IsU32, of_le32-le32}
use csearch.Common.Outcome.{ok}
use csearch.Runtime.{Runtime}
use csearch.Stdio.{File}
use csearch.Chunk.Laws.{IsValid}
use csearch.Chunk.Codec.{Holds, Slack, compress-ok, read_block-encode}
use csearch.IFile.{done}
use csearch.Forward.{Forward, ForwardHead, head_bytes, head_of, iforward_write, iforward_read}
use csearch.Forward.Terms.{Filled}

head_of-head_bytes :
    (h : ForwardHead) (rest : List ℕ)
    → IsU32 h.count
    → IsU32 h.bcount
    → IsU32 h.id
    → head_of (head_bytes h ++ rest) ≡ h
unfolding head_of head_bytes
head_of-head_bytes h rest a b c = λ i. record {
  count = of_le32-le32 h.count a i;
  bcount = of_le32-le32 h.bcount b i;
  id = of_le32-le32 h.id c i;
}

head_bytes_lem :
    (h : ForwardHead) (rest : List ℕ)
    → (take 12 (head_bytes h ++ rest) ≡ head_bytes h)
      × (drop 12 (head_bytes h ++ rest) ≡ rest)
      × (12 ≤ length (head_bytes h ++ rest))
unfolding head_bytes
head_bytes_lem h rest = (refl, refl, omega arith)

module _ (r : Runtime) where
  open r use {delta_encode}

  abbrev pub document_head : ℕ → List ℕ → ForwardHead
  document_head id terms = record {
    count = length terms;
    bcount = length (delta_encode terms 0);
    id = id;
  }

  -- The bytes of a document on disk.
  abbrev pub document_bytes : ℕ → List ℕ → List ℕ
  document_bytes id terms = head_bytes (document_head id terms) ++ delta_encode terms 0

  -- A document that the format can hold.
  pub record IsDocument (id : ℕ) (terms : List ℕ) : Type 0 where
    pub some_term : 0 < length terms
    pub few : length terms * 4 < 2 ^ 32
    pub id_word : IsU32 id
    pub term_words : All IsU32 terms
    pub fits : length (delta_encode terms 0) ≤ length terms * 4

  -- On a forward_t that holds the terms of a document (uint32 terms, one at least, that need at
  -- most four bytes each), `iforward_write` appends the document's header and encoded terms to the
  -- file, and sets the header.
  pub write-document :
      (file : File) (f : Forward) (terms : List ℕ)
      → Filled f terms
      → IsDocument f.h.id terms
      → iforward_write r file f
        ≡ ok (
          record file { written = file.written ++ document_bytes f.h.id terms },
          record f { h = document_head f.h.id terms },
        )
  unfolding iforward_write
  write-document file f terms p doc =
      let bytes = delta_encode terms 0 in
      let small : length bytes % 2 ^ 32 ≡ length bytes = omega (arith, doc.fits, doc.few) in
      let done =
        compress-ok r p.valid (omega (arith, p.size_is, doc.some_term))
          (rw p.held (omega (arith, doc.fits, p.size_is))) in
      rw (done, p.held, small, take_all (length bytes) bytes (omega arith), p.size_is, append_assoc)

  -- On a file whose next bytes are a document, which from 32 terms on leaves 12 of the four bytes
  -- a term unused, `iforward_read` into a forward_t with a valid chunk of size 0 brings back the
  -- document's header and terms, and stops behind it.
  pub read-document :
      (id : ℕ) (terms rest : List ℕ) (file : File) (f : Forward)
      → IsValid f.chunk
      → f.chunk.size ≡ 0
      → IsDocument id terms
      → Slack r terms
      → file.unread ≡ document_bytes id terms ++ rest
      → (f' : Forward) × (iforward_read r file f ≡ ok (done, record file { unread = rest }, f'))
        × (f'.h ≡ document_head id terms)
        × Holds f'.chunk terms
  unfolding iforward_read
  read-document id terms rest file f v empty doc slack e =
      let head = document_head id terms in
      let bytes = delta_encode terms 0 in
      let after : File = record file { unread = bytes ++ rest } in
      let (c, reads, holds) =
        read_block-encode r terms rest after v empty doc.some_term (omega (arith, doc.few))
          doc.term_words doc.fits slack refl in
      let (got, left, long) = head_bytes_lem head (bytes ++ rest) in
      (
        record { h = head; chunk = c },
        rw (
          e,
          append_assoc (head_bytes head) bytes rest,
          got,
          left,
          le→leb 12 _ long,
          head_of-head_bytes head (drop (length (head_bytes head)) (head_bytes f.h))
              (omega (arith, doc.few)) (omega (arith, doc.fits, doc.few)) doc.id_word,
          reads,
        ),
        refl,
        holds,
      )
