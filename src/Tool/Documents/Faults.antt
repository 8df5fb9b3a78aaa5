-- ===== src/Tool/Documents/Faults.antt =====
-- A document that `document::write` wrote, and what dsort does with it.
use csearch.Common.{ℕ, ◌+◌, ◌*◌, ◌%◌, ◌^◌, ◌≤◌, ◌<◌, ◌≡◌, refl, sym, arith}
use csearch.Common.{
  false, List, [], ◌∷◌, ◌++◌, append_assoc, append-nil, length, take, drop, take_all, ne→==, le→leb,
}
use csearch.Common.Outcome.{ok, fault, heap_overflow}
use csearch.Common.Words.{IsU32, of_le32-le32}
use csearch.Runtime.{Runtime, stream_vbyte}
use csearch.Tool.Stream.{FStream}
use csearch.Tool.Chunks.{compress}
use csearch.Tool.Documents.{
  DocHead, Document, Idocument, new_document, new_idocument, head_bytes, head_of, document_write,
  document_read, idocument_read,
}
use csearch.Tool.Index.{Ifile}
use csearch.Tool.Index.Reader.{read_block-faults}
use csearch.Tool.Sorts.{dsort, read_first}

head_of-head_bytes :
    (h : DocHead) (rest : List ℕ)
    → IsU32 h.id
    → IsU32 h.count
    → IsU32 h.bcount
    → head_of (head_bytes h ++ rest) ≡ h
unfolding head_of head_bytes
head_of-head_bytes h rest a b c = λ i. record {
  id = of_le32-le32 h.id a i;
  count = of_le32-le32 h.count b i;
  bcount = of_le32-le32 h.bcount c i;
}

head_bytes_lem :
    (h : DocHead) (rest : List ℕ)
    → (take 12 (head_bytes h ++ rest) ≡ head_bytes h) × (12 ≤ length (head_bytes h ++ rest))
unfolding head_bytes
head_bytes_lem h rest = (refl, omega arith)

module _ (junk : ℕ) where
  abbrev r : Runtime
  r = stream_vbyte junk

  open r use {delta_encode}

  abbrev pub document_head : Document → DocHead
  document_head d = record {
    id = d.id % 2 ^ 32;
    count = length d.c;
    bcount = length (delta_encode d.c 0);
  }

  abbrev pub document_bytes : Document → List ℕ
  document_bytes d = head_bytes (document_head d) ++ delta_encode d.c 0

  -- A document with terms, few enough for the head and the decoder, that compress to four bytes each.
  pub record IsDocument (d : Document) : Type 0 where
    pub some_term : 0 < length d.c
    pub few : length d.c * 4 < 2 ^ 32
    pub fits : length (delta_encode d.c 0) ≤ length d.c * 4

  pub document_write_lem :
      (d : Document) (fs : FStream)
      → IsDocument d
      → document_write r d fs
        ≡ ok (
          record d { h = document_head d },
          record fs { written = fs.written ++ document_bytes d },
        )
  unfolding document_write compress
  document_write_lem d fs doc =
      let bytes = delta_encode d.c 0 in
      let count : length d.c % 2 ^ 32 ≡ length d.c = omega (arith, doc.few) in
      let bcount : length bytes % 2 ^ 32 ≡ length bytes = omega (arith, doc.few, doc.fits) in
      rw
        (
          ne→== (length d.c) 0 (omega (arith, doc.some_term)),
          le→leb (length bytes) (length d.c * 4) doc.fits,
          count,
          bcount,
          take_all (length bytes) bytes (omega arith),
          append_assoc,
        )
        refl

  read-faults :
      (d old : Document) (fs : FStream) (rest : List ℕ)
      → IsDocument d
      → fs.at_end ≡ false
      → fs.unread ≡ document_bytes d ++ rest
      → document_read r old fs ≡ fault heap_overflow
  unfolding document_read
  read-faults d old fs rest doc going at =
      let h = document_head d in
      let bytes = delta_encode d.c 0 in
      let small : length d.c + 3 < 2 ^ 32 = omega (arith, doc.few) in
      let (whole, twelve) = head_bytes_lem h (bytes ++ rest) in
      let head =
        head_of-head_bytes h (drop (length (head_bytes h)) (head_bytes old.h)) (omega arith)
          (omega (arith, doc.few)) (omega (arith, doc.few, doc.fits)) in
      rw
        (
          going,
          at,
          append_assoc (head_bytes h) bytes rest,
          le→leb 12 _ twelve,
          whole,
          head,
          read_block-faults junk _ h.count h.bcount doc.some_term small,
        )
        refl

  -- `document::write` of a document with terms, which stay below 2^30 in number and compress to
  -- four bytes each or fewer, to an empty stream puts the head and the compressed terms into it;
  -- but dsort of files of which the first is a new idocument on what was written is undefined
  -- behaviour, whatever the others are.
  pub write-dsort :
      (d : Document) (fs : List Idocument) (outs : Ifile) (sort : List Idocument → List Idocument)
      (fuel limit : ℕ)
      → IsDocument d
      → let empty : FStream = record { unread = []; written = []; at_end = false } in
        (document_write r d empty
          ≡ ok (record d { h = document_head d }, record empty { written = document_bytes d }))
        × (dsort r sort fuel
              (new_idocument (record empty { unread = document_bytes d }) ∷ fs)
              limit
              outs
            ≡ fault heap_overflow)
  unfolding dsort read_first idocument_read new_idocument
  write-dsort d fs outs sort fuel limit doc =
      let empty : FStream = record { unread = []; written = []; at_end = false } in
      let start : FStream = record empty { unread = document_bytes d } in
      (
        document_write_lem d empty doc,
        rw (read-faults d new_document start [] doc refl (sym (append-nil (document_bytes d))))
            refl,
      )
