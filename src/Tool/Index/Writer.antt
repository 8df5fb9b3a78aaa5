-- ===== src/Tool/Index/Writer.antt =====
-- `ifile::write` and `ifile::flush`: what reaches the stream.
use csearch.Common.{ℕ, ◌*◌, ◌%◌, ◌^◌, ◌≤◌, ◌<◌, ◌≡◌, ◌≢◌, refl, sym, ◌∙◌, arith}
use csearch.Common.{
  List, [], ◌∷◌, ◌++◌, append_assoc, length, take_all, ◌==◌, eq→==, ne→==, le→leb, if◌then◌else◌,
}
use csearch.Common.Outcome.{ok, ◌>>=◌}
use csearch.Runtime.{Runtime}
use csearch.IFile.{Tupe}
use csearch.Tool.Chunks.{compress}
use csearch.Tool.Index.{Ifile, capacity, clear, real_write, write}
use csearch.Tool.Index.Blocks.{Block}
use csearch.Tool.Index.Blocks.{block_bytes, Fits}

-- A writer whose stream has got `out`, and that holds documents back for a block of that head.
pub record Pending (f : Ifile) (out : List ℕ) (term doc : ℕ) (held : List ℕ) : Type 0 where
  pub held_is : f.c ≡ held
  pub out_is : f.fs.written ≡ out
  pub term_is : 0 < length held → f.h.term ≡ term
  pub doc_is : 0 < length held → f.h.doc ≡ doc
  pub room : length held < capacity

abbrev pub held_block : Ifile → Block
held_block f = record { term = f.h.term; doc = f.h.doc; docs = f.c }

module _ (r : Runtime) where
  open r use {delta_encode}

  abbrev pub wrote : Ifile → Ifile
  wrote f = record f {
    h = record f.h { count = length f.c; bcount = length (delta_encode f.c 0) };
    fs = record f.fs { written = f.fs.written ++ block_bytes r (held_block f) };
  }

  pub real_write_lem :
      (f : Ifile)
      → 0 < length f.c
      → length f.c ≤ capacity
      → Fits r (held_block f)
      → real_write r f ≡ ok (wrote f)
  unfolding real_write compress
  real_write_lem f some_doc small fits =
      let bytes = delta_encode f.c 0 in
      let count : length f.c % 2 ^ 32 ≡ length f.c = omega arith in
      let bcount : length bytes % 2 ^ 32 ≡ length bytes = omega arith in
      rw
        (
          ne→== (length f.c) 0 (omega arith),
          le→leb (length bytes) (length f.c * 4) fits,
          count,
          bcount,
          take_all (length bytes) bytes (omega arith),
          append_assoc,
        )
        refl

  -- The stream behind a block that was held back.
  pub wrote_out :
      (f : Ifile) {out : List ℕ} {term doc : ℕ} {held : List ℕ}
      → f.fs.written ≡ out
      → f.c ≡ held
      → f.h.term ≡ term
      → f.h.doc ≡ doc
      → (wrote f).fs.written ≡ out ++ block_bytes r (record { term = term; doc = doc; docs = held })
  wrote_out f out held term doc =
      λ i. out i ++ block_bytes r (record { term = term i; doc = doc i; docs = held i })

  pub write_empty :
      (f : Ifile) (t : Tupe) {out : List ℕ} {term doc : ℕ}
      → Pending f out term doc []
      → (f' : Ifile) × (write r f t ≡ ok f') × Pending f' out t.term t.doc (t.doc ∷ [])
  unfolding write
  write_empty f t p =
      let f1 : Ifile = record f { h = record f.h { term = t.term; doc = t.doc }; c = t.doc ∷ [] } in
      (
        f1,
        rw (p.held_is, eq→== t.term t.term refl) refl,
        record {
          held_is = refl;
          out_is = p.out_is;
          term_is = λ h. refl;
          doc_is = λ h. refl;
          room = omega arith;
        },
      )

  -- A write of the head's term, up to the test for a full block.
  pub write_same :
      (f : Ifile) (t : Tupe) {term : ℕ}
      → 0 < length f.c
      → f.h.term ≡ term
      → t.term ≡ term
      → let g : Ifile = record f { c = f.c ++ t.doc ∷ [] } in
        write r f t
        ≡ (if length g.c == capacity then (real_write r g >>= λ f'. ok (clear f')) else ok g)
  unfolding write
  write_same f t some_doc te e =
      rw (ne→== (length f.c) 0 (omega arith), eq→== t.term f.h.term (e ∙ sym te)) refl

  pub write_new :
      (f : Ifile) (t : Tupe)
      → 0 < length f.c
      → t.term ≢ f.h.term
      → length f.c ≤ capacity
      → Fits r (held_block f)
      → write r f t
        ≡ ok (record (wrote f) { h = record (wrote f).h { term = t.term }; c = t.doc ∷ [] })
  unfolding write
  write_new f t some_doc ne small fits =
      rw
        (
          ne→== (length f.c) 0 (omega arith),
          ne→== t.term f.h.term ne,
          real_write_lem f some_doc small fits,
        )
        refl
