-- ===== src/Tool/Index.antt =====
-- tool::ifile of ifile.cc: an index file of (term, doc) tuples in compressed blocks of ten.
pub mod Blocks
pub mod Writer
pub mod Save
pub mod Output
pub mod Reader
mod Tests
use csearch.Common.{ℕ, ◌+◌, ◌%◌, ◌^◌, Bool, true, false, List, [], ◌∷◌, ◌++◌, Option, none, some}
use csearch.Common.{◌==◌, if◌then◌else◌, length, take, get_elem?}
use csearch.Common.Outcome.{Outcome, ok, fault, heap_overflow, ◌>>=◌}
use csearch.Runtime.{Runtime}
use csearch.Stdio.{stored}
use csearch.IFile.{Tupe, ChunkHead, zero_head, head_bytes, head_of}
use csearch.Tool.Stream
use csearch.Tool.Stream.{FStream, eof}
use csearch.Tool.Chunks.{compress, read_block}

-- tool::ifile, with the stream that `fs` points to. The iterator is an offset from `c.begin()`, which
-- may get past the end; then the next read from it is a fault.
pub record Ifile : Type 0 where
  pub it : ℕ
  pub c : List ℕ
  pub h : ChunkHead
  pub t : Tupe
  pub fs : FStream

-- `ifile( fs )`
unfoldable pub new_ifile : FStream → Ifile
new_ifile fs = record { it = 0; c = []; h = zero_head; t = record { term = 0; doc = 0 }; fs = fs }

abbrev pub capacity : ℕ
capacity = 10

abbrev pub clear : Ifile → Ifile
clear f = record f { c = [] }

-- `if( c.size() == 0 )` of `ifile::write`
abbrev pub start_empty : Ifile → Tupe → Ifile
start_empty f t =
    if length f.c == 0 then record f { h = record f.h { term = t.term; doc = t.doc } } else f

-- The branch of `ifile::read` on a tuple of the header.
abbrev pub from_head : Ifile → Ifile
from_head f = record f { t = record { term = f.h.term; doc = f.h.doc }; it = f.it + 1 }

module _ (r : Runtime) where
  unfoldable pub real_write : Ifile → Outcome Ifile
  real_write f =
      let written = (do
        (cbuff, bcount) ← compress r f.c
        let h : ChunkHead = record f.h { count = length f.c % 2 ^ 32; bcount = bcount }
        ok (record f {
          h = h;
          fs = Stream.write (take bcount cbuff) (Stream.write (head_bytes h) f.fs);
        })) in
      if length f.c == 0 then ok f else written

  -- The head is not looked at for a short read.
  unfoldable pub real_read : Ifile → Outcome (Bool × Ifile)
  real_read f =
      let (got, fs1) = Stream.read 16 f.fs in
      let h = head_of (stored got (head_bytes f.h)) in
      let filled = (do
        (fs2, c) ← read_block r fs1 h.count h.bcount
        ok (true, record f { h = h; fs = fs2; c = c; it = 0 })) in
      if eof f.fs then ok (false, f) else filled

  unfoldable pub flush : Ifile → Outcome Ifile
  flush f = do f' ← real_write f; ok (clear f')

  -- From `else if( !real_read() )` on.
  unfoldable pub read_next : Ifile → Tupe → Outcome (Bool × Tupe × Ifile)
  read_next f into = do
    (more, f') ← real_read f
    let f'' = from_head f'
    if more then ok (true, f''.t, f'') else ok (false, into, f')

  -- `into` is the argument tt and what it holds after the call.
  unfoldable pub read : Ifile → Tupe → Outcome (Bool × Tupe × Ifile)
  read f into = if f.it == length f.c then read_next f into else elim (get_elem? f.c f.it) [
    | none ↦ fault heap_overflow
    | some doc ↦
        let f' : Ifile = record f { t = record f.t { doc = doc }; it = f.it + 1 } in
        let into' : Tupe = record into { doc = doc } in
        let next = read_next f' into' in if doc == 0 then next else ok (true, into', f')
  ]

  unfoldable pub write : Ifile → Tupe → Outcome Ifile
  write f t = do
    let f1 = start_empty f t
    let new_term = (do
      f' ← real_write f1
      ok (record (clear f') { h = record f'.h { term = t.term } }))
    f2 ← (if t.term == f1.h.term then ok f1 else new_term)
    let f3 : Ifile = record f2 { c = f2.c ++ t.doc ∷ [] }
    let full = (do f' ← real_write f3; ok (clear f'))
    if length f3.c == capacity then full else ok f3
