-- ===== src/Stdio.antt =====
-- The C library's binary streams, as far as tool.c uses them: a FILE opened for reading gives the
-- bytes that are left, one opened for writing keeps what was written. Writes do not fail here: the
-- code ignores the results of `fwrite`.
use csearch.Common.Outcome.{Outcome, ok, fault, heap_overflow, ◌>>=◌}
use csearch.Common.{[], ◌∷◌, ◌==◌, if◌then◌else◌}
use csearch.Common.{ℕ, Bool, List, ◌++◌, leb, ltb, length, take, drop, ◌&&◌}

pub record File : Type 0 where
  pub unread : List ℕ
  pub written : List ℕ

-- `fread(p, size, 1, file)`: the bytes that it stores at `p`, and whether it returns 1. At the end
-- of the file it stores what is there, and returns 0.
abbrev pub fread : ℕ → File → List ℕ × Bool × File
fread size f = (
  take size f.unread,
  ltb 0 size && leb size (length f.unread),
  record f { unread = drop size f.unread },
)

-- `fwrite(p, size, 1, file)`, with the bytes at `p`.
abbrev pub fwrite : List ℕ → File → File
fwrite bytes f = record f { written = f.written ++ bytes }

-- The content of a block of memory after `bytes` were stored at its start.
abbrev pub stored : List ℕ → List ℕ → List ℕ
stored bytes block = bytes ++ drop (length bytes) block

-- The string at a pointer into a block: its bytes up to the first 0.
unfoldable pub c_string : List ℕ → Outcome (List ℕ)
c_string [] = fault heap_overflow
c_string (c ∷ block) =
    let more = (do s ← c_string block; ok (c ∷ s)) in if c == 0 then ok [] else more
