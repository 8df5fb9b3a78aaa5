-- ===== src/Tool/Stream.antt =====
-- std::fstream of the C++ library, opened in binary mode for reading or for writing. Writes do not
-- fail: the code tests none.
use csearch.Common.{ℕ, Bool, true, List, [], ◌++◌, leb, if◌then◌else◌, length, take, drop}

-- `at_end` is the flag eofbit: a read ran into the end.
pub record FStream : Type 0 where
  pub unread : List ℕ
  pub written : List ℕ
  pub at_end : Bool

abbrev pub eof : FStream → Bool
eof fs = fs.at_end

-- `fs.read(p, size)`: the bytes that it stores at `p`. A read that gets fewer sets eofbit and
-- failbit, and after that a read gets none.
abbrev pub read : ℕ → FStream → List ℕ × FStream
read size fs =
    if fs.at_end
    then ([], fs)
    else if leb size (length fs.unread)
    then (take size fs.unread, record fs { unread = drop size fs.unread })
    else (fs.unread, record fs { unread = []; at_end = true })

-- `fs.write(p, size)`, with the bytes at `p`
abbrev pub write : List ℕ → FStream → FStream
write bytes fs = record fs { written = fs.written ++ bytes }
