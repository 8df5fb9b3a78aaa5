-- ===== src/Tool/Index/Reader.antt =====
-- `ifile::read`: what happens to a block on disk.
use csearch.Common.{ℕ, zero, suc, ◌+◌, ◌*◌, ◌%◌, ◌^◌, ◌<◌, ◌≡◌, refl, arith}
use csearch.Common.{false, List, [], ◌∷◌, ◌++◌, length, drop, eq→==}
use csearch.Common.{leb, le→leb, leb-false}
use csearch.Common.Outcome.{ok, fault, heap_overflow, check, ◌>>=◌, ◌>>◌}
use csearch.Common.Words.{IsU32}
use csearch.Stdio.{stored}
use csearch.StreamVByte.Avx.Short.{decode_one}
use csearch.Runtime.{Runtime, stream_vbyte}
use csearch.IFile.{Tupe, ChunkHead, head_bytes}
use csearch.Tool.Stream
use csearch.Tool.Stream.{FStream}
use csearch.IFile.Blocks.{head_of-head_bytes, take-head_bytes, length-head_bytes}
use csearch.Tool.Chunks.{decompress, read_block}
use csearch.Tool.Index.{Ifile, real_read, read_next, read}

module _ (junk : ℕ) where
  abbrev r : Runtime
  r = stream_vbyte junk

  decompress_one : (b n : ℕ) → n + 4 < 2 ^ 32 → decompress r (b ∷ []) (suc n) ≡ fault heap_overflow
  unfolding decompress
  decompress_one b n small = rw (decompress, decode_one b n small) refl

  -- What was read overflows the single byte, or the decoder reads behind it.
  overruns :
      (got : List ℕ) (b n : ℕ) (ifs : FStream)
      → n + 4 < 2 ^ 32
      → (check (leb (length got) (length (b ∷ []))) heap_overflow
          >> (decompress r (stored got (b ∷ [])) (suc n) >>= λ c.
              let out : FStream × List ℕ = (ifs, c) in ok out))
        ≡ fault heap_overflow
  overruns [] b n ifs small = rw (decompress_one b n small) refl
  overruns (x ∷ []) b n ifs small = rw (decompress_one x n small) refl
  overruns (x ∷ y ∷ got) b n ifs small = rw (leb-false (length (x ∷ y ∷ got)) 1 (omega arith)) refl

  pub read_block-faults :
      (ifs : FStream) (n bcount : ℕ)
      → 0 < n
      → n + 3 < 2 ^ 32
      → read_block r ifs n bcount ≡ fault heap_overflow
  unfolding read_block
  read_block-faults ifs zero bcount pos small = absurd (omega arith)
  read_block-faults ifs (suc n) bcount pos small =
      let (got, ifs') = Stream.read (suc n * 4) ifs in
      overruns got (suc n * 4 % 256) n ifs' (omega arith)

  -- A stream in front of a block.
  pub record InFront (h : ChunkHead) (fs : FStream) : Type 0 where
    pub rest : List ℕ
    pub unread_is : fs.unread ≡ head_bytes h ++ rest
    pub not_ended : fs.at_end ≡ false
    pub some_doc : 0 < h.count
    pub few : h.count + 3 < 2 ^ 32
    pub words : IsU32 h.term × IsU32 h.doc × IsU32 h.bcount

  pub real_read-faults :
      (f : Ifile) {h : ChunkHead} → InFront h f.fs → real_read r f ≡ fault heap_overflow
  unfolding real_read
  real_read-faults f {h} at =
      let (a, b, c) = at.words in
      let head =
        head_of-head_bytes h (drop (length (head_bytes h)) (head_bytes f.h)) (omega (arith, at.few))
          a b c in
      rw
        (
          at.not_ended,
          at.unread_is,
          le→leb 16 _ (length-head_bytes h at.rest),
          take-head_bytes h at.rest,
          head,
          read_block-faults _ h.count h.bcount at.some_doc at.few,
        )
        refl

  -- In front of a block, with no document left of the last one, `read` is undefined behaviour.
  pub read-faults :
      (f : Ifile) (into : Tupe) {h : ChunkHead}
      → f.it ≡ length f.c
      → InFront h f.fs
      → read r f into ≡ fault heap_overflow
  unfolding read read_next
  read-faults f into drained at = rw (eq→== f.it (length f.c) drained, real_read-faults f at) refl
