-- ===== src/Linked/Reopen.antt =====
-- A chunk that is compressed and decompressed.
use csearch.Common.{ℕ, ◌+◌, ◌*◌, ◌^◌, ◌<◌, ◌≡◌, refl, arith}
use csearch.Common.{
  List, none, length, drop, replicate, All, All-drop, All-replicate, length-drop, length-replicate,
}
use csearch.Common.Outcome.{ok, ◌>>=◌}
use csearch.Common.Words.{IsU32, IsByte}
use csearch.Runtime.{Runtime}
use csearch.Chunk.Codec.{Slack}
use csearch.Linked.{buffer, LinkedChunk, chunk_get, chunk_compress, chunk_decompress}
use csearch.Linked.Growth.{IsOpen, size_is, Doubles-le}
use csearch.Linked.Held.{Fits, compressed, compress-IsOpen}

module _ (r : Runtime) where
  -- An open chunk of uint32 values, one or more, that compress to four bytes each or fewer, and to
  -- 12 bytes less than that in all from 32 values on, is compressed, and decompressed to the
  -- values; but then `chunk_get` returns -1 at every offset.
  pub decompress-compress :
      (c : LinkedChunk) (xs : List ℕ)
      → IsOpen c xs
      → 0 < length xs
      → All IsU32 xs
      → Fits r xs
      → Slack r xs
      → (c' : LinkedChunk) × ((chunk_compress r c >>= λ out. chunk_decompress r out.1 (length xs))
          ≡ ok c')
        × (c'.cells ≡ buffer xs)
        × ((off : ℕ) → chunk_get c' off ≡ ok none)
  unfolding chunk_decompress chunk_get
  decompress-compress c xs o pos words fits slack =
      let small : length xs + 3 < 2 ^ 32 =
        omega (arith, size_is o, o.within, Doubles-le c.capacity o.doubles) in
      let n = length (r.delta_encode xs 0) in
      let block = replicate (length xs * 4) r.junk in
      let back =
        r.decode-encode xs (drop n block) 0 (omega arith) words
          (All-drop IsByte n block (All-replicate IsByte (length xs * 4) r.junk r.junk-IsByte))
          small
          (λ many.
            omega
              (arith, slack many, length-drop n block, length-replicate (length xs * 4) r.junk)) in
      (
        record (compressed r c xs) { cells = buffer xs },
        rw (compress-IsOpen r c xs o pos fits, back) refl,
        refl,
        λ off. refl,
      )
