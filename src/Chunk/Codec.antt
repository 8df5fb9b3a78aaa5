-- ===== src/Chunk/Codec.antt =====
-- A chunk compressed, written, read and decompressed again.
use csearch.Common.{ℕ, ◌+◌, ◌*◌, ◌%◌, ◌^◌, ◌≤◌, ◌<◌, ◌≡◌, ap, arith}
use csearch.Common.{List, ◌++◌, length, drop, replicate, All, lt→ltb, le→leb}
use csearch.Common.{
  drop_all, append-nil, take-append, drop-append, All-drop, All-replicate, length-drop,
  length-replicate,
}
use csearch.Common.Words.{IsU32, IsByte}
use csearch.Common.Outcome.{ok}
use csearch.Stdio.{File, stored}
use csearch.Runtime.{Runtime}
use csearch.Chunk.{Chunk, chunk_resize, chunk_compress, chunk_decompress, read_block}
use csearch.Chunk.Laws.{IsValid, contents, resize_lem, resize_grows}

-- A chunk that holds the values `xs` for a reader: `chunk_get` runs over them and stops.
pub record Holds (c : Chunk) (xs : List ℕ) : Type 0 where
  pub valid : IsValid c
  pub values : c.buffer ≡ xs
  pub unpushed : c.size ≡ 0

module _ (r : Runtime) where
  open r use {delta_encode, delta_decode, decode-encode, junk, junk-IsByte}

  -- Where the compressed bytes fit into the block allocated for them, they are the encoded values.
  pub compress-ok :
      {c : Chunk}
      → IsValid c
      → 0 < c.size
      → length (delta_encode (contents c) 0) ≤ c.size * 4
      → chunk_compress r c
        ≡ ok (delta_encode (contents c) 0, length (delta_encode (contents c) 0) % 2 ^ 32)
  unfolding chunk_compress
  compress-ok {c} v pos fits =
      rw (lt→ltb 0 c.size pos, le→leb c.size (length c.buffer) (omega arith), le→leb _ _ fits)

  -- Values that were encoded are decoded into the buffer, which they fill.
  pub decompress-encode :
      (xs rest : List ℕ) {c : Chunk}
      → IsValid c
      → c.size ≡ 0
      → 0 < length xs
      → length xs + 3 < 2 ^ 32
      → All IsU32 xs
      → All IsByte rest
      → (32 ≤ length xs → 12 ≤ length rest)
      → (c' : Chunk) × (chunk_decompress r c (delta_encode xs 0 ++ rest) (length xs) ≡ ok c')
        × Holds c' xs
  unfolding chunk_decompress
  decompress-encode xs rest {c} v empty pos fits words bytes slack =
      let n = length xs in
      let d = chunk_resize r c n in
      let (dv, room, same, kept) = resize_lem r n v (omega arith) in
      let cap : d.cap ≡ n = resize_grows r n c (omega arith) (omega arith) in
      let full : xs ++ drop n d.buffer ≡ xs =
        rw (drop_all n d.buffer (omega arith)) (append-nil xs) in
      (
        record d { buffer = stored xs d.buffer },
        rw (
          le→leb n (length d.buffer) (omega arith),
          decode-encode xs rest 0 (omega arith) words bytes fits slack,
        ),
        record { valid = omega (arith, ap length full); values = full; unpushed = omega arith },
      )

  -- From 32 values on, 12 of the bytes allocated for them are left behind the compressed ones.
  abbrev pub Slack : List ℕ → Type 0
  Slack xs = 32 ≤ length xs → length (delta_encode xs 0) + 12 ≤ length xs * 4

  -- On a file whose next bytes encode between 1 and 2^32 - 4 uint32 values in at most four bytes a
  -- value, with 12 to spare from 32 values on, `read_block` into a valid chunk of size 0 fills it
  -- with the values and leaves the file behind the bytes.
  pub read_block-encode :
      (xs rest : List ℕ) (file : File) {c : Chunk}
      → IsValid c
      → c.size ≡ 0
      → 0 < length xs
      → length xs + 3 < 2 ^ 32
      → All IsU32 xs
      → length (delta_encode xs 0) ≤ length xs * 4
      → Slack xs
      → file.unread ≡ delta_encode xs 0 ++ rest
      → (c' : Chunk) × (read_block r file (length xs) (length (delta_encode xs 0)) c
          ≡ ok (record file { unread = rest }, c'))
        × Holds c' xs
  unfolding read_block
  read_block-encode xs rest file {c} v empty pos fits words small slack e =
      let bytes = delta_encode xs 0 in
      let block = replicate (length xs * 4) junk in
      let (c', done, holds) =
        decompress-encode xs (drop (length bytes) block) v empty pos fits words
          (All-drop IsByte (length bytes) block
            (All-replicate IsByte (length xs * 4) junk junk-IsByte))
          (λ many. omega (
            arith,
            slack many,
            length-drop (length bytes) block,
            length-replicate (length xs * 4) junk,
          )) in
      (c', rw (e, take-append bytes rest, drop-append bytes rest, le→leb _ _ small, done), holds)
