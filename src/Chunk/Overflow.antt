-- ===== src/Chunk/Overflow.antt =====
-- When the block that `chunk_compress` allocates is large enough for the streamvbyte encoder.
use csearch.Common.{
  ℕ, ◌+◌, ◌*◌, ◌%◌, ◌^◌, ◌≤◌, ◌<◌, ◌≡◌, refl, Bool, true, false, arith, if◌then◌else◌, leb,
}
use csearch.Common.{List, length, lt→ltb, le→leb, leb-false}
use csearch.Common.Outcome.{Fault, ok, fault, heap_overflow, check, ◌>>◌}
use csearch.Runtime.{stream_vbyte}
use csearch.StreamVByte
use csearch.StreamVByte.{key_len}
use csearch.StreamVByte.Bounds.{data_size, length-delta_encode}
use csearch.StreamVByte.Bounds.{NarrowSteps, WideSteps, data_size-narrow, data_size-wide}
use csearch.Chunk.{Chunk, chunk_compress}
use csearch.Chunk.Laws.{IsValid, contents, length-contents}

-- Bytes needed for the values: two bits each, unless there are 2^32 - 3 or more, and the differences.
abbrev pub needed : List ℕ → ℕ
needed xs = key_len (length xs) + data_size xs 0

check-if :
    (b : Bool) (e : Fault) (x : List ℕ × ℕ) → (check b e >> ok x) ≡ (if b then ok x else fault e)
check-if true e x = refl
check-if false e x = refl

-- On a valid chunk that is not empty, and with the streamvbyte encoder, `chunk_compress` runs over
-- its block exactly if more than four bytes a value are needed; else it returns the encoded
-- values.
pub compress_exact :
    (junk : ℕ) {c : Chunk}
    → IsValid c
    → 0 < c.size
    → chunk_compress (stream_vbyte junk) c ≡ (
        if leb (needed (contents c)) (c.size * 4)
        then ok (StreamVByte.delta_encode (contents c) 0, needed (contents c) % 2 ^ 32)
        else fault heap_overflow)
unfolding chunk_compress
compress_exact junk {c} v pos =
    rw
      (
        lt→ltb 0 c.size pos,
        le→leb c.size (length c.buffer) (omega arith),
        length-delta_encode (contents c) 0 (omega (arith, length-contents v)),
      )
      (check-if (leb (needed (contents c)) (c.size * 4)) heap_overflow _)

-- A valid chunk that is not empty, whose values ascend by less than 2^24 from 0 on, is compressed
-- to the encoded values.
pub compress_narrow :
    (junk : ℕ) {c : Chunk}
    → IsValid c
    → 0 < c.size
    → NarrowSteps (contents c) 0
    → chunk_compress (stream_vbyte junk) c
      ≡ ok (StreamVByte.delta_encode (contents c) 0, needed (contents c) % 2 ^ 32)
compress_narrow junk {c} v pos narrow =
    let small : needed (contents c) ≤ c.size * 4 =
      omega (arith, data_size-narrow (contents c) 0 narrow, length-contents v) in
    rw (compress_exact junk v pos, le→leb _ _ small)

-- On a valid chunk of 1 to 2^32 - 4 values that all differ by 2^24 or more from the one before,
-- the first from 0, `chunk_compress` runs over its block.
pub compress_wide :
    (junk : ℕ) {c : Chunk}
    → IsValid c
    → 0 < c.size
    → c.size + 3 < 2 ^ 32
    → WideSteps (contents c) 0
    → chunk_compress (stream_vbyte junk) c ≡ fault heap_overflow
compress_wide junk {c} v pos few wide =
    let large : c.size * 4 < needed (contents c) =
      omega (arith, data_size-wide (contents c) 0 wide, length-contents v) in
    rw (compress_exact junk v pos, leb-false _ _ large)
