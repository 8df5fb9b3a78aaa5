-- ===== src/Chunk/Tests.antt =====
-- Concrete runs of the chunk operations, and their theorems at concrete inputs.
use csearch.Common.{◌%◌, ◌^◌, ◌≡◌, refl, arith, [], ◌∷◌, ◌++◌, ◌==◌, replicate}
use csearch.Common.Outcome.{ok, fault, heap_overflow}
use csearch.Runtime.{Runtime, stream_vbyte}
use csearch.StreamVByte
use csearch.Chunk
use csearch.Chunk.{Chunk, chunk_resize, chunk_push, chunk_compress, chunk_decompress}
use csearch.Chunk.Laws.{IsValid, contents, push-ok, push_overflow}
use csearch.Chunk.Codec.{Holds, decompress-encode}
use csearch.Chunk.Overflow.{needed, compress_narrow, compress_wide}
use csearch.Common.{length}
use csearch.Chunk.Codec.{read_block-encode}
use csearch.Chunk.Overflow.{compress_exact}
use csearch.StreamVByte.Bounds.{width, data_size}
use csearch.Chunk.{read_block}
use csearch.Stdio.{File}
use csearch.Common.{leb, if◌then◌else◌}
use csearch.StreamVByte.{encode_data, encode_loop, svb_encode_scalar_d1_init}

abbrev rt : Runtime
rt = stream_vbyte 0xa5

-- three values in a block of four
abbrev three : Chunk
three = record { size = 3; cap = 4; buffer = 10 ∷ 20 ∷ 300 ∷ 0 ∷ [] }

abbrev far : Chunk
far = record { size = 1; cap = 1; buffer = 0x1000000 ∷ [] }

abbrev full : Chunk
full = record { size = 256; cap = 256; buffer = replicate 256 7 }

three-IsValid : IsValid three
three-IsValid = omega arith

far-IsValid : IsValid far
far-IsValid = omega arith

full-IsValid : IsValid full
full-IsValid = record { allocated = refl; within = omega arith; word = omega arith }

four_pushed :
    (c : Chunk) × (chunk_push rt three 9 ≡ ok (c.size == 256, c))
    × IsValid c
    × (c.cap ≡ 256)
    × (c.size ≡ 4)
    × (contents c ≡ 10 ∷ 20 ∷ 300 ∷ 9 ∷ [])
four_pushed = push-ok rt 9 {c = three} three-IsValid (omega arith)

push_overflow_example : chunk_push rt full 9 ≡ fault heap_overflow
push_overflow_example = push_overflow rt 9 {c = full} full-IsValid refl (omega arith)

decompress-encode_example :
    (c : Chunk) × (chunk_decompress rt Chunk.empty
        (StreamVByte.delta_encode (4 ∷ 9 ∷ []) 0 ++ 1 ∷ [])
        2
      ≡ ok c)
    × Holds c (4 ∷ 9 ∷ [])
decompress-encode_example =
    decompress-encode rt (4 ∷ 9 ∷ []) (1 ∷ []) {c = Chunk.empty} (omega arith) refl (omega arith)
      (omega arith) (omega arith) (omega arith) (omega arith)

narrow_fits :
    chunk_compress rt three
    ≡ ok (StreamVByte.delta_encode (10 ∷ 20 ∷ 300 ∷ []) 0, needed (10 ∷ 20 ∷ 300 ∷ []) % 2 ^ 32)
narrow_fits = compress_narrow 0xa5 {c = three} three-IsValid (omega arith) (omega arith)

wide_overruns : chunk_compress rt far ≡ fault heap_overflow
wide_overruns = compress_wide 0xa5 {c = far} far-IsValid (omega arith) (omega arith) (omega arith)

compress_exact_example : chunk_compress rt far ≡ (
    if leb (needed (0x1000000 ∷ [])) 4
    then ok (StreamVByte.delta_encode (0x1000000 ∷ []) 0, needed (0x1000000 ∷ []) % 2 ^ 32)
    else fault heap_overflow)
compress_exact_example = compress_exact 0xa5 {c = far} far-IsValid (omega arith)

-- Five bytes are needed for that one value.
needed-far : needed (0x1000000 ∷ []) ≡ 5
unfolding data_size width
needed-far = refl

abbrev on_disk : File
on_disk = record { unread = StreamVByte.delta_encode (4 ∷ 9 ∷ []) 0 ++ 1 ∷ []; written = [] }

block_read :
    (c : Chunk) × (read_block rt on_disk 2
        (length (StreamVByte.delta_encode (4 ∷ 9 ∷ []) 0))
        Chunk.empty
      ≡ ok (record on_disk { unread = 1 ∷ [] }, c))
    × Holds c (4 ∷ 9 ∷ [])
unfolding StreamVByte.delta_encode svb_encode_scalar_d1_init encode_loop encode_data
block_read =
    read_block-encode rt (4 ∷ 9 ∷ []) (1 ∷ []) on_disk {c = Chunk.empty} (omega arith) refl
      (omega arith) (omega arith) (omega arith) (omega arith) (omega arith) refl
