-- ===== src/Tool/Chunks.antt =====
-- tool::chunk of chunk.h: a vector of uint32_t with its compressed form. The vector is its values.
use csearch.Common.{ℕ, ◌*◌, ◌%◌, ◌^◌, List, [], ◌∷◌, none, some, leb, length}
use csearch.Common.Outcome.{Outcome, ok, fault, heap_overflow, check, ◌>>=◌, ◌>>◌}
use csearch.Runtime.{Runtime}
use csearch.Stdio.{stored}
use csearch.Tool.Stream
use csearch.Tool.Stream.{FStream}

module _ (r : Runtime) where
  open r use {delta_encode, delta_decode}

  -- The bytes in the new block of `size() * sizeof(value_type)`, and `bcount`.
  unfoldable pub compress : List ℕ → Outcome (List ℕ × ℕ)
  compress c = do
    let out = delta_encode c 0
    check (leb (length out) (length c * 4)) heap_overflow
    ok (out, length out % 2 ^ 32)

  -- The vector of `n` values that the decoder stores; what it held before is overwritten.
  unfoldable pub decompress : List ℕ → ℕ → Outcome (List ℕ)
  decompress cbuffer n = elim (delta_decode cbuffer n 0) [
    | none ↦ fault heap_overflow
    | some (values, rest) ↦ ok values
  ]

  -- `std::make_shared<uint8_t>(k)` is one byte with the value k. The number of compressed bytes is
  -- not used.
  unfoldable pub read_block : FStream → ℕ → ℕ → Outcome (FStream × List ℕ)
  read_block ifs n bcount = do
    let cbuffer : List ℕ = n * 4 % 256 ∷ []
    let (got, ifs') = Stream.read (n * 4) ifs
    check (leb (length got) (length cbuffer)) heap_overflow
    c ← decompress (stored got cbuffer) n
    ok (ifs', c)
