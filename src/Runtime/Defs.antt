-- ===== src/Runtime/Defs.antt =====
-- The interface of the codec, with the behaviour that streamvbytedelta.h documents.
use csearch.Common.{ℕ, ◌+◌, ◌^◌, ◌≤◌, ◌<◌, ◌≡◌, List, ◌++◌, Option, some, length, All}
use csearch.Common.Words.{IsU32, IsByte}

pub record Runtime : Type 0 where
  -- `streamvbyte_delta_encode(in, length, out, prev)`: the bytes written to `out`; their number is
  -- its result.
  pub delta_encode : List ℕ → ℕ → List ℕ
  -- `streamvbyte_delta_decode(in, out, length, prev)`: the values written to `out`, and the bytes
  -- behind those read; `none` if it reads behind the bytes given.
  pub delta_decode : List ℕ → ℕ → ℕ → Option (List ℕ × List ℕ)
  -- "Encode an array of a given length"; "Read `length` 32-bit integers". The vector code, which is used
  -- from 32 values on, loads up to 12 bytes behind the last one.
  pub decode-encode :
      (xs rest : List ℕ) (prev : ℕ)
      → IsU32 prev
      → All IsU32 xs
      → All IsByte rest
      → length xs + 3 < 2 ^ 32
      → (32 ≤ length xs → 12 ≤ length rest)
      → delta_decode (delta_encode xs prev ++ rest) (length xs) prev ≡ some (xs, rest)
  pub delta_encode-IsByte : (xs : List ℕ) (prev : ℕ) → All IsByte (delta_encode xs prev)
  -- A byte of memory that was allocated and not written.
  pub junk : ℕ
  pub junk-IsByte : IsByte junk
