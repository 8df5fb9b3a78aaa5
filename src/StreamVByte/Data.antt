-- ===== src/StreamVByte/Data.antt =====
-- `_decode_data` reads back the value that `_encode_data` wrote.
use csearch.Common.{ℕ, ◌+◌, ◌*◌, ◌/◌, ◌%◌, ◌^◌, ◌<◌, ◌≡◌, List, ◌++◌, some, arith, length, All}
use csearch.Common.Words.{IsByte, IsU32}
use csearch.Common.Bits.{bit_or_disjoint}
use csearch.StreamVByte.{encode_data, decode_data}

pub code-lt : (val : ℕ) → (encode_data val).0 < 4
unfolding encode_data
code-lt val = ground arith

pub encode_data-IsByte : (val : ℕ) → All IsByte (encode_data val).1
unfolding encode_data
encode_data-IsByte val = ground arith

-- One byte more than the code says.
pub length-encode_data : (val : ℕ) → length (encode_data val).1 ≡ (encode_data val).0 + 1
unfolding encode_data
length-encode_data val = ground arith

pub decode-encode_data :
    (val : ℕ) (rest : List ℕ)
    → IsU32 val
    → decode_data ((encode_data val).1 ++ rest) (encode_data val).0 ≡ some (val, rest)
unfolding encode_data decode_data
decode-encode_data val rest h =
    ground (arith, bit_or_disjoint 16 (val % 256 + val / 2 ^ 8 % 256 * 2 ^ 8) (val / 2 ^ 16 % 256))
