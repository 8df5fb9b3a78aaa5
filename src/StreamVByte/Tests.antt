-- ===== src/StreamVByte/Tests.antt =====
-- Concrete runs of the codec, and its theorems at concrete inputs.
use csearch.Common.{ℕ, ◌≡◌, refl, arith, List, [], ◌∷◌, ◌++◌, some, none}
use csearch.StreamVByte.{encode_data, encode_loop, svb_encode_scalar_d1_init, delta_encode}
use csearch.StreamVByte.{
  decode_data, next_key, decode_loop, svb_decode_scalar_d1_init, delta_decode,
}
use csearch.StreamVByte.RoundTrip.{decode-encode}
use csearch.Common.{length}
use csearch.Common.{◌+◌}
use csearch.StreamVByte.Bounds.{data_size, length-delta_encode}

abbrev numbers : List ℕ
numbers = 5 ∷ 6 ∷ 300 ∷ 70000 ∷ 0x2000000 ∷ []

-- Two key bytes, then 1, 1, 2, 3 and 4 data bytes.
encode_numbers :
    delta_encode numbers 0
    ≡ 0x90 ∷ 0x03 ∷ 5 ∷ 1 ∷ 0x26 ∷ 0x01 ∷ 0x44 ∷ 0x10 ∷ 0x01 ∷ 0x90 ∷ 0xee ∷ 0xfe ∷ 0x01 ∷ []
unfolding delta_encode svb_encode_scalar_d1_init encode_loop encode_data
encode_numbers = refl

-- A value below the one before is coded as a difference that wraps.
encode_descending : delta_encode (2 ∷ 1 ∷ []) 0 ≡ 0x0c ∷ 2 ∷ 0xff ∷ 0xff ∷ 0xff ∷ 0xff ∷ []
unfolding delta_encode svb_encode_scalar_d1_init encode_loop encode_data
encode_descending = refl

decode_cut : delta_decode (0x0c ∷ 2 ∷ 0xff ∷ []) 2 0 ≡ none
unfolding delta_decode svb_decode_scalar_d1_init decode_loop next_key decode_data
decode_cut = refl

decode_numbers : delta_decode (0x04 ∷ 2 ∷ 3 ∷ 1 ∷ 9 ∷ []) 2 0 ≡ some (2 ∷ 261 ∷ [], 9 ∷ [])
unfolding delta_decode svb_decode_scalar_d1_init decode_loop next_key decode_data
decode_numbers = refl

decode-encode_example : delta_decode (delta_encode numbers 0 ++ 9 ∷ []) 5 0 ≡ some (numbers, 9 ∷ [])
decode-encode_example = decode-encode numbers (9 ∷ []) 0 (omega arith) (omega arith) (omega arith)

length-delta_encode_example : length (delta_encode numbers 0) ≡ 2 + data_size numbers 0
length-delta_encode_example = length-delta_encode numbers 0 (omega arith)
