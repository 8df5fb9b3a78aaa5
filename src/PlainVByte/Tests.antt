-- ===== src/PlainVByte/Tests.antt =====
-- The plain codec at concrete values.
use csearch.Common.{ℕ, ◌≡◌, refl, arith, List, [], ◌∷◌, ◌++◌, some}
use csearch.StreamVByte
use csearch.PlainVByte.{encode, decode, plain_encode_loop, svb_encode_scalar}
use csearch.PlainVByte.Sums.{sums, encode-sums}
use csearch.PlainVByte.RoundTrip.{decode-encode_plain}
use csearch.StreamVByte.{encode_data}

abbrev vals : List ℕ
vals = 3 ∷ 700 ∷ 2 ∷ 70000 ∷ 9 ∷ []

encode-vals : encode vals ≡ 132 ∷ 0 ∷ 3 ∷ 188 ∷ 2 ∷ 2 ∷ 112 ∷ 17 ∷ 1 ∷ 9 ∷ []
unfolding encode svb_encode_scalar plain_encode_loop encode_data
encode-vals = refl

vals_as_sums : encode vals ≡ StreamVByte.delta_encode (sums 0 vals) 0
vals_as_sums = encode-sums vals (omega arith)

decode_five : decode (encode vals ++ 1 ∷ 2 ∷ []) 5 ≡ some (vals, 1 ∷ 2 ∷ [])
decode_five = decode-encode_plain vals (1 ∷ 2 ∷ []) (omega arith) (omega arith) (omega arith)
