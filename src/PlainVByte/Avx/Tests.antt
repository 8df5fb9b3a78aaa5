-- ===== src/PlainVByte/Avx/Tests.antt =====
-- streamvbyte_decode at concrete bytes.
use csearch.Common.{ℕ, ◌≡◌, arith, List, [], ◌∷◌, ◌++◌, some, replicate}
use csearch.PlainVByte.{encode}
use csearch.PlainVByte.Avx.{streamvbyte_decode}
use csearch.PlainVByte.Avx.Decode.{streamvbyte_decode-encode}

-- A block of 32 values, and one more.
abbrev vals : List ℕ
vals = 70000 ∷ (replicate 31 7 ++ 300 ∷ [])

streamvbyte_decode-encode_example :
    streamvbyte_decode (encode vals ++ replicate 12 9) 33 ≡ some (vals, replicate 12 9)
streamvbyte_decode-encode_example =
    streamvbyte_decode-encode vals (replicate 12 9) (omega arith) (omega arith) (omega arith)
      (λ h. omega arith)
