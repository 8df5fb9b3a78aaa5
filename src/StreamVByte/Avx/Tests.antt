-- ===== src/StreamVByte/Avx/Tests.antt =====
-- The decoder with its vector half at concrete bytes.
use csearch.Common.{ℕ, ◌≡◌, refl, arith, List, [], ◌∷◌, ◌++◌, none, some, replicate}
use csearch.StreamVByte.{delta_encode, delta_decode}
use csearch.StreamVByte.{decode_data, decode_loop, next_key, svb_decode_scalar_d1_init}
use csearch.StreamVByte.Avx.{streamvbyte_delta_decode, svb_decode_avx_d1_init, avx_part, avx_loop}
use csearch.StreamVByte.Avx.{avx_block, avx_pairs, avx_quad, decode_avx, load_keys}
use csearch.StreamVByte.Avx.Tables.{length_table, shuffle_table}
use csearch.StreamVByte.Avx.Decode.{avx-eq-scalar, avx_decode-encode}
use csearch.Simd.{loadu_si128}

-- 32 values with one of three bytes, and one more.
abbrev xs : List ℕ
xs = replicate 3 7 ++ (70000 ∷ replicate 29 70001)

avx_decode-encode_example :
    streamvbyte_delta_decode (delta_encode xs 0 ++ replicate 12 9) 33 0 ≡ some (xs, replicate 12 9)
avx_decode-encode_example =
    avx_decode-encode xs (replicate 12 9) 0 (omega arith) (omega arith) (omega arith) (omega arith)
      (λ h. omega arith)

-- 32 bytes under keys of 0.
abbrev ones : List ℕ
ones = replicate 8 0 ++ (replicate 32 1 ++ replicate 12 9)

abbrev ones_out : List ℕ
ones_out =
    11 ∷ 12 ∷ 13 ∷ 14 ∷ 15 ∷ 16 ∷ 17 ∷ 18 ∷ 19 ∷ 20 ∷ 21 ∷ 22 ∷ 23 ∷ 24 ∷ 25 ∷ 26 ∷ 27 ∷ 28 ∷ 29
    ∷ 30 ∷ 31 ∷ 32 ∷ 33 ∷ 34 ∷ 35 ∷ 36 ∷ 37 ∷ 38 ∷ 39 ∷ 40 ∷ 41 ∷ 42 ∷ []

avx-eq-scalar_example : streamvbyte_delta_decode ones 32 10 ≡ some (ones_out, replicate 12 9)
unfolding delta_decode svb_decode_scalar_d1_init decode_loop next_key decode_data
avx-eq-scalar_example = avx-eq-scalar ones 32 10 (omega arith) (omega arith) (λ h. omega arith) refl

-- 33 bytes of data with nothing behind: the last vector load of 16 bytes reads past them.
abbrev tight : List ℕ
tight = 1 ∷ (replicate 7 0 ++ replicate 33 1)

scalar_reads_tight : (o : List ℕ) × (delta_decode tight 32 0 ≡ some (o, []))
unfolding delta_decode svb_decode_scalar_d1_init decode_loop next_key decode_data
scalar_reads_tight = (
  257 ∷ 258 ∷ 259 ∷ 260 ∷ 261 ∷ 262 ∷ 263 ∷ 264 ∷ 265 ∷ 266 ∷ 267 ∷ 268 ∷ 269 ∷ 270 ∷ 271 ∷ 272
      ∷ 273 ∷ 274 ∷ 275 ∷ 276 ∷ 277 ∷ 278 ∷ 279 ∷ 280 ∷ 281 ∷ 282 ∷ 283 ∷ 284 ∷ 285 ∷ 286 ∷ 287
      ∷ 288 ∷ [],
  refl,
)

vectors_overread_tight : streamvbyte_delta_decode tight 32 0 ≡ none
unfolding streamvbyte_delta_decode svb_decode_avx_d1_init avx_part avx_loop avx_block avx_pairs
    avx_quad decode_avx load_keys length_table shuffle_table loadu_si128
vectors_overread_tight = refl
