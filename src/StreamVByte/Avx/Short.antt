-- ===== src/StreamVByte/Avx/Short.antt =====
-- The vector decoder of streamvbytedelta.c on a block that is too short.
use csearch.Common.{ℕ, zero, suc, ◌+◌, ◌*◌, ◌/◌, ◌%◌, ◌^◌, ◌<◌, ◌≡◌, refl, arith, List, Option}
use csearch.Common.{[], ◌∷◌, ◌++◌, none, some, drop, drop_all}
use csearch.StreamVByte.{
  ◌>>=◌, key_len, svb_decode_scalar_d1_init, decode_loop, next_key, decode_data,
}
use csearch.StreamVByte.Avx.{avx_part, load_keys, svb_decode_avx_d1_init, streamvbyte_delta_decode}

decode_nothing : (code : ℕ) → decode_data [] code ≡ none
unfolding decode_data
decode_nothing code = ground arith

scalar_one : (b k prev : ℕ) → svb_decode_scalar_d1_init (b ∷ []) [] (suc k) prev ≡ none
unfolding svb_decode_scalar_d1_init decode_loop next_key
scalar_one b k prev = rw (decode_nothing (b / 2 ^ 0 % 4)) refl

-- The scalar values behind `m` blocks
abbrev scalar_rest : ℕ → ℕ → ℕ → List ℕ × List ℕ × ℕ → Option (List ℕ × List ℕ)
scalar_rest b m c (out, p', prev') = do
  (out', p'') ← svb_decode_scalar_d1_init (drop (8 * m) (b ∷ [])) p' c prev'
  some (out ++ out', p'')

by_blocks : (b m c : ℕ) → (m ≡ 0 → 0 < c) → (avx_part m (b ∷ []) [] 0 >>= scalar_rest b m c) ≡ none
unfolding avx_part load_keys
by_blocks b zero zero pos = absurd (omega (arith, pos refl))
by_blocks b zero (suc c) pos = rw (scalar_one b c 0) refl
by_blocks b (suc m) c pos = refl

-- One byte is not enough for the keys of a block of 32 values, nor for a key and a value.
avx_one : (b n : ℕ) → svb_decode_avx_d1_init (b ∷ []) [] (suc n) 0 ≡ none
unfolding svb_decode_avx_d1_init
avx_one b n = by_blocks b (suc n / 4 / 8) (suc n % 32) (λ e. omega arith)

-- No value can be decoded from a single byte.
pub decode_one : (b n : ℕ) → n + 4 < 2 ^ 32 → streamvbyte_delta_decode (b ∷ []) (suc n) 0 ≡ none
unfolding streamvbyte_delta_decode
decode_one b n small =
    let gone : drop (key_len (suc n)) (b ∷ []) ≡ [] =
      drop_all (key_len (suc n)) (b ∷ []) (omega arith) in
    rw (gone) (avx_one b n)
