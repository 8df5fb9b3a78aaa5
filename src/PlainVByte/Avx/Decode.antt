-- ===== src/PlainVByte/Avx/Decode.antt =====
-- streamvbyte_decode with its vector half.
use csearch.Common.{
  ℕ, zero, suc, ◌+◌, ◌*◌, ◌/◌, ◌%◌, ◌^◌, ◌≤◌, ◌<◌, ◌≡◌, refl, sym, ap, subst, ◌∙◌, arith,
}
use csearch.Common.{List, [], ◌∷◌, ◌++◌, some, All, All-append, length, length-drop, drop}
use csearch.Common.Words.{IsByte, IsU32}
use csearch.StreamVByte.{key_len, next_key}
use csearch.StreamVByte.Bounds.{delta_encode-IsByte}
use csearch.StreamVByte.Avx.Scalar.{All-drop, drop-drop}
use csearch.StreamVByte.Avx.Decode.{load_keys_lem, blocks, blocks_lem}
use csearch.PlainVByte.{plain_decode_loop, svb_decode_scalar, encode, decode}
use csearch.PlainVByte.Sums.{sums, encode-sums}
use csearch.PlainVByte.RoundTrip.{decode-encode_any}
use csearch.PlainVByte.Avx.{plain_avx_part, svb_decode_avx_simple, streamvbyte_decode}
use csearch.PlainVByte.Avx.Scalar.{plain_scalar, plain-length}
use csearch.PlainVByte.Avx.Follows.{loop-PlainFollows}

part_lem :
    (b n : ℕ) (keys p : List ℕ) {o q : List ℕ}
    → All IsByte keys
    → 8 * b ≤ length keys
    → All IsByte p
    → (0 < b → 12 ≤ length q)
    → plain_scalar (blocks b n) keys p ≡ some (o, q)
    → (out p' more : List ℕ) × (plain_avx_part b keys p ≡ some (out, p'))
      × (o ≡ out ++ more)
      × (plain_scalar n (drop (8 * b) keys) p' ≡ some (more, q))
unfolding plain_avx_part
part_lem zero n keys p {o} hkeys long bytes slack h = ([], p, o, refl, refl, h)
part_lem (suc m) n keys p {o} {q} hkeys long bytes slack h =
    let (ks, e, len, hk, split) = load_keys_lem keys (omega arith) hkeys in
    let h1 = subst (λ (l : List ℕ). plain_scalar (blocks (suc m) n) l p ≡ some (o, q)) split h in
    let x =
      loop-PlainFollows m ks n (drop 8 keys) p hk len (All-drop 8 keys hkeys)
        (omega (arith, length-drop 8 keys)) bytes (slack (omega arith)) h1 in
    let all : 8 + 8 * m ≡ 8 * suc m = omega arith in
    (
      x.out,
      x.p',
      x.more,
      rw (e, x.returns) refl,
      x.stored,
      subst (λ (l : List ℕ). plain_scalar n l x.p' ≡ some (x.more, q))
          (drop-drop (8 * m) 8 keys ∙ ap (λ (k : ℕ). drop k keys) all) x.goes_on,
    )

plain-init :
    (count : ℕ) (keys p : List ℕ) → svb_decode_scalar keys p count ≡ plain_scalar count keys p
unfolding svb_decode_scalar plain_decode_loop next_key
plain-init zero keys p = refl
plain-init (suc count) [] p = refl
plain-init (suc count) (key ∷ keys) p = refl

simple-eq-scalar :
    (keys p : List ℕ) (count : ℕ) {o q : List ℕ}
    → All IsByte keys
    → count ≤ length keys
    → All IsByte p
    → (32 ≤ count → 12 ≤ length q)
    → svb_decode_scalar keys p count ≡ some (o, q)
    → svb_decode_avx_simple keys p count ≡ some (o, q)
unfolding svb_decode_avx_simple
simple-eq-scalar keys p count {o} {q} hkeys long bytes slack h =
    let b = count / 4 / 8 in
    let n = count % 32 in
    let split : count ≡ blocks b n = omega (arith, blocks_lem b n) in
    let h1 : plain_scalar (blocks b n) keys p ≡ some (o, q) =
      subst (λ (k : ℕ). plain_scalar k keys p ≡ some (o, q)) split
        (sym (plain-init count keys p) ∙ h) in
    let (out, p', more, e, stored, go) =
      part_lem b n keys p hkeys (omega arith) bytes (λ pos. slack (omega arith)) h1 in
    let rest : svb_decode_scalar (drop (8 * b) keys) p' n ≡ some (more, q) =
      plain-init n (drop (8 * b) keys) p' ∙ go in
    rw (e, rest) (ap (λ (l : List ℕ). some (l, q)) (sym stored))

-- With the scalar decoder in place of the vector half.
decode-simple :
    (bytes : List ℕ) (count : ℕ) {o q : List ℕ}
    → All IsByte bytes
    → (32 ≤ count → 12 ≤ length q)
    → decode bytes count ≡ some (o, q)
    → streamvbyte_decode bytes count ≡ some (o, q)
unfolding streamvbyte_decode decode svb_decode_scalar
decode-simple bytes zero h slack e = e
decode-simple bytes (suc count) {o} {q} h slack e =
    let p = drop (key_len (suc count)) bytes in
    let read = plain-length (suc count) 8 0 bytes p (sym (plain-init (suc count) bytes p) ∙ e) in
    simple-eq-scalar bytes p (suc count) h (omega (arith, length-drop (key_len (suc count)) bytes))
      (All-drop (key_len (suc count)) bytes h) slack e

-- For uint32 values, fewer than 2^32 - 3 of them, that `streamvbyte_encode` wrote, with bytes behind,
-- 12 or more if there are 32 values or more: `streamvbyte_decode`, vector code included, gives the
-- values back and stops right behind their bytes.
pub streamvbyte_decode-encode :
    (xs rest : List ℕ)
    → All IsU32 xs
    → All IsByte rest
    → length xs + 3 < 2 ^ 32
    → (32 ≤ length xs → 12 ≤ length rest)
    → streamvbyte_decode (encode xs ++ rest) (length xs) ≡ some (xs, rest)
streamvbyte_decode-encode xs rest words bytes fits slack =
    let all_bytes : All IsByte (encode xs ++ rest) =
      All-append IsByte (encode xs) rest
        (subst (All IsByte) (sym (encode-sums xs words)) (delta_encode-IsByte (sums 0 xs) 0))
        bytes in
    decode-simple (encode xs ++ rest) (length xs) all_bytes slack
      (decode-encode_any xs rest words bytes fits)
