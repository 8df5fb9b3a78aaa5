-- ===== src/PlainVByte/RoundTrip.antt =====
-- Decoding what the plain encoder wrote.
use csearch.Common.{ℕ, zero, suc, ◌+◌, ◌/◌, ◌%◌, ◌^◌, ◌<◌, ◌≡◌, refl, sym, ap, ap₂, ◌∙◌, arith}
use csearch.Common.{List, [], ◌∷◌, ◌++◌, All, All-append, length, drop, Option, some}
use csearch.Common.Words.{IsByte, IsU32, add32}
use csearch.StreamVByte.{>>=-eq-some, next_key, decode_data, decode_loop}
use csearch.StreamVByte.{svb_decode_scalar_d1_init, delta_encode, delta_decode, key_len}
use csearch.StreamVByte.Bounds.{delta_encode-IsByte}
use csearch.StreamVByte.RoundTrip.{decode-encode}
use csearch.StreamVByte.Words.{decode_data-IsU32}
use csearch.PlainVByte.{plain_decode_loop, svb_decode_scalar, encode, decode}
use csearch.PlainVByte.Sums.{sums, differences, sub32-add32, differences-sums, sums-IsU32}
use csearch.PlainVByte.Sums.{length-sums, encode-sums}

some_pair :
    {a c b d : List ℕ}
    → ◌≡◌ {A = Option (List ℕ × List ℕ)} (some (a, b)) (some (c, d))
    → (a ≡ c) × (b ≡ d)
some_pair h = (cc, cc)

-- Where the delta decoder returns values, the plain one returns their differences.
loop-differences :
    (n shift key : ℕ) (keys p : List ℕ) (prev : ℕ) {out q : List ℕ}
    → IsU32 prev
    → All IsByte p
    → decode_loop n shift key keys p prev ≡ some (out, q)
    → plain_decode_loop n shift key keys p ≡ some (differences prev out, q)
unfolding decode_loop plain_decode_loop differences
loop-differences zero shift key keys p prev hp bytes h =
    let (a, b) = some_pair h in rw (sym a, sym b) refl
loop-differences (suc n) shift key keys p prev {out} {q} hp bytes h =
    let ((s, k, ks), e1, h1) = >>=-eq-some (next_key shift key keys) _ h in
    let ((val, p'), e2, h2) = >>=-eq-some (decode_data p (k / 2 ^ s % 4)) _ h1 in
    let val' = add32 val prev in
    let ((vs, r), e3, h3) = >>=-eq-some (decode_loop n (s + 2) k ks p' val') _ h2 in
    let (word, bytes') = decode_data-IsU32 p (k / 2 ^ s % 4) bytes e2 in
    let (a, b) = some_pair h3 in
    let rec = loop-differences n (s + 2) k ks p' val' (omega arith) bytes' e3 in
    rw (e1, e2, rec)
      (ap (λ (x : ℕ). some (x ∷ differences val' vs, r)) (sym (sub32-add32 val prev word hp))
        ∙ ap₂ (λ (o : List ℕ) (t : List ℕ). some (differences prev o, t)) a b)

scalar-differences :
    (keys p : List ℕ) (n : ℕ) {out q : List ℕ}
    → All IsByte p
    → svb_decode_scalar_d1_init keys p n 0 ≡ some (out, q)
    → svb_decode_scalar keys p n ≡ some (differences 0 out, q)
unfolding svb_decode_scalar_d1_init svb_decode_scalar differences
scalar-differences keys p zero bytes h = let (a, b) = some_pair h in rw (sym a, sym b) refl
scalar-differences [] p (suc n) bytes h = cc
scalar-differences (k ∷ keys) p (suc n) bytes h =
    loop-differences (suc n) 0 k keys p 0 (omega arith) bytes h

All-drop : (n : ℕ) (xs : List ℕ) → All IsByte xs → All IsByte (drop n xs)
All-drop zero xs h = h
All-drop (suc n) [] h = tt
All-drop (suc n) (x ∷ xs) h = All-drop n xs h.1

-- The scalar decoder reads any values back.
pub decode-encode_any :
    (xs rest : List ℕ)
    → All IsU32 xs
    → All IsByte rest
    → length xs + 3 < 2 ^ 32
    → decode (encode xs ++ rest) (length xs) ≡ some (xs, rest)
unfolding decode delta_decode
decode-encode_any xs rest h behind few =
    let ys = sums 0 xs in
    let len = length-sums 0 xs in
    let bytes = delta_encode ys 0 ++ rest in
    let back : delta_decode bytes (length xs) 0 ≡ some (ys, rest) =
      rw (sym len) (decode-encode ys rest 0 (omega arith) (sums-IsU32 0 xs) (omega arith)) in
    let all_bytes = All-append IsByte (delta_encode ys 0) rest (delta_encode-IsByte ys 0) behind in
    rw (encode-sums xs h) (
      scalar-differences bytes (drop (key_len (length xs)) bytes) (length xs)
        (All-drop (key_len (length xs)) bytes all_bytes) back
      ∙ ap (λ (t : List ℕ). some (t, rest)) (differences-sums 0 xs (omega arith) h))

-- Fewer than 32 uint32 values that `streamvbyte_encode` wrote, with any bytes behind, are read back by
-- `streamvbyte_decode`, which stops right behind them.
pub decode-encode_plain :
    (xs rest : List ℕ)
    → All IsU32 xs
    → All IsByte rest
    → length xs < 32
    → decode (encode xs ++ rest) (length xs) ≡ some (xs, rest)
decode-encode_plain xs rest h behind few = decode-encode_any xs rest h behind (omega arith)
