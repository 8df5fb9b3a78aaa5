-- ===== src/StreamVByte/Avx/Follows.antt =====
-- What a block of vector code stores is what the scalar loop stores.
use csearch.Common.{ℕ, zero, suc, ◌+◌, ◌*◌, ◌/◌, ◌%◌, ◌^◌, ◌≤◌, ◌<◌, ◌≡◌, refl, sym, ap, ◌∙◌, arith}
use csearch.Common.{List, [], ◌∷◌, ◌++◌, append_assoc, Option, none, some, All, length, drop}
use csearch.Common.Words.{IsByte, add32}
use csearch.Simd.{M128, lane, storeu_si128}
use csearch.StreamVByte.{◌>>=◌, >>=-eq-some, decode_data, decode_loop, next_key}
use csearch.StreamVByte.Words.{decode_data-length}
use csearch.StreamVByte.Avx.{write_avx_d1, avx_quad, avx_pairs}
use csearch.StreamVByte.Avx.Tables.{start}
use csearch.StreamVByte.Avx.Quad.{decode_avx_lem, write_avx_d1_lem}
use csearch.StreamVByte.Avx.Scalar.{prepend, scalar, scalar-four, sum_to, four, All-drop}

-- The vector code returns, and the scalar loop, which stores `o` and stops at `q`, comes to the same
-- place with the same values stored, `n` of them still to come.
pub record Follows (m : Option (List ℕ × List ℕ × M128)) (n : ℕ) (keys o q : List ℕ) : Type 0 where
  pub out : List ℕ
  pub p' : List ℕ
  pub prev' : M128
  pub more : List ℕ
  pub returns : m ≡ some (out, p', prev')
  pub stored : o ≡ out ++ more
  pub goes_on : scalar n keys p' (lane prev' 3) ≡ some (more, q)
  pub bytes : All IsByte p'

pub rest_eq :
    {a b c d : List ℕ} → ◌≡◌ {A = Option (List ℕ × List ℕ)} (some (a, b)) (some (c, d)) → b ≡ d
rest_eq h = cc

-- A scalar loop that returns has read a byte or more for each value.
pub scalar-length :
    (n s key : ℕ) (keys p : List ℕ) (prev : ℕ) {o q : List ℕ}
    → decode_loop n s key keys p prev ≡ some (o, q)
    → n + length q ≤ length p
unfolding decode_loop
scalar-length zero s key keys p prev h = omega (arith, ap length (rest_eq h))
scalar-length (suc n) s key keys p prev h =
    let ((s', k, ks), e1, h1) = >>=-eq-some (next_key s key keys) _ h in
    let ((val, p'), e2, h2) = >>=-eq-some (decode_data p (k / 2 ^ s' % 4)) _ h1 in
    let ((vs, r), e3, h3) = >>=-eq-some (decode_loop n (s' + 2) k ks p' (add32 val prev)) _ h2 in
    omega (
      arith,
      scalar-length n (s' + 2) k ks p' (add32 val prev) e3,
      decode_data-length p (k / 2 ^ s' % 4) e2,
      ap length (rest_eq h3),
    )

-- What is in front of a scalar loop that returns.
pub split_front :
    (m : Option (List ℕ × List ℕ)) (xs : List ℕ) {o q : List ℕ}
    → (m >>= prepend xs) ≡ some (o, q)
    → (more : List ℕ) × (m ≡ some (more, q)) × (o ≡ xs ++ more)
split_front none xs h = cc
split_front (some (more, q')) xs h = (more, cc, cc)

pub quad-Follows :
    (n key : ℕ) (keys p : List ℕ) (prev : M128) {o q : List ℕ}
    → key < 256
    → All IsByte p
    → 16 ≤ length p
    → scalar (suc (suc (suc (suc n)))) (key ∷ keys) p (lane prev 3) ≡ some (o, q)
    → Follows (avx_quad key p prev) n keys o q
unfolding avx_quad
quad-Follows n key keys p prev {o} {q} hk bytes long h =
    let P = lane prev 3 in
    let p' = drop (start key 4) p in
    let (v, e, v0, v1, v2, v3) = decode_avx_lem key p hk long in
    let (w0, w1, w2, w3) = write_avx_d1_lem v prev in
    let (more, go, front) =
      split_front (scalar n keys p' (sum_to key p P 4)) (four key p P)
        (sym (scalar-four n key keys p P bytes long) ∙ h) in
    let x0 : lane (write_avx_d1 v prev) 0 ≡ sum_to key p P 1 = omega (arith, w0, v0) in
    let x1 : lane (write_avx_d1 v prev) 1 ≡ sum_to key p P 2 = omega (arith, w1, v0, v1) in
    let x2 : lane (write_avx_d1 v prev) 2 ≡ sum_to key p P 3 = omega (arith, w2, v0, v1, v2) in
    let x3 : lane (write_avx_d1 v prev) 3 ≡ sum_to key p P 4 = omega (arith, w3, v0, v1, v2, v3) in
    record {
      out = storeu_si128 (write_avx_d1 v prev);
      p' = p';
      prev' = write_avx_d1 v prev;
      more = more;
      returns = rw e refl;
      stored = rw (x0, x1, x2, x3) front;
      goes_on = rw x3 go;
      bytes = All-drop (start key 4) p bytes;
    }

-- `8 * m` values, and `n` more.
abbrev pub eights : ℕ → ℕ → ℕ
eights zero n = n
eights (suc m) n = suc (suc (suc (suc (suc (suc (suc (suc (eights m n))))))))

-- A number from its bytes, lowest first.
abbrev pub of_bytes : List ℕ → ℕ
of_bytes [] = 0
of_bytes (b ∷ bs) = b + of_bytes bs * 2 ^ 8

pub three_parts :
    (a b c more : List ℕ) {o o1 o2 : List ℕ}
    → o ≡ a ++ o1
    → o1 ≡ b ++ o2
    → o2 ≡ c ++ more
    → o ≡ (a ++ (b ++ c)) ++ more
three_parts a b c more h h1 h2 =
    rw (h, h1, h2, append_assoc a (b ++ c) more, append_assoc b c more) refl

pub pairs-Follows :
    (m : ℕ) (ks : List ℕ) (n : ℕ) (keys p : List ℕ) (prev : M128) {o q : List ℕ}
    → All IsByte ks
    → length ks ≡ 2 * m
    → All IsByte p
    → 12 ≤ length q
    → scalar (eights m n) (ks ++ keys) p (lane prev 3) ≡ some (o, q)
    → Follows (avx_pairs m (of_bytes ks) p prev) n keys o q
unfolding avx_pairs
pairs-Follows zero [] n keys p prev {o} {q} hk len bytes slack h = record {
  out = [];
  p' = p;
  prev' = prev;
  more = o;
  returns = refl;
  stored = refl;
  goes_on = h;
  bytes = bytes;
}
pairs-Follows zero (a ∷ ks) n keys p prev hk len bytes slack h = absurd (omega arith)
pairs-Follows (suc m) [] n keys p prev hk len bytes slack h = absurd (omega arith)
pairs-Follows (suc m) (a ∷ []) n keys p prev hk len bytes slack h = absurd (omega arith)
pairs-Follows (suc m) (a ∷ b ∷ ks) n keys p prev {o} {q} (ha, (hb, hk)) len bytes slack h =
    let key1 : of_bytes (a ∷ b ∷ ks) % 256 ≡ a = omega arith in
    let key2 : of_bytes (a ∷ b ∷ ks) / 256 % 256 ≡ b = omega arith in
    let rest : of_bytes (a ∷ b ∷ ks) / 2 ^ 16 ≡ of_bytes ks = omega arith in
    let four_more = suc (suc (suc (suc (eights m n)))) in
    let x =
      quad-Follows four_more a (b ∷ ks ++ keys) p prev ha bytes
        (omega (arith, scalar-length (eights (suc m) n) 8 0 (a ∷ b ∷ ks ++ keys) p (lane prev 3) h))
        h in
    let y =
      quad-Follows (eights m n) b (ks ++ keys) x.p' x.prev' hb x.bytes
        (omega
          (arith, scalar-length four_more 8 0 (b ∷ ks ++ keys) x.p' (lane x.prev' 3) x.goes_on))
        x.goes_on in
    let z = pairs-Follows m ks n keys y.p' y.prev' hk (omega arith) y.bytes slack y.goes_on in
    record {
      out = x.out ++ (y.out ++ z.out);
      p' = z.p';
      prev' = z.prev';
      more = z.more;
      returns = rw (key1, key2, rest, x.returns, y.returns, z.returns) refl;
      stored = three_parts x.out y.out z.out z.more x.stored y.stored z.stored;
      goes_on = z.goes_on;
      bytes = z.bytes;
    }
