-- ===== src/PlainVByte/Avx/Follows.antt =====
-- What a block of vector code stores is what the plain scalar loop stores.
use csearch.Common.{
  ℕ, zero, suc, ◌+◌, ◌*◌, ◌/◌, ◌%◌, ◌^◌, ◌≤◌, ◌<◌, ◌≡◌, refl, sym, ap, subst, ◌∙◌, arith,
}
use csearch.Common.{List, [], ◌∷◌, ◌++◌, append_assoc, Option, some, All, length, length-drop, drop}
use csearch.Common.Words.{IsByte}
use csearch.Simd.{storeu_si128}
use csearch.StreamVByte.Avx.{decode_avx}
use csearch.StreamVByte.Avx.Tables.{start}
use csearch.StreamVByte.Avx.Quad.{decode_avx_lem}
use csearch.StreamVByte.Avx.Scalar.{All-drop, drop-drop}
use csearch.StreamVByte.Avx.Follows.{eights, of_bytes, split_front, three_parts}
use csearch.StreamVByte.Avx.Decode.{load_keys_lem, blocks}
use csearch.PlainVByte.Avx.{plain_decode_avx, plain_quad, plain_pairs, plain_avx_loop}
use csearch.PlainVByte.Avx.Tables.{same_lengths, same_shuffles}
use csearch.PlainVByte.Avx.Scalar.{plain_scalar, plain-four, plain-length, four_values}

-- The vector code returns, and the scalar loop, which stores `o` and stops at `q`, comes to the same
-- place with the same values stored, `n` of them still to come.
pub record PlainFollows (m : Option (List ℕ × List ℕ)) (n : ℕ) (keys o q : List ℕ) : Type 0 where
  pub out : List ℕ
  pub p' : List ℕ
  pub more : List ℕ
  pub returns : m ≡ some (out, p')
  pub stored : o ≡ out ++ more
  pub goes_on : plain_scalar n keys p' ≡ some (more, q)
  pub bytes : All IsByte p'

same_decode : (key : ℕ) (p : List ℕ) → plain_decode_avx key p ≡ decode_avx key p
unfolding plain_decode_avx decode_avx
same_decode key p = rw (same_lengths, same_shuffles) refl

quad-PlainFollows :
    (n key : ℕ) (keys p : List ℕ) {o q : List ℕ}
    → key < 256
    → All IsByte p
    → 16 ≤ length p
    → plain_scalar (suc (suc (suc (suc n)))) (key ∷ keys) p ≡ some (o, q)
    → PlainFollows (plain_quad key p) n keys o q
unfolding plain_quad
quad-PlainFollows n key keys p {o} {q} hk bytes long h =
    let p' = drop (start key 4) p in
    let (v, e, v0, v1, v2, v3) = decode_avx_lem key p hk long in
    let (more, go, front) =
      split_front (plain_scalar n keys p') (four_values key p)
        (sym (plain-four n key keys p bytes long) ∙ h) in
    record {
      out = storeu_si128 v;
      p' = p';
      more = more;
      returns = rw (same_decode key p, e) refl;
      stored = rw (v0, v1, v2, v3) front;
      goes_on = go;
      bytes = All-drop (start key 4) p bytes;
    }

pairs-PlainFollows :
    (m : ℕ) (ks : List ℕ) (n : ℕ) (keys p : List ℕ) {o q : List ℕ}
    → All IsByte ks
    → length ks ≡ 2 * m
    → All IsByte p
    → 12 ≤ length q
    → plain_scalar (eights m n) (ks ++ keys) p ≡ some (o, q)
    → PlainFollows (plain_pairs m (of_bytes ks) p) n keys o q
unfolding plain_pairs
pairs-PlainFollows zero [] n keys p {o} hk len bytes slack h = record {
  out = [];
  p' = p;
  more = o;
  returns = refl;
  stored = refl;
  goes_on = h;
  bytes = bytes;
}
pairs-PlainFollows zero (a ∷ ks) n keys p hk len bytes slack h = absurd (omega arith)
pairs-PlainFollows (suc m) [] n keys p hk len bytes slack h = absurd (omega arith)
pairs-PlainFollows (suc m) (a ∷ []) n keys p hk len bytes slack h = absurd (omega arith)
pairs-PlainFollows (suc m) (a ∷ b ∷ ks) n keys p {o} {q} (ha, (hb, hk)) len bytes slack h =
    let key1 : of_bytes (a ∷ b ∷ ks) % 256 ≡ a = omega arith in
    let key2 : of_bytes (a ∷ b ∷ ks) / 256 % 256 ≡ b = omega arith in
    let rest : of_bytes (a ∷ b ∷ ks) / 2 ^ 16 ≡ of_bytes ks = omega arith in
    let four_more = suc (suc (suc (suc (eights m n)))) in
    let x =
      quad-PlainFollows four_more a (b ∷ ks ++ keys) p ha bytes
        (omega (arith, plain-length (eights (suc m) n) 8 0 (a ∷ b ∷ ks ++ keys) p h)) h in
    let y =
      quad-PlainFollows (eights m n) b (ks ++ keys) x.p' hb x.bytes
        (omega (arith, plain-length four_more 8 0 (b ∷ ks ++ keys) x.p' x.goes_on)) x.goes_on in
    let z = pairs-PlainFollows m ks n keys y.p' hk (omega arith) y.bytes slack y.goes_on in
    record {
      out = x.out ++ (y.out ++ z.out);
      p' = z.p';
      more = z.more;
      returns = rw (key1, key2, rest, x.returns, y.returns, z.returns) refl;
      stored = three_parts x.out y.out z.out z.more x.stored y.stored z.stored;
      goes_on = z.goes_on;
      bytes = z.bytes;
    }

-- All blocks of 32 values.
pub loop-PlainFollows :
    (m : ℕ) (ks : List ℕ) (n : ℕ) (keys p : List ℕ) {o q : List ℕ}
    → All IsByte ks
    → length ks ≡ 8
    → All IsByte keys
    → 8 * m ≤ length keys
    → All IsByte p
    → 12 ≤ length q
    → plain_scalar (blocks (suc m) n) (ks ++ keys) p ≡ some (o, q)
    → PlainFollows (plain_avx_loop m (of_bytes ks) keys p) n (drop (8 * m) keys) o q
unfolding plain_avx_loop
loop-PlainFollows zero ks n keys p hk len hkeys long bytes slack h =
    pairs-PlainFollows 4 ks n keys p hk len bytes slack h
loop-PlainFollows (suc m) ks n keys p {o} {q} hk len hkeys long bytes slack h =
    let (ks', e, len', hk', split) = load_keys_lem keys (omega arith) hkeys in
    let x = pairs-PlainFollows 4 ks (blocks (suc m) n) keys p hk len bytes slack h in
    let go =
      subst (λ (l : List ℕ). plain_scalar (blocks (suc m) n) l x.p' ≡ some (x.more, q)) split
        x.goes_on in
    let y =
      loop-PlainFollows m ks' n (drop 8 keys) x.p' hk' len' (All-drop 8 keys hkeys)
        (omega (arith, length-drop 8 keys)) x.bytes slack go in
    let all : 8 + 8 * m ≡ 8 * suc m = omega arith in
    record {
      out = x.out ++ y.out;
      p' = y.p';
      more = y.more;
      returns = rw (e, x.returns, y.returns) refl;
      stored = x.stored ∙ ap (λ t. x.out ++ t) y.stored ∙ sym (append_assoc x.out y.out y.more);
      goes_on =
          subst (λ (l : List ℕ). plain_scalar n l y.p' ≡ some (y.more, q))
            (drop-drop (8 * m) 8 keys ∙ ap (λ (k : ℕ). drop k keys) all) y.goes_on;
      bytes = y.bytes;
    }
