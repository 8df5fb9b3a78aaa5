-- ===== src/PlainVByte/Avx/Scalar.antt =====
-- Four rounds of the plain scalar loop, on the bytes behind one key.
use csearch.Common.{
  ℕ, zero, suc, ◌+◌, ◌/◌, ◌%◌, ◌^◌, ◌≤◌, ◌≡◌, ◌≢◌, ne→==, refl, sym, ap, ◌∙◌, arith,
}
use csearch.Common.{List, [], ◌∷◌, Option, some, All, length, drop}
use csearch.Common.Words.{IsByte}
use csearch.Simd.{byte_at}
use csearch.StreamVByte.{◌>>=◌, >>=-eq-some, decode_data, next_key}
use csearch.StreamVByte.Words.{decode_data-length}
use csearch.StreamVByte.Avx.Quad.{value}
use csearch.StreamVByte.Avx.Scalar.{prepend, bind_four, decode_at}
use csearch.StreamVByte.Avx.Follows.{rest_eq}
use csearch.StreamVByte.Avx.Tables.{code, start}
use csearch.PlainVByte.{plain_decode_loop}

-- The scalar loop in front of a key byte.
abbrev pub plain_scalar : ℕ → List ℕ → List ℕ → Option (List ℕ × List ℕ)
plain_scalar n keys p = plain_decode_loop n 8 0 keys p

-- One round of the loop.
plain_step :
    (n s key : ℕ) (keys p : List ℕ) {x : ℕ} {p' : List ℕ}
    → s ≢ 8
    → decode_data p (key / 2 ^ s % 4) ≡ some (x, p')
    → plain_decode_loop (suc n) s key keys p
      ≡ (plain_decode_loop n (s + 2) key keys p' >>= prepend (x ∷ []))
unfolding plain_decode_loop next_key
plain_step n s key keys p h e = rw (ne→== s 8 h, e) refl

pub plain-key :
    (n key : ℕ) (keys p : List ℕ) → plain_decode_loop n 8 key keys p ≡ plain_scalar n keys p
unfolding plain_decode_loop next_key
plain-key zero key keys p = refl
plain-key (suc n) key keys p = refl

pub plain-first :
    (n key : ℕ) (keys p : List ℕ)
    → plain_decode_loop (suc n) 0 key keys p ≡ plain_scalar (suc n) (key ∷ keys) p
unfolding plain_decode_loop next_key
plain-first n key keys p = refl

abbrev pub value_of : ℕ → List ℕ → ℕ → ℕ
value_of key p i = value (byte_at p) (start key i) (code key i)

abbrev pub four_values : ℕ → List ℕ → List ℕ
four_values key p = value_of key p 0 ∷ value_of key p 1 ∷ value_of key p 2 ∷ value_of key p 3 ∷ []

pub plain-four :
    (n key : ℕ) (keys p : List ℕ)
    → All IsByte p
    → 16 ≤ length p
    → plain_scalar (suc (suc (suc (suc n)))) (key ∷ keys) p
      ≡ (plain_scalar n keys (drop (start key 4) p) >>= prepend (four_values key p))
plain-four n key keys p h long =
    let s0 =
      plain_step (suc (suc (suc n))) 0 key keys p (omega arith)
        (decode_at p 0 (code key 0) h (omega arith) (omega arith)) in
    let s1 =
      plain_step (suc (suc n)) 2 key keys (drop (start key 1) p) (omega arith)
        (decode_at p (start key 1) (code key 1) h (omega arith) (omega arith)) in
    let s2 =
      plain_step (suc n) 4 key keys (drop (start key 2) p) (omega arith)
        (decode_at p (start key 2) (code key 2) h (omega arith) (omega arith)) in
    let s3 =
      plain_step n 6 key keys (drop (start key 3) p) (omega arith)
        (decode_at p (start key 3) (code key 3) h (omega arith) (omega arith)) in
    sym (plain-first (suc (suc (suc n))) key keys p)
    ∙ (s0
        ∙ rw (s1, s2, s3, plain-key n key keys (drop (start key 4) p))
            (bind_four (plain_scalar n keys (drop (start key 4) p)) (value_of key p 0)
              (value_of key p 1) (value_of key p 2) (value_of key p 3)))

-- A scalar loop that returns has read a byte or more for each value.
pub plain-length :
    (n s key : ℕ) (keys p : List ℕ) {o q : List ℕ}
    → plain_decode_loop n s key keys p ≡ some (o, q)
    → n + length q ≤ length p
unfolding plain_decode_loop
plain-length zero s key keys p h = omega (arith, ap length (rest_eq h))
plain-length (suc n) s key keys p h =
    let ((s', k, ks), e1, h1) = >>=-eq-some (next_key s key keys) _ h in
    let ((val, p'), e2, h2) = >>=-eq-some (decode_data p (k / 2 ^ s' % 4)) _ h1 in
    let ((vs, r), e3, h3) = >>=-eq-some (plain_decode_loop n (s' + 2) k ks p') _ h2 in
    omega (
      arith,
      plain-length n (s' + 2) k ks p' e3,
      decode_data-length p (k / 2 ^ s' % 4) e2,
      ap length (rest_eq h3),
    )
