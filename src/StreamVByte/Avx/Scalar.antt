-- ===== src/StreamVByte/Avx/Scalar.antt =====
-- Four rounds of the scalar loop, on the bytes behind one key.
use csearch.Common.{
  ℕ, zero, suc, ◌+◌, ◌*◌, ◌/◌, ◌%◌, ◌^◌, ◌≤◌, ◌<◌, ◌≡◌, ◌≢◌, ne→==, refl, sym, ap, ◌∙◌, arith,
}
use csearch.Common.{List, [], ◌∷◌, ◌++◌, Option, none, some, All, length, length-drop, drop}
use csearch.Common.Words.{IsByte, add32}
use csearch.Common.Bits.{bit_or_disjoint}
use csearch.Simd.{byte_at}
use csearch.StreamVByte.{◌>>=◌, decode_data, decode_loop, next_key, load8, load16, load24, load32}
use csearch.StreamVByte.Avx.Quad.{value}
use csearch.StreamVByte.Avx.Tables.{code, start}

decode_front :
    (q : List ℕ) (c : ℕ)
    → All IsByte q
    → c < 4
    → 4 ≤ length q
    → decode_data q c ≡ some (value (byte_at q) 0 c, drop (c + 1) q)
unfolding decode_data load8 load16 load24 load32
decode_front [] c h hc long = absurd (omega arith)
decode_front (a ∷ []) c h hc long = absurd (omega arith)
decode_front (a ∷ b ∷ []) c h hc long = absurd (omega arith)
decode_front (a ∷ b ∷ d ∷ []) c h hc long = absurd (omega arith)
decode_front (a ∷ b ∷ d ∷ e ∷ q) zero h hc long =
    ap (λ (x : ℕ). some (x, b ∷ d ∷ e ∷ q)) (omega arith)
decode_front (a ∷ b ∷ d ∷ e ∷ q) (suc zero) h hc long =
    ap (λ (x : ℕ). some (x, d ∷ e ∷ q)) (omega arith)
decode_front (a ∷ b ∷ d ∷ e ∷ q) (suc (suc zero)) (ha, (hb, (hd, h))) hc long =
    ap (λ (x : ℕ). some (x, e ∷ q)) (omega (arith, bit_or_disjoint 16 (a + b * 2 ^ 8) d))
decode_front (a ∷ b ∷ d ∷ e ∷ q) (suc (suc (suc zero))) h hc long =
    ap (λ (x : ℕ). some (x, q)) (omega arith)
decode_front q (suc (suc (suc (suc c)))) h hc long = absurd (omega arith)

pub byte_at-drop : (s j : ℕ) (p : List ℕ) → byte_at (drop s p) j ≡ byte_at p (s + j)
byte_at-drop zero j p = ap (byte_at p) (omega arith)
byte_at-drop (suc s) j [] = refl
byte_at-drop (suc s) j (b ∷ p) =
    let same : suc s + j ≡ suc (s + j) = omega arith in rw same (byte_at-drop s j p)

drop-nil : (n : ℕ) → drop {A = ℕ} n [] ≡ []
drop-nil zero = refl
drop-nil (suc n) = refl

pub drop-drop : (n m : ℕ) (p : List ℕ) → drop n (drop m p) ≡ drop (m + n) p
drop-drop n zero p = ap (λ (k : ℕ). drop k p) (omega arith)
drop-drop n (suc m) [] = drop-nil n ∙ sym (drop-nil (suc m + n))
drop-drop n (suc m) (b ∷ p) =
    let same : suc m + n ≡ suc (m + n) = omega arith in rw same (drop-drop n m p)

pub All-drop : (n : ℕ) (p : List ℕ) → All IsByte p → All IsByte (drop n p)
All-drop zero p h = h
All-drop (suc n) [] h = tt
All-drop (suc n) (b ∷ p) h = All-drop n p h.1

pub decode_at :
    (p : List ℕ) (s c : ℕ)
    → All IsByte p
    → c < 4
    → s + 4 ≤ length p
    → decode_data (drop s p) c ≡ some (value (byte_at p) s c, drop (s + (c + 1)) p)
decode_at p s c h hc long =
    decode_front (drop s p) c (All-drop s p h) hc (omega (arith, length-drop s p))
    ∙ rw drop-drop (ap (λ (x : ℕ). some (x, drop (s + (c + 1)) p)) same)
  where
    same : value (byte_at (drop s p)) 0 c ≡ value (byte_at p) s c
    same =
        let zero_on : s + 0 ≡ s = omega arith in
        rw (byte_at-drop s 0 p, byte_at-drop s 1 p, byte_at-drop s 2 p, byte_at-drop s 3 p, zero_on)
          refl

-- Values in front of what the rest of a loop stores.
abbrev pub prepend : List ℕ → List ℕ × List ℕ → Option (List ℕ × List ℕ)
prepend xs r = some (xs ++ r.0, r.1)

-- One round of the loop.
loop_step :
    (n s key : ℕ) (keys p : List ℕ) (prev : ℕ) {x : ℕ} {p' : List ℕ}
    → s ≢ 8
    → decode_data p (key / 2 ^ s % 4) ≡ some (x, p')
    → decode_loop (suc n) s key keys p prev
      ≡ (decode_loop n (s + 2) key keys p' (add32 x prev) >>= prepend (add32 x prev ∷ []))
unfolding decode_loop next_key
loop_step n s key keys p prev h e = rw (ne→== s 8 h, e) refl

-- What four rounds store, from the running sum `prev` on.
abbrev pub sum_to : ℕ → List ℕ → ℕ → ℕ → ℕ
sum_to key p prev zero = prev
sum_to key p prev (suc i) =
    add32 (value (byte_at p) (start key i) (code key i)) (sum_to key p prev i)

abbrev pub four : ℕ → List ℕ → ℕ → List ℕ
four key p prev =
    sum_to key p prev 1 ∷ sum_to key p prev 2 ∷ sum_to key p prev 3 ∷ sum_to key p prev 4 ∷ []

-- The scalar loop in front of a key byte.
abbrev pub scalar : ℕ → List ℕ → List ℕ → ℕ → Option (List ℕ × List ℕ)
scalar n keys p prev = decode_loop n 8 0 keys p prev

pub scalar-key :
    (n key : ℕ) (keys p : List ℕ) (prev : ℕ)
    → decode_loop n 8 key keys p prev ≡ scalar n keys p prev
unfolding decode_loop next_key
scalar-key zero key keys p prev = refl
scalar-key (suc n) key keys p prev = refl

pub scalar-first :
    (n key : ℕ) (keys p : List ℕ) (prev : ℕ)
    → decode_loop (suc n) 0 key keys p prev ≡ scalar (suc n) (key ∷ keys) p prev
unfolding decode_loop next_key
scalar-first n key keys p prev = refl

pub bind_four :
    (m : Option (List ℕ × List ℕ)) (a b c d : ℕ)
    → (m >>= prepend (d ∷ []) >>= prepend (c ∷ []) >>= prepend (b ∷ []) >>= prepend (a ∷ []))
      ≡ (m >>= prepend (a ∷ b ∷ c ∷ d ∷ []))
bind_four none a b c d = refl
bind_four (some r) a b c d = refl

pub scalar-four :
    (n key : ℕ) (keys p : List ℕ) (prev : ℕ)
    → All IsByte p
    → 16 ≤ length p
    → scalar (suc (suc (suc (suc n)))) (key ∷ keys) p prev
      ≡ (scalar n keys (drop (start key 4) p) (sum_to key p prev 4) >>= prepend (four key p prev))
scalar-four n key keys p prev h long =
    let s0 =
      loop_step (suc (suc (suc n))) 0 key keys p prev (omega arith)
        (decode_at p 0 (code key 0) h (omega arith) (omega arith)) in
    let s1 =
      loop_step (suc (suc n)) 2 key keys (drop (start key 1) p) (sum_to key p prev 1) (omega arith)
        (decode_at p (start key 1) (code key 1) h (omega arith) (omega arith)) in
    let s2 =
      loop_step (suc n) 4 key keys (drop (start key 2) p) (sum_to key p prev 2) (omega arith)
        (decode_at p (start key 2) (code key 2) h (omega arith) (omega arith)) in
    let s3 =
      loop_step n 6 key keys (drop (start key 3) p) (sum_to key p prev 3) (omega arith)
        (decode_at p (start key 3) (code key 3) h (omega arith) (omega arith)) in
    sym (scalar-first (suc (suc (suc n))) key keys p prev)
    ∙ (s0
        ∙ rw (s1, s2, s3, scalar-key n key keys (drop (start key 4) p) (sum_to key p prev 4))
            (bind_four (scalar n keys (drop (start key 4) p) (sum_to key p prev 4))
              (sum_to key p prev 1) (sum_to key p prev 2) (sum_to key p prev 3)
              (sum_to key p prev 4)))
