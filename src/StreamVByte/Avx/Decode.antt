-- ===== src/StreamVByte/Avx/Decode.antt =====
-- The decoder with its vector half, against the scalar decoder.
use csearch.Common.{
  ℕ, zero, suc, ◌+◌, ◌*◌, ◌/◌, ◌%◌, ◌^◌, ◌≤◌, ◌<◌, ◌≡◌, refl, sym, ap, subst, ◌∙◌, arith,
}
use csearch.Common.{
  List, [], ◌∷◌, ◌++◌, append_assoc, some, All, All-append, length, length-drop, drop, replicate,
  ◌==◌,
}
use csearch.Common.{Bool, true, false, Bool-cases, inl, inr}
use csearch.Common.Words.{IsByte, IsU32}
use csearch.Simd.{M128, lane, set1_epi32}
use csearch.Simd.Lanes.{lane-set1_epi32}
use csearch.StreamVByte.{
  key_len, next_key, decode_loop, svb_decode_scalar_d1_init, delta_encode, delta_decode,
}
use csearch.StreamVByte.Avx.{
  avx_block, avx_loop, avx_part, load_keys, svb_decode_avx_d1_init, streamvbyte_delta_decode,
}
use csearch.StreamVByte.Avx.Scalar.{scalar, All-drop, drop-drop}
use csearch.StreamVByte.Avx.Follows.{Follows, eights, of_bytes, scalar-length, pairs-Follows}
use csearch.StreamVByte.Avx.Blocks.{ones-Follows}
use csearch.StreamVByte.Bounds.{delta_encode-IsByte}
use csearch.StreamVByte.RoundTrip.{decode-encode}

zeros_of : (ks : List ℕ) → of_bytes ks ≡ 0 → ks ≡ replicate (length ks) 0
zeros_of [] h = refl
zeros_of (k ∷ ks) h =
    let k0 : k ≡ 0 = omega arith in
    let ks0 : of_bytes ks ≡ 0 = omega arith in rw k0 (ap (λ t. 0 ∷ t) (zeros_of ks ks0))

==→eq : (a b : ℕ) → (a == b) ≡ true → a ≡ b
==→eq a b h = ground arith

block-Follows :
    (last : Bool) (ks : List ℕ) (n : ℕ) (keys p : List ℕ) (prev : M128) {o q : List ℕ}
    → All IsByte ks
    → length ks ≡ 8
    → All IsByte p
    → 12 ≤ length q
    → scalar (eights 4 n) (ks ++ keys) p (lane prev 3) ≡ some (o, q)
    → Follows (avx_block last (of_bytes ks) p prev) n keys o q
unfolding avx_block
block-Follows last ks n keys p prev {o} {q} hk len bytes slack h =
    elim (Bool-cases (of_bytes ks == 0)) [
      | inl t ↦
          let same : ks ≡ replicate 8 0 =
            zeros_of ks (==→eq (of_bytes ks) 0 t) ∙ ap (λ (n : ℕ). replicate n 0) len in
          rw t (
            ones-Follows last n keys p prev bytes slack (
              subst (λ (l : List ℕ). scalar (eights 4 n) (l ++ keys) p (lane prev 3) ≡ some (o, q))
                same h))
      | inr f ↦ rw f (pairs-Follows 4 ks n keys p prev hk len bytes slack h)
    ]

-- The next eight keys.
pub load_keys_lem :
    (keys : List ℕ)
    → 8 ≤ length keys
    → All IsByte keys
    → (ks : List ℕ) × (load_keys keys ≡ some (of_bytes ks))
      × (length ks ≡ 8)
      × All IsByte ks
      × (keys ≡ ks ++ drop 8 keys)
unfolding load_keys
load_keys_lem (a ∷ b ∷ c ∷ d ∷ e ∷ f ∷ g ∷ h ∷ keys) long
      (ka, (kb, (kc, (kd, (ke, (kf, (kg, (kh, r)))))))) =
    (
      a ∷ b ∷ c ∷ d ∷ e ∷ f ∷ g ∷ h ∷ [],
      ap (λ (x : ℕ). some x) (omega arith),
      refl,
      omega arith,
      refl,
    )
load_keys_lem [] long r = absurd (omega arith)
load_keys_lem (_ ∷ []) long r = absurd (omega arith)
load_keys_lem (_ ∷ _ ∷ []) long r = absurd (omega arith)
load_keys_lem (_ ∷ _ ∷ _ ∷ []) long r = absurd (omega arith)
load_keys_lem (_ ∷ _ ∷ _ ∷ _ ∷ []) long r = absurd (omega arith)
load_keys_lem (_ ∷ _ ∷ _ ∷ _ ∷ _ ∷ []) long r = absurd (omega arith)
load_keys_lem (_ ∷ _ ∷ _ ∷ _ ∷ _ ∷ _ ∷ []) long r = absurd (omega arith)
load_keys_lem (_ ∷ _ ∷ _ ∷ _ ∷ _ ∷ _ ∷ _ ∷ []) long r = absurd (omega arith)

-- `32 * m` values, and `n` more.
abbrev pub blocks : ℕ → ℕ → ℕ
blocks zero n = n
blocks (suc m) n = eights 4 (blocks m n)

pub blocks_lem : (m n : ℕ) → blocks m n ≡ 32 * m + n
blocks_lem zero n = omega arith
blocks_lem (suc m) n = omega (arith, blocks_lem m n)

loop-Follows :
    (m : ℕ) (ks : List ℕ) (n : ℕ) (keys p : List ℕ) (prev : M128) {o q : List ℕ}
    → All IsByte ks
    → length ks ≡ 8
    → All IsByte keys
    → 8 * m ≤ length keys
    → All IsByte p
    → 12 ≤ length q
    → scalar (blocks (suc m) n) (ks ++ keys) p (lane prev 3) ≡ some (o, q)
    → Follows (avx_loop m (of_bytes ks) keys p prev) n (drop (8 * m) keys) o q
unfolding avx_loop
loop-Follows zero ks n keys p prev hk len hkeys long bytes slack h =
    block-Follows true ks n keys p prev hk len bytes slack h
loop-Follows (suc m) ks n keys p prev {o} {q} hk len hkeys long bytes slack h =
    let (ks', e, len', hk', split) = load_keys_lem keys (omega arith) hkeys in
    let x = block-Follows false ks (blocks (suc m) n) keys p prev hk len bytes slack h in
    let go =
      subst (λ (l : List ℕ). scalar (blocks (suc m) n) l x.p' (lane x.prev' 3) ≡ some (x.more, q))
        split x.goes_on in
    let y =
      loop-Follows m ks' n (drop 8 keys) x.p' x.prev' hk' len' (All-drop 8 keys hkeys)
        (omega (arith, length-drop 8 keys)) x.bytes slack go in
    let all : 8 + 8 * m ≡ 8 * suc m = omega arith in
    record {
      out = x.out ++ y.out;
      p' = y.p';
      prev' = y.prev';
      more = y.more;
      returns = rw (e, x.returns, y.returns) refl;
      stored = x.stored ∙ ap (λ t. x.out ++ t) y.stored ∙ sym (append_assoc x.out y.out y.more);
      goes_on =
          subst (λ (l : List ℕ). scalar n l y.p' (lane y.prev' 3) ≡ some (y.more, q))
            (drop-drop (8 * m) 8 keys ∙ ap (λ (k : ℕ). drop k keys) all) y.goes_on;
      bytes = y.bytes;
    }

part_lem :
    (b n : ℕ) (keys p : List ℕ) (prev : ℕ) {o q : List ℕ}
    → All IsByte keys
    → 8 * b ≤ length keys
    → All IsByte p
    → IsU32 prev
    → (0 < b → 12 ≤ length q)
    → scalar (blocks b n) keys p prev ≡ some (o, q)
    → (out p' : List ℕ) × (prev' : ℕ) × (more : List ℕ) × (avx_part b keys p prev
        ≡ some (out, p', prev'))
      × (o ≡ out ++ more)
      × (scalar n (drop (8 * b) keys) p' prev' ≡ some (more, q))
unfolding avx_part
part_lem zero n keys p prev {o} {q} hkeys long bytes word slack h = ([], p, prev, o, refl, refl, h)
part_lem (suc m) n keys p prev {o} {q} hkeys long bytes word slack h =
    let (ks, e, len, hk, split) = load_keys_lem keys (omega arith) hkeys in
    let set1 = lane-set1_epi32 prev 3 (omega arith) word in
    let h1 = subst (λ (l : List ℕ). scalar (blocks (suc m) n) l p prev ≡ some (o, q)) split h in
    let h2 =
      subst (λ (x : ℕ). scalar (blocks (suc m) n) (ks ++ drop 8 keys) p x ≡ some (o, q)) (sym set1)
        h1 in
    let x =
      loop-Follows m ks n (drop 8 keys) p (set1_epi32 prev) hk len (All-drop 8 keys hkeys)
        (omega (arith, length-drop 8 keys)) bytes (slack (omega arith)) h2 in
    let all : 8 + 8 * m ≡ 8 * suc m = omega arith in
    (
      x.out,
      x.p',
      lane x.prev' 3,
      x.more,
      rw (e, x.returns) refl,
      x.stored,
      subst (λ (l : List ℕ). scalar n l x.p' (lane x.prev' 3) ≡ some (x.more, q))
          (drop-drop (8 * m) 8 keys ∙ ap (λ (k : ℕ). drop k keys) all) x.goes_on,
    )

scalar-init :
    (count : ℕ) (keys p : List ℕ) (prev : ℕ)
    → svb_decode_scalar_d1_init keys p count prev ≡ scalar count keys p prev
unfolding svb_decode_scalar_d1_init decode_loop next_key
scalar-init zero keys p prev = refl
scalar-init (suc count) [] p prev = refl
scalar-init (suc count) (key ∷ keys) p prev = refl

svb_decode_avx-eq-scalar :
    (keys p : List ℕ) (count prev : ℕ) {o q : List ℕ}
    → All IsByte keys
    → count ≤ length keys
    → All IsByte p
    → IsU32 prev
    → (32 ≤ count → 12 ≤ length q)
    → svb_decode_scalar_d1_init keys p count prev ≡ some (o, q)
    → svb_decode_avx_d1_init keys p count prev ≡ some (o, q)
unfolding svb_decode_avx_d1_init
svb_decode_avx-eq-scalar keys p count prev {o} {q} hkeys long bytes word slack h =
    let b = count / 4 / 8 in
    let n = count % 32 in
    let split : count ≡ blocks b n = omega (arith, blocks_lem b n) in
    let h1 : scalar (blocks b n) keys p prev ≡ some (o, q) =
      subst (λ (k : ℕ). scalar k keys p prev ≡ some (o, q)) split
        (sym (scalar-init count keys p prev) ∙ h) in
    let (out, p', prev', more, e, stored, go) =
      part_lem b n keys p prev hkeys (omega arith) bytes word (λ pos. slack (omega arith)) h1 in
    let rest : svb_decode_scalar_d1_init (drop (8 * b) keys) p' n prev' ≡ some (more, q) =
      scalar-init n (drop (8 * b) keys) p' prev' ∙ go in
    rw (e, rest) (ap (λ (l : List ℕ). some (l, q)) (sym stored))

-- Where the scalar decoder returns values, starting from a uint32 on bytes, and leaves 12 bytes or more
-- behind them if there are 32 values or more, `streamvbyte_delta_decode`, vector code included,
-- returns the same values and stops at the same place.
pub avx-eq-scalar :
    (bytes : List ℕ) (count prev : ℕ) {o q : List ℕ}
    → All IsByte bytes
    → IsU32 prev
    → (32 ≤ count → 12 ≤ length q)
    → delta_decode bytes count prev ≡ some (o, q)
    → streamvbyte_delta_decode bytes count prev ≡ some (o, q)
unfolding streamvbyte_delta_decode delta_decode
avx-eq-scalar bytes count prev {o} {q} h word slack e =
    let p = drop (key_len count) bytes in
    let read = scalar-length count 8 0 bytes p prev (sym (scalar-init count bytes p prev) ∙ e) in
    svb_decode_avx-eq-scalar bytes p count prev h (omega (arith, length-drop (key_len count) bytes))
      (All-drop (key_len count) bytes h) word slack e

-- For uint32 values, fewer than 2^32 - 3 of them, and a uint32 to start from, with bytes behind, 12 or
-- more if there are 32 values or more: `streamvbyte_delta_decode`, vector code included, gives the
-- encoded values back and stops right behind their bytes.
pub avx_decode-encode :
    (xs rest : List ℕ) (prev : ℕ)
    → IsU32 prev
    → All IsU32 xs
    → All IsByte rest
    → length xs + 3 < 2 ^ 32
    → (32 ≤ length xs → 12 ≤ length rest)
    → streamvbyte_delta_decode (delta_encode xs prev ++ rest) (length xs) prev ≡ some (xs, rest)
avx_decode-encode xs rest prev word words bytes fits slack =
    avx-eq-scalar (delta_encode xs prev ++ rest) (length xs) prev
      (All-append IsByte (delta_encode xs prev) rest (delta_encode-IsByte xs prev) bytes) word slack
      (decode-encode xs rest prev word words fits)
