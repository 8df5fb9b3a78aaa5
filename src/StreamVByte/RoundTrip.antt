-- ===== src/StreamVByte/RoundTrip.antt =====
-- The scalar decoder reads back what the scalar encoder wrote.
use csearch.Common.{
  ℕ, suc, ◌+◌, ◌-◌, ◌*◌, ◌/◌, ◌%◌, ◌^◌, ◌≤◌, ◌<◌, ◌≡◌, refl, sym, ap, subst, ◌∙◌, arith,
}
use csearch.Common.{List, [], ◌∷◌, ◌++◌, some, length, All, ne→==, drop-append}
use csearch.Common.Words.{IsU32, sub32, add32-sub32}
use csearch.StreamVByte.{svb_encode_scalar_d1_init, svb_decode_scalar_d1_init}
use csearch.StreamVByte.{
  delta_encode, delta_decode, key_len, encode_data, encode_loop, next_key, decode_loop,
}
use csearch.StreamVByte.Data.{code-lt, decode-encode_data}
use csearch.StreamVByte.Keys.{put_code, put_code-lt, get_code}
use mathlib.Core.List.{append_assoc}
use native.Mathlib.Nat.{mod-eq_of_lt}
use native.Mathlib.Decide.{dec_lt}

-- the code of the difference between `x` and the value before it
abbrev code : ℕ → ℕ → ℕ
code x prev = (encode_data (sub32 x prev)).0

module _ (x : ℕ) (xs : List ℕ) (j key prev : ℕ) (hj : j < 4) (hk : key < 2 ^ (2 * j)) where
  abbrev key_after : ℕ
  key_after = key + code x prev * 2 ^ (2 * j)

  key_after-lt : key_after < 2 ^ (2 * (j + 1))
  key_after-lt = put_code-lt j key _ hj hk (code-lt _)

  encode_step :
      let r = encode_loop xs (2 * (j + 1)) key_after x in
      encode_loop (x ∷ xs) (2 * j) key prev ≡ (r.0, (encode_data (sub32 x prev)).1 ++ r.1)
  unfolding encode_loop
  encode_step =
      let e : 2 * (j + 1) ≡ 2 * j + 2 = omega arith in
      rw (e, ← put_code j key (code x prev) hj hk (code-lt _), ne→== (2 * j) 8 (omega arith))

  next_key-same :
      (whole : ℕ) (keys : List ℕ) → next_key (2 * j) whole keys ≡ some (2 * j, whole, keys)
  unfolding next_key
  next_key-same whole keys = rw (ne→== (2 * j) 8 (omega arith))

  decode_step :
      (n whole : ℕ) (keys p q : List ℕ)
      → IsU32 x
      → IsU32 prev
      → whole / 2 ^ (2 * j) % 4 ≡ code x prev
      → decode_loop n (2 * (j + 1)) whole keys p x ≡ some (xs, q)
      → decode_loop (suc n) (2 * j) whole keys ((encode_data (sub32 x prev)).1 ++ p) prev
        ≡ some (x ∷ xs, q)
  unfolding decode_loop
  decode_step n whole keys p q hx hp hc h =
      let e : 2 * (j + 1) ≡ 2 * j + 2 = omega arith in
      rw (
        next_key-same whole keys,
        hc,
        decode-encode_data (sub32 x prev) p (omega arith),
        add32-sub32 x prev hx hp,
        ← e,
        h,
      )

-- What the encoder's loop leaves to write from `shift = 2 * j` on: the finished key byte keeps the
-- codes that it holds already, and the decoder's loop, started there, returns the values.
record Written (xs : List ℕ) (shift key prev : ℕ) : Type 0 where
  whole : ℕ
  others : List ℕ
  keys_eq : (encode_loop xs shift key prev).0 ≡ whole ∷ others
  keeps : whole % 2 ^ shift ≡ key
  reads :
      (kr dr : List ℕ)
      → decode_loop
          (length xs)
          shift
          whole
          (others ++ kr)
          ((encode_loop xs shift key prev).1 ++ dr)
          prev
        ≡ some (xs, dr)

written_step :
    (x : ℕ) (xs : List ℕ) (j key prev : ℕ) (hj : j < 4) (hk : key < 2 ^ (2 * j))
    → IsU32 x
    → IsU32 prev
    → Written xs (2 * (j + 1)) (key_after x xs j key prev hj hk) x
    → Written (x ∷ xs) (2 * j) key prev
written_step x xs j key prev hj hk hx hp w =
    let step = encode_step x xs j key prev hj hk in
    let (c, k) = get_code j w.whole key (code x prev) hj hk (code-lt _) w.keeps in
    let bytes = (encode_data (sub32 x prev)).1 in
    let p = (encode_loop xs (2 * (j + 1)) (key_after x xs j key prev hj hk) x).1 in
    record {
      whole = w.whole;
      others = w.others;
      keys_eq = rw step w.keys_eq;
      keeps = k;
      reads = λ kr dr.
          rw (step, append_assoc bytes p dr)
            (decode_step x xs j key prev hj hk (length xs) w.whole (w.others ++ kr) (p ++ dr) dr hx
              hp c (w.reads kr dr));
    }

-- A full key byte is written out, and the loop goes on as it starts.
encode_full :
    (x key prev : ℕ) (xs : List ℕ)
    → let r = encode_loop (x ∷ xs) 0 0 prev in encode_loop (x ∷ xs) 8 key prev ≡ (key ∷ r.0, r.1)
unfolding encode_loop
encode_full x key prev xs = refl

decode_full :
    (n key whole prev : ℕ) (keys p : List ℕ)
    → decode_loop (suc n) 8 key (whole ∷ keys) p prev ≡ decode_loop (suc n) 0 whole keys p prev
unfolding decode_loop next_key
decode_full n key whole prev keys p = refl

written_full :
    (x key prev : ℕ) (xs : List ℕ)
    → key < 2 ^ 8
    → Written (x ∷ xs) 0 0 prev
    → Written (x ∷ xs) 8 key prev
written_full x key prev xs hk w = record {
  whole = key;
  others = w.whole ∷ w.others;
  keys_eq = rw (encode_full x key prev xs) (ap (λ t. key ∷ t) w.keys_eq);
  keeps = mod-eq_of_lt hk;
  reads = λ kr dr.
      rw (encode_full x key prev xs)
        (decode_full (length xs) key w.whole prev (w.others ++ kr) _ ∙ w.reads kr dr);
}

written :
    (xs : List ℕ) (j key prev : ℕ)
    → j ≤ 4
    → key < 2 ^ (2 * j)
    → IsU32 prev
    → All IsU32 xs
    → Written xs (2 * j) key prev
written [] j key prev hj hk hp h = record {
  whole = key;
  others = [];
  keys_eq = unfold encode_loop in refl;
  keeps = mod-eq_of_lt hk;
  reads = unfold encode_loop decode_loop in λ kr dr. refl;
}
written (x ∷ xs) j key prev hj hk hp (hx, h) = elim (dec_lt j 4) [
  | yes q ↦ written_step x xs j key prev q hk hx hp (
      written xs (j + 1) (key_after x xs j key prev q hk) x (omega arith)
        (key_after-lt x xs j key prev q hk) hx h)
  | no q ↦
      let four : j ≡ 4 = omega arith in
      let fresh : 0 < 2 ^ (2 * 0) = omega arith in
      let start = λ (lt : 0 < 4). written_step x xs 0 0 prev lt fresh hx hp (
        written xs 1 (key_after x xs 0 0 prev lt fresh) x (omega arith)
          (key_after-lt x xs 0 0 prev lt fresh) hx h) in
      subst (λ (t : ℕ). key < 2 ^ (2 * t) → Written (x ∷ xs) (2 * t) key prev) (sym four)
        (λ k. written_full x key prev xs k (start (omega arith))) hk
]

length_keys :
    (xs : List ℕ) (j key prev : ℕ)
    → 1 ≤ j
    → j ≤ 4
    → key < 2 ^ (2 * j)
    → length (encode_loop xs (2 * j) key prev).0 ≡ (j + length xs + 3) / 4
length_keys [] j key prev lo hi hk = unfold encode_loop in omega arith
length_keys (x ∷ xs) j key prev lo hi hk = elim (dec_lt j 4) [
  | yes q ↦ rw (encode_step x xs j key prev q hk) (
      omega (
        arith,
        length_keys xs (j + 1) (key_after x xs j key prev q hk) x (omega arith) (omega arith)
            (key_after-lt x xs j key prev q hk),
      ))
  | no q ↦
      let four : j ≡ 4 = omega arith in
      let fresh : 0 < 2 ^ (2 * 0) = omega arith in
      let rest = λ (lt : 0 < 4).
        length_keys xs 1 (key_after x xs 0 0 prev lt fresh) x (omega arith) (omega arith)
          (key_after-lt x xs 0 0 prev lt fresh) in
      rw (four, encode_full x key prev xs, encode_step x xs 0 0 prev (omega arith) fresh)
        (omega (arith, rest (omega arith), four))
]

-- The keys are exactly the bytes in front of the data pointer `out + (count + 3) / 4`.
pub length-keys :
    (xs : List ℕ) (prev : ℕ) → length (svb_encode_scalar_d1_init xs prev).0 ≡ (length xs + 3) / 4
unfolding svb_encode_scalar_d1_init
length-keys [] prev = omega arith
length-keys (x ∷ xs) prev =
    let fresh : 0 < 2 ^ (2 * 0) = omega arith in
    let lt : 0 < 4 = omega arith in
    rw (encode_step x xs 0 0 prev lt fresh) (
      omega (
        arith,
        length_keys xs 1 (key_after x xs 0 0 prev lt fresh) x (omega arith) (omega arith)
            (key_after-lt x xs 0 0 prev lt fresh),
      ))

-- Keys and data in two places, each followed by anything.
decode-encode_parts :
    (xs kr dr : List ℕ) (prev : ℕ)
    → IsU32 prev
    → All IsU32 xs
    → let r = svb_encode_scalar_d1_init xs prev in
      svb_decode_scalar_d1_init (r.0 ++ kr) (r.1 ++ dr) (length xs) prev ≡ some (xs, dr)
unfolding svb_encode_scalar_d1_init svb_decode_scalar_d1_init
decode-encode_parts [] kr dr prev hp h = refl
decode-encode_parts (x ∷ xs) kr dr prev hp h =
    let w = written (x ∷ xs) 0 0 prev (omega arith) (omega arith) hp h in
    rw w.keys_eq (w.reads kr dr)

-- For fewer than 2^32 - 3 values the data start where the keys end.
pub delta_encode_parts :
    (xs : List ℕ) (prev : ℕ)
    → length xs + 3 < 2 ^ 32
    → delta_encode xs prev
      ≡ (svb_encode_scalar_d1_init xs prev).0 ++ (svb_encode_scalar_d1_init xs prev).1
unfolding delta_encode
delta_encode_parts xs prev fits =
    let r = svb_encode_scalar_d1_init xs prev in
    let over : length r.0 - key_len (length xs) ≡ 0 = omega (arith, length-keys xs prev) in
    rw over refl

-- For uint32 values, fewer than 2^32 - 3 of them, and a uint32 to start from: decoding as many
-- values as were encoded, from the same start, gives them back and stops right behind the encoded
-- bytes. The values need not ascend.
pub decode-encode :
    (xs rest : List ℕ) (prev : ℕ)
    → IsU32 prev
    → All IsU32 xs
    → length xs + 3 < 2 ^ 32
    → delta_decode (delta_encode xs prev ++ rest) (length xs) prev ≡ some (xs, rest)
unfolding delta_decode
decode-encode xs rest prev hp h fits =
    let r = svb_encode_scalar_d1_init xs prev in
    let len : key_len (length xs) ≡ length r.0 = omega (arith, length-keys xs prev) in
    rw
      (
        delta_encode_parts xs prev fits,
        append_assoc r.0 r.1 rest,
        len,
        drop-append r.0 (r.1 ++ rest),
      )
      (decode-encode_parts xs (r.1 ++ rest) rest prev hp h)
