-- ===== src/Buff/Append.antt =====
-- What the two functions that add to a byte buffer do.
use csearch.Common.{ℕ, ◌+◌, ◌%◌, ◌^◌, ◌≤◌, ◌<◌, ◌≡◌, ◌≢◌, refl, sym, ap, subst, ◌∙◌, arith}
use csearch.Common.{List, [], ◌∷◌, ◌++◌, some, length, take, drop, set, get_elem?, append-nil}
use csearch.Common.{
  le→leb, lt→ltb, ne→==, length-append, length-take, length-drop, length-set, take-append,
  take-set_same, get_elem?-set,
}
use csearch.Common.Outcome.{ok}
use csearch.Runtime.{Runtime}
use csearch.Buff.{Buff, append, terminate, buff_grow, buff_cat, buff_catn}
use csearch.Buff.Laws.{IsValid, contents, buff_grow_lem}

-- The buffer after `p` was added to `b`.
pub record Added (b : Buff) (p : List ℕ) (b' : Buff) : Type 0 where
  pub valid : IsValid b'
  pub size_is : b'.size ≡ b.size + length p
  pub contents_is : contents b' ≡ contents b ++ p

append_lem :
    (p : List ℕ) {b : Buff}
    → IsValid b
    → b.size + length p < b.cap
    → (b' : Buff) × (append b p ≡ ok b') × (b'.cap ≡ b.cap) × Added b p b'
unfolding append
append_lem p {b} v room =
    let front = length-append (take b.size b.buff) p in
    let size : (b.size + length p) % 2 ^ 32 ≡ length (take b.size b.buff ++ p) =
      omega (arith, front, length-take b.size b.buff, v.allocated, v.within, v.word) in
    let rest = drop (b.size + length p) b.buff in
    (
      record b { buff = (take b.size b.buff ++ p) ++ rest; size = (b.size + length p) % 2 ^ 32 },
      rw (le→leb (b.size + length p) (length b.buff) (omega (arith, v.allocated))) refl,
      refl,
      record {
        valid = record {
          allocated = omega (
            arith,
            length-append (take b.size b.buff ++ p) rest,
            front,
            length-take b.size b.buff,
            length-drop (b.size + length p) b.buff,
            v.allocated,
          );
          within = omega arith;
          word = v.word;
        };
        size_is = omega (arith, v.word);
        contents_is = rw size (take-append (take b.size b.buff ++ p) rest);
      },
    )

module _ (r : Runtime) where
  grown :
      (p : List ℕ) {b : Buff}
      → IsValid b
      → b.size + length p < 2 ^ 30
      → (b' : Buff) × (append (buff_grow r b (length p)) p ≡ ok b')
        × (b'.size < b'.cap)
        × Added b p b'
  grown p {b} v small =
      let (v1, room, size, same) = buff_grow_lem r (length p) v small in
      let (b', e, cap, a) = append_lem p v1 (omega arith) in
      (
        b',
        e,
        omega (arith, a.size_is),
        record {
          valid = a.valid;
          size_is = omega (arith, a.size_is);
          contents_is = a.contents_is ∙ ap (λ t. t ++ p) same;
        },
      )

  -- On a valid buffer that stays below 2^30 bytes, `buff_cat` succeeds, keeps it valid, and adds the
  -- string without its final 0.
  pub buff_cat_lem :
      (p : List ℕ) {b : Buff}
      → IsValid b
      → b.size + length p < 2 ^ 30
      → (b' : Buff) × (buff_cat r b (some p) ≡ ok b') × Added b p b'
  unfolding buff_cat
  buff_cat_lem [] {b} v small = (
    b,
    refl,
    record { valid = v; size_is = omega arith; contents_is = sym (append-nil (contents b)) },
  )
  buff_cat_lem (c ∷ cs) v small = let (b', e, room, a) = grown (c ∷ cs) v small in (b', e, a)

  -- On a valid buffer that stays below 2^30 bytes, and bytes of which the first is not 0,
  -- `buff_catn` succeeds, adds the first `rsize` bytes, and puts a 0 behind them.
  pub buff_catn_lem :
      (c : ℕ) (cs : List ℕ) (rsize : ℕ) {b : Buff}
      → IsValid b
      → c ≢ 0
      → rsize ≤ length (c ∷ cs)
      → b.size + rsize < 2 ^ 30
      → (b' : Buff) × (buff_catn r b (some (c ∷ cs)) rsize ≡ ok b')
        × Added b (take rsize (c ∷ cs)) b'
        × (get_elem? b'.buff b'.size ≡ some 0)
  unfolding buff_catn terminate
  buff_catn_lem c cs rsize {b} v ne le small =
      let p : List ℕ = take rsize (c ∷ cs) in
      let len : length p ≡ rsize = omega (arith, length-take rsize (c ∷ cs)) in
      let (b1, e, room, a) = grown p v (omega arith) in
      let cells : length b1.buff ≡ b1.cap = a.valid.allocated in
      let e' : append (buff_grow r b rsize) p ≡ ok b1 =
        subst (λ (n : ℕ). append (buff_grow r b n) p ≡ ok b1) len e in
      (
        record b1 { buff = set b1.buff b1.size 0 },
        rw
            (
              ne→== c 0 ne,
              le→leb rsize (length (c ∷ cs)) le,
              e',
              lt→ltb b1.size (length b1.buff) (omega arith),
            )
            refl,
        record {
          valid = record {
            allocated = length-set b1.buff b1.size 0 ∙ cells;
            within = a.valid.within;
            word = a.valid.word;
          };
          size_is = a.size_is;
          contents_is = take-set_same b1.buff b1.size 0 ∙ a.contents_is;
        },
        get_elem?-set b1.buff b1.size 0 (omega arith),
      )
