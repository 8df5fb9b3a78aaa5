-- ===== src/Tokenizer/Segments.antt =====
-- What the loop reads of the text between two breaks.
use csearch.Common.{ℕ, zero, suc, ◌+◌, ◌-◌, ◌≤◌, ◌<◌, ◌≡◌, refl, sym, ap, ◌∙◌, arith}
use csearch.Common.{
  Bool, true, false, ◌||◌, List, [], ◌∷◌, ◌++◌, some, All, length, get_elem?, set, take, drop,
}
use csearch.Common.{
  if◌then◌else◌, eq→==, ne→==, drop-get_elem?, take-set_same, length-drop, take_append_le,
}
use csearch.Common.Outcome.{ok}
use csearch.Stdio.{c_string}
use csearch.Tokenizer.{Icu, load, is_single_punct, has_space}
use native.Mathlib.Decide.{ℕ_discrete}
use mathlib.Core.Option.{some-injective}

-- The units from one position up to another.
abbrev pub segment : List ℕ → ℕ → ℕ → List ℕ
segment text start end = take (end - start) (drop start text)

pub load-some : (str : List ℕ) (k : ℕ) {c : ℕ} → get_elem? str k ≡ some c → load str k ≡ ok c
load-some str k e = rw (load, e) refl

-- A cell that is set and set back is as before.
pub set_back :
    (str : List ℕ) (k v : ℕ) {c : ℕ} → get_elem? str k ≡ some c → set (set str k v) k c ≡ str
set_back [] k v e = cc
set_back (x ∷ str) zero v {c} e = ap (λ t. t ∷ str) (sym (some-injective x c e))
set_back (x ∷ str) (suc k) v e = ap (λ t. x ∷ t) (set_back str k v e)

drop-set : (str : List ℕ) (k n v : ℕ) → k ≤ n → drop k (set str n v) ≡ set (drop k str) (n - k) v
drop-set str zero n v h = ap (λ m. set str m v) (omega arith)
drop-set [] (suc k) n v h = refl
drop-set (x ∷ str) (suc k) zero v h = absurd (omega arith)
drop-set (x ∷ str) (suc k) (suc n) v h =
    drop-set str k n v (omega arith) ∙ ap (λ m. set (drop k str) m v) (omega arith)

-- The 0 at the end of a segment is behind it.
pub segment-set :
    (str : List ℕ) (start end v : ℕ)
    → start ≤ end
    → segment (set str end v) start end ≡ segment str start end
segment-set str start end v h =
    ap (take (end - start)) (drop-set str start end v h)
    ∙ take-set_same (drop start str) (end - start) v

-- What stands behind the end of a segment does not matter.
pub segment-append :
    (text more : List ℕ) (start end : ℕ)
    → end ≤ length text
    → segment (text ++ more) start end ≡ segment text start end
segment-append text more zero end h = take_append_le (end - 0) text more (omega arith)
segment-append [] more (suc start) zero h =
    let empty : 0 - suc start ≡ 0 = omega arith in rw (empty) refl
segment-append [] more (suc start) (suc end) h = absurd (omega arith)
segment-append (c ∷ text) more (suc start) zero h =
    let empty : 0 - suc start ≡ 0 = omega arith in rw (empty) refl
segment-append (c ∷ text) more (suc start) (suc end) h =
    let less : suc end - suc start ≡ end - start = omega arith in
    rw (less) (segment-append text more start end (omega arith))

c_string-set :
    (block : List ℕ) (n : ℕ)
    → n < length block
    → All (λ c. 0 < c) (take n block)
    → c_string (set block n 0) ≡ ok (take n block)
unfolding c_string
c_string-set [] n h nz = absurd (omega arith)
c_string-set (c ∷ block) zero h nz = refl
c_string-set (c ∷ block) (suc n) h (pos, nz) =
    rw (ne→== c 0 (omega arith), c_string-set block n (omega arith) nz) refl

-- The string that is copied is the segment, if that has no unit 0.
pub c_string-segment :
    (str : List ℕ) (start end : ℕ)
    → start ≤ end
    → end < length str
    → All (λ c. 0 < c) (segment str start end)
    → c_string (drop start (set str end 0)) ≡ ok (segment str start end)
c_string-segment str start end le lt nz =
    ap c_string (drop-set str start end 0 le)
    ∙ c_string-set (drop start str) (end - start) (omega (arith, length-drop start str)) nz

module _ (icu : Icu) where
  abbrev pub any_space : List ℕ → Bool
  any_space [] = false
  any_space (c ∷ cs) = icu.u_isspace c || any_space cs

  abbrev pub is_punct : List ℕ → Bool
  is_punct (c ∷ []) = icu.u_ispunct c
  is_punct _ = false

  pub has_space_lem :
      (str : List ℕ) (n k : ℕ)
      → k + n ≤ length str
      → has_space icu str n k ≡ ok (any_space (take n (drop k str)))
  unfolding has_space
  has_space_lem str zero k h = refl
  has_space_lem str (suc n) k h =
      let (c, e, d) = drop-get_elem? str k (omega arith) in
      let next : k + 1 ≡ suc k = omega arith in
      rw (load-some str k e, d, next, has_space_lem str n (suc k) (omega arith))
        (if_or (icu.u_isspace c) (any_space (take n (drop (suc k) str))))
    where
      if_or : (a b : Bool) → (if a then ok true else ok b) ≡ ok (a || b)
      if_or true b = refl
      if_or false b = refl

  pub is_single_punct_lem :
      (str : List ℕ) (start end : ℕ)
      → start < end
      → end ≤ length str
      → is_single_punct icu str start end ≡ ok (is_punct (segment str start end))
  unfolding is_single_punct
  is_single_punct_lem str start end lt le =
      let (c, e, d) = drop-get_elem? str start (omega arith) in
      elim (ℕ_discrete end (start + 1)) [
        | yes one ↦
            let single : end - start ≡ 1 = omega arith in
            rw (eq→== end (start + 1) one, load-some str start e, single, d) refl
        | no more ↦
            let (c2, e2, d2) = drop-get_elem? str (suc start) (omega arith) in
            let several : end - start ≡ suc (suc (end - start - 2)) = omega arith in
            rw (ne→== end (start + 1) more, several, d, d2) refl
      ]
