-- ===== src/StreamVByte/Avx/Tables.antt =====
-- `lengthTable` and `shuffleTable`, which streamvbytedelta.c and streamvbyte.c share word for word:
-- what they hold for a key, in terms of its four codes.
pub mod Row
pub mod Rows0
pub mod Rows64
pub mod Rows128
pub mod Rows192
use csearch.Common.{ℕ, zero, suc, ◌+◌, ◌*◌, ◌/◌, ◌%◌, ◌^◌, ◌<◌, ◌≡◌, refl, arith}
use csearch.Common.{List, [], ◌∷◌, ◌++◌, Option, none, some, Bool, true, false, ◌&&◌}
use csearch.Common.{◌==◌, leb, if◌then◌else◌, get_elem?, length, Bool-cases, inl, inr, ap, subst}
use csearch.StreamVByte.Avx.Tables.Rows0.{shuffle_rows_0}
use csearch.StreamVByte.Avx.Tables.Rows64.{shuffle_rows_64}
use csearch.StreamVByte.Avx.Tables.Rows128.{shuffle_rows_128}
use csearch.StreamVByte.Avx.Tables.Rows192.{shuffle_rows_192}

unfoldable pub length_table : List ℕ
length_table =
    4 ∷ 5 ∷ 6 ∷ 7 ∷ 5 ∷ 6 ∷ 7 ∷ 8 ∷ 6 ∷ 7 ∷ 8 ∷ 9 ∷ 7 ∷ 8 ∷ 9 ∷ 10 ∷ 5 ∷ 6 ∷ 7 ∷ 8 ∷ 6 ∷ 7 ∷ 8 ∷ 9
    ∷ 7 ∷ 8 ∷ 9 ∷ 10 ∷ 8 ∷ 9 ∷ 10 ∷ 11 ∷ 6 ∷ 7 ∷ 8 ∷ 9 ∷ 7 ∷ 8 ∷ 9 ∷ 10 ∷ 8 ∷ 9 ∷ 10 ∷ 11 ∷ 9 ∷ 10
    ∷ 11 ∷ 12 ∷ 7 ∷ 8 ∷ 9 ∷ 10 ∷ 8 ∷ 9 ∷ 10 ∷ 11 ∷ 9 ∷ 10 ∷ 11 ∷ 12 ∷ 10 ∷ 11 ∷ 12 ∷ 13 ∷ 5 ∷ 6 ∷ 7
    ∷ 8 ∷ 6 ∷ 7 ∷ 8 ∷ 9 ∷ 7 ∷ 8 ∷ 9 ∷ 10 ∷ 8 ∷ 9 ∷ 10 ∷ 11 ∷ 6 ∷ 7 ∷ 8 ∷ 9 ∷ 7 ∷ 8 ∷ 9 ∷ 10 ∷ 8 ∷ 9
    ∷ 10 ∷ 11 ∷ 9 ∷ 10 ∷ 11 ∷ 12 ∷ 7 ∷ 8 ∷ 9 ∷ 10 ∷ 8 ∷ 9 ∷ 10 ∷ 11 ∷ 9 ∷ 10 ∷ 11 ∷ 12 ∷ 10 ∷ 11
    ∷ 12 ∷ 13 ∷ 8 ∷ 9 ∷ 10 ∷ 11 ∷ 9 ∷ 10 ∷ 11 ∷ 12 ∷ 10 ∷ 11 ∷ 12 ∷ 13 ∷ 11 ∷ 12 ∷ 13 ∷ 14 ∷ 6 ∷ 7
    ∷ 8 ∷ 9 ∷ 7 ∷ 8 ∷ 9 ∷ 10 ∷ 8 ∷ 9 ∷ 10 ∷ 11 ∷ 9 ∷ 10 ∷ 11 ∷ 12 ∷ 7 ∷ 8 ∷ 9 ∷ 10 ∷ 8 ∷ 9 ∷ 10 ∷ 11
    ∷ 9 ∷ 10 ∷ 11 ∷ 12 ∷ 10 ∷ 11 ∷ 12 ∷ 13 ∷ 8 ∷ 9 ∷ 10 ∷ 11 ∷ 9 ∷ 10 ∷ 11 ∷ 12 ∷ 10 ∷ 11 ∷ 12 ∷ 13
    ∷ 11 ∷ 12 ∷ 13 ∷ 14 ∷ 9 ∷ 10 ∷ 11 ∷ 12 ∷ 10 ∷ 11 ∷ 12 ∷ 13 ∷ 11 ∷ 12 ∷ 13 ∷ 14 ∷ 12 ∷ 13 ∷ 14
    ∷ 15 ∷ 7 ∷ 8 ∷ 9 ∷ 10 ∷ 8 ∷ 9 ∷ 10 ∷ 11 ∷ 9 ∷ 10 ∷ 11 ∷ 12 ∷ 10 ∷ 11 ∷ 12 ∷ 13 ∷ 8 ∷ 9 ∷ 10 ∷ 11
    ∷ 9 ∷ 10 ∷ 11 ∷ 12 ∷ 10 ∷ 11 ∷ 12 ∷ 13 ∷ 11 ∷ 12 ∷ 13 ∷ 14 ∷ 9 ∷ 10 ∷ 11 ∷ 12 ∷ 10 ∷ 11 ∷ 12
    ∷ 13 ∷ 11 ∷ 12 ∷ 13 ∷ 14 ∷ 12 ∷ 13 ∷ 14 ∷ 15 ∷ 10 ∷ 11 ∷ 12 ∷ 13 ∷ 11 ∷ 12 ∷ 13 ∷ 14 ∷ 12 ∷ 13
    ∷ 14 ∷ 15 ∷ 13 ∷ 14 ∷ 15 ∷ 16 ∷ []

unfoldable pub shuffle_table : List (List ℕ)
unfolding shuffle_rows_0 shuffle_rows_64 shuffle_rows_128 shuffle_rows_192
shuffle_table = shuffle_rows_0 ++ (shuffle_rows_64 ++ (shuffle_rows_128 ++ shuffle_rows_192))

-- The code of value `i` in a key.
abbrev pub code : ℕ → ℕ → ℕ
code key i = key / 4 ^ i % 4

-- Where the bytes of a value come from that starts at byte `s`, 255 for a byte that is 0.
abbrev pub lane_row : ℕ → ℕ → List ℕ
lane_row s c =
    s
    ∷ (if leb 1 c then s + 1 else 255)
    ∷ (if leb 2 c then s + 2 else 255)
    ∷ (if leb 3 c then s + 3 else 255)
    ∷ []

-- The first byte of value `i`, and for `i = 4` the first byte behind all.
abbrev pub start : ℕ → ℕ → ℕ
start key zero = 0
start key (suc i) = start key i + (code key i + 1)

abbrev pub key_row : ℕ → List ℕ
key_row key =
    lane_row (start key 0) (code key 0)
    ++ (lane_row (start key 1) (code key 1)
        ++ (lane_row (start key 2) (code key 2) ++ lane_row (start key 3) (code key 3)))

list_eq : List ℕ → List ℕ → Bool
list_eq [] [] = true
list_eq (a ∷ r) (b ∷ s) = (a == b) && list_eq r s
list_eq _ _ = false

list_eq-eq : (r s : List ℕ) → list_eq r s ≡ true → r ≡ s
unfolding list_eq
list_eq-eq [] [] h = refl
list_eq-eq [] (b ∷ bs) h = cc
list_eq-eq (a ∷ r) [] h = cc
list_eq-eq (a ∷ r) (b ∷ s) h = ground (arith, list_eq-eq r s)

-- The tables agree with the codes, from key `n` on.
rows_agree : ℕ → List (List ℕ) → List ℕ → Bool
rows_agree n [] [] = true
rows_agree n (r ∷ rs) (l ∷ ls) =
    list_eq r (key_row n) && ((l == start n 4) && rows_agree (n + 1) rs ls)
rows_agree n _ _ = false

tables_agree : rows_agree 0 shuffle_table length_table ≡ true
unfolding rows_agree list_eq shuffle_table length_table
tables_agree = refl

==→eq : (a b : ℕ) → (a == b) ≡ true → a ≡ b
==→eq a b h = ground arith

&&-true : (a b : Bool) → (a && b) ≡ true → (a ≡ true) × (b ≡ true)
&&-true a b h = ground arith

rows_agree_lem :
    (n k : ℕ) (rs : List (List ℕ)) (ls : List ℕ)
    → rows_agree n rs ls ≡ true
    → k < length rs
    → (get_elem? rs k ≡ some (key_row (n + k))) × (get_elem? ls k ≡ some (start (n + k) 4))
unfolding rows_agree
rows_agree_lem n k [] ls h lt = absurd (omega arith)
rows_agree_lem n k (r ∷ rs) [] h lt = cc
rows_agree_lem n zero (r ∷ rs) (l ∷ ls) h lt =
    let (a, rest) = &&-true (list_eq r (key_row n)) _ h in
    let (b, _) = &&-true (l == start n 4) _ rest in
    let same : n + 0 ≡ n = omega arith in
    rw same (ap some (list_eq-eq r (key_row n) a), ap some (==→eq l (start n 4) b))
rows_agree_lem n (suc k) (r ∷ rs) (l ∷ ls) h lt =
    let (a, rest) = &&-true (list_eq r (key_row n)) _ h in
    let (b, more) = &&-true (l == start n 4) _ rest in
    let same : n + suc k ≡ n + 1 + k = omega arith in
    rw same (rows_agree_lem (n + 1) k rs ls more (omega arith))

length-shuffle_table : length shuffle_table ≡ 256
unfolding shuffle_table
length-shuffle_table = refl

rows_at :
    (key : ℕ)
    → key < 256
    → (get_elem? shuffle_table key ≡ some (key_row key))
      × (get_elem? length_table key ≡ some (start key 4))
rows_at key h =
    subst
      (λ (n : ℕ).
        (get_elem? shuffle_table key ≡ some (key_row n))
        × (get_elem? length_table key ≡ some (start n 4)))
      (omega arith)
      (rows_agree_lem 0 key shuffle_table length_table tables_agree
        (omega (arith, length-shuffle_table)))

pub shuffle_table_lem : (key : ℕ) → key < 256 → get_elem? shuffle_table key ≡ some (key_row key)
shuffle_table_lem key h = (rows_at key h).0

pub length_table_lem : (key : ℕ) → key < 256 → get_elem? length_table key ≡ some (start key 4)
length_table_lem key h = (rows_at key h).1
