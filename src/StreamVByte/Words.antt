-- ===== src/StreamVByte/Words.antt =====
-- The values that `_decode_data` reads from bytes are uint32_t.
use csearch.Common.{
  ◌<◌, ℕ, ◌+◌, ◌*◌, ◌^◌, ◌≡◌, List, [], ◌∷◌, Option, none, some, All, arith, subst,
}
use csearch.Common.{length, Bool-cases, inl, inr, ◌==◌}
use csearch.Common.Words.{IsByte, IsU32}
use csearch.Common.Bits.{bit_or_disjoint}
use csearch.StreamVByte.{load8, load16, load24, load32, decode_data}

-- A read that went past the end, or a uint32_t with bytes behind it.
abbrev Loaded : Option (ℕ × List ℕ) → Type 0
Loaded none = Unit {0}
Loaded (some (val, p)) = IsU32 val × All IsByte p

load8-Loaded : (p : List ℕ) → All IsByte p → Loaded (load8 p)
unfolding load8
load8-Loaded [] h = tt
load8-Loaded (a ∷ p) (ha, h) = (omega arith, h)

load16-Loaded : (p : List ℕ) → All IsByte p → Loaded (load16 p)
unfolding load16
load16-Loaded [] h = tt
load16-Loaded (a ∷ []) h = tt
load16-Loaded (a ∷ b ∷ p) (ha, (hb, h)) = (omega arith, h)

load24-Loaded : (p : List ℕ) → All IsByte p → Loaded (load24 p)
unfolding load24 load16 load8
load24-Loaded [] h = tt
load24-Loaded (a ∷ []) h = tt
load24-Loaded (a ∷ b ∷ []) h = tt
load24-Loaded (a ∷ b ∷ c ∷ p) (ha, (hb, (hc, h))) =
    (omega (arith, bit_or_disjoint 16 (a + b * 2 ^ 8) c (omega arith)), h)

load32-Loaded : (p : List ℕ) → All IsByte p → Loaded (load32 p)
unfolding load32
load32-Loaded [] h = tt
load32-Loaded (a ∷ []) h = tt
load32-Loaded (a ∷ b ∷ []) h = tt
load32-Loaded (a ∷ b ∷ c ∷ []) h = tt
load32-Loaded (a ∷ b ∷ c ∷ d ∷ p) (ha, (hb, (hc, (hd, h)))) = (omega arith, h)

decode_data-Loaded : (p : List ℕ) (code : ℕ) → All IsByte p → Loaded (decode_data p code)
unfolding decode_data
decode_data-Loaded p code h = elim (Bool-cases (code == 0)) [
  | inl t ↦ rw t (load8-Loaded p h)
  | inr f ↦ elim (Bool-cases (code == 1)) [
    | inl t ↦ rw (f, t) (load16-Loaded p h)
    | inr g ↦ elim (Bool-cases (code == 2)) [
      | inl t ↦ rw (f, g, t) (load24-Loaded p h)
      | inr k ↦ rw (f, g, k) (load32-Loaded p h)
    ]
  ]
]

pub decode_data-IsU32 :
    (p : List ℕ) (code : ℕ) {val : ℕ} {p' : List ℕ}
    → All IsByte p
    → decode_data p code ≡ some (val, p')
    → IsU32 val × All IsByte p'
decode_data-IsU32 p code h e = subst Loaded e (decode_data-Loaded p code h)

-- A read that went past the end, or one of a byte or more.
abbrev Shorter : List ℕ → Option (ℕ × List ℕ) → Type 0
Shorter p none = Unit {0}
Shorter p (some (val, p')) = length p' < length p

decode_data-Shorter : (p : List ℕ) (code : ℕ) → Shorter p (decode_data p code)
unfolding decode_data load8 load16 load24 load32
decode_data-Shorter p code = elim (Bool-cases (code == 0)) [
  | inl t ↦ rw t (shorter8 p)
  | inr f ↦ elim (Bool-cases (code == 1)) [
    | inl t ↦ rw (f, t) (shorter16 p)
    | inr g ↦ elim (Bool-cases (code == 2)) [
      | inl t ↦ rw (f, g, t) (shorter24 p)
      | inr k ↦ rw (f, g, k) (shorter32 p)
    ]
  ]
]
  where
    shorter8 : (r : List ℕ) → Shorter r (load8 r)
    shorter8 [] = tt
    shorter8 (a ∷ r) = omega arith

    shorter16 : (r : List ℕ) → Shorter r (load16 r)
    shorter16 [] = tt
    shorter16 (a ∷ []) = tt
    shorter16 (a ∷ b ∷ r) = omega arith

    shorter24 : (r : List ℕ) → Shorter r (load24 r)
    shorter24 [] = tt
    shorter24 (a ∷ []) = tt
    shorter24 (a ∷ b ∷ []) = tt
    shorter24 (a ∷ b ∷ c ∷ r) = omega arith

    shorter32 : (r : List ℕ) → Shorter r (load32 r)
    shorter32 [] = tt
    shorter32 (a ∷ []) = tt
    shorter32 (a ∷ b ∷ []) = tt
    shorter32 (a ∷ b ∷ c ∷ []) = tt
    shorter32 (a ∷ b ∷ c ∷ d ∷ r) = omega arith

pub decode_data-length :
    (p : List ℕ) (code : ℕ) {val : ℕ} {p' : List ℕ}
    → decode_data p code ≡ some (val, p')
    → length p' < length p
decode_data-length p code e = subst (Shorter p) e (decode_data-Shorter p code)
