-- ===== src/Common/Bits.antt =====
-- `|` of two words that have no bit in common is their sum.
use Prim.Native.Nat.{
  ℕ, zero, suc, ◌+◌, ◌*◌, ◌/◌, ◌%◌, ◌^◌, ◌≤◌, ◌<◌, ◌-◌, max, min, bit_or, bit_and, digits,
  bit_or-bitwise, bit_and-bitwise,
}
use mathlib.Core.Path.{◌≡◌, refl, sym, ap, ◌∙◌}
use native.Mathlib.Omega.{arith}
use native.Mathlib.Nat.{pow-suc, mod-lt, mod-eq_of_lt, div-add-mod, zero-mod, add-mul-mod_self_left}

-- The native operations recurse on binary digits, with the first word as fuel. `f` combines two
-- digits, and `z` says what is left of the second word at the end of the first.
module _ (z : ℕ → ℕ) (f : ℕ → ℕ → ℕ) where
  one_more : (n a b : ℕ) → a ≤ n → digits z f (suc n) a b ≡ digits z f n a b
  one_more zero zero b h = refl
  one_more (suc n) zero b h = refl
  one_more zero (suc a) b h = absurd (omega arith)
  one_more (suc n) (suc a) b h =
      ap (λ rest. rest * 2 + f (suc a % 2) (b % 2)) (one_more n (suc a / 2) (b / 2) (omega arith))

  spare_fuel : (d a b : ℕ) → digits z f (d + a) a b ≡ digits z f a a b
  spare_fuel zero a b = ap (λ n. digits z f n a b) (omega arith)
  spare_fuel (suc d) a b =
      ap (λ n. digits z f n a b) {y = suc (d + a)} (omega arith)
      ∙ one_more (d + a) a b (omega arith)
      ∙ spare_fuel d a b

  lowest_digit :
      (a b : ℕ)
      → digits z f (suc a) (suc a) b
        ≡ digits z f (suc a / 2) (suc a / 2) (b / 2) * 2 + f (suc a % 2) (b % 2)
  lowest_digit a b =
      let half = suc a / 2 in
      let fuel : digits z f a half (b / 2) ≡ digits z f (a - half + half) half (b / 2) =
        ap (λ n. digits z f n half (b / 2)) (omega arith) in
      ap (λ rest. rest * 2 + f (suc a % 2) (b % 2)) (fuel ∙ spare_fuel (a - half) half (b / 2))

zero-bit_or : (b : ℕ) → bit_or 0 b ≡ b
zero-bit_or b = bit_or-bitwise 0 b

bit_or_step : (a b : ℕ) → bit_or a b ≡ bit_or (a / 2) (b / 2) * 2 + max (a % 2) (b % 2)
bit_or_step zero b = omega (arith, zero-bit_or b, zero-bit_or (b / 2))
bit_or_step (suc a) b =
    let low = lowest_digit (λ c. c) max a b in
    omega (arith, low, bit_or-bitwise (suc a) b, bit_or-bitwise (suc a / 2) (b / 2))

pub bit_or_disjoint : (k x b : ℕ) → x < 2 ^ k → bit_or x (b * 2 ^ k) ≡ x + b * 2 ^ k
bit_or_disjoint zero zero b h = omega (arith, zero-bit_or (b * 1))
bit_or_disjoint zero (suc x) b h = absurd (omega arith)
bit_or_disjoint (suc k) x b h =
    bit_or_step x (b * 2 ^ suc k)
    ∙ rw half (
        omega (
          arith,
          ap (λ (t : ℕ). b * t) (pow-suc 2 k),
          pow-suc 2 k,
          bit_or_disjoint k (x / 2) b (omega (arith, pow-suc 2 k)),
        ))
  where
    half : b * 2 ^ suc k / 2 ≡ b * 2 ^ k
    half = omega (arith, ap (λ (t : ℕ). b * t) (pow-suc 2 k))

le-bit_or_fuel : (n a b : ℕ) → a ≤ n → a ≤ bit_or a b
le-bit_or_fuel zero a b h = omega arith
le-bit_or_fuel (suc n) zero b h = omega arith
le-bit_or_fuel (suc n) (suc a) b h =
    omega (arith, bit_or_step (suc a) b, le-bit_or_fuel n (suc a / 2) (b / 2) (omega arith))

pub le-bit_or : (a b : ℕ) → a ≤ bit_or a b
le-bit_or a b = le-bit_or_fuel a a b (omega arith)

pub bit_or-lt : (k a b : ℕ) → a < 2 ^ k → b < 2 ^ k → bit_or a b < 2 ^ k
bit_or-lt zero zero b ha hb = omega (arith, zero-bit_or b)
bit_or-lt zero (suc a) b ha hb = absurd (omega arith)
bit_or-lt (suc k) a b ha hb = omega (
  arith,
  bit_or_step a b,
  pow-suc 2 k,
  bit_or-lt k (a / 2) (b / 2) (omega (arith, pow-suc 2 k)) (omega (arith, pow-suc 2 k)),
)

le-bit_or_right_fuel : (n a b : ℕ) → a ≤ n → b ≤ bit_or a b
le-bit_or_right_fuel n zero b h = omega (arith, zero-bit_or b)
le-bit_or_right_fuel zero (suc a) b h = absurd (omega arith)
le-bit_or_right_fuel (suc n) (suc a) b h =
    omega (arith, bit_or_step (suc a) b, le-bit_or_right_fuel n (suc a / 2) (b / 2) (omega arith))

pub le-bit_or_right : (a b : ℕ) → b ≤ bit_or a b
le-bit_or_right a b = le-bit_or_right_fuel a a b (omega arith)

bit_or-zero_fuel : (n a : ℕ) → a ≤ n → bit_or a 0 ≡ a
bit_or-zero_fuel n zero h = zero-bit_or 0
bit_or-zero_fuel zero (suc a) h = absurd (omega arith)
bit_or-zero_fuel (suc n) (suc a) h =
    omega (arith, bit_or_step (suc a) 0, bit_or-zero_fuel n (suc a / 2) (omega arith))

bit_or-zero : (a : ℕ) → bit_or a 0 ≡ a
bit_or-zero a = bit_or-zero_fuel a a (omega arith)

-- Bits behind those of the second word stay as they are.
pub bit_or-high :
    (k a low z : ℕ)
    → low < 2 ^ k
    → z < 2 ^ k
    → bit_or (a * 2 ^ k + low) z ≡ a * 2 ^ k + bit_or low z
bit_or-high zero a zero zero hl hz = omega (arith, bit_or-zero (a * 2 ^ 0 + 0), bit_or-zero 0)
bit_or-high zero a (suc low) z hl hz = absurd (omega arith)
bit_or-high zero a zero (suc z) hl hz = absurd (omega arith)
bit_or-high (suc k) a low z hl hz =
    bit_or_step (a * 2 ^ suc k + low) z
    ∙ rw half (
        omega (
          arith,
          ap (λ (t : ℕ). a * t) (pow-suc 2 k),
          pow-suc 2 k,
          bit_or_step low z,
          bit_or-high k a (low / 2) (z / 2) (omega (arith, pow-suc 2 k))
              (omega (arith, pow-suc 2 k)),
        ))
  where
    half : (a * 2 ^ suc k + low) / 2 ≡ a * 2 ^ k + low / 2
    half = omega (arith, ap (λ (t : ℕ). a * t) (pow-suc 2 k))

bit_and_step :
    (a b : ℕ) → bit_and (suc a) b ≡ bit_and (suc a / 2) (b / 2) * 2 + min (suc a % 2) (b % 2)
bit_and_step a b =
    let low = lowest_digit (λ c. zero) min a b in
    omega (arith, low, bit_and-bitwise (suc a) b, bit_and-bitwise (suc a / 2) (b / 2))

zero-bit_and : (b : ℕ) → bit_and 0 b ≡ 0
zero-bit_and b = bit_and-bitwise 0 b

bit_and-zero_fuel : (n a : ℕ) → a ≤ n → bit_and a 0 ≡ 0
bit_and-zero_fuel n zero h = zero-bit_and 0
bit_and-zero_fuel zero (suc a) h = absurd (omega arith)
bit_and-zero_fuel (suc n) (suc a) h =
    omega (arith, bit_and_step a 0, bit_and-zero_fuel n (suc a / 2) (omega arith))

pub pow_pos : (k : ℕ) → 0 < 2 ^ k
pow_pos zero = omega arith
pow_pos (suc k) = omega (arith, pow-suc 2 k, pow_pos k)

double_mod : (y k : ℕ) → y / 2 % 2 ^ k * 2 + y % 2 ≡ y % 2 ^ suc k
double_mod y k =
    let r = y / 2 % 2 ^ k in
    let q = y / 2 / 2 ^ k in
    let split : 2 ^ k * q + r ≡ y / 2 = div-add-mod (y / 2) (2 ^ k) in
    let twice : 2 ^ suc k * q ≡ 2 * (2 ^ k * q) = rw (pow-suc 2 k) (grind arith) in
    let whole : y ≡ (r * 2 + y % 2) + 2 ^ suc k * q = omega arith in
    let small : r < 2 ^ k = mod-lt (y / 2) (pow_pos k) in
    sym (
      ap (λ (t : ℕ). t % 2 ^ suc k) whole
      ∙ add-mul-mod_self_left (r * 2 + y % 2) (2 ^ suc k) q
      ∙ mod-eq_of_lt (omega (arith, pow-suc 2 k)))

-- A mask of `k` bits is a remainder.
pub bit_and-mask : (k x : ℕ) → bit_and x (2 ^ k - 1) ≡ x % 2 ^ k
bit_and-mask zero x = omega (arith, bit_and-zero_fuel x x (omega arith))
bit_and-mask (suc k) zero = zero-bit_and (2 ^ suc k - 1) ∙ sym (zero-mod (2 ^ suc k))
bit_and-mask (suc k) (suc x) =
    let half : (2 ^ suc k - 1) / 2 ≡ 2 ^ k - 1 = omega (arith, pow-suc 2 k, pow_pos k) in
    let odd : (2 ^ suc k - 1) % 2 ≡ 1 = omega (arith, pow-suc 2 k, pow_pos k) in
    bit_and_step x (2 ^ suc k - 1)
    ∙ rw (half, odd, bit_and-mask k (suc x / 2)) (omega (arith, double_mod (suc x) k))

-- A power of two has no bit in common with its predecessor.
pub bit_and-pow : (k : ℕ) → bit_and (2 ^ k - 1) (2 ^ k) ≡ 0
bit_and-pow zero = zero-bit_and 1
bit_and-pow (suc k) =
    let m = 2 ^ suc k - 2 in
    let pred : 2 ^ suc k - 1 ≡ suc m = omega (arith, pow-suc 2 k, pow_pos k) in
    let low : suc m / 2 ≡ 2 ^ k - 1 = omega (arith, pow-suc 2 k, pow_pos k) in
    let half : 2 ^ suc k / 2 ≡ 2 ^ k = omega (arith, pow-suc 2 k) in
    let even : 2 ^ suc k % 2 ≡ 0 = omega (arith, pow-suc 2 k) in
    ap (λ t. bit_and t (2 ^ suc k)) pred
    ∙ bit_and_step m (2 ^ suc k)
    ∙ rw (low, half, even, bit_and-pow k) (omega arith)
