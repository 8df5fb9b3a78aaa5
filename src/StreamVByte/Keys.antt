-- ===== src/StreamVByte/Keys.antt =====
-- Four 2-bit codes in a key byte: `key |= code << shift` and `(key >> shift) & 3`.
use csearch.Common.{ℕ, zero, suc, ◌+◌, ◌*◌, ◌/◌, ◌%◌, ◌^◌, ◌<◌, ◌≡◌, arith}
use csearch.Common.Bits.{bit_or_disjoint}
use Prim.Native.Nat.{bit_or}

-- The codes already in the byte stay below bit `shift`.
pub put_code :
    (j key code : ℕ)
    → j < 4
    → key < 2 ^ (2 * j)
    → code < 4
    → bit_or key (code * 2 ^ (2 * j)) % 256 ≡ key + code * 2 ^ (2 * j)
put_code zero key code hj hk hc = omega (arith, bit_or_disjoint 0 key code hk)
put_code (suc zero) key code hj hk hc = omega (arith, bit_or_disjoint 2 key code hk)
put_code (suc (suc zero)) key code hj hk hc = omega (arith, bit_or_disjoint 4 key code hk)
put_code (suc (suc (suc zero))) key code hj hk hc = omega (arith, bit_or_disjoint 6 key code hk)
put_code (suc (suc (suc (suc j)))) key code hj hk hc = absurd (omega arith)

pub put_code-lt :
    (j key code : ℕ)
    → j < 4
    → key < 2 ^ (2 * j)
    → code < 4
    → key + code * 2 ^ (2 * j) < 2 ^ (2 * (j + 1))
put_code-lt zero key code hj hk hc = omega arith
put_code-lt (suc zero) key code hj hk hc = omega arith
put_code-lt (suc (suc zero)) key code hj hk hc = omega arith
put_code-lt (suc (suc (suc zero))) key code hj hk hc = omega arith
put_code-lt (suc (suc (suc (suc j)))) key code hj hk hc = absurd (omega arith)

-- Whatever codes are added above, the code is read back, and so is what lies below it.
pub get_code :
    (j whole key code : ℕ)
    → j < 4
    → key < 2 ^ (2 * j)
    → code < 4
    → whole % 2 ^ (2 * (j + 1)) ≡ key + code * 2 ^ (2 * j)
    → (whole / 2 ^ (2 * j) % 4 ≡ code) × (whole % 2 ^ (2 * j) ≡ key)
get_code zero whole key code hj hk hc e = omega arith
get_code (suc zero) whole key code hj hk hc e = omega arith
get_code (suc (suc zero)) whole key code hj hk hc e = omega arith
get_code (suc (suc (suc zero))) whole key code hj hk hc e = omega arith
get_code (suc (suc (suc (suc j)))) whole key code hj hk hc e = absurd (omega arith)
