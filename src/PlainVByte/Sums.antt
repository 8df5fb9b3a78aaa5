-- ===== src/PlainVByte/Sums.antt =====
-- The plain codec against the delta codec: values are the differences of their running sums.
use csearch.Common.{ℕ, suc, ◌+◌, ◌*◌, ◌%◌, ◌^◌, ◌≡◌, refl, ap, sym, arith}
use csearch.Common.{List, [], ◌∷◌, All, length, ◌==◌, if◌then◌else◌}
use csearch.Common.Words.{IsU32, add32, sub32}
use csearch.StreamVByte.{encode_data, encode_loop, svb_encode_scalar_d1_init, delta_encode}
use csearch.PlainVByte.{plain_encode_loop, svb_encode_scalar, encode}
use Prim.Native.Nat.{bit_or}

-- uint32_t sums of the values so far, with a start
unfoldable pub sums : ℕ → List ℕ → List ℕ
sums prev [] = []
sums prev (x ∷ xs) = add32 x prev ∷ sums (add32 x prev) xs

-- uint32_t differences from the value before, with a start
unfoldable pub differences : ℕ → List ℕ → List ℕ
differences prev [] = []
differences prev (y ∷ ys) = sub32 y prev ∷ differences y ys

pub sub32-add32 : (x prev : ℕ) → IsU32 x → IsU32 prev → sub32 (add32 x prev) prev ≡ x
sub32-add32 x prev hx hp = omega arith

pub differences-sums :
    (prev : ℕ) (xs : List ℕ) → IsU32 prev → All IsU32 xs → differences prev (sums prev xs) ≡ xs
unfolding sums differences
differences-sums prev [] hp h = refl
differences-sums prev (x ∷ xs) hp (hx, h) =
    rw (sub32-add32 x prev hx hp)
      (ap (λ t. x ∷ t) (differences-sums (add32 x prev) xs (omega arith) h))

pub sums-IsU32 : (prev : ℕ) (xs : List ℕ) → All IsU32 (sums prev xs)
unfolding sums
sums-IsU32 prev [] = tt
sums-IsU32 prev (x ∷ xs) = (omega arith, sums-IsU32 (add32 x prev) xs)

pub length-sums : (prev : ℕ) (xs : List ℕ) → length (sums prev xs) ≡ length xs
unfolding sums
length-sums prev [] = refl
length-sums prev (x ∷ xs) = ap suc (length-sums (add32 x prev) xs)

loop-sums :
    (xs : List ℕ) (shift key prev : ℕ)
    → IsU32 prev
    → All IsU32 xs
    → encode_loop (sums prev xs) shift key prev ≡ plain_encode_loop xs shift key
unfolding sums encode_loop plain_encode_loop
loop-sums [] shift key prev hp h = refl
loop-sums (x ∷ xs) shift key prev hp (hx, h) =
    let shift' : ℕ = if shift == 8 then 0 else shift in
    let key' : ℕ = if shift == 8 then 0 else key in
    rw
      (
        sub32-add32 x prev hx hp,
        loop-sums xs (shift' + 2) (bit_or key' ((encode_data x).0 * 2 ^ shift') % 256)
            (add32 x prev) (omega arith) h,
      )
      refl

scalar-sums :
    (xs : List ℕ) → All IsU32 xs → svb_encode_scalar xs ≡ svb_encode_scalar_d1_init (sums 0 xs) 0
unfolding svb_encode_scalar svb_encode_scalar_d1_init sums
scalar-sums [] h = refl
scalar-sums (x ∷ xs) h = sym (loop-sums (x ∷ xs) 0 0 0 (omega arith) h)

-- The plain encoding of uint32 values is the delta encoding of their running sums from 0.
pub encode-sums : (xs : List ℕ) → All IsU32 xs → encode xs ≡ delta_encode (sums 0 xs) 0
unfolding encode delta_encode
encode-sums xs h = rw (scalar-sums xs h, length-sums 0 xs) refl
