-- ===== src/Buff/Tests.antt =====
-- A concrete byte buffer, and the theorems about it at concrete inputs.
use csearch.Common.{◌*◌, ◌^◌, ◌≤◌, ◌≡◌, refl, arith, [], ◌∷◌, some, get_elem?}
use csearch.Common.Outcome.{ok}
use csearch.Runtime.{Runtime, stream_vbyte}
use csearch.Buff.{Buff, nearest_power, buff_cat, buff_catn}
use csearch.Buff.Laws.{IsValid, nearest_power-bounds}
use csearch.Buff.Overflow.{nearest_power-wraps}
use csearch.Buff.Append.{Added, buff_cat_lem, buff_catn_lem}

abbrev rt : Runtime
rt = stream_vbyte 0xa5

nearest_power-33 : nearest_power 33 ≡ 64
unfolding nearest_power
nearest_power-33 = refl

nearest_power-64 : nearest_power 64 ≡ 64
unfolding nearest_power
nearest_power-64 = refl

power_near : (33 ≤ nearest_power 33) × (nearest_power 33 ≤ 2 ^ 31)
power_near = nearest_power-bounds 33 (omega arith) (omega arith)

abbrev held : Buff
held = record { size = 2; cap = 4; buff = 97 ∷ 98 ∷ 0 ∷ 0xa5 ∷ [] }

held-IsValid : IsValid held
held-IsValid = record { allocated = refl; within = omega arith; word = omega arith }

cat_adds :
    (b' : Buff) × (buff_cat rt held (some (99 ∷ 100 ∷ 101 ∷ [])) ≡ ok b')
    × Added held (99 ∷ 100 ∷ 101 ∷ []) b'
cat_adds = buff_cat_lem rt (99 ∷ 100 ∷ 101 ∷ []) held-IsValid (omega arith)

buff_catn_lem_example :
    (b' : Buff) × (buff_catn rt held (some (99 ∷ 100 ∷ 101 ∷ [])) 2 ≡ ok b')
    × Added held (99 ∷ 100 ∷ []) b'
    × (get_elem? b'.buff b'.size ≡ some 0)
buff_catn_lem_example =
    buff_catn_lem rt 99 (100 ∷ 101 ∷ []) 2 held-IsValid (omega arith) (omega arith) (omega arith)

-- Bytes that start with a 0 are dropped.
drops_bytes : buff_catn rt held (some (0 ∷ 100 ∷ [])) 2 ≡ ok held
unfolding buff_catn
drops_bytes = refl

nearest_power-wraps_example : nearest_power (3 * 2 ^ 30) ≡ 0
nearest_power-wraps_example = nearest_power-wraps (3 * 2 ^ 30) (omega arith) (omega arith)
