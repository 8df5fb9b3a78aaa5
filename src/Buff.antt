-- ===== src/Buff.antt =====
-- buff_t of tool.c: a byte buffer that grows by realloc to powers of two.
pub mod Laws
pub mod Append
pub mod Overflow
mod Tests
use csearch.Common.{ℕ, zero, suc, ◌+◌, ◌-◌, ◌/◌, ◌%◌, ◌^◌, List, [], ◌∷◌, ◌++◌, Option, none, some}
use csearch.Common.{leb, ltb, ◌==◌, if◌then◌else◌, length, take, drop, set}
use csearch.Common.Outcome.{Outcome, ok, fault, heap_overflow, check, ◌>>=◌, ◌>>◌}
use csearch.Runtime.{Runtime}
use csearch.Chunk.{realloc}
use Prim.Native.Nat.{bit_or}

-- `buff` holds the bytes of the allocated block.
pub record Buff : Type 0 where
  pub size : ℕ
  pub cap : ℕ
  pub buff : List ℕ

abbrev pub empty_buff : Buff
empty_buff = record { size = 0; cap = 0; buff = [] }

-- `num |= num >> k`
abbrev smear : ℕ → ℕ → ℕ
smear num k = bit_or num (num / 2 ^ k)

-- `num` is a uint64_t. The result is an int, which the only caller stores in a uint32_t.
unfoldable pub nearest_power : ℕ → ℕ
nearest_power num =
    let below = (num + (2 ^ 64 - 1)) % 2 ^ 64 in
    (smear (smear (smear (smear (smear (smear below 1) 2) 4) 8) 16) 32 + 1) % 2 ^ 32

-- `memcpy( b->buff+b->size, p, len ); b->size += len;`
unfoldable pub append : Buff → List ℕ → Outcome Buff
append b p = do
  check (leb (b.size + length p) (length b.buff)) heap_overflow
  ok (record b {
    buff = (take b.size b.buff ++ p) ++ drop (b.size + length p) b.buff;
    size = (b.size + length p) % 2 ^ 32;
  })

-- `b->buff[b->size] = 0`
unfoldable pub terminate : Buff → Outcome Buff
terminate b = do
  check (ltb b.size (length b.buff)) heap_overflow
  ok (record b { buff = set b.buff b.size 0 })

module _ (r : Runtime) where
  -- `size` is a size_t.
  unfoldable pub buff_grow : Buff → ℕ → Buff
  buff_grow b size =
      let cap = nearest_power ((b.cap + size + 1) % 2 ^ 64) in
      if leb b.cap ((b.size + size) % 2 ^ 64)
      then record b { cap = cap; buff = realloc r b.buff cap }
      else b

  -- `p` is null, or a string: its bytes in front of the final 0.
  unfoldable pub buff_cat : Buff → Option (List ℕ) → Outcome Buff
  buff_cat b none = ok b
  buff_cat b (some []) = ok b
  buff_cat b (some (c ∷ cs)) = append (buff_grow b (length (c ∷ cs))) (c ∷ cs)

  -- `p` is null, or stands at these bytes; the first one is read in any case.
  unfoldable pub buff_catn : Buff → Option (List ℕ) → ℕ → Outcome Buff
  buff_catn b none rsize = ok b
  buff_catn b (some []) rsize = fault heap_overflow
  buff_catn b (some (c ∷ cs)) rsize = if c == 0 then ok b else (do
    check (leb rsize (length (c ∷ cs))) heap_overflow
    b' ← append (buff_grow b rsize) (take rsize (c ∷ cs))
    terminate b')
