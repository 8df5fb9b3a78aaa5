-- ===== src/Linked/Tests.antt =====
-- Some pushes to a list, and a chunk that is compressed and decompressed.
use csearch.Common.{ℕ, ◌≡◌, refl, ap, ◌∙◌, inr, arith}
use csearch.Common.{
  Bool, true, false, List, [], ◌∷◌, ◌++◌, Option, none, some, length, length-append,
}
use csearch.Common.Outcome.{ok, ◌>>=◌}
use csearch.Runtime.{Runtime, stream_vbyte}
use csearch.StreamVByte.{delta_encode, svb_encode_scalar_d1_init, encode_loop, encode_data}
use csearch.Linked.{buffer, LinkedChunk, zeroed, chunk_init, chunk_full, chunk_get, chunk_push}
use csearch.Linked.{chunk_compress, chunk_decompress, ListHead}
use csearch.Linked.Growth.{IsOpen}
use csearch.Linked.Held.{Holds, Fits}
use csearch.Linked.Pushes.{push_all, push_all-Holds}
use csearch.Linked.Reopen.{decompress-compress}

abbrev r : Runtime
r = stream_vbyte 0xa5

abbrev last : List LinkedChunk → Option LinkedChunk
last [] = none
last (c ∷ []) = some c
last (c ∷ d ∷ cs) = last (d ∷ cs)

abbrev set_last : LinkedChunk → List LinkedChunk → List LinkedChunk
set_last c' [] = []
set_last c' (c ∷ []) = c' ∷ []
set_last c' (c ∷ d ∷ cs) = c ∷ set_last c' (d ∷ cs)

abbrev is_nil : List LinkedChunk → Bool
is_nil [] = true
is_nil (c ∷ cs) = false

is_nil-append : (cs : List LinkedChunk) (c : LinkedChunk) → is_nil (cs ++ c ∷ []) ≡ false
is_nil-append [] c = refl
is_nil-append (d ∷ cs) c = refl

last-append : (cs : List LinkedChunk) (c : LinkedChunk) → last (cs ++ c ∷ []) ≡ some c
last-append [] c = refl
last-append (d ∷ []) c = refl
last-append (d ∷ e ∷ cs) c = last-append (e ∷ cs) c

set_last-append :
    (cs : List LinkedChunk) (c c' : LinkedChunk) → set_last c' (cs ++ c ∷ []) ≡ cs ++ c' ∷ []
set_last-append [] c c' = refl
set_last-append (d ∷ []) c c' = refl
set_last-append (d ∷ e ∷ cs) c c' = ap (λ l. d ∷ l) (set_last-append (e ∷ cs) c c')

abbrev lists : ListHead LinkedChunk
lists = record {
  Head = List LinkedChunk;
  entries = λ l. l;
  init_list_head = [];
  list_empty = is_nil;
  last_entry = last;
  list_add_tail = λ c l. l ++ c ∷ [];
  write_last = set_last;
  entries-init_list_head = refl;
  list_empty_nil = λ l e. ap is_nil e;
  list_empty_cons = λ l cs c e. ap is_nil e ∙ is_nil-append cs c;
  last_entry_is = λ l cs c e. ap last e ∙ last-append cs c;
  entries-list_add_tail = λ l c. refl;
  entries-write_last = λ l cs c c' e. ap (set_last c') e ∙ set_last-append cs c c';
}

push_all-Holds_example :
    (l : List LinkedChunk) × (push_all r lists [] (7 ∷ 8 ∷ 9 ∷ []) ≡ ok l)
    × Holds r l (7 ∷ 8 ∷ 9 ∷ [])
push_all-Holds_example = push_all-Holds r lists (7 ∷ 8 ∷ 9 ∷ []) (λ xs ys zs e whole.
    absurd (omega (arith, ap length e, length-append xs (ys ++ zs), length-append ys zs)))

-- Three values in the first block of four cells
abbrev three : LinkedChunk
three = record (chunk_init zeroed) { capacity = 4; size = 3; cells = buffer (7 ∷ 8 ∷ 9 ∷ 0 ∷ []) }

three-IsOpen : IsOpen three (7 ∷ 8 ∷ 9 ∷ [])
unfolding chunk_init
three-IsOpen = record {
  block = 7 ∷ 8 ∷ 9 ∷ 0 ∷ [];
  cells_is = refl;
  allocated = refl;
  held = refl;
  within = omega arith;
  doubles = inr (21, refl);
  not_compressed = refl;
  limit = refl;
}

three-Fits : Fits r (7 ∷ 8 ∷ 9 ∷ [])
unfolding delta_encode svb_encode_scalar_d1_init encode_loop encode_data
three-Fits = omega arith

decompress-compress_example :
    (c' : LinkedChunk) × ((chunk_compress r three >>= λ out. chunk_decompress r out.1 3) ≡ ok c')
    × (c'.cells ≡ buffer (7 ∷ 8 ∷ 9 ∷ []))
    × ((off : ℕ) → chunk_get c' off ≡ ok none)
decompress-compress_example =
    decompress-compress r three (7 ∷ 8 ∷ 9 ∷ []) three-IsOpen (omega arith) (omega arith) three-Fits
      (omega arith)

-- The fourth push returns 1 although the chunk is far from full, since the capacity is 4.
fourth_push :
    (c : LinkedChunk) × (chunk_push r three 1 ≡ ok (some true, c)) × (chunk_full c ≡ false)
unfolding chunk_push chunk_full chunk_init
fourth_push = (record three { size = 4; cells = buffer (7 ∷ 8 ∷ 9 ∷ 1 ∷ []) }, refl, refl)

-- A value that was not pushed is read, since the offset is compared with the capacity.
unpushed_value : chunk_get three 3 ≡ ok (some (0, 4))
unfolding chunk_get chunk_init
unpushed_value = refl
