-- ===== src/Linked/Held.antt =====
-- What the chunks of a list hold.
use csearch.Common.{ℕ, ◌*◌, ◌%◌, ◌^◌, ◌≤◌, ◌<◌, ◌≡◌, refl, sym, ap, ◌∙◌, arith}
use csearch.Common.{true, List, [], ◌∷◌, ◌++◌, append_assoc, append-nil, length, replicate}
use csearch.Common.{lt→ltb, le→leb}
use csearch.Common.Outcome.{ok}
use csearch.Runtime.{Runtime}
use csearch.Stdio.{stored}
use csearch.Linked.{cbuff, LinkedChunk, chunk_compress}
use csearch.Linked.Growth.{IsOpen, size_is}

module _ (r : Runtime) where
  open r use {delta_encode, junk}

  -- The block of four bytes a value with the compressed values at its start.
  abbrev pub encoded_block : List ℕ → List ℕ
  encoded_block xs = stored (delta_encode xs 0) (replicate (length xs * 4) junk)

  -- A full chunk that was compressed.
  pub record IsClosed (c : LinkedChunk) (xs : List ℕ) : Type 0 where
    pub compressed : c.is_compressed ≡ true
    pub encoded : c.cells ≡ cbuff (encoded_block xs)
    pub whole : length xs ≡ 2 ^ 23

  abbrev pub AllClosed : List LinkedChunk → List ℕ → Type 0
  AllClosed [] xs = xs ≡ []
  AllClosed (c ∷ cs) xs =
      (ys : List ℕ) × (zs : List ℕ) × (xs ≡ ys ++ zs) × IsClosed c ys × AllClosed cs zs

  -- The chunks of a list hold some values in order: all but the last are full and compressed, and
  -- the last is neither empty nor compressed.
  pub data Holds : List LinkedChunk → List ℕ → Type 0 where
    no_chunk : {es : List LinkedChunk} {ds : List ℕ} → es ≡ [] → ds ≡ [] → Holds es ds
    some_chunks :
        {es : List LinkedChunk} {ds : List ℕ} (front : List LinkedChunk) (c : LinkedChunk)
        (xs ys : List ℕ)
        → es ≡ front ++ c ∷ []
        → ds ≡ xs ++ ys
        → AllClosed front xs
        → IsOpen c ys
        → 0 < length ys
        → Holds es ds

  pub closed_behind :
      (front : List LinkedChunk) (c : LinkedChunk) (xs ys : List ℕ)
      → AllClosed front xs
      → IsClosed c ys
      → AllClosed (front ++ c ∷ []) (xs ++ ys)
  closed_behind [] c xs ys none_yet closed =
      (ys, [], ap (λ l. l ++ ys) none_yet ∙ sym (append-nil ys), closed, refl)
  closed_behind (d ∷ front) c xs ys (us, vs, e, first, more) closed = (
    us,
    vs ++ ys,
    ap (λ l. l ++ ys) e ∙ append_assoc us vs ys,
    first,
    closed_behind front c vs ys more closed,
  )

  abbrev pub Fits : List ℕ → Type 0
  Fits xs = length (delta_encode xs 0) ≤ length xs * 4

  -- Every 2^23 values in a row compress to four bytes each or fewer.
  abbrev pub Compresses : List ℕ → Type 0
  Compresses ds = (xs ys zs : List ℕ) → ds ≡ xs ++ (ys ++ zs) → length ys ≡ 2 ^ 23 → Fits ys

  abbrev pub compressed : LinkedChunk → List ℕ → LinkedChunk
  compressed c ys = record c { is_compressed = true; cells = cbuff (encoded_block ys) }

  pub compress-IsOpen :
      (c : LinkedChunk) (ys : List ℕ)
      → IsOpen c ys
      → 0 < length ys
      → Fits ys
      → chunk_compress r c ≡ ok (length (delta_encode ys 0) % 2 ^ 32, compressed c ys)
  unfolding chunk_compress
  compress-IsOpen c ys o pos fits =
      let size = size_is o in
      rw
        (
          lt→ltb 0 c.size (omega arith),
          o.not_compressed,
          o.cells_is,
          le→leb c.size (length o.block) (omega (arith, o.within, o.allocated)),
          o.held,
          le→leb (length (delta_encode ys 0)) (c.size * 4) (omega arith),
          size,
        )
        refl

  pub compress-IsClosed :
      (c : LinkedChunk) (ys : List ℕ)
      → IsOpen c ys
      → length ys ≡ 2 ^ 23
      → Fits ys
      → (n : ℕ) × (c' : LinkedChunk) × (chunk_compress r c ≡ ok (n, c')) × IsClosed c' ys
  compress-IsClosed c ys o whole fits = (
    length (delta_encode ys 0) % 2 ^ 32,
    compressed c ys,
    compress-IsOpen c ys o (omega arith) fits,
    record { compressed = refl; encoded = refl; whole = whole },
  )

  -- A list whose last chunk has room.
  pub record Room (es : List LinkedChunk) (ds : List ℕ) : Type 0 where
    pub front : List LinkedChunk
    pub chunk : LinkedChunk
    pub before : List ℕ
    pub held : List ℕ
    pub entries_are : es ≡ front ++ chunk ∷ []
    pub values_are : ds ≡ before ++ held
    pub closed : AllClosed front before
    pub open_chunk : IsOpen chunk held
    pub room : length held < 2 ^ 23
