-- ===== src/Tool/Index/Blocks.antt =====
-- The blocks into which tool::ifile cuts the tuples that are written to it.
use csearch.Common.{ℕ, ◌+◌, ◌*◌, ◌≤◌, ◌<◌, ◌≡◌, refl, sym, ap, ◌∙◌, arith}
use csearch.Common.{
  List, [], ◌∷◌, ◌++◌, length, length-append, All, ◌==◌, eq→==, ne→==, if◌then◌else◌,
}
use native.Mathlib.Decide.{ℕ_discrete}
use csearch.Runtime.{Runtime}
use csearch.IFile.{Tupe, head_bytes}
use csearch.IFile.Blocks.{tuples}
use csearch.Tool.Index.{capacity}

-- A block: the term and the document of its head, and its documents.
pub record Block : Type 0 where
  pub term : ℕ
  pub doc : ℕ
  pub docs : List ℕ

abbrev block : ℕ → ℕ → List ℕ → Block
block term doc docs = record { term = term; doc = doc; docs = docs }

-- The last block, if there are documents for it.
abbrev pub rest : ℕ → ℕ → List ℕ → List Block
rest term doc [] = []
rest term doc (d ∷ docs) = block term doc (d ∷ docs) ∷ []

-- The blocks of some tuples, behind the documents of a block begun under a head: a block ends with
-- ten documents or in front of another term. After the second of these the head keeps its document.
unfoldable pub cut : ℕ → ℕ → List ℕ → List Tupe → List Block
cut term doc held [] = rest term doc held
cut term doc [] (t ∷ ts) = cut t.term t.doc (t.doc ∷ []) ts
cut term doc (d ∷ docs) (t ∷ ts) =
    let all = (d ∷ docs) ++ t.doc ∷ [] in
    let full = block term doc all ∷ cut term doc [] ts in
    let more = cut term doc all ts in
    let new = block term doc (d ∷ docs) ∷ cut t.term doc (t.doc ∷ []) ts in
    if t.term == term then (if length all == capacity then full else more) else new

-- The tuples of some blocks, each with the term of its block.
abbrev pub tuples_of : List Block → List Tupe
tuples_of [] = []
tuples_of (b ∷ bs) = tuples b.term b.docs ++ tuples_of bs

abbrev pub IsBlock : Block → Type 0
IsBlock b = (0 < length b.docs) × (length b.docs ≤ capacity)

tuples-append :
    (term : ℕ) (xs : List ℕ) (t : Tupe) (ts : List Tupe)
    → t.term ≡ term
    → tuples term (xs ++ t.doc ∷ []) ++ ts ≡ tuples term xs ++ t ∷ ts
tuples-append term [] t ts e = λ i. record { term = sym e i; doc = t.doc } ∷ ts
tuples-append term (x ∷ xs) t ts e =
    ap (λ l. record { term = term; doc = x } ∷ l) (tuples-append term xs t ts e)

-- The blocks hold the tuples, in order.
pub tuples_of-cut :
    (ts : List Tupe) (term doc : ℕ) (held : List ℕ)
    → tuples_of (cut term doc held ts) ≡ tuples term held ++ ts
unfolding cut
tuples_of-cut [] term doc [] = refl
tuples_of-cut [] term doc (d ∷ docs) = refl
tuples_of-cut (t ∷ ts) term doc [] = tuples_of-cut ts t.term t.doc (t.doc ∷ [])
tuples_of-cut (t ∷ ts) term doc (d ∷ docs) =
    let held : List ℕ = d ∷ docs in
    let all = held ++ t.doc ∷ [] in
    elim (ℕ_discrete t.term term) [
      | yes same ↦ elim (ℕ_discrete (length all) capacity) [
        | yes full ↦
            rw (eq→== t.term term same, eq→== (length all) capacity full)
              (ap (λ l. tuples term all ++ l) (tuples_of-cut ts term doc [])
                ∙ tuples-append term held t ts same)
        | no room ↦
            rw (eq→== t.term term same, ne→== (length all) capacity room)
              (tuples_of-cut ts term doc all ∙ tuples-append term held t ts same)
      ]
      | no new ↦
          rw (ne→== t.term term new)
            (ap (λ l. tuples term held ++ l) (tuples_of-cut ts t.term doc (t.doc ∷ [])))
    ]

-- No block is empty or has more than ten documents.
pub cut-IsBlock :
    (ts : List Tupe) (term doc : ℕ) (held : List ℕ)
    → length held < capacity
    → All IsBlock (cut term doc held ts)
unfolding cut
cut-IsBlock [] term doc [] small = tt
cut-IsBlock [] term doc (d ∷ docs) small = ((omega arith, omega arith), tt)
cut-IsBlock (t ∷ ts) term doc [] small = cut-IsBlock ts t.term t.doc (t.doc ∷ []) (omega arith)
cut-IsBlock (t ∷ ts) term doc (d ∷ docs) small =
    let held : List ℕ = d ∷ docs in
    let all = held ++ t.doc ∷ [] in
    let size : length all ≡ length held + 1 = length-append held (t.doc ∷ []) in
    elim (ℕ_discrete t.term term) [
      | yes same ↦ elim (ℕ_discrete (length all) capacity) [
        | yes full ↦
            rw (eq→== t.term term same, eq→== (length all) capacity full)
              ((omega arith, omega arith), cut-IsBlock ts term doc [] (omega arith))
        | no room ↦
            rw (eq→== t.term term same, ne→== (length all) capacity room)
              (cut-IsBlock ts term doc all (omega arith))
      ]
      | no new ↦
          rw (ne→== t.term term new)
            ((omega arith, omega arith), cut-IsBlock ts t.term doc (t.doc ∷ []) (omega arith))
    ]

module _ (r : Runtime) where
  open r use {delta_encode}

  -- The bytes of a block on disk.
  abbrev pub block_bytes : Block → List ℕ
  block_bytes b =
      head_bytes (record {
        count = length b.docs;
        term = b.term;
        doc = b.doc;
        bcount = length (delta_encode b.docs 0);
      })
      ++ delta_encode b.docs 0

  abbrev pub file_bytes : List Block → List ℕ
  file_bytes [] = []
  file_bytes (b ∷ bs) = block_bytes b ++ file_bytes bs

  -- The compressed documents need at most four bytes each.
  abbrev pub Fits : Block → Type 0
  Fits b = length (delta_encode b.docs 0) ≤ length b.docs * 4
