-- ===== src/PairWriter/NewTerm.antt =====
-- What becomes of the first document of a new term.
use csearch.Common.{ℕ, ◌<◌, ◌≡◌, refl, ap, true, false, arith}
use csearch.Common.{List, [], ◌∷◌, ◌++◌, length, length-append, All, ltb-false, ne→==}
use csearch.Common.Outcome.{ok, fault, heap_overflow, ◌>>=◌}
use csearch.PairWriter.{
  Pair, PairWriter, is_bogus, is_new_term, index_writer_init, index_writer_flush,
}
use csearch.PairWriter.{index_writer_write}
use csearch.PairWriter.Runs.{Ascends, concat, deliver, write_docs, flush_lem}
use csearch.PairWriter.Groups.{write_docs_lem, writes_groups}

later_fine : (last pair : Pair) → last.term < pair.term → is_bogus last pair ≡ false
unfolding is_bogus
later_fine last pair lt =
    rw (ltb-false pair.term last.term (omega arith), ne→== pair.term last.term (omega arith)) refl

later_new :
    (last pair : Pair) → 0 < last.term → last.term < pair.term → is_new_term last pair ≡ true
unfolding is_new_term
later_new last pair pos lt =
    rw (ne→== last.term pair.term (omega arith), ne→== last.term 0 (omega arith)) refl

module _ (compress : ℕ → List ℕ → List ℕ) {A : Type 0} (callback : Pair → List ℕ → A → ℕ × A) where
  -- A writer with `maxy` above 0 that keeps documents of one term other than 0, and gets documents of
  -- a later term, each behind the one before, hands over what it keeps and then groups of all the new
  -- documents but the first, which gets neither to the callback nor into the data.
  pub new_term_loses :
      (last : Pair) (maxy e : ℕ) (es : List ℕ) (u : A) (term d : ℕ) (ds : List ℕ)
      → 0 < maxy
      → 0 < last.term
      → last.term < term
      → Ascends d ds
      → (w : PairWriter A) × (groups : List (List ℕ)) × (write_docs compress callback term
            (record { last_pair = last; maxy = maxy; kv_data = e ∷ es; user_data = u })
            (d ∷ ds)
          ≡ ok w)
        × (concat groups ++ w.kv_data ≡ ds)
        × (w.user_data
            ≡ deliver compress callback term groups
                (deliver compress callback last.term ((e ∷ es) ∷ []) u))
  unfolding write_docs index_writer_write
  new_term_loses last maxy e es u term d ds room pos lt up =
      let pair : Pair = record { term = term; doc = d } in
      let (rc, flushed) = flush_lem compress callback last maxy e es u in
      let w1 : PairWriter A = record {
        last_pair = pair;
        maxy = maxy;
        kv_data = [];
        user_data = deliver compress callback last.term ((e ∷ es) ∷ []) u;
      } in
      let (w, done, wrote) = write_docs_lem compress callback ds w1 term refl up room in
      (
        w,
        wrote.groups,
        rw (later_fine last pair lt, later_new last pair pos lt, flushed) done,
        wrote.kept,
        wrote.delivered,
      )

  -- Nothing is kept after exactly one whole group.
  none_kept :
      (maxy : ℕ) (groups : List (List ℕ)) (left docs : List ℕ)
      → All (λ g. length g ≡ maxy) groups
      → concat groups ++ left ≡ docs
      → length docs ≡ maxy
      → length left < maxy
      → left ≡ []
  none_kept maxy [] left docs whole kept len few = absurd (omega (arith, ap length kept))
  none_kept maxy (g ∷ gs) [] docs whole kept len few = refl
  none_kept maxy (g ∷ gs) (x ∷ left) docs (w, whole) kept len few =
      let total : length ((g ++ concat gs) ++ x ∷ left) ≡ length docs = ap length kept in
      absurd (omega (arith, length-append (g ++ concat gs) (x ∷ left), length-append g (concat gs)))

  -- A pair of a later term, when the term before has filled exactly one group, makes the writer
  -- compress an array without elements.
  pub new_term_faults :
      (maxy : ℕ) (u : A) (term d : ℕ) (ds : List ℕ) (pair : Pair)
      → 0 < maxy
      → 0 < term
      → Ascends d ds
      → length (d ∷ ds) ≡ maxy
      → term < pair.term
      → (write_docs compress callback term (index_writer_init maxy u) (d ∷ ds) >>= λ w.
          index_writer_write compress callback w pair)
        ≡ fault heap_overflow
  unfolding index_writer_init index_writer_write index_writer_flush
  new_term_faults maxy u term d ds pair room pos up len lt =
      let (w, e, wrote) = writes_groups compress callback term maxy d ds u pos room up in
      let few : length w.kv_data < maxy = omega (arith, wrote.few, wrote.same_maxy) in
      let empty : w.kv_data ≡ [] =
        none_kept maxy wrote.groups w.kv_data (d ∷ ds) wrote.whole wrote.kept len few in
      let fine = later_fine w.last_pair pair (omega (arith, wrote.at_term)) in
      let new =
        later_new w.last_pair pair (omega (arith, wrote.at_term)) (omega (arith, wrote.at_term)) in
      rw (e, fine, new, index_writer_flush, empty) refl
