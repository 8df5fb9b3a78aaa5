-- ===== src/RunWriter/Stuck.antt =====
-- A writer behind a change of the term.
use csearch.Common.{
  ℕ, zero, suc, ◌+◌, ◌*◌, ◌≤◌, ◌<◌, ◌≡◌, ◌≢◌, refl, sym, ap, subst, ◌∙◌, ◌⊎◌, inl, inr, arith,
}
use csearch.Common.{
  true, false, ◌&&◌, ◌||◌, not, List, [], ◌∷◌, ◌++◌, Option, none, some, length, replicate,
  length-replicate, All,
}
use csearch.Common.{◌==◌, ltb, le→leb, ne→==}
use csearch.Common.Outcome.{Outcome, ok, ◌>>=◌}
use csearch.IFile.{Tupe, failed}
use csearch.IFile.Blocks.{tuples}
use csearch.RunWriter.{
  RunWriter, index_writer_init, run_max, Writes, le64, result_of, Returned, returned, no_value,
}
use csearch.RunWriter.{index_writer_write2, index_writer_write}

-- What the writer holds behind some documents of one term: a 1 for each.
pub record Holding (w : RunWriter) (term n : ℕ) : Type 0 where
  pub term_is : 0 < n → w.last_term ≡ term
  pub zero_is : n ≡ 0 → w.last_term ≡ 0
  pub ones : w.run.kv_data ≡ replicate n 1
  pub first_is : w.run.first_doc ≡ 0

replicate_snoc : (n a : ℕ) → replicate n a ++ a ∷ [] ≡ a ∷ replicate n a
replicate_snoc zero a = refl
replicate_snoc (suc n) a = ap (λ l. a ∷ l) (replicate_snoc n a)

same_or_zero :
    {w : RunWriter} {term : ℕ} (n : ℕ) → Holding w term n → (w.last_term ≡ 0) ⊎ (term ≡ w.last_term)
same_or_zero zero h = inl (h.zero_is refl)
same_or_zero (suc n) h = inr (sym (h.term_is (omega arith)))

guard_off :
    (term last n : ℕ)
    → (last ≡ 0) ⊎ (term ≡ last)
    → n ≤ run_max
    → (not (term == last) && not (last == 0) || ltb run_max n) ≡ false
guard_off term last n same small = ground arith

guard_on :
    (term last n : ℕ)
    → term ≢ last
    → last ≢ 0
    → (not (term == last) && not (last == 0) || ltb run_max n) ≡ true
guard_on term last n new some_term = ground arith

result_failed :
    (all : ℕ) (rc : Option ℕ) → ((n : ℕ) → rc ≡ some n → n < all) → result_of all rc ≡ failed
result_failed all none less = refl
result_failed all (some n) less = rw (ne→== n all (omega (arith, less n refl))) refl

module _ {W : Type 0} (sys : Writes W) where
  open sys use {writev, vbyte_compress_sorted64}

  -- With bytes to write, the number that writev returns is never all.
  write2-failed :
      (w : RunWriter) (p : List ℕ) (world : W)
      → 0 < length p
      → (world' : W) × (index_writer_write2 sys w p world ≡ (failed, world'))
  unfolding index_writer_write2
  write2-failed w p world pos =
      let blocks = le64 w.run.term ∷ le64 w.run.first_doc ∷ le64 (length p) ∷ [] in
      let (rc, world') = writev blocks world in
      (
        world',
        ap (λ s. (s, world'))
            (result_failed (24 + length p) rc
              (λ n e. omega (arith, sys.writev_bounded blocks world n e))),
      )

  -- A caller's loop: what the calls return.
  unfoldable pub write_all : RunWriter → List Tupe → W → Outcome (List Returned × RunWriter × W)
  write_all w [] world = ok ([], w, world)
  write_all w (t ∷ ts) world = do
    (rc, w', world') ← index_writer_write sys w t.term t.doc world
    (rcs, w'', world'') ← write_all w' ts world'
    ok (rc ∷ rcs, w'', world'')

  push-Holding :
      (w : RunWriter) (term doc n : ℕ) (world : W)
      → Holding w term n
      → n ≤ run_max
      → (w' : RunWriter) × (index_writer_write sys w term doc world ≡ ok (no_value, w', world))
        × Holding w' term (suc n)
  unfolding index_writer_write
  push-Holding w term doc n world h small =
      let size : length w.run.kv_data ≡ n = ap length h.ones ∙ length-replicate n 1 in
      (
        record w {
          run = record w.run { kv_data = w.run.kv_data ++ 1 ∷ [] };
          last_doc = doc;
          last_term = term;
        },
        rw (guard_off term w.last_term (length w.run.kv_data) (same_or_zero n h) (omega arith))
            refl,
        record {
          term_is = λ pos. refl;
          zero_is = λ e. absurd (omega arith);
          ones = ap (λ l. l ++ 1 ∷ []) h.ones ∙ replicate_snoc n 1;
          first_is = h.first_is;
        },
      )

  flush-Holding :
      (w : RunWriter) (term n : ℕ) (t : Tupe) (world : W)
      → Holding w term n
      → 0 < n
      → term ≢ 0
      → t.term ≢ term
      → length (vbyte_compress_sorted64 (replicate n 1) 0) ≤ n * 5
      → (world' : W) × (index_writer_write sys w t.term t.doc world
          ≡ ok (returned failed, w, world'))
  unfolding index_writer_write
  flush-Holding w term n t world h pos some_term new fits =
      let size : length w.run.kv_data ≡ n = ap length h.ones ∙ length-replicate n 1 in
      let last = h.term_is pos in
      let p = vbyte_compress_sorted64 w.run.kv_data w.run.first_doc in
      let same : p ≡ vbyte_compress_sorted64 (replicate n 1) 0 =
        λ i. vbyte_compress_sorted64 (h.ones i) (h.first_is i) in
      let some_byte : 0 < length p =
        omega (arith, sys.compress_some w.run.kv_data w.run.first_doc) in
      let (world', e) = write2-failed w p world some_byte in
      (
        world',
        rw
            (
              guard_on t.term w.last_term (length w.run.kv_data) (λ z. new (z ∙ last))
                  (λ z. some_term (sym last ∙ z)),
              le→leb (length p) (length w.run.kv_data * 5) (omega (arith, ap length same)),
              e,
            )
            refl,
      )

  later_flushes :
      (ts : List Tupe) (w : RunWriter) (term n : ℕ) (world : W)
      → Holding w term n
      → 0 < n
      → term ≢ 0
      → All (λ t. t.term ≢ term) ts
      → length (vbyte_compress_sorted64 (replicate n 1) 0) ≤ n * 5
      → (world' : W) × (write_all w ts world
          ≡ ok (replicate (length ts) (returned failed), w, world'))
  unfolding write_all
  later_flushes [] w term n world h pos some_term new fits = (world, refl)
  later_flushes (t ∷ ts) w term n world h pos some_term (new, more) fits =
      let (world1, e) = flush-Holding w term n t world h pos some_term new fits in
      let (world2, e2) = later_flushes ts w term n world1 h pos some_term more fits in
      (world2, rw (e, e2) refl)

  first_pushes :
      (ds : List ℕ) (ts : List Tupe) (w : RunWriter) (term n : ℕ) (world : W)
      → Holding w term n
      → 0 < n + length ds
      → n + length ds ≤ run_max + 1
      → term ≢ 0
      → All (λ t. t.term ≢ term) ts
      → length (vbyte_compress_sorted64 (replicate (n + length ds) 1) 0) ≤ (n + length ds) * 5
      → (w' : RunWriter) × (world' : W) × (write_all w (tuples term ds ++ ts) world
          ≡ ok (
            replicate (length ds) no_value ++ replicate (length ts) (returned failed),
            w',
            world',
          ))
        × (write_all w (tuples term ds) world ≡ ok (replicate (length ds) no_value, w', world))
        × Holding w' term (n + length ds)
  unfolding write_all
  first_pushes [] ts w term n world h pos small some_term new fits =
      let n_is : n + 0 ≡ n = omega arith in
      let (world', e) =
        later_flushes ts w term n world h (omega arith) some_term new (rw n_is at fits) in
      (w, world', e, refl, rw n_is h)
  first_pushes (d ∷ ds) ts w term n world h pos small some_term new fits =
      let n_is : suc n + length ds ≡ n + suc (length ds) = omega arith in
      let (w1, e1, h1) = push-Holding w term d n world h (omega arith) in
      let (w2, world2, e2, e3, h2) =
        first_pushes ds ts w1 term (suc n) world h1 (omega arith) (omega arith) some_term new
          (rw (n_is) fits) in
      (w2, world2, rw (e1, e2) refl, rw (e1, e3) refl, subst (Holding w2 term) n_is h2)

  -- Of documents of one term other than 0, from 1 to 33 of them, written to a new writer, the run
  -- keeps a 1 each. If these compress to five bytes each or fewer, then every further call with
  -- another term returns -1, and the writer behind all of them is the one behind the first
  -- documents: the others are lost.
  pub run-stays :
      (term : ℕ) (ds : List ℕ) (ts : List Tupe) (world : W)
      → term ≢ 0
      → 0 < length ds
      → length ds ≤ run_max + 1
      → All (λ t. t.term ≢ term) ts
      → length (vbyte_compress_sorted64 (replicate (length ds) 1) 0) ≤ length ds * 5
      → (w : RunWriter) × (world' : W) × (write_all index_writer_init (tuples term ds ++ ts) world
          ≡ ok (
            replicate (length ds) no_value ++ replicate (length ts) (returned failed),
            w,
            world',
          ))
        × (write_all index_writer_init (tuples term ds) world
            ≡ ok (replicate (length ds) no_value, w, world))
        × Holding w term (length ds)
  unfolding index_writer_init
  run-stays term ds ts world some_term pos small new fits =
      let n_is : 0 + length ds ≡ length ds = omega arith in
      let fits' =
        subst (λ n. length (vbyte_compress_sorted64 (replicate n 1) 0) ≤ n * 5) (sym n_is) fits in
      let start : Holding index_writer_init term 0 = record {
        term_is = λ h. absurd (omega arith);
        zero_is = λ e. refl;
        ones = refl;
        first_is = refl;
      } in
      let (w, world', e, same, h) =
        first_pushes ds ts index_writer_init term 0 world start (omega arith) (omega arith)
          some_term new fits' in
      (w, world', e, same, subst (Holding w term) n_is h)
