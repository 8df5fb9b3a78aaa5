-- ===== src/PairWriter/Runs.antt =====
-- Runs of documents of one term, and one document more.
use csearch.Common.{ℕ, ◌+◌, ◌<◌, ◌≡◌, refl, ◌∙◌, arith}
use csearch.Common.{List, [], ◌∷◌, ◌++◌, append-nil, length, length-append, All}
use csearch.Common.{leb-false, le→leb}
use csearch.Common.Outcome.{Outcome, ok, ◌>>=◌}
use csearch.PairWriter.{Pair, PairWriter, index_writer_flush}
use csearch.PairWriter.{push_doc, index_writer_write}
use native.Mathlib.Decide.{dec_lt}

abbrev pub concat : List (List ℕ) → List ℕ
concat [] = []
concat (g ∷ gs) = g ++ concat gs

-- Every document behind the one before.
abbrev pub Ascends : ℕ → List ℕ → Type 0
Ascends last [] = Unit
Ascends last (d ∷ ds) = (last < d) × Ascends d ds

module _ (compress : ℕ → List ℕ → List ℕ) {A : Type 0} (callback : Pair → List ℕ → A → ℕ × A) where
  -- What the callback makes of some groups of documents of a term, in their order: it gets the first
  -- document of each, and the others compressed.
  abbrev pub deliver : ℕ → List (List ℕ) → A → A
  deliver term [] u = u
  deliver term ([] ∷ gs) u = deliver term gs u
  deliver term ((d ∷ ds) ∷ gs) u =
      deliver term gs (callback (record { term = term; doc = d }) (compress d ds) u).1

  -- Writes documents of one term, and gives up the results.
  unfoldable pub write_docs : ℕ → PairWriter A → List ℕ → Outcome (PairWriter A)
  write_docs term w [] = ok w
  write_docs term w (d ∷ ds) = do
    (_, w') ← index_writer_write compress callback w (record { term = term; doc = d })
    write_docs term w' ds

  -- `w'` is `w` after `docs` of `term`.
  pub record Wrote (term : ℕ) (w : PairWriter A) (docs : List ℕ) (w' : PairWriter A) : Type 0 where
    pub groups : List (List ℕ)
    pub whole : All (λ g. length g ≡ w.maxy) groups
    pub delivered : w'.user_data ≡ deliver term groups w.user_data
    pub kept : concat groups ++ w'.kv_data ≡ w.kv_data ++ docs
    pub few : length w'.kv_data < w'.maxy
    pub same_maxy : w'.maxy ≡ w.maxy
    pub at_term : w'.last_pair.term ≡ term

  pub flush_lem :
      (last : Pair) (maxy d : ℕ) (ds : List ℕ) (u : A)
      → (rc : ℕ) × (index_writer_flush compress callback
            (record { last_pair = last; maxy = maxy; kv_data = d ∷ ds; user_data = u })
          ≡ ok (
            rc,
            record {
              last_pair = last;
              maxy = maxy;
              kv_data = d ∷ ds;
              user_data = deliver last.term ((d ∷ ds) ∷ []) u;
            },
          ))
  unfolding index_writer_flush
  flush_lem last maxy d ds u = (_, refl)

  flush_full :
      (last : Pair) (maxy : ℕ) (ds : List ℕ) (d : ℕ) (u : A)
      → (rc : ℕ) × (index_writer_flush compress callback
            (record { last_pair = last; maxy = maxy; kv_data = ds ++ d ∷ []; user_data = u })
          ≡ ok (
            rc,
            record {
              last_pair = last;
              maxy = maxy;
              kv_data = ds ++ d ∷ [];
              user_data = deliver last.term ((ds ++ d ∷ []) ∷ []) u;
            },
          ))
  flush_full last maxy [] d u = flush_lem last maxy d [] u
  flush_full last maxy (x ∷ ds) d u = flush_lem last maxy x (ds ++ d ∷ []) u

  -- A document in its place goes to the group, which is delivered when it is whole.
  pub push_doc_lem :
      (last : Pair) (maxy : ℕ) (ds : List ℕ) (u : A) (term d : ℕ)
      → length ds < maxy
      → let w : PairWriter A = record {
        last_pair = last;
        maxy = maxy;
        kv_data = ds;
        user_data = u;
      } in
        (rc : ℕ) × (w' : PairWriter A) × (push_doc compress callback w
            (record { term = term; doc = d })
          ≡ ok (rc, w'))
        × (w'.last_pair ≡ record { term = term; doc = d })
        × Wrote term w (d ∷ []) w'
  unfolding push_doc
  push_doc_lem last maxy ds u term d few =
      let len : length (ds ++ d ∷ []) ≡ length ds + 1 = length-append ds (d ∷ []) in
      elim (dec_lt (length ds + 1) maxy) [
        | yes lt ↦ (
          0,
          record {
            last_pair = record { term = term; doc = d };
            maxy = maxy;
            kv_data = ds ++ d ∷ [];
            user_data = u;
          },
          rw (leb-false maxy (length (ds ++ d ∷ [])) (omega arith)) refl,
          refl,
          record {
            groups = [];
            whole = tt;
            delivered = refl;
            kept = refl;
            few = omega arith;
            same_maxy = refl;
            at_term = refl;
          },
        )
        | no ge ↦
            let whole : length (ds ++ d ∷ []) ≡ maxy = omega arith in
            let (rc, e) = flush_full (record { term = term; doc = d }) maxy ds d u in
            (
              rc,
              record {
                last_pair = record { term = term; doc = d };
                maxy = maxy;
                kv_data = [];
                user_data = deliver term ((ds ++ d ∷ []) ∷ []) u;
              },
              rw (le→leb maxy (length (ds ++ d ∷ [])) (omega arith), e) refl,
              refl,
              record {
                groups = (ds ++ d ∷ []) ∷ [];
                whole = (whole, tt);
                delivered = refl;
                kept = append-nil ((ds ++ d ∷ []) ++ []) ∙ append-nil (ds ++ d ∷ []);
                few = omega arith;
                same_maxy = refl;
                at_term = refl;
              },
            )
      ]
