-- ===== src/PairWriter/Groups.antt =====
-- A run of documents of one term reaches the callback in groups of `maxy`.
use csearch.Common.{ℕ, ◌<◌, ◌≡◌, refl, sym, ap, subst, ◌∙◌, false, arith}
use csearch.Common.{List, [], ◌∷◌, ◌++◌, append-nil, append_assoc, length, All, All-append}
use csearch.Common.{ltb-false, eq→==, ne→==, leb-false}
use csearch.Common.Outcome.{ok}
use csearch.PairWriter.{Pair, PairWriter, is_bogus, is_new_term, index_writer_init}
use csearch.PairWriter.{index_writer_write}
use csearch.PairWriter.Runs.{concat, Ascends, deliver, write_docs, Wrote, push_doc_lem}

in_order :
    (last : Pair) (term d : ℕ)
    → last.term ≡ term
    → last.doc < d
    → is_bogus last (record { term = term; doc = d }) ≡ false
unfolding is_bogus
in_order last term d here lt =
    rw
      (
        ltb-false term last.term (omega arith),
        eq→== term last.term (omega arith),
        leb-false d last.doc lt,
      )
      refl

same_term :
    (last : Pair) (term d : ℕ)
    → last.term ≡ term
    → is_new_term last (record { term = term; doc = d }) ≡ false
unfolding is_new_term
same_term last term d here = rw (eq→== last.term term here) refl

first_fine :
    (term d : ℕ)
    → 0 < term
    → is_bogus (record { term = 0; doc = 0 }) (record { term = term; doc = d }) ≡ false
unfolding is_bogus
first_fine term d pos = rw (ltb-false term 0 (omega arith), ne→== term 0 (omega arith)) refl

first_term :
    (term d : ℕ)
    → 0 < term
    → is_new_term (record { term = 0; doc = 0 }) (record { term = term; doc = d }) ≡ false
unfolding is_new_term
first_term term d pos = rw (ne→== 0 term (omega arith)) refl

module _ (compress : ℕ → List ℕ → List ℕ) {A : Type 0} (callback : Pair → List ℕ → A → ℕ × A) where
  concat-append : (gs hs : List (List ℕ)) → concat (gs ++ hs) ≡ concat gs ++ concat hs
  concat-append [] hs = refl
  concat-append (g ∷ gs) hs =
      ap (λ t. g ++ t) (concat-append gs hs) ∙ sym (append_assoc g (concat gs) (concat hs))

  deliver-append :
      (term : ℕ) (gs hs : List (List ℕ)) (u : A)
      → deliver compress callback term (gs ++ hs) u
        ≡ deliver compress callback term hs (deliver compress callback term gs u)
  deliver-append term [] hs u = refl
  deliver-append term ([] ∷ gs) hs u = deliver-append term gs hs u
  deliver-append term ((d ∷ ds) ∷ gs) hs u =
      deliver-append term gs hs (callback (record { term = term; doc = d }) (compress d ds) u).1

  Wrote-append :
      (term : ℕ) (w w1 w2 : PairWriter A) (ds es : List ℕ)
      → Wrote compress callback term w ds w1
      → Wrote compress callback term w1 es w2
      → Wrote compress callback term w (ds ++ es) w2
  Wrote-append term w w1 w2 ds es a b =
      let of_maxy : ℕ → Type 0 = λ m. All (λ g. length g ≡ m) b.groups in
      let regroup =
        ap (λ t. t ++ w2.kv_data) (concat-append a.groups b.groups)
        ∙ append_assoc (concat a.groups) (concat b.groups) w2.kv_data in
      record {
        groups = a.groups ++ b.groups;
        whole =
            All-append (λ g. length g ≡ w.maxy) a.groups b.groups a.whole
              (subst of_maxy a.same_maxy b.whole);
        delivered =
            b.delivered
            ∙ ap (deliver compress callback term b.groups) a.delivered
            ∙ sym (deliver-append term a.groups b.groups w.user_data);
        kept =
            regroup
            ∙ ap (λ t. concat a.groups ++ t) b.kept
            ∙ sym (append_assoc (concat a.groups) w1.kv_data es)
            ∙ ap (λ t. t ++ es) a.kept
            ∙ append_assoc w.kv_data ds es;
        few = b.few;
        same_maxy = b.same_maxy ∙ a.same_maxy;
        at_term = b.at_term;
      }

  abbrev pub Written : ℕ → PairWriter A → List ℕ → Type 0
  Written term w docs =
      (w' : PairWriter A) × (write_docs compress callback term w docs ≡ ok w')
      × Wrote compress callback term w docs w'

  -- One document that is neither out of order nor of a new term, and then the others.
  write_docs-cons :
      (w : PairWriter A) (term d : ℕ) (ds : List ℕ)
      → is_bogus w.last_pair (record { term = term; doc = d }) ≡ false
      → is_new_term w.last_pair (record { term = term; doc = d }) ≡ false
      → length w.kv_data < w.maxy
      → ((w1 : PairWriter A)
          → w1.last_pair ≡ record { term = term; doc = d }
          → length w1.kv_data < w1.maxy
          → Written term w1 ds)
      → Written term w (d ∷ ds)
  unfolding write_docs index_writer_write
  write_docs-cons w term d ds fine old few others =
      let (rc, w1, e, last, a) =
        push_doc_lem compress callback w.last_pair w.maxy w.kv_data w.user_data term d few in
      let (w2, e2, b) = others w1 last a.few in
      (w2, rw (fine, old, e) e2, Wrote-append term w w1 w2 (d ∷ []) ds a b)

  pub write_docs_lem :
      (docs : List ℕ) (w : PairWriter A) (term : ℕ)
      → w.last_pair.term ≡ term
      → Ascends w.last_pair.doc docs
      → length w.kv_data < w.maxy
      → Written term w docs
  unfolding write_docs
  write_docs_lem [] w term here up few = (
    w,
    refl,
    record {
      groups = [];
      whole = tt;
      delivered = refl;
      kept = sym (append-nil w.kv_data);
      few = few;
      same_maxy = refl;
      at_term = here;
    },
  )
  write_docs_lem (d ∷ ds) w term here (lt, up) few =
      write_docs-cons w term d ds (in_order w.last_pair term d (omega arith) lt)
        (same_term w.last_pair term d (omega arith)) few
        (λ w1 last few1.
          write_docs_lem ds w1 term (ap (λ (p : Pair). p.term) last)
            (subst (λ (x : ℕ). Ascends x ds) (sym (ap (λ (p : Pair). p.doc) last)) up) few1)

  -- A new writer with room for at least one document, which gets documents of one term other than 0,
  -- each behind the one before, passes them to the callback in groups of `maxy`, in their order, and
  -- keeps the fewer than `maxy` that are left.
  pub writes_groups :
      (term maxy d : ℕ) (ds : List ℕ) (u : A)
      → 0 < term
      → 0 < maxy
      → Ascends d ds
      → (w : PairWriter A) × (write_docs compress callback term (index_writer_init maxy u) (d ∷ ds)
          ≡ ok w)
        × Wrote compress callback term (index_writer_init maxy u) (d ∷ ds) w
  unfolding index_writer_init
  writes_groups term maxy d ds u pos room up =
      write_docs-cons (index_writer_init maxy u) term d ds (first_fine term d pos)
        (first_term term d pos) room
        (λ w1 last few.
          write_docs_lem ds w1 term (ap (λ (p : Pair). p.term) last)
            (subst (λ (x : ℕ). Ascends x ds) (sym (ap (λ (p : Pair). p.doc) last)) up) few)
