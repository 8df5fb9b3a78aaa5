-- ===== src/Tokenizer/Words.antt =====
-- The words that the calls of tokenizer_next return.
use csearch.Common.{ℕ, zero, suc, ◌+◌, ◌-◌, ◌≤◌, ◌<◌, ◌≡◌, refl, sym, ap, subst, ◌∙◌, arith}
use csearch.Common.{
  Bool, true, false, ◌||◌, List, [], ◌∷◌, ◌++◌, Option, none, some, All, All-take, length,
  length-append,
}
use csearch.Common.{
  set, drop, ne→==, if◌then◌else◌, lt→ltb, Bool-cases, inl, inr, length-set, drop-get_elem?,
}
use csearch.Common.Outcome.{Outcome, ok, ◌>>=◌}
use csearch.Stdio.{c_string}
use csearch.Tokenizer.{
  Icu, AreBreaks, Tokenizer, is_zero, is_single_punct, has_space, at_break, again,
}
use csearch.Tokenizer.Segments.{
  segment, segment-append, load-some, set_back, segment-set, c_string-segment,
}
use csearch.Tokenizer.Segments.{any_space, is_punct, has_space_lem, is_single_punct_lem}

All-drop : (n : ℕ) (xs : List ℕ) → All (λ c. 0 < c) xs → All (λ c. 0 < c) (drop n xs)
All-drop zero xs h = h
All-drop (suc n) [] h = tt
All-drop (suc n) (x ∷ xs) h = All-drop n xs h.1

All-segment :
    (text : List ℕ) (start end : ℕ)
    → All (λ c. 0 < c) text
    → All (λ c. 0 < c) (segment text start end)
All-segment text start end h =
    All-take (λ c. 0 < c) (end - start) (drop start text) (All-drop start text h)

choose {ℓ} :
    {A : Type ℓ} (p s : Bool) (x y : Outcome A)
    → ((if p then ok true else ok s) >>= λ skip. if skip then x else y) ≡ (if p || s then x else y)
choose true s x y = refl
choose false true x y = refl
choose false false x y = refl

module _ (icu : Icu) where
  open icu use {Iterator, ahead, to_bytes}

  -- A segment that is a single punctuation mark, or in which there is a space, is no word.
  abbrev pub is_skipped : List ℕ → Bool
  is_skipped seg = is_punct icu seg || any_space icu seg

  -- The words of a text between breaks, cut to the buffer.
  abbrev pub words : ℕ → List ℕ → ℕ → List ℕ → List (List ℕ)
  words size text start [] = []
  words size text start (e ∷ es) =
      if is_skipped (segment text start e)
      then words size text e es
      else to_bytes (segment text start e) (size - 1) ∷ words size text e es

  -- A tokenizer on a text, with a 0 behind it, in front of some breaks.
  pub record At (text : List ℕ) (es : List ℕ) (t : Tokenizer Iterator) : Type 0 where
    pub cells : t.str ≡ text ++ 0 ∷ []
    pub in_front : ahead t.boundary ≡ es
    pub in_order : AreBreaks t.start (length text) es

  abbrev moved : Tokenizer Iterator → Iterator → ℕ → Tokenizer Iterator
  moved t it e = record { str = t.str; boundary = it; start = e; end = some e }

  -- What is read of the cells in front of the next break.
  reads :
      (text : List ℕ) (e : ℕ) (str : List ℕ) (start : ℕ)
      → All (λ c. 0 < c) text
      → str ≡ text ++ 0 ∷ []
      → start < e
      → e ≤ length text
      → let seg = segment text start e in
        (is_single_punct icu (set str e 0) start e ≡ ok (is_punct icu seg))
        × (has_space icu (set str e 0) (e - start) start ≡ ok (any_space icu seg))
        × (c_string (drop start (set str e 0)) ≡ ok seg)
  reads text e str start nz cells lt le =
      let len : length str ≡ length text + 1 =
        omega (arith, ap length cells, length-append text (0 ∷ [])) in
      let room : length (set str e 0) ≡ length str = length-set str e 0 in
      let here : segment str start e ≡ segment text start e =
        ap (λ l. segment l start e) cells ∙ segment-append text (0 ∷ []) start e le in
      let cut = segment-set str start e 0 (omega arith) ∙ here in
      (
        is_single_punct_lem icu (set str e 0) start e lt (omega arith)
            ∙ ap (λ l. ok (is_punct icu l)) cut,
        has_space_lem icu (set str e 0) (e - start) start (omega arith)
            ∙ ap (λ l. ok (any_space icu l)) cut,
        c_string-segment str start e (omega arith) (omega arith)
              (subst (All (λ c. 0 < c)) (sym here) (All-segment text start e nz))
            ∙ ap ok here,
      )

  words-skip :
      (size : ℕ) (text : List ℕ) (start e : ℕ) (es : List ℕ)
      → is_skipped (segment text start e) ≡ true
      → words size text start (e ∷ es) ≡ words size text e es
  words-skip size text start e es skip = rw skip refl

  words-keep :
      (size : ℕ) (text : List ℕ) (start e : ℕ) (es : List ℕ)
      → is_skipped (segment text start e) ≡ false
      → words size text start (e ∷ es)
        ≡ to_bytes (segment text start e) (size - 1) ∷ words size text e es
  words-keep size text start e es keep = rw keep refl

  -- The next break, and what is returned in front of it.
  again-some :
      (n size : ℕ) (text : List ℕ) (e : ℕ) (es : List ℕ) (t : Tokenizer Iterator)
      → 0 < size
      → All (λ c. 0 < c) text
      → At text (e ∷ es) t
      → let seg = segment text t.start e in
        (it : Iterator) × At text es (moved t it e)
        × (again icu (suc n) size t ≡ (
            if is_skipped seg
            then again icu n size (moved t it e)
            else ok (some (to_bytes seg (size - 1)), moved t it e)))
  unfolding again at_break
  again-some n size text e es t room nz a =
      let (it, found, front) = icu.next_some t.boundary e es a.in_front in
      let (lt, le, more) = a.in_order in
      let len : length t.str ≡ length text + 1 =
        omega (arith, ap length a.cells, length-append text (0 ∷ [])) in
      let (c, saved, _) = drop-get_elem? t.str e (omega arith) in
      let (p, s, w) = reads text e t.str t.start nz a.cells lt le in
      let seg = segment text t.start e in
      (
        it,
        record { cells = a.cells; in_front = front; in_order = more },
        rw (found, load-some t.str e saved, set_back t.str e 0 saved, p, s, w, lt→ltb 0 size room)
            (choose (is_punct icu seg) (any_space icu seg) (again icu n size (moved t it e))
              (ok (some (to_bytes seg (size - 1)), moved t it e))),
      )

  -- A call with rounds enough returns -1 behind the last word, and else the next word.
  pub data Next (size : ℕ) (text es : List ℕ) (t : Tokenizer Iterator)
      : Outcome (Option (List ℕ) × Tokenizer Iterator) → Type 0 where
    no_more :
        {t' : Tokenizer Iterator}
        → words size text t.start es ≡ []
        → Next size text es t (ok (none, t'))
    one_more :
        {w : List ℕ} {es' : List ℕ} {t' : Tokenizer Iterator}
        → At text es' t'
        → is_zero t'.end ≡ false
        → length es' < length es
        → words size text t.start es ≡ w ∷ words size text t'.start es'
        → Next size text es t (ok (some w, t'))

  again-none :
      (n size : ℕ) (text : List ℕ) (t : Tokenizer Iterator)
      → ahead t.boundary ≡ []
      → again icu (suc n) size t ≡ ok (none, record t { end = none })
  unfolding again at_break
  again-none n size text t e = rw (icu.next_none t.boundary e) refl

  skipped :
      {size e : ℕ} {text es : List ℕ} {t t1 : Tokenizer Iterator}
      {m : Outcome (Option (List ℕ) × Tokenizer Iterator)}
      → Next size text es t1 m
      → words size text t.start (e ∷ es) ≡ words size text t1.start es
      → Next size text (e ∷ es) t m
  skipped (no_more none_left) same = no_more (same ∙ none_left)
  skipped (one_more at end fewer rest) same = one_more at end (omega arith) (same ∙ rest)

  pub again-Next :
      (es : List ℕ) (n size : ℕ) (text : List ℕ) (t : Tokenizer Iterator)
      → 0 < size
      → All (λ c. 0 < c) text
      → length es < n
      → At text es t
      → Next size text es t (again icu n size t)
  again-Next es zero size text t room nz fuel a = absurd (omega arith)
  again-Next [] (suc n) size text t room nz fuel a =
      rw (again-none n size text t a.in_front) (no_more refl)
  again-Next (e ∷ es) (suc n) size text t room nz fuel a =
      let (it, at, step) = again-some n size text e es t room nz a in
      let seg = segment text t.start e in
      let (lt, le, more) = a.in_order in
      elim (Bool-cases (is_skipped seg)) [
        | inl skip ↦
            rw (step, skip)
              (skipped (again-Next es n size text (moved t it e) room nz (omega arith) at)
                (words-skip size text t.start e es skip))
        | inr keep ↦
            rw (step, keep)
              (one_more at (ne→== e 0 (omega arith)) (omega arith)
                (words-keep size text t.start e es keep))
      ]
