-- ===== src/Tokenizer/Loop.antt =====
-- The loop that takes every word of a text, and the block that tokenizer_init allocates.
use csearch.Common.{ℕ, zero, suc, ◌+◌, ◌≤◌, ◌<◌, ◌≡◌, refl, ap, ◌∙◌, arith}
use csearch.Common.{false, List, [], ◌∷◌, ◌++◌, Option, some, All, length}
use csearch.Common.{le→leb, leb-false, ◌==◌, eq→==, ne→==, if◌then◌else◌}
use native.Mathlib.Decide.{ℕ_discrete}
use csearch.Common.Outcome.{Outcome, ok, fault, heap_overflow, ◌>>=◌}
use csearch.Tokenizer.{Icu, Tokenizer, is_zero, again, tokenizer_init, tokenizer_next, all_words}
use csearch.Tokenizer.Words.{words, At, Next, no_more, one_more, again-Next}

module _ (icu : Icu) where
  open icu use {Iterator, ubrk_open, ubrk_first, breaks}

  -- A tokenizer that has not been asked for a word yet, on a text with a 0 behind it.
  abbrev pub fresh : List ℕ → Tokenizer Iterator
  fresh text = record { str = text ++ 0 ∷ []; boundary = ubrk_open text; start = 0; end = some 0 }

  next-again :
      (n size : ℕ) (t : Tokenizer Iterator)
      → is_zero t.end ≡ false
      → tokenizer_next icu n size t ≡ again icu n size t
  unfolding tokenizer_next
  next-again n size t e = rw e refl

  next-fresh :
      (n size : ℕ) (text : List ℕ)
      → (t : Tokenizer Iterator) × At icu text (breaks text) t
        × (t.start ≡ 0)
        × (tokenizer_next icu n size (fresh text) ≡ again icu n size t)
  unfolding tokenizer_next
  next-fresh n size text =
      let (it, first, front) = icu.first_open text in
      let t : Tokenizer Iterator = record {
        str = text ++ 0 ∷ [];
        boundary = it;
        start = 0;
        end = some 0;
      } in
      (
        t,
        record { cells = refl; in_front = front; in_order = icu.are_breaks text },
        refl,
        rw first refl,
      )

  -- One round of the loop, when the further rounds find the words that are left.
  round :
      {size : ℕ} {text es : List ℕ} {t : Tokenizer Iterator}
      {o : Outcome (Option (List ℕ) × Tokenizer Iterator)} (m n : ℕ) (t0 : Tokenizer Iterator)
      → Next icu size text es t o
      → tokenizer_next icu n size t0 ≡ o
      → ((es' : List ℕ) (t' : Tokenizer Iterator)
          → length es' < length es
          → At icu text es' t'
          → is_zero t'.end ≡ false
          → all_words icu m n size t' ≡ ok (words icu size text t'.start es'))
      → all_words icu (suc m) n size t0 ≡ ok (words icu size text t.start es)
  unfolding all_words
  round m n t0 (no_more none_left) e rec = rw (e, none_left) refl
  round m n t0 (one_more {es' = es'} {t' = t'} at end fewer rest) e rec =
      rw (e, rest, rec es' t' fewer at end) refl

  loop :
      (m n size : ℕ) (text es : List ℕ) (t0 t : Tokenizer Iterator)
      → 0 < size
      → All (λ c. 0 < c) text
      → length es < m
      → length es < n
      → At icu text es t
      → tokenizer_next icu n size t0 ≡ again icu n size t
      → all_words icu m n size t0 ≡ ok (words icu size text t.start es)
  loop zero n size text es t0 t room nz some_rounds fuel a e = absurd (omega arith)
  loop (suc m) n size text es t0 t room nz some_rounds fuel a e =
      round m n t0 (again-Next icu es n size text t room nz fuel a) e (λ es' t' fewer at end.
        loop m n size text es' t' t' room nz (omega arith) (omega arith) at
          (next-again n size t' end))

  pub tokenizes :
      (m n size : ℕ) (text : List ℕ)
      → 0 < size
      → All (λ c. 0 < c) text
      → length (breaks text) < m
      → length (breaks text) < n
      → all_words icu m n size (fresh text) ≡ ok (words icu size text 0 (breaks text))
  tokenizes m n size text room nz rounds fuel =
      let (t, a, zero_start, e) = next-fresh n size text in
      loop m n size text (breaks text) (fresh text) t room nz rounds fuel a e
      ∙ ap (λ k. ok (words icu size text k (breaks text))) zero_start

  init-overflows :
      (input : List ℕ)
      → length (icu.from_bytes input) ≡ length input
      → tokenizer_init icu input ≡ fault heap_overflow
  unfolding tokenizer_init
  init-overflows input same =
      rw (leb-false (length (icu.from_bytes input) + 1) (length input) (omega arith)) refl

  init-fresh :
      (input : List ℕ)
      → length (icu.from_bytes input) < length input
      → tokenizer_init icu input ≡ ok (fresh (icu.from_bytes input))
  unfolding tokenizer_init
  init-fresh input less =
      rw (le→leb (length (icu.from_bytes input) + 1) (length input) (omega arith)) refl

  -- For an input whose units are none of them 0 and no more than its bytes, and a buffer of one
  -- byte or more: if there are fewer units than bytes, `tokenizer_init` and then the loop return
  -- the words between the breaks of the text, cut to the buffer, when the loop and each call of
  -- `tokenizer_next` have more rounds than there are breaks. If there are as many units as bytes,
  -- the 0 behind the units overflows the block.
  pub init-tokenizes :
      (m n size : ℕ) (input : List ℕ)
      → let text = icu.from_bytes input in
        length text ≤ length input
        → 0 < size
        → All (λ c. 0 < c) text
        → length (breaks text) < m
        → length (breaks text) < n
        → (tokenizer_init icu input >>= λ t. all_words icu m n size t) ≡ (
            if length text == length input
            then fault heap_overflow
            else ok (words icu size text 0 (breaks text)))
  init-tokenizes m n size input le room nz rounds fuel =
      let text = icu.from_bytes input in
      elim (ℕ_discrete (length text) (length input)) [
        | yes same ↦ rw (eq→== (length text) (length input) same, init-overflows input same) refl
        | no less ↦
            rw (ne→== (length text) (length input) less, init-fresh input (omega arith))
              (tokenizes m n size text room nz rounds fuel)
      ]
