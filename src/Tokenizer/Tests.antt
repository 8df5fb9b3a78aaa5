-- ===== src/Tokenizer/Tests.antt =====
-- A text of words, blanks and a full stop.
use csearch.Common.{ℕ, suc, ◌+◌, ◌*◌, ◌≤◌, ◌≡◌, refl, arith}
use csearch.Common.{
  Bool, ◌||◌, List, [], ◌∷◌, Option, none, some, length, take, ◌==◌, if◌then◌else◌,
}
use csearch.Common.{Bool-cases, inl, inr}
use csearch.Common.Outcome.{ok, fault, heap_overflow, ◌>>=◌}
use csearch.Tokenizer.{
  Icu, AreBreaks, again, at_break, is_single_punct, has_space, tokenizer_init, tokenizer_next,
  all_words,
}
use csearch.Tokenizer.Loop.{fresh, init-tokenizes}
use csearch.Stdio.{c_string}

abbrev blank : ℕ → Bool
blank c = c == 32

-- A break in front of and behind each blank, and at the end.
abbrev breaks_from : ℕ → List ℕ → List ℕ
breaks_from k [] = []
breaks_from k (c ∷ []) = suc k ∷ []
breaks_from k (c ∷ d ∷ text) =
    let more = breaks_from (suc k) (d ∷ text) in
    if blank c || blank d || d == 46 then suc k ∷ more else more

breaks_from-AreBreaks :
    (start k last : ℕ) (text : List ℕ)
    → start ≤ k
    → last ≡ k + length text
    → AreBreaks start last (breaks_from k text)
breaks_from-AreBreaks start k last [] le e = tt
breaks_from-AreBreaks start k last (c ∷ []) le e = (omega arith, omega arith, tt)
breaks_from-AreBreaks start k last (c ∷ d ∷ text) le e =
    elim (Bool-cases (blank c || blank d || d == 46)) [
      | inl break ↦ rw break (
        omega arith,
        omega arith,
        breaks_from-AreBreaks (suc k) (suc k) last (d ∷ text) (omega arith) (omega arith),
      )
      | inr whole ↦
          rw whole (breaks_from-AreBreaks start (suc k) last (d ∷ text) (omega arith) (omega arith))
    ]

abbrev next : List ℕ × List ℕ → Option ℕ × (List ℕ × List ℕ)
next (whole, []) = (none, (whole, []))
next (whole, e ∷ es) = (some e, (whole, es))

next-ahead :
    (it : List ℕ × List ℕ) (e : ℕ) (es : List ℕ)
    → it.1 ≡ e ∷ es
    → (it' : List ℕ × List ℕ) × (next it ≡ (some e, it')) × (it'.1 ≡ es)
next-ahead (whole, []) e es h = cc
next-ahead (whole, x ∷ xs) e es h = ((whole, es), cc, refl)

next-done : (it : List ℕ × List ℕ) → it.1 ≡ [] → next it ≡ (none, it)
next-done (whole, []) h = refl
next-done (whole, x ∷ xs) h = cc

abbrev icu : Icu
icu = record {
  from_bytes = λ input. input;
  to_bytes = λ units n. take n units;
  u_ispunct = λ c. c == 46;
  u_isspace = blank;
  Iterator = List ℕ × List ℕ;
  ubrk_open = λ text. (breaks_from 0 text, breaks_from 0 text);
  ubrk_first = λ it. (0, (it.0, it.0));
  ubrk_next = next;
  breaks = breaks_from 0;
  are_breaks = λ text. breaks_from-AreBreaks 0 0 (length text) text (omega arith) (omega arith);
  ahead = λ it. it.1;
  first_open = λ text. ((breaks_from 0 text, breaks_from 0 text), refl, refl);
  next_some = next-ahead;
  next_none = next-done;
}

-- "ab c."
abbrev page : List ℕ
page = 97 ∷ 98 ∷ 32 ∷ 99 ∷ 46 ∷ []

two_words : all_words icu 9 9 64 (fresh icu page) ≡ ok ((97 ∷ 98 ∷ []) ∷ (99 ∷ []) ∷ [])
unfolding all_words tokenizer_next again at_break is_single_punct has_space c_string
two_words = refl

-- A text of two bytes a unit
abbrev wide : List ℕ → List ℕ
wide [] = []
wide (c ∷ []) = []
wide (c ∷ d ∷ input) = (c * 256 + d) ∷ wide input

init-tokenizes_example :
    (tokenizer_init (record icu { from_bytes = wide }) (0 ∷ 97 ∷ 0 ∷ 32 ∷ 0 ∷ 98 ∷ []) >>= λ t.
    all_words (record icu { from_bytes = wide }) 9 9 64 t)
    ≡ ok ((97 ∷ []) ∷ (98 ∷ []) ∷ [])
init-tokenizes_example =
    init-tokenizes (record icu { from_bytes = wide }) 9 9 64 (0 ∷ 97 ∷ 0 ∷ 32 ∷ 0 ∷ 98 ∷ [])
      (omega arith) (omega arith) (omega arith) (omega arith) (omega arith)

-- A text of one unit a byte overflows.
ascii : tokenizer_init icu page ≡ fault heap_overflow
unfolding tokenizer_init
ascii = refl
