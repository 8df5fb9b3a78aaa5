-- ===== src/Tokenizer.antt =====
-- tokenizer_t of tool.c: the words of a text, between the breaks that ICU finds in it.
pub mod Segments
pub mod Words
pub mod Loop
mod Tests
use csearch.Common.{
  ℕ, zero, suc, ◌+◌, ◌-◌, ◌≤◌, ◌<◌, ◌≡◌, Bool, true, false, List, [], ◌∷◌, ◌++◌, Option, none, some,
}
use csearch.Common.{ltb, leb, ◌==◌, if◌then◌else◌, length, get_elem?, set, drop}
use csearch.Common.Outcome.{Outcome, ok, fault, heap_overflow, out_of_fuel, check, ◌>>=◌, ◌>>◌}
use csearch.Stdio.{c_string}

-- Every break behind the one before, and none behind the end.
abbrev pub AreBreaks : (start last : ℕ) → List ℕ → Type 0
AreBreaks start last [] = Unit
AreBreaks start last (e ∷ es) = (start < e) × (e ≤ last) × AreBreaks e last es

-- What the code takes from ICU. A UChar is a number.
pub record Icu : Type 1 where
  -- u_uastrcpy: the units of a string, without the final 0
  pub from_bytes : List ℕ → List ℕ
  -- u_austrncpy: the string that it makes of some units, of so many bytes at most
  pub to_bytes : List ℕ → ℕ → List ℕ
  pub u_ispunct : ℕ → Bool
  pub u_isspace : ℕ → Bool
  pub Iterator : Type 0
  pub ubrk_open : List ℕ → Iterator
  pub ubrk_first : Iterator → ℕ × Iterator
  -- `none` is UBRK_DONE.
  pub ubrk_next : Iterator → Option ℕ × Iterator
  -- The breaks of a text behind its start
  pub breaks : List ℕ → List ℕ
  pub are_breaks : (text : List ℕ) → AreBreaks 0 (length text) (breaks text)
  -- The breaks in front of an iterator: ubrk_next returns the first of them and steps over it.
  pub ahead : Iterator → List ℕ
  pub first_open :
      (text : List ℕ)
      → (it : Iterator) × (ubrk_first (ubrk_open text) ≡ (0, it)) × (ahead it ≡ breaks text)
  pub next_some :
      (it : Iterator) (e : ℕ) (es : List ℕ)
      → ahead it ≡ e ∷ es
      → (it' : Iterator) × (ubrk_next it ≡ (some e, it')) × (ahead it' ≡ es)
  pub next_none : (it : Iterator) → ahead it ≡ [] → ubrk_next it ≡ (none, it)

-- `str` holds the cells of the block; the field `end` is `none` for UBRK_DONE, -1.
pub record Tokenizer (I : Type 0) : Type 0 where
  pub str : List ℕ
  pub boundary : I
  pub start : ℕ
  pub end : Option ℕ

abbrev pub load : List ℕ → ℕ → Outcome ℕ
load str k = elim (get_elem? str k) [ none ↦ fault heap_overflow | some c ↦ ok c ]

abbrev pub is_zero : Option ℕ → Bool
is_zero none = false
is_zero (some n) = n == 0

module _ (icu : Icu) where
  open icu use {
    from_bytes, to_bytes, u_ispunct, u_isspace, Iterator, ubrk_open, ubrk_first, ubrk_next,
  }

  -- The block has one UChar for each byte of the input; u_uastrcpy stores a 0 behind the units.
  unfoldable pub tokenizer_init : List ℕ → Outcome (Tokenizer Iterator)
  tokenizer_init input = do
    let units = from_bytes input
    check (leb (length units + 1) (length input)) heap_overflow
    ok (record { str = units ++ 0 ∷ []; boundary = ubrk_open units; start = 0; end = some 0 })

  -- `t->end - t->start == 1 && u_ispunct( t->str[t->start] )`
  unfoldable pub is_single_punct : List ℕ → ℕ → ℕ → Outcome Bool
  is_single_punct str start end =
      let tested = (do c ← load str start; ok (u_ispunct c)) in
      if end == start + 1 then tested else ok false

  -- The loop that skips whitespace, with `n` rounds left.
  unfoldable pub has_space : List ℕ → ℕ → ℕ → Outcome Bool
  has_space str zero k = ok false
  has_space str (suc n) k = do
    c ← load str k
    let rest = has_space str n (k + 1)
    if u_isspace c then ok true else rest

  -- What follows on `t->end = ubrk_next(t->boundary)`. The word is the string in the buffer of `size`
  -- bytes; `none` is the result -1. `goto_again` goes on after `goto again`.
  unfoldable pub at_break :
      (Tokenizer Iterator → Outcome (Option (List ℕ) × Tokenizer Iterator))
      → ℕ
      → Tokenizer Iterator
      → Option ℕ
      → Iterator
      → Outcome (Option (List ℕ) × Tokenizer Iterator)
  at_break goto_again size t none it = ok (none, record t { boundary = it; end = none })
  at_break goto_again size t (some e) it = do
    saved ← load t.str e
    let cut = set t.str e 0
    let moved : Tokenizer Iterator = record {
      str = set cut e saved;
      boundary = it;
      start = e;
      end = some e;
    }
    let skipped = goto_again moved
    let copied = (do
      check (ltb 0 size) heap_overflow
      units ← c_string (drop t.start cut)
      ok (some (to_bytes units (size - 1)), moved))
    punct ← is_single_punct cut t.start e
    space ← (if punct then ok true else has_space cut (e - t.start) t.start)
    if space then skipped else copied

  -- From `again:` on, with `n` rounds.
  unfoldable pub again : ℕ → ℕ → Tokenizer Iterator → Outcome (Option (List ℕ) × Tokenizer Iterator)
  again zero size t = fault out_of_fuel
  again (suc n) size t =
      let (found, it) = ubrk_next t.boundary in at_break (again n size) size t found it

  unfoldable pub tokenizer_next :
      ℕ → ℕ → Tokenizer Iterator → Outcome (Option (List ℕ) × Tokenizer Iterator)
  tokenizer_next n size t =
      let (first, it) = ubrk_first t.boundary in
      again n size (if is_zero t.end then record t { start = first; boundary = it } else t)

  -- `while( !tokenizer_next( &t, word, sizeof(word) ) )`, with `m` rounds: the words.
  unfoldable pub all_words : ℕ → ℕ → ℕ → Tokenizer Iterator → Outcome (List (List ℕ))
  all_words zero n size t = fault out_of_fuel
  all_words (suc m) n size t = do
    (word, t') ← tokenizer_next n size t
    let more = all_words m n size t'
    elim word [ none ↦ ok [] | some w ↦ (do ws ← more; ok (w ∷ ws)) ]
