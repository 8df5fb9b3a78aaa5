-- ===== src/Fetch/Collect.antt =====
-- What a fetch leaves in the buffer, and what the parser makes of it.
use csearch.Common.{
  ℕ, zero, suc, ◌+◌, ◌*◌, ◌%◌, ◌^◌, ◌≤◌, ◌<◌, ◌≡◌, refl, sym, ap, subst, ◌∙◌, arith,
}
use csearch.Common.{
  List, [], ◌∷◌, ◌++◌, append-nil, append_assoc, some, length, take, take_all, length-take,
  get_elem?, All,
}
use csearch.Common.{ne→==, eq→==}
use csearch.Common.Outcome.{ok}
use csearch.Runtime.{Runtime}
use csearch.Buff.{Buff, empty_buff, buff_catn}
use csearch.Buff.Laws.{IsValid, contents}
use csearch.Buff.Append.{buff_catn_lem}
use csearch.Page.{Node}
use csearch.Page.Text.{room, visible, Parsed, parse-visible}
use mathlib.Core.Option.{some-injective}
use csearch.Fetch.{CrawlFetch, crawl_fetch_init, Takes, all_taken, taken, Curl}
use csearch.Stdio.{c_string}
use csearch.Fetch.{crawl_fetch_data, crawl_fetch_fetch, crawl_parse_parse}

-- What of the pieces gets into the buffer: a piece that starts with a 0 does not.
abbrev pub collected : List (List ℕ) → List ℕ
collected [] = []
collected ([] ∷ pieces) = collected pieces
collected ((zero ∷ cs) ∷ pieces) = collected pieces
collected ((suc c ∷ cs) ∷ pieces) = (suc c ∷ cs) ++ collected pieces

abbrev pub total : List (List ℕ) → ℕ
total [] = 0
total (piece ∷ pieces) = length piece + total pieces

-- libcurl hands over no empty piece, unless the whole page is empty.
abbrev pub NonEmpty : List ℕ → Type 0
NonEmpty piece = 0 < length piece

empty_buff-IsValid : IsValid empty_buff
empty_buff-IsValid = record { allocated = refl; within = omega arith; word = omega arith }

-- A 0 stands behind the contents, unless there are none.
abbrev pub Ended : Buff → Type 0
Ended b = 0 < b.size → get_elem? b.buff b.size ≡ some 0

-- The bytes in front of a 0 are a string.
c_string-take :
    (n : ℕ) (block : List ℕ)
    → get_elem? block n ≡ some 0
    → All (λ c. 0 < c) (take n block)
    → c_string block ≡ ok (take n block)
unfolding c_string
c_string-take n [] e h = cc
c_string-take zero (c ∷ block) e h = rw (eq→== c 0 (some-injective c 0 e)) refl
c_string-take (suc n) (c ∷ block) e (pos, h) =
    rw (ne→== c 0 (omega arith), c_string-take n block e h) refl

module _ (r : Runtime) where
  data_step :
      (piece : List ℕ) (f : CrawlFetch) {b : Buff}
      → length piece < 2 ^ 64
      → buff_catn r f.buff (some piece) (length piece) ≡ ok b
      → crawl_fetch_data r piece 1 (length piece) f ≡ ok (length piece, record f { buff = b })
  unfolding crawl_fetch_data
  data_step piece f small e =
      let len : 1 * length piece % 2 ^ 64 ≡ length piece = omega arith in rw (len, e) refl

  drops_zero : (cs : List ℕ) (n : ℕ) (b : Buff) → buff_catn r b (some (0 ∷ cs)) n ≡ ok b
  unfolding buff_catn
  drops_zero cs n b = refl

  data_lem :
      (piece : List ℕ) (f : CrawlFetch)
      → NonEmpty piece
      → IsValid f.buff
      → Ended f.buff
      → f.buff.size + length piece < 2 ^ 30
      → (f' : CrawlFetch) × (crawl_fetch_data r piece 1 (length piece) f ≡ ok (length piece, f'))
        × IsValid f'.buff
        × Ended f'.buff
        × (f'.buff.size ≤ f.buff.size + length piece)
        × (contents f'.buff ≡ contents f.buff ++ collected (piece ∷ []))
  data_lem [] f pos v end small = absurd (omega arith)
  data_lem (zero ∷ cs) f pos v end small =
      let e = data_step (0 ∷ cs) f (omega arith) (drops_zero cs (suc (length cs)) f.buff) in
      (f, e, v, end, omega arith, sym (append-nil (contents f.buff)))
  data_lem (suc c ∷ cs) f pos v end small =
      let piece : List ℕ = suc c ∷ cs in
      let (b', e, a, ended) =
        buff_catn_lem r (suc c) cs (length piece) v (λ e. absurd (omega arith)) (omega arith)
          small in
      let whole : take (length piece) piece ≡ piece = take_all (length piece) piece (omega arith) in
      (
        record f { buff = b' },
        data_step piece f (omega arith) e,
        a.valid,
        λ _. ended,
        omega (arith, a.size_is, ap length whole),
        a.contents_is ∙ ap (λ t. contents f.buff ++ t) (whole ∙ sym (append-nil piece)),
      )

  collected-cons :
      (piece : List ℕ) (pieces : List (List ℕ))
      → collected (piece ∷ pieces) ≡ collected (piece ∷ []) ++ collected pieces
  collected-cons [] pieces = refl
  collected-cons (zero ∷ cs) pieces = refl
  collected-cons (suc c ∷ cs) pieces =
      ap (λ t. t ++ collected pieces) (sym (append-nil (suc c ∷ cs)))

  takes :
      (pieces : List (List ℕ)) (f : CrawlFetch)
      → All NonEmpty pieces
      → IsValid f.buff
      → Ended f.buff
      → f.buff.size + total pieces < 2 ^ 30
      → (f' : CrawlFetch) × Takes
          (λ content. crawl_fetch_data r content 1 (length content))
          pieces
          f
          f'
        × IsValid f'.buff
        × Ended f'.buff
        × (contents f'.buff ≡ contents f.buff ++ collected pieces)
  takes [] f h v end small = (f, all_taken, v, end, sym (append-nil (contents f.buff)))
  takes (piece ∷ pieces) f (pos, h) v end small =
      let (f1, e, v1, end1, size, here) = data_lem piece f pos v end (omega arith) in
      let (f2, t, v2, end2, there) = takes pieces f1 h v1 end1 (omega arith) in
      (
        f2,
        taken e t,
        v2,
        end2,
        there
            ∙ ap (λ t. t ++ collected pieces) here
            ∙ append_assoc (contents f.buff) (collected (piece ∷ [])) (collected pieces)
            ∙ ap (λ t. contents f.buff ++ t) (sym (collected-cons piece pieces)),
      )

  -- A fetch of a page that libcurl delivers in pieces, none of them empty and below 2^30 bytes in
  -- all, succeeds with libcurl's code and leaves a valid buffer with the bytes of the pieces, in their
  -- order, but for pieces that start with a 0, and with a 0 behind them if there are any.
  pub fetch_collects :
      (curl : Curl) (url : List ℕ)
      → All NonEmpty (curl.pieces url)
      → total (curl.pieces url) < 2 ^ 30
      → (f : CrawlFetch) × (crawl_fetch_fetch r curl (crawl_fetch_init url) ≡ ok (curl.code url, f))
        × IsValid f.buff
        × (contents f.buff ≡ collected (curl.pieces url))
        × Ended f.buff
  unfolding crawl_fetch_fetch crawl_fetch_init
  fetch_collects curl url h small =
      let start : CrawlFetch = record { url = url; buff = empty_buff } in
      let (f, t, v, end, got) =
        takes (curl.pieces url) start h empty_buff-IsValid (λ p. absurd (omega arith))
          (omega arith) in
      (
        f,
        curl.performs (λ content. crawl_fetch_data r content 1 (length content)) url start f t,
        v,
        got,
        end,
      )

  -- A fetch of a page that libcurl delivers in pieces, none of them empty and below 2^30 bytes in
  -- all, succeeds with libcurl's code. If the bytes of the pieces, but for pieces that start with
  -- a 0, are one or more and hold no 0, then `crawl_parse_parse` on what was fetched gives gumbo
  -- these bytes, and adds to a new buffer, up to blanks, the visible texts of the tree that gumbo
  -- makes of them, if these texts stay below 2^30 bytes with a blank for each node.
  pub fetch-parse :
      (curl : Curl) (gumbo_parse : List ℕ → Node) (url : List ℕ)
      → All NonEmpty (curl.pieces url)
      → total (curl.pieces url) < 2 ^ 30
      → All (λ c. 0 < c) (collected (curl.pieces url))
      → 0 < length (collected (curl.pieces url))
      → let tree = gumbo_parse (collected (curl.pieces url)) in
        room tree < 2 ^ 30
        → (f : CrawlFetch) × (b : Buff) × (crawl_fetch_fetch r curl (crawl_fetch_init url)
            ≡ ok (curl.code url, f))
          × (crawl_parse_parse r gumbo_parse empty_buff f.buff ≡ ok b)
          × Parsed empty_buff (room tree) (visible tree) b
  unfolding crawl_parse_parse
  fetch-parse curl gumbo_parse url h small whole some_bytes fits =
      let page = collected (curl.pieces url) in
      let (f, e, v, got, end) = fetch_collects curl url h small in
      let size : length page ≤ f.buff.size =
        omega (arith, ap length got, length-take f.buff.size f.buff.buff) in
      let string : c_string f.buff.buff ≡ ok page =
        c_string-take f.buff.size f.buff.buff (end (omega arith))
          (subst (All (λ c. 0 < c)) (sym got) whole)
        ∙ ap ok got in
      let (b, parsed, text) = parse-visible r (gumbo_parse page) empty_buff-IsValid (omega arith) in
      (f, b, e, rw string parsed, text)
