-- ===== src/Fetch/Tests.antt =====
-- A page that arrives in two pieces.
use csearch.Common.{ℕ, ◌≡◌, refl, arith, List, [], ◌∷◌}
use csearch.Common.Outcome.{Outcome, ok, fault, heap_overflow, ◌>>=◌}
use csearch.Runtime.{Runtime, stream_vbyte}
use csearch.Buff.{Buff, empty_buff}
use csearch.Buff.Laws.{IsValid, contents}
use csearch.Page.{text}
use csearch.Page.Text.{room, visible, letters, Parsed}
use csearch.Fetch.{
  CrawlFetch, crawl_fetch_init, crawl_fetch_fetch, crawl_parse_parse, WriteFunction,
}
use csearch.Fetch.{Takes, all_taken, taken, Curl}
use csearch.Stdio.{c_string}
use csearch.Fetch.Collect.{Ended, fetch_collects, fetch-parse}

abbrev rt : Runtime
rt = stream_vbyte 0xa5

-- A transfer that hands over what it is given, whatever the callback says.
abbrev deliver : WriteFunction → List (List ℕ) → CrawlFetch → Outcome (ℕ × CrawlFetch)
deliver write [] f = ok (0, f)
deliver write (piece ∷ pieces) f = do (_, f') ← write piece f; deliver write pieces f'

deliver-Takes :
    (write : WriteFunction) (pieces : List (List ℕ)) (f f' : CrawlFetch)
    → Takes write pieces f f'
    → deliver write pieces f ≡ ok (0, f')
deliver-Takes write pieces f f' all_taken = refl
deliver-Takes write (piece ∷ pieces) f f' (taken {f' = f1} e t) =
    rw e (deliver-Takes write pieces f1 f' t)

abbrev page : List (List ℕ)
page = (97 ∷ 98 ∷ []) ∷ (99 ∷ []) ∷ []

abbrev network : Curl
network = record {
  perform = λ write url f. deliver write page f;
  pieces = λ url. page;
  code = λ url. 0;
  performs = λ write url f f' t. deliver-Takes write page f f' t;
}

page_collected :
    (f : CrawlFetch) × (crawl_fetch_fetch rt network (crawl_fetch_init []) ≡ ok (0, f))
    × IsValid f.buff
    × (contents f.buff ≡ 97 ∷ 98 ∷ 99 ∷ [])
    × Ended f.buff
page_collected = fetch_collects rt network [] (omega arith) (omega arith)

fetch-parse_example :
    (f : CrawlFetch) × (b : Buff) × (crawl_fetch_fetch rt network (crawl_fetch_init []) ≡ ok (0, f))
    × (crawl_parse_parse rt text empty_buff f.buff ≡ ok b)
    × Parsed empty_buff 3 (97 ∷ 98 ∷ 99 ∷ []) b
unfolding room visible letters
fetch-parse_example =
    fetch-parse rt network text [] (omega arith) (omega arith) (omega arith) (omega arith)
      (omega arith)

-- Without a page the parser gets a null pointer.
no_page : crawl_parse_parse rt text empty_buff (crawl_fetch_init []).buff ≡ fault heap_overflow
unfolding crawl_parse_parse crawl_fetch_init c_string
no_page = refl
