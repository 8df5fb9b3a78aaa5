-- ===== src/Fetch.antt =====
-- crawl_fetch_t of tool.c: a page as libcurl delivers it, in pieces, into a byte buffer.
pub mod Collect
mod Tests
use csearch.Common.{
  ℕ, ◌*◌, ◌%◌, ◌^◌, ◌≡◌, List, [], ◌∷◌, Option, none, some, length, ◌==◌, if◌then◌else◌,
}
use csearch.Common.Outcome.{Outcome, ok, fault, heap_overflow, ◌>>=◌}
use csearch.Runtime.{Runtime}
use csearch.Stdio.{c_string}
use csearch.Buff.{Buff, empty_buff, buff_catn}
use csearch.Page.{Node, crawl_parse_real}

-- `curl_handle` is libcurl's.
pub record CrawlFetch : Type 0 where
  pub url : List ℕ
  pub buff : Buff

unfoldable pub crawl_fetch_init : List ℕ → CrawlFetch
crawl_fetch_init url = record { url = url; buff = empty_buff }

-- A write callback: how many bytes it says that it took, and the state after it.
abbrev pub WriteFunction : Type 0
WriteFunction = List ℕ → CrawlFetch → Outcome (ℕ × CrawlFetch)

-- The callback takes every one of the pieces, from one state to another.
pub data Takes (write : WriteFunction) : List (List ℕ) → CrawlFetch → CrawlFetch → Type 0 where
  all_taken : {f : CrawlFetch} → Takes write [] f f
  taken :
      {piece : List ℕ} {pieces : List (List ℕ)} {f f' f'' : CrawlFetch}
      → write piece f ≡ ok (length piece, f')
      → Takes write pieces f' f''
      → Takes write (piece ∷ pieces) f f''

-- libcurl: `curl_easy_perform` on a handle for the url, with the option CURLOPT_WRITEFUNCTION set. It
-- hands the pieces that arrive to the callback, one after the other, as long as the callback returns
-- the number of bytes that it was given.
pub record Curl : Type 0 where
  pub perform : WriteFunction → List ℕ → CrawlFetch → Outcome (ℕ × CrawlFetch)
  pub pieces : List ℕ → List (List ℕ)
  pub code : List ℕ → ℕ
  pub performs :
      (write : WriteFunction) (url : List ℕ) (f f' : CrawlFetch)
      → Takes write (pieces url) f f'
      → perform write url f ≡ ok (code url, f')

module _ (r : Runtime) where
  unfoldable pub crawl_fetch_data : List ℕ → ℕ → ℕ → CrawlFetch → Outcome (ℕ × CrawlFetch)
  crawl_fetch_data content size nmemb f = do
    let rsize = size * nmemb % 2 ^ 64
    b ← buff_catn r f.buff (some content) rsize
    ok (rsize, record f { buff = b })

  -- libcurl passes 1 for the size of an item.
  unfoldable pub crawl_fetch_fetch : Curl → CrawlFetch → Outcome (ℕ × CrawlFetch)
  crawl_fetch_fetch curl f =
      curl.perform (λ content. crawl_fetch_data content 1 (length content)) f.url f

  -- `gumbo_parse` is gumbo's: the tree of a page. The buffer of a crawl_parse_t takes its text.
  unfoldable pub crawl_parse_parse : (List ℕ → Node) → Buff → Buff → Outcome Buff
  crawl_parse_parse gumbo_parse b content = do
    page ← c_string content.buff
    crawl_parse_real r b (gumbo_parse page)
