-- ===== src/FirstMiner/Crawl.antt =====
-- `BBSCrawler.getContent` of src/miner/modules/mining.py: the crawl over the pages of a board, which
-- numbers the documents that it has fetched and parsed. Fetching a page and its parts are parameters.
pub mod Numbering
pub mod Listed
use pttarticle_recommander.Common.{
  ℕ, zero, suc, ◌+◌, ◌-◌, ◌==◌, not, ◌&&◌, List, [], ◌∷◌, ◌++◌, Bool, Option, none, some, Text,
  if◌then◌else◌,
}
use pttarticle_recommander.Common.Int.{ℤ, pos, ◌+ℤ◌, ◌-ℤ◌, eqb_ℤ, negsuc}
use pttarticle_recommander.Common.Results
use pttarticle_recommander.Common.Results.{Result, ok, err, name_error}
use pttarticle_recommander.Common.Exec.{Exec, pure, raise, lift, gets, ◌>>=◌, ◌>>◌}
use pttarticle_recommander.Common.Texts.{find, between, from}
use pttarticle_recommander.FirstMiner.Replies.{Counts, count_replies, line_end}
use pttarticle_recommander.FirstMiner.Build.{Entry}
use pttarticle_recommander.FirstMiner.Variables.{
  Crawl, Meta, attempt, begin_meta, bound_var, caught, count_fetch_failure, count_index_failure,
  count_post, entry_in, nothing, on_net, open_bracket, push_entry, read_span, read_spans,
  reply_mark, report_meta_name, report_post_id, set_meta, set_post_id, start,
}

-- What is written to the document's file, in two calls.
unfoldable pub written : Text → Text
written strr = from strr (find (line_end ∷ []) (from strr (pos 1)) +ℤ pos 2) ++ line_end ∷ []

abbrev pub pages_to_run : ℕ → Bool → ℕ → ℕ
pages_to_run my_page_num for_all all_page_nums = if for_all then all_page_nums else my_page_num

abbrev pub two_ends : ℕ → Bool → Bool
two_ends to_num for_all = not (to_num == 0) && not for_all

unfoldable pub start_index : ℕ → ℕ → Bool → ℕ → ℕ
start_index my_page_num to_num for_all all_page_nums =
    if two_ends to_num for_all then pages_to_run my_page_num for_all all_page_nums else 1

unfoldable pub end_index : ℕ → ℕ → Bool → ℕ → ℕ
end_index my_page_num to_num for_all all_page_nums =
    if two_ends to_num for_all then to_num else pages_to_run my_page_num for_all all_page_nums

-- The board's pages and documents. `L` is a link on a page and `P` a fetched document; `text_of` is the
-- document's text without its tags, and `spans_of` the texts of its `article-meta-value` spans.
pub record Site (L P W : Type 0) : Type 0 where
  pub fetch_page : ℕ → Exec W (List L)
  pub post_id_of : L → Result Text
  pub fetch_post : Text → Exec W P
  pub open_file : Text → Exec W (Unit {0})
  pub text_of : P → Text
  pub write_text : Text → Exec W (Unit {0})
  pub spans_of : P → Result (List Text)
  pub parse_time : Text → Result Text
  pub chdir : Exec W (Unit {0})

module _ {L P W : Type 0} (site : Site L P W) where
  -- The body of the `try` that parses a document.
  unfoldable pub parse_post : Text → P → Exec (Crawl W) (Unit {0})
  parse_post post_id post = do
    on_net (site.write_text (written (site.text_of post)))
    spans ← lift (site.spans_of post)
    begin_meta post_id (count_replies (site.text_of post))
    read_spans (site.parse_time) 1 spans

  unfoldable pub append_entry : Exec (Crawl W) (Unit {0})
  append_entry = do on_net (site.chdir); e ← (λ s. (entry_in s.meta, s)); push_entry e

  unfoldable pub append_if : Option (Unit {0}) → Exec (Crawl W) (Unit {0})
  append_if none = report_meta_name
  append_if (some parsed) = append_entry

  unfoldable pub store_post : Text → Option P → Exec (Crawl W) (Unit {0})
  store_post post_id none = count_fetch_failure
  store_post post_id (some post) = do
    on_net (site.open_file post_id)
    parsed ← attempt (parse_post post_id post)
    append_if parsed

  unfoldable pub crawl_post : Text → Exec (Crawl W) (Unit {0})
  crawl_post post_id = do
    set_post_id post_id
    count_post
    post ← attempt (on_net (site.fetch_post post_id))
    store_post post_id post

  unfoldable pub crawl_link : Result Text → Exec (Crawl W) (Unit {0})
  crawl_link (err e) = report_post_id
  crawl_link (ok post_id) = crawl_post post_id

  unfoldable pub crawl_links : List L → Exec (Crawl W) (Unit {0})
  crawl_links [] = pure tt
  crawl_links (link ∷ links) = do crawl_link (site.post_id_of link); crawl_links links

  unfoldable pub crawl_page : Option (List L) → Exec (Crawl W) (Unit {0})
  crawl_page none = count_index_failure
  crawl_page (some links) = crawl_links links

  -- `for indexP in range(startIndex, endIndex)`, as the number of the rounds and the first index.
  unfoldable pub crawl_pages : ℕ → ℕ → Exec (Crawl W) (Unit {0})
  crawl_pages zero index = pure tt
  crawl_pages (suc n) index = do
    page ← attempt (on_net (site.fetch_page index))
    crawl_page page
    crawl_pages n (suc index)

  -- The pages from `startIndex` to `endIndex`, and the list that is dumped behind them.
  unfoldable pub get_content : ℕ → ℕ → Bool → ℕ → Exec (Crawl W) (List Entry)
  get_content my_page_num to_num for_all all_page_nums =
      let first = start_index my_page_num to_num for_all all_page_nums in
      let behind = end_index my_page_num to_num for_all all_page_nums in
      (do crawl_pages (behind - first) first; gets (λ s. s.arr))
