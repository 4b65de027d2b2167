-- ===== src/Tests/Crawling.antt =====
-- The theorems on the crawl at a site of one page, with three links of which the second is broken.
use pttarticle_recommander.Common.{ℕ, ◌≡◌, refl, [], ◌∷◌, Option, none, some, Text, text_eq, false}
use pttarticle_recommander.Common.Int.{ℤ, pos, ◌+ℤ◌, ◌-ℤ◌}
use pttarticle_recommander.Common.Dict
use pttarticle_recommander.Common.Texts.{between, from, split, starts_with, index_of}
use pttarticle_recommander.Common.Results.{Result, ok, err, index_error, key_error}
use pttarticle_recommander.Common.Exec.{pure}
use pttarticle_recommander.Protocol.Types.DocMetaData.{DocMetaData, make}
use pttarticle_recommander.FirstMiner.Replies.{count_replies, count_from, count_line, lines_behind}
use pttarticle_recommander.FirstMiner.Build.{
  Entry, BuildData, init, in_range, at, first_id, add_id, metadata_of, build_from, first_entry,
  is_doc, get_doc_meta_data_series,
}
use pttarticle_recommander.FirstMiner.Variables.{
  attempt, begin_meta, entry_in, push_entry, read_span, read_spans, report_post_id,
  report_meta_name, start,
}
use pttarticle_recommander.FirstMiner.Crawl.{
  Site, parse_post, append_entry, append_if, store_post, crawl_post, crawl_link, crawl_links,
  crawl_page, crawl_pages, start_index, end_index, get_content,
}
use pttarticle_recommander.FirstMiner.Crawl.Numbering.{IsNumbered}
use pttarticle_recommander.FirstMiner.Crawl.Listed.{get_content-IsNumbered, crawled_series_raises}

-- A link is the name of a document, and a document is its name.
abbrev name_of : Text → Result Text
name_of [] = err key_error
name_of (c ∷ t) = ok (c ∷ t)

abbrev small_site : Site Text Text ℕ
small_site = record {
  fetch_page = λ i. pure ((77 ∷ []) ∷ [] ∷ (78 ∷ []) ∷ []);
  post_id_of = name_of;
  fetch_post = λ t. pure t;
  open_file = λ t. pure tt;
  text_of = λ t. t;
  write_text = λ t. pure tt;
  spans_of =
      λ t. ok ((97 ∷ 32 ∷ 40 ∷ []) ∷ (66 ∷ []) ∷ (84 ∷ []) ∷ (50 ∷ 50 ∷ 50 ∷ 50 ∷ 50 ∷ []) ∷ []);
  parse_time = λ t. ok t;
  chdir = pure tt;
}

abbrev entry : ℤ → Text → Entry
entry id name = record {
  id = id;
  name = name;
  push = pos 0 ∷ pos 0 ∷ pos 0 ∷ [];
  author = 97 ∷ [];
  board = 66 ∷ [];
  title = 84 ∷ [];
  time = 50 ∷ [];
}

abbrev first : Entry
first = entry (pos 1) (77 ∷ [])

abbrev last : Entry
last = entry (pos 2) (78 ∷ [])

crawled : (get_content small_site 2 0 false 0 (start 0)).0 ≡ ok (first ∷ last ∷ [])
unfolding get_content start_index end_index crawl_pages crawl_page crawl_links crawl_link crawl_post
    store_post parse_post append_if append_entry attempt begin_meta entry_in push_entry read_span
    read_spans report_post_id report_meta_name count_replies count_from count_line lines_behind
    split from between starts_with index_of ◌+ℤ◌ ◌-ℤ◌
crawled = refl

get_content-IsNumbered_example : IsNumbered (first ∷ last ∷ [])
get_content-IsNumbered_example =
    get_content-IsNumbered small_site 2 0 0 false 0 (first ∷ last ∷ []) crawled

abbrev no_number : Text → Option ℤ
no_number t = none

abbrev meta_of : ℤ → DocMetaData
meta_of id = record {
  idid = some id;
  prev_id = some (pos 1);
  title = 84 ∷ [];
  author = 97 ∷ [];
  post_time = pos 0;
  board = some (66 ∷ []);
  num_reply_rows = pos 0 ∷ pos 0 ∷ pos 0 ∷ [];
}

abbrev built : BuildData
built = record {
  jsondata = first ∷ last ∷ [];
  metadata = meta_of (pos 1) ∷ meta_of (pos 2) ∷ [];
  series = (84 ∷ [], pos 1 ∷ pos 2 ∷ []) ∷ [];
}

init-built : init no_number (first ∷ last ∷ []) ≡ ok built
unfolding init build_from first_id add_id metadata_of at in_range make Dict.lookup Dict.insert
    text_eq
init-built = refl

is_first : first_entry (is_doc (66 ∷ []) (pos 0)) (first ∷ last ∷ []) ≡ some first
unfolding first_entry is_doc text_eq ◌+ℤ◌
is_first = refl

crawled_series_raises_example : get_doc_meta_data_series (66 ∷ []) (pos 0) built ≡ err index_error
crawled_series_raises_example =
    crawled_series_raises small_site 2 0 0 false 0 no_number (first ∷ []) last first (66 ∷ [])
      (pos 0) built crawled init-built is_first refl
