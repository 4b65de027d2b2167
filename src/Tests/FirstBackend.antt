-- ===== src/Tests/FirstBackend.antt =====
-- The theorems on the first version of the miner at a list of two documents with one title.
use pttarticle_recommander.Common.{
  ◌≡◌, refl, [], ◌∷◌, ◌++◌, length, Option, none, some, Text, text_eq,
}
use pttarticle_recommander.Common.Int.{ℤ, pos, ◌+ℤ◌}
use pttarticle_recommander.Common.Dict
use pttarticle_recommander.Common.Texts.{rfind, between, from, split, starts_with, index_of}
use pttarticle_recommander.Common.Results.{ok}
use pttarticle_recommander.Protocol.Types.DocMetaData.{DocMetaData, make}
use pttarticle_recommander.FirstMiner.Replies.{
  station, like_char, line_end, count_replies, count_from, count_line, lines_behind, real_data_of,
}
use pttarticle_recommander.FirstMiner.Replies.Counting.{CountsReplies, count_replies-modes}
use pttarticle_recommander.FirstMiner.Build.{
  Entry, BuildData, init, in_range, at, first_id, add_id, metadata_of, build_from, first_entry,
  is_doc, get_url_by_id, get_id_by_url, name_in,
}
use pttarticle_recommander.FirstMiner.Build.Series.{titled, nonempty, series_titled}

-- The document with the identity `id` and the name `name`.
abbrev entry_of : ℤ → Text → Entry
entry_of id name = record {
  id = id;
  name = name;
  push = pos 4 ∷ pos 0 ∷ pos 1 ∷ [];
  author = 97 ∷ [];
  board = 66 ∷ [];
  title = 84 ∷ [];
  time = 50 ∷ [];
}

abbrev first : Entry
first = entry_of (pos 1) (77 ∷ [])

abbrev last : Entry
last = entry_of (pos 2) (78 ∷ [])

abbrev no_number : Text → Option ℤ
no_number t = none

-- Both belong to the series of the first.
abbrev meta_of : ℤ → DocMetaData
meta_of id = record {
  idid = some id;
  prev_id = some (pos 1);
  title = 84 ∷ [];
  author = 97 ∷ [];
  post_time = pos 0;
  board = some (66 ∷ []);
  num_reply_rows = pos 4 ∷ pos 0 ∷ pos 1 ∷ [];
}

abbrev built : BuildData
built = record {
  jsondata = first ∷ last ∷ [];
  metadata = meta_of (pos 1) ∷ meta_of (pos 2) ∷ [];
  series = (84 ∷ [], pos 1 ∷ pos 2 ∷ []) ∷ [];
}

init-built : init no_number (first ∷ last ∷ []) ≡ ok built
unfolding init build_from first_id add_id metadata_of at in_range make Dict.lookup Dict.insert
    text_eq
init-built = refl

series_titled_example :
    (built.jsondata ≡ first ∷ last ∷ [])
    × (length built.metadata ≡ 2)
    × ((title : Text)
        → Dict.lookup title built.series ≡ nonempty (titled title (first ∷ last ∷ [])))
series_titled_example = series_titled no_number (first ∷ last ∷ []) built init-built

is_first : first_entry (is_doc (66 ∷ []) (pos 0)) (first ∷ last ∷ []) ≡ some first
unfolding first_entry is_doc text_eq ◌+ℤ◌
is_first = refl

-- The url of a document has no slash before the name, so that the document is not found by it.
url_is_lost :
    (url : Text) × (get_url_by_id (66 ∷ []) (pos 0) built ≡ some url)
    × (get_id_by_url url built ≡ none)
unfolding get_url_by_id get_id_by_url name_in first_entry is_doc text_eq ◌+ℤ◌ between rfind index_of
    starts_with
url_is_lost = (_, refl, refl)

-- A line of a document with two likes.
abbrev page : Text
page =
    65
    ∷ line_end
    ∷ 66
    ∷ (station ++ line_end ∷ like_char ∷ 32 ∷ 97 ∷ 58 ∷ 98 ∷ line_end ∷ like_char ∷ 32 ∷ 99 ∷ [])

two_likes : count_replies page ≡ record { like = 2; arrow = 0; dislike = 0 }
unfolding count_replies count_from count_line lines_behind split from index_of starts_with ◌+ℤ◌
two_likes = refl

count_replies-modes_example : CountsReplies (count_replies page) (real_data_of page).reply_messages
count_replies-modes_example = count_replies-modes page
