-- ===== src/L2Miner/Crewer.antt =====
-- `Crewer` of src/miner/modules/l2_miner/crewer.py: a document from its page. Fetching the page, and the parts
-- that the parser finds on it, are parameters.
pub mod Attempts
pub mod Rows
use pttarticle_recommander.Common.{
  ℕ, zero, suc, ◌^◌, ◌==◌, List, [], ◌∷◌, length, Option, none, some, Text, Bool, true, false, not,
  if◌then◌else◌, map, drop,
}
use pttarticle_recommander.Common.Int.{ℤ, pos, eqb_ℤ}
use pttarticle_recommander.Common.Results.{Result, ok, err, ◌>>=◌}
use pttarticle_recommander.Common.Exec
use pttarticle_recommander.Common.Exec.{Exec}
use pttarticle_recommander.Common.Texts.{starts_with}
use pttarticle_recommander.Protocol.Types.ReplyMode.{good, normal, woo}
use pttarticle_recommander.Protocol.Types.ReplyMessage.{ReplyMessage}
use pttarticle_recommander.Protocol.Types.DocMetaData.{DocMetaData, make}
use pttarticle_recommander.Protocol.Types.DocRealData.{DocRealData}
use pttarticle_recommander.L2Miner.Document.{ADocument}

-- An element of the class `push`: the texts of its tag, its user and its content, where a part that is
-- missing raises, and a content may have no text.
pub record Push : Type 0 where
  pub tag : Result Text
  pub userid : Result Text
  pub content : Result (Option Text)

-- What the parser finds on a page, and what is left of its content without the elements of the classes
-- that are removed and without tags. `int` of the timestamp is the post time.
pub record Page : Type 0 where
  pub title : Result Text
  pub author : Result Text
  pub post_time : Result ℤ
  pub pushes : Result (List Push)
  pub cleaned : Result Text

-- '推' and '噓'
abbrev pub like_tag : Text
like_tag = 0x63a8 ∷ []

abbrev pub dislike_tag : Text
dislike_tag = 0x5653 ∷ []

abbrev pub case_of : Text → ℤ
case_of tag =
    if starts_with tag like_tag then good else if starts_with tag dislike_tag then woo else normal

-- `ret.append((case, user, cc[2 : ]))` where there is a content.
abbrev pub add_row : ℤ → Text → Option Text → List ReplyMessage → List ReplyMessage
add_row case user none rows = rows
add_row case user (some cc) rows = record { mode = case; user = user; message = drop 2 cc } ∷ rows

unfoldable pub rows_of : List Push → Result (List ReplyMessage)
rows_of [] = ok []
rows_of (a ∷ pushes) = do
  tag ← a.tag
  user ← a.userid
  cc ← a.content
  rows ← rows_of pushes
  ok (add_row (case_of tag) user cc rows)

-- `len([reply_row for reply_row in reply_rows if reply_row[0] == a])`
unfoldable pub count_mode : ℤ → List ReplyMessage → ℕ
count_mode a [] = 0
count_mode a (r ∷ rows) = let rest = count_mode a rows in if eqb_ℤ r.mode a then suc rest else rest

abbrev pub counts : List ReplyMessage → List ℤ
counts rows =
    pos (count_mode good rows) ∷ pos (count_mode normal rows) ∷ pos (count_mode woo rows) ∷ []

-- The body of the `try` behind the status.
unfoldable pub parse : Page → Result (DocMetaData × DocRealData)
parse page = do
  title ← page.title
  author ← page.author
  post_time ← page.post_time
  pushes ← page.pushes
  reply_rows ← rows_of pushes
  content ← page.cleaned
  meta ← make none none title author (some post_time) none (counts reply_rows)
  ok (meta, record { content = content; reply_messages = reply_rows })

-- `_TIME_INF`
abbrev pub time_inf : ℤ
time_inf = pos (2 ^ 60)

abbrev pub blank_meta : DocMetaData
blank_meta = record {
  idid = none;
  prev_id = none;
  title = [];
  author = [];
  post_time = time_inf;
  board = none;
  num_reply_rows = pos 0 ∷ pos 0 ∷ pos 0 ∷ [];
}

-- The document that is returned, where `none` stands for one that could not be fetched.
unfoldable pub document : Text → Option (DocMetaData × DocRealData) → ADocument
document url none = record {
  url = url;
  meta_data = blank_meta;
  real_data = record { content = []; reply_messages = [] };
}
document url (some (meta, real)) = record { url = url; meta_data = meta; real_data = real }

-- What was parsed, where every exception is dropped.
abbrev pub parsed : Result (DocMetaData × DocRealData) → Option (DocMetaData × DocRealData)
parsed (err e) = none
parsed (ok both) = some both

module _ {W : Type 0} (fetch : Text → Exec W (ℕ × Page)) (sleep : Exec W (Unit {0})) where
  -- A round of the loop on what `requests.get` came to, with the rounds that are left.
  unfoldable pub after_fetch :
      (W → Option (DocMetaData × DocRealData) × W)
      → Result (ℕ × Page)
      → W
      → Option (DocMetaData × DocRealData) × W
  after_fetch rest (err e) w = (none, w)
  after_fetch rest (ok (status, page)) w =
      let again = rest (sleep w).1 in if status == 200 then (parsed (parse page), w) else again

  -- `for i in range(30)`: only a status that is not 200 leads to another round.
  unfoldable pub attempts : ℕ → Text → W → Option (DocMetaData × DocRealData) × W
  attempts zero url w = (none, w)
  attempts (suc n) url w = after_fetch (attempts n url) (fetch url w).0 (fetch url w).1

  unfoldable pub get_doc_by_url : Text → Exec W ADocument
  get_doc_by_url url w = let r = attempts 30 url w in (ok (document url r.0), r.1)
