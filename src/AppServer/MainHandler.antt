-- ===== src/AppServer/MainHandler.antt =====
-- `MainHandler` of src/app_server/modules/main_handler.py, over a miner and an analyst that share a
-- state.
pub mod Replies
use pttarticle_recommander.Common.{
  List, [], ◌∷◌, Option, none, some, Text, Bool, true, false, if◌then◌else◌,
}
use pttarticle_recommander.Common.Int.{ℤ, pos, ltb_ℤ}
use pttarticle_recommander.Common.Dict
use pttarticle_recommander.Common.Dict.{Dict}
use pttarticle_recommander.Common.Results.{key_error, type_error, attribute_error}
use pttarticle_recommander.Common.Exec.{Exec, pure, raise, ◌>>=◌}
use pttarticle_recommander.Protocol.Types.DocIdentity.{DocIdentity}
use pttarticle_recommander.Protocol.Types.DocRelInfo.{DocRelInfo}

-- What the handler calls of `Miner` and of `ArticleAnalysis`.
pub record Experts (S : Type 0) : Type 0 where
  pub get_doc_identity_by_url : Text → Exec S DocIdentity
  pub get_url_by_doc_identity : DocIdentity → Exec S Text
  pub get_doc_rel_info : DocIdentity → Exec S DocRelInfo

-- A value in the query, as far as the handler tells values apart: a string, or anything else.
pub data Field : Type 0 where
  string_value : Text → Field
  other_value : Field

pub data Query : Type 0 where
  object_query : Dict Field → Query
  other_query : Query

-- `{'url': ...}`, and the reply, which is empty or has a list under each of the three keys.
abbrev pub Link : Type 0
Link = Dict Text

pub data Reply : Type 0 where
  empty_reply : Reply
  links_reply : List Link → List Link → List Link → Reply

-- 'url'
abbrev pub url_token : Text
url_token = 117 ∷ 114 ∷ 108 ∷ []

-- `json_obj[Token.URL]`: only an object has keys that are strings.
unfoldable pub url_field : {S : Type 0} → Query → Exec S Field
url_field (object_query fields) = elim (Dict.lookup url_token fields) [
  | none ↦ raise key_error
  | some field ↦ pure field
]
url_field other_query = raise type_error

-- `[a for a in arr if a]`: an empty object is false.
unfoldable pub filt : List Link → List Link
filt [] = []
filt ([] ∷ arr) = filt arr
filt ((entry ∷ a) ∷ arr) = (entry ∷ a) ∷ filt arr

module _ {S : Type 0} (experts : Experts S) where
  -- What is no string is not in the miner's cache and has no `encode`.
  unfoldable pub identify : Field → Exec S DocIdentity
  identify (string_value url) = experts.get_doc_identity_by_url url
  identify other_value = raise attribute_error

  -- `f`
  unfoldable pub link : DocIdentity → Exec S Link
  link identity = do url ← experts.get_url_by_doc_identity identity; pure ((url_token, url) ∷ [])

  -- `f(a) for a in ...`
  unfoldable pub links : List DocIdentity → Exec S (List Link)
  unfolding link
  links [] = pure []
  links (identity ∷ identities) = do a ← link identity; arr ← links identities; pure (a ∷ arr)

  unfoldable pub relate : DocIdentity → Exec S Reply
  unfolding links filt
  relate doc_id = do
    rel_doc_ids ← experts.get_doc_rel_info doc_id
    positive ← links rel_doc_ids.pos_rel_docs
    negative ← links rel_doc_ids.neg_rel_docs
    neutral ← links rel_doc_ids.neutral_rel_docs
    pure (links_reply (filt positive) (filt negative) (filt neutral))

  unfoldable pub handle_json : Query → Exec S Reply
  unfolding identify
  handle_json json_obj = do
    url ← url_field json_obj
    doc_id ← identify url
    if ltb_ℤ doc_id.idid (pos 0) then pure empty_reply else relate doc_id
