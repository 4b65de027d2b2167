-- ===== src/FirstMiner/Build.antt =====
-- `BuildData` of src/miner/modules/build.py: the backend of the first version, which serves the list that
-- the crawler has written. Parsing that list and reading a document's file are parameters.
pub mod Series
pub mod Shifted
use pttarticle_recommander.Common.{
  ℕ, zero, suc, ◌+◌, ◌-◌, List, [], ◌∷◌, ◌++◌, length, get_elem?, ltb, Bool, ◌&&◌, Option, none,
  some, Text, text_eq, if◌then◌else◌,
}
use pttarticle_recommander.Common.Int.{ℤ, pos, negsuc, ◌+ℤ◌, leb_ℤ, eqb_ℤ}
use pttarticle_recommander.Common.Dict
use pttarticle_recommander.Common.Dict.{Dict}
use pttarticle_recommander.Common.Results.{Result, ok, err, index_error, name_error, ◌>>=◌}
use pttarticle_recommander.Common.Texts.{find, rfind, between}
use pttarticle_recommander.Protocol.Types.DocMetaData.{DocMetaData, make}
use pttarticle_recommander.Protocol.Types.DocRealData.{DocRealData}
use pttarticle_recommander.FirstMiner.Replies.{real_data_of}

-- An element of the crawler's list.
pub record Entry : Type 0 where
  pub id : ℤ
  pub name : Text
  pub push : List ℤ
  pub author : Text
  pub board : Text
  pub title : Text
  pub time : Text

pub record BuildData : Type 0 where
  pub jsondata : List Entry
  pub metadata : List DocMetaData
  pub series : Dict (List ℤ)

module _ {A : Type 0} where
  unfoldable pub in_range : Option A → Result A
  in_range none = err index_error
  in_range (some a) = ok a

  -- `xs[i]`, where a negative index counts from the end.
  unfoldable pub at : List A → ℤ → Result A
  at xs (pos i) = in_range (get_elem? xs i)
  at xs (negsuc i) =
      if ltb i (length xs) then in_range (get_elem? xs (length xs - suc i)) else err index_error

-- `self.d[Rstr][0]` where the title is known, else the entry's own identity.
unfoldable pub first_id : Entry → Dict (List ℤ) → Result ℤ
first_id e d = elim (Dict.lookup e.title d) [ none ↦ ok e.id | some ids ↦ at ids (pos 0) ]

-- `self.d.setdefault(Rstr, []).append(...)`
unfoldable pub add_id : Entry → Dict (List ℤ) → Dict (List ℤ)
add_id e d = elim (Dict.lookup e.title d) [
  | none ↦ Dict.insert e.title (e.id ∷ []) d
  | some ids ↦ Dict.insert e.title (ids ++ e.id ∷ []) d
]

-- The metadata of an entry; the time is no number, so that it becomes zero.
unfoldable pub metadata_of : (Text → Option ℤ) → ℤ → Entry → Result DocMetaData
metadata_of int rid e = do
  a ← at e.push (pos 0)
  b ← at e.push (pos 1)
  c ← at e.push (pos 2)
  make (some e.id) (some rid) e.title e.author (int e.time) (some e.board) (a ∷ b ∷ c ∷ [])

-- The loop of `__init__`.
unfoldable pub build_from :
    (Text → Option ℤ) → List Entry → Dict (List ℤ) → Result (List DocMetaData × Dict (List ℤ))
build_from int [] d = ok ([], d)
build_from int (e ∷ entries) d = do
  rid ← first_id e d
  meta ← metadata_of int rid e
  (metas, d') ← build_from int entries (add_id e d)
  ok (meta ∷ metas, d')

unfoldable pub init : (Text → Option ℤ) → List Entry → Result BuildData
init int entries = do
  (metas, d) ← build_from int entries []
  ok (record { jsondata = entries; metadata = metas; series = d })

-- The number of entries of a board.
unfoldable pub count_board : Text → List Entry → ℕ
count_board board [] = 0
count_board board (e ∷ entries) =
    let rest = count_board board entries in if text_eq e.board board then suc rest else rest

abbrev pub get_max_id : Text → BuildData → ℤ
get_max_id board b = pos (count_board board b.jsondata)

-- `for i in range(...): if ...: ansList.append(self.metadata[i])`
unfoldable pub select : (Entry → Bool) → List Entry → List DocMetaData → Result (List DocMetaData)
select test [] metas = ok []
select test (e ∷ entries) [] =
    let rest = select test entries [] in if test e then err index_error else rest
select test (e ∷ entries) (meta ∷ metas) =
    let rest = select test entries metas in if test e then rest >>= (λ ms. ok (meta ∷ ms)) else rest

unfoldable pub get_doc_meta_data_after_id : Text → ℤ → BuildData → Result (List DocMetaData)
get_doc_meta_data_after_id board idid b =
    select (λ e. text_eq e.board board && leb_ℤ (idid +ℤ pos 1) e.id) b.jsondata b.metadata

-- The name `datetime` is not imported: the first entry is enough to raise.
unfoldable pub get_doc_meta_data_after_time : Text → ℤ → BuildData → Result (List DocMetaData)
get_doc_meta_data_after_time board post_time b = elim b.jsondata [
  | [] ↦ ok []
  | e ∷ entries ↦ err name_error
]

unfoldable pub get_doc_meta_data_of_author : Text → Text → BuildData → Result (List DocMetaData)
get_doc_meta_data_of_author board author b =
    select (λ e. text_eq e.board board && text_eq e.author author) b.jsondata b.metadata

-- `for X in ...: ansList.append(self.metadata[X])`
unfoldable pub metas_at : List ℤ → List DocMetaData → Result (List DocMetaData)
metas_at [] metas = ok []
metas_at (i ∷ ids) metas = do meta ← at metas i; rest ← metas_at ids metas; ok (meta ∷ rest)

unfoldable pub series_of : Text → BuildData → Result (List DocMetaData)
series_of title b = elim (Dict.lookup title b.series) [
  | none ↦ ok []
  | some ids ↦ metas_at ids b.metadata
]

unfoldable pub is_doc : Text → ℤ → Entry → Bool
is_doc board idid e = text_eq e.board board && eqb_ℤ e.id (idid +ℤ pos 1)

unfoldable pub series_from : Text → ℤ → List Entry → BuildData → Result (List DocMetaData)
series_from board idid [] b = ok []
series_from board idid (e ∷ entries) b =
    let rest = series_from board idid entries b in
    let both = (do these ← series_of e.title b; others ← rest; ok (these ++ others)) in
    if is_doc board idid e then both else rest

unfoldable pub get_doc_meta_data_series : Text → ℤ → BuildData → Result (List DocMetaData)
get_doc_meta_data_series board idid b = series_from board idid b.jsondata b

-- The first entry that passes a test, with which the loops below return; behind the loop they return
-- `None`.
unfoldable pub first_entry : (Entry → Bool) → List Entry → Option Entry
first_entry test [] = none
first_entry test (e ∷ entries) =
    let rest = first_entry test entries in if test e then some e else rest

abbrev pub get_doc_real_data :
    (Text → Result Text) → Text → ℤ → BuildData → Result (Option DocRealData)
get_doc_real_data read board idid b = elim (first_entry (is_doc board idid) b.jsondata) [
  | none ↦ ok none
  | some e ↦ do strr ← read e.name; ok (some (real_data_of strr))
]

-- '.html' and 'http://www.ptt.cc/bbs/'
abbrev pub html : Text
html = 46 ∷ 104 ∷ 116 ∷ 109 ∷ 108 ∷ []

abbrev pub bbs : Text
bbs =
    104 ∷ 116 ∷ 116 ∷ 112 ∷ 58 ∷ 47 ∷ 47 ∷ 119 ∷ 119 ∷ 119 ∷ 46 ∷ 112 ∷ 116 ∷ 116 ∷ 46 ∷ 99 ∷ 99
    ∷ 47 ∷ 98 ∷ 98 ∷ 115 ∷ 47 ∷ []

-- `url[url.rfind('/')+1:url.find('.html')]`
unfoldable pub name_in : Text → Text
name_in url = between url (rfind (47 ∷ []) url +ℤ pos 1) (find html url)

unfoldable pub get_id_by_url : Text → BuildData → Option ℤ
get_id_by_url url b = elim (first_entry (λ e. text_eq e.name (name_in url)) b.jsondata) [
  | none ↦ none
  | some e ↦ some e.id
]

unfoldable pub get_url_by_id : Text → ℤ → BuildData → Option Text
get_url_by_id board idid b = elim (first_entry (is_doc board idid) b.jsondata) [
  | none ↦ none
  | some e ↦ some (bbs ++ board ++ e.name ++ html)
]
