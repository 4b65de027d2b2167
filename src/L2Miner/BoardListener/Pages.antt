-- ===== src/L2Miner/BoardListener/Pages.antt =====
-- `_get_page_urls`, `_is_page_availiable` and `_get_url` of src/miner/modules/l2_miner/board_listener.py: asking
-- the site for the pages of a board. The site, and the elements that the parser finds, are parameters.
pub mod Numerals
pub mod Sites
pub mod Links
use pttarticle_recommander.Common.{
  ℕ, zero, suc, ◌+◌, ◌/◌, ◌%◌, ◌==◌, List, [], ◌∷◌, ◌++◌, Option, none, some, Text, text_eq, Bool,
  true, false, ◌||◌, ltb, if◌then◌else◌,
}
use pttarticle_recommander.Common.Results.{Result, ok, err, attribute_error, out_of_fuel}
use pttarticle_recommander.Common.Exec.{Exec, pure, raise, lift, ◌>>=◌, ◌>>◌}

-- `'%d' % n`: at most `n + 1` digits.
unfoldable pub digits : ℕ → ℕ → Text
digits zero n = []
digits (suc fuel) n =
    let front = digits fuel (n / 10) in
    if ltb n 10 then (48 + n) ∷ [] else front ++ (48 + n % 10) ∷ []

abbrev pub decimal : ℕ → Text
decimal n = digits (suc n) n

-- 'index' and '.html'
abbrev pub index_name : Text
index_name = 105 ∷ 110 ∷ 100 ∷ 101 ∷ 120 ∷ []

abbrev pub html_suffix : Text
html_suffix = 46 ∷ 104 ∷ 116 ∷ 109 ∷ 108 ∷ []

unfoldable pub get_url : Text → ℕ → Text
get_url url_prefix page_idx = url_prefix ++ index_name ++ decimal page_idx ++ html_suffix

-- A child of the container: a text, whose `get` raises, or an element with its classes, if it has the
-- attribute, and the addresses of the links in it.
pub data Child : Type 0 where
  text_child : Child
  element_child : (classes : Option (List Text)) (hrefs : List Text) → Child

-- What the parser finds as the container 'r-list-container', if it does.
abbrev pub Page : Type 0
Page = Option (List Child)

-- 'r-list-sep' and 'r-ent'
abbrev pub separator_class : Text
separator_class = 114 ∷ 45 ∷ 108 ∷ 105 ∷ 115 ∷ 116 ∷ 45 ∷ 115 ∷ 101 ∷ 112 ∷ []

abbrev pub entry_class : Text
entry_class = 114 ∷ 45 ∷ 101 ∷ 110 ∷ 116 ∷ []

unfoldable pub has_class : Text → List Text → Bool
has_class c [] = false
has_class c (d ∷ classes) = text_eq c d || has_class c classes

-- `if a: ret.append(a[0].get('href'))`
abbrev pub append_link : List Text → List Text → List Text
append_link [] ret = ret
append_link (href ∷ hrefs) ret = ret ++ href ∷ []

-- The loop over the children.
unfoldable pub collect_urls : List Child → List Text → List Text
collect_urls [] ret = ret
collect_urls (text_child ∷ children) ret = collect_urls children ret
collect_urls (element_child none hrefs ∷ children) ret = collect_urls children ret
collect_urls (element_child (some classes) hrefs ∷ children) ret =
    let more = collect_urls children (append_link hrefs ret) in
    let others = collect_urls children ret in
    if has_class separator_class classes
    then ret
    else if has_class entry_class classes
    then more
    else others

abbrev pub urls_of : Page → Result (List Text)
urls_of none = err attribute_error
urls_of (some children) = ok (collect_urls children [])

-- `requests.get`, with the status code, and the sleep between two attempts.
module _ {W : Type 0} (get : Text → Exec W (ℕ × Page)) (sleep : Exec W (Unit {0}))
    (url_prefix : Text) where
  -- `for i in range(10)`, with the attempts that are left.
  unfoldable pub ask : ℕ → ℕ → Exec W Bool
  ask zero page_idx = pure false
  ask (suc n) page_idx = do
    (status_code, page) ← get (get_url url_prefix page_idx)
    if status_code == 200 then pure true else (do sleep; ask n page_idx)

  abbrev pub is_page_availiable : ℕ → Exec W Bool
  is_page_availiable page_idx = ask 10 page_idx

  -- `while True`, on fuel: the site may refuse without end.
  unfoldable pub fetch : ℕ → ℕ → Exec W Page
  fetch zero page_idx = raise out_of_fuel
  fetch (suc fuel) page_idx = do
    (status_code, page) ← get (get_url url_prefix page_idx)
    if status_code == 200 then pure page else (do sleep; fetch fuel page_idx)

  unfoldable pub get_page_urls : ℕ → ℕ → Exec W (List Text)
  get_page_urls fuel page_idx = do page ← fetch fuel page_idx; lift (urls_of page)
