-- ===== src/L2Miner/BoardListener.antt =====
-- src/miner/modules/l2_miner/board_listener.py: finding a board's last page, generating the urls of its
-- documents from new to old, and adding them to the cache. Fetching a page is a parameter.
pub mod LastPage
pub mod Updating
pub mod Search
pub mod Running
pub mod Pages
use pttarticle_recommander.Common.{
  ℕ, zero, suc, ◌+◌, ◌-◌, ◌*◌, ◌/◌, List, [], ◌∷◌, ◌++◌, length, take, Option, none, some, Text,
  Bool, true, false, not, ◌||◌, ltb, if◌then◌else◌,
}
use pttarticle_recommander.Common.Int.{ℤ, pos, ◌-ℤ◌, ltb_ℤ, leb_ℤ}
use pttarticle_recommander.Common.Results.{Error, Result, ok, err, out_of_fuel}
use pttarticle_recommander.Common.Exec.{Exec, pure, raise, lift, ◌>>=◌, ◌>>◌}

module _ {W : Type 0} (is_page_available : ℕ → Exec W Bool) where
  -- `while self._is_page_availiable(upper): upper *= 2`, on fuel.
  unfoldable pub double : ℕ → ℕ → Exec W ℕ
  double zero upper = raise out_of_fuel
  double (suc fuel) upper = do
    available ← is_page_available upper
    if available then double fuel (upper * 2) else pure upper

  -- `while lower + 1 < upper`, on fuel.
  unfoldable pub bisect : ℕ → ℕ → ℕ → Exec W ℕ
  bisect zero lower upper = if ltb (lower + 1) upper then raise out_of_fuel else pure lower
  bisect (suc fuel) lower upper =
      if ltb (lower + 1) upper
      then (do
        available ← is_page_available ((lower + upper) / 2)
        if available
            then bisect fuel ((lower + upper) / 2) upper
            else bisect fuel lower ((lower + upper) / 2))
      else pure lower

  -- The bisection has as many rounds as there are pages below the first one that is missing.
  unfoldable pub get_max_page_idx : ℕ → Exec W ℕ
  get_max_page_idx fuel = do upper ← double fuel 1; bisect upper (upper / 2) upper

-- 'https://www.ptt.cc'
abbrev pub server_addr : Text
server_addr =
    104 ∷ 116 ∷ 116 ∷ 112 ∷ 115 ∷ 58 ∷ 47 ∷ 47 ∷ 119 ∷ 119 ∷ 119 ∷ 46 ∷ 112 ∷ 116 ∷ 116 ∷ 46 ∷ 99
    ∷ 99 ∷ []

-- The fields of a `_UrlGenerator` that change. The urls of the page stand in reverse, since `pop` takes
-- the last.
pub record UrlGenerator : Type 0 where
  pub curr_page_idx : ℕ
  pub curr_page_urls : List Text
  pub prev_url : Text

-- `list.pop()`: the last element and the list without it, if there is one.
unfoldable pub pop : List Text → Option (Text × List Text)
pop [] = none
pop (url ∷ urls) = elim (pop urls) [
  | none ↦ some (url, [])
  | some (last, front) ↦ some (last, url ∷ front)
]

-- `self._prev_url[ : -len('.X.XXX.html')] + '_x'`, the name for an article that is missing.
abbrev pub missing_url : Text → Text
missing_url prev_url = take (length prev_url - 11) prev_url ++ 95 ∷ 120 ∷ []

-- The number of a url in halves, since `get_url_compare_num` may return one and a half; it raises where
-- a url has no number.
module _ {W : Type 0} (urls_getter : ℕ → Exec W (List Text)) (url_num_getter : Text → Result ℤ)
    (min_url_num : ℤ) where
  -- `while self._curr_page_idx > 1 and not self._curr_page_urls`; the index is the number of rounds.
  unfoldable pub turn_pages : ℕ → List Text → Exec W (ℕ × List Text)
  turn_pages zero urls = pure (0, urls)
  turn_pages (suc zero) urls = pure (1, urls)
  turn_pages (suc (suc i)) (url ∷ urls) = pure (suc (suc i), url ∷ urls)
  turn_pages (suc (suc i)) [] = do urls ← urls_getter (suc i); turn_pages (suc i) urls

  -- What `__next__` makes of the page that it has turned to.
  unfoldable pub next_of_page : Text → ℕ × List Text → Result (Text × UrlGenerator)
  next_of_page prev_url (idx, urls) = elim (pop urls) [
    | none ↦ ok (
      missing_url prev_url,
      record { curr_page_idx = idx; curr_page_urls = urls; prev_url = prev_url },
    )
    | some (curr, front) ↦ elim (url_num_getter curr) [
      | err e ↦ err e
      | ok num ↦
          let next = server_addr ++ curr in
          if leb_ℤ num min_url_num
          then ok (
            missing_url prev_url,
            record { curr_page_idx = idx; curr_page_urls = front; prev_url = prev_url },
          )
          else ok (next, record { curr_page_idx = idx; curr_page_urls = front; prev_url = next })
    ]
  ]

  unfoldable pub next : UrlGenerator → Exec W (Text × UrlGenerator)
  next g = do
    page ← turn_pages g.curr_page_idx g.curr_page_urls
    lift (next_of_page g.prev_url page)

  module _ (add_doc : ℤ → Text → Exec W Bool) (stop_flag : Exec W Bool) where
    -- The loop of `_UpdateThread.run`, on fuel.
    unfoldable pub update : ℕ → ℤ → UrlGenerator → Exec W (Unit {0})
    update zero curr_id g = raise out_of_fuel
    update (suc fuel) curr_id g = do
      (url, g') ← next g
      succ ← add_doc curr_id url
      if not succ || ltb_ℤ (curr_id -ℤ pos 1) (pos 0)
          then pure tt
          else (do stop ← stop_flag; if stop then pure tt else update fuel (curr_id -ℤ pos 1) g')
