-- ===== src/L2Miner/BoardListener/Search.antt =====
-- The numbers of urls and the search for a page in `BoardListener` of
-- src/miner/modules/l2_miner/board_listener.py. `int` and `random.randint` are parameters.
pub mod Ending
pub mod Sorted
pub mod Found
use pttarticle_recommander.Common.{
  ℕ, zero, suc, ◌+◌, ◌-◌, ◌*◌, ◌/◌, ◌==◌, List, [], ◌∷◌, length, take, drop, Option, none, some,
  Text, ltb, if◌then◌else◌,
}
use pttarticle_recommander.Common.Int.{ℤ, pos, ◌+ℤ◌, ◌-ℤ◌, ltb_ℤ}
use pttarticle_recommander.Common.Results.{Result, ok, err, index_error, out_of_fuel}
use pttarticle_recommander.Common.Results
use pttarticle_recommander.Common.Exec.{Exec, pure, raise, lift, ◌>>=◌}
use pttarticle_recommander.Common.Texts.{index_of}

-- `url[url.find(board) + len(board) + 3 : ]`
abbrev pub behind_board : Text → Text → Text
behind_board board url = elim (index_of board url) [
  | none ↦ drop (length board + 2) url
  | some i ↦ drop (i + length board + 3) url
]

-- `a[ : a.find(c)]`, which is all but the last character where there is none.
abbrev pub until : ℕ → Text → Text
until c a = elim (index_of (c ∷ []) a) [ none ↦ take (length a - 1) a | some i ↦ take i a ]

module _ (int : Text → Result ℤ) (board : Text) where
  -- In halves: twice the number before '.', or one less than twice the number before '_'.
  unfoldable pub num_of : Text → Result ℤ
  num_of a = elim (index_of (46 ∷ []) a) [
    | some i ↦ Results.◌>>=◌ (int (until 46 a)) (λ n. ok (n +ℤ n))
    | none ↦ Results.◌>>=◌ (int (until 95 a)) (λ n. ok (n +ℤ n -ℤ pos 1))
  ]

  unfoldable pub get_url_compare_num : Option Text → Result ℤ
  get_url_compare_num none = ok (pos 0)
  get_url_compare_num (some url) = num_of (behind_board board url)

-- How the inner loop of the search is left: with a page that has urls, or with a smaller range.
pub data Probed : Type 0 where
  found_page : ℕ → List Text → Probed
  smaller_range : ℕ → ℕ → Probed

-- `urls[0]` and `urls[-1]`
abbrev pub first : List Text → Result Text
first [] = err index_error
first (url ∷ urls) = ok url

unfoldable pub last : List Text → Result Text
last [] = err index_error
last (url ∷ []) = ok url
last (url ∷ (next ∷ urls)) = last (next ∷ urls)

module _ {W : Type 0} (get_page_urls : ℕ → Exec W (List Text)) (compare_num : Text → Result ℤ)
    (randint : ℕ → ℕ → Exec W ℕ) where
  -- The inner loop, on fuel, since the random pages may all be empty.
  unfoldable pub probe : ℕ → ℕ → ℕ → ℕ → Exec W Probed
  probe zero lower upper mid = raise out_of_fuel
  probe (suc fuel) lower upper mid = do
    urls ← get_page_urls mid
    elim urls [
      | url ∷ more ↦ pure (found_page mid (url ∷ more))
      | [] ↦
          if mid == lower
          then pure (smaller_range (lower + 1) upper)
          else if mid == upper
          then pure (smaller_range lower (upper - 1))
          else (do mid' ← randint lower upper; probe fuel lower upper mid')
    ]

  -- The range that is left behind a page with urls; the page may be at the lower end.
  unfoldable pub narrow : ℤ → ℕ → ℕ → ℕ → List Text → Result (ℕ × ℕ)
  narrow url_num lower upper mid urls = Results.◌>>=◌ (first urls) λ a.
      Results.◌>>=◌ (compare_num a) λ low.
        if ltb_ℤ url_num low
        then ok (lower, mid - 1)
        else Results.◌>>=◌ (last urls) λ b.
          Results.◌>>=◌ (compare_num b)
            λ high. if ltb_ℤ high url_num then ok (mid + 1, upper) else ok (mid, mid)

  unfoldable pub next_range : ℤ → ℕ → ℕ → Probed → Result (ℕ × ℕ)
  next_range url_num lower upper (found_page mid urls) = narrow url_num lower upper mid urls
  next_range url_num lower upper (smaller_range lower' upper') = ok (lower', upper')

  -- `while lower < upper`, on fuel.
  unfoldable pub search : ℕ → ℤ → ℕ → ℕ → Exec W ℕ
  search zero url_num lower upper = if ltb lower upper then raise out_of_fuel else pure lower
  search (suc fuel) url_num lower upper =
      if ltb lower upper
      then (do
        probed ← probe (suc fuel) lower upper ((lower + upper) / 2)
        (lower', upper') ← lift (next_range url_num lower upper probed)
        search fuel url_num lower' upper')
      else pure lower

  unfoldable pub get_page_contain_url_num : ℕ → ℤ → ℕ → Exec W (ℕ × List Text)
  get_page_contain_url_num fuel url_num max_page_idx = do
    lower ← search fuel url_num 1 max_page_idx
    urls ← get_page_urls lower
    pure (lower, urls)

  -- `sum(len(self._get_page_urls(i)) for i in range(...))`, for `n` pages.
  unfoldable pub count_urls : ℕ → ℕ → Exec W ℕ
  count_urls zero i = pure 0
  count_urls (suc n) i = do
    urls ← get_page_urls i
    more ← count_urls n (suc i)
    pure (length urls + more)

  -- `len([a for a in us if self.get_url_compare_num(a) > min_url_num])`
  unfoldable pub count_newer : ℤ → List Text → Result ℕ
  count_newer min_url_num [] = ok 0
  count_newer min_url_num (a ∷ us) = Results.◌>>=◌ (compare_num a) λ num.
      Results.◌>>=◌ (count_newer min_url_num us)
        λ n. ok (if ltb_ℤ min_url_num num then suc n else n)

  unfoldable pub estimate_num_urls_between : ℕ → ℤ → ℕ → Exec W ℕ
  estimate_num_urls_between fuel min_url_num max_page_idx = do
    (lower, us) ← get_page_contain_url_num fuel min_url_num max_page_idx
    m ←
        if ltb 50 (max_page_idx - lower)
        then pure ((max_page_idx - lower) * 20)
        else count_urls (max_page_idx - lower) (lower + 1)
    n ← lift (count_newer min_url_num us)
    pure (n + m)
