-- ===== src/L2Miner/BoardListener/Search/Ending.antt =====
-- How the search for a page in `BoardListener` of src/miner/modules/l2_miner/board_listener.py ends.
use native.Mathlib.Decide.{dec_lt}
use pttarticle_recommander.Common.{
  ℕ, zero, suc, ◌+◌, ◌-◌, ◌/◌, ◌≤◌, ◌<◌, ◌≡◌, refl, ◌∙◌, List, [], ◌∷◌, Text, Bool-cases, inl, inr,
  false, ltb, lt→ltb, arith,
}
use pttarticle_recommander.Common.Int.{ℤ, ltb_ℤ}
use pttarticle_recommander.Common.Results.{Result, ok}
use pttarticle_recommander.Common.Exec.{Exec}
use pttarticle_recommander.L2Miner.BoardListener.Search.{
  found_page, last, probe, narrow, next_range, search,
}

-- Every page that is fetched has urls, and every url has a number.
pub record AllFull {W : Type 0} (get_page_urls : ℕ → Exec W (List Text))
    (compare_num : Text → Result ℤ) : Type 0 where
  pub page :
      (i : ℕ) (w : W)
      → (url : Text) × (more : List Text) × ((get_page_urls i w).0 ≡ ok (url ∷ more))
  pub number : (url : Text) → (n : ℤ) × (compare_num url ≡ ok n)

last_total : (url : Text) (more : List Text) → (b : Text) × (last (url ∷ more) ≡ ok b)
unfolding last
last_total url [] = (url, refl)
last_total url (next ∷ more) = last_total next more

module _ {W : Type 0} (get_page_urls : ℕ → Exec W (List Text)) (compare_num : Text → Result ℤ)
    (randint : ℕ → ℕ → Exec W ℕ) where
  pub probe_full :
      (fuel lower upper mid : ℕ) (url : Text) (more : List Text) (w : W)
      → (get_page_urls mid w).0 ≡ ok (url ∷ more)
      → probe get_page_urls compare_num randint (suc fuel) lower upper mid w
        ≡ (ok (found_page mid (url ∷ more)), (get_page_urls mid w).1)
  unfolding probe
  probe_full fuel lower upper mid url more w p = rw p refl

  pub search_step :
      (fuel : ℕ) (url_num : ℤ) (lower upper l u : ℕ) (url : Text) (more : List Text) (w v : W)
      → lower < upper
      → probe get_page_urls compare_num randint (suc fuel) lower upper ((lower + upper) / 2) w
        ≡ (ok (found_page ((lower + upper) / 2) (url ∷ more)), v)
      → narrow get_page_urls compare_num randint url_num lower upper
          ((lower + upper) / 2)
          (url ∷ more)
        ≡ ok (l, u)
      → search get_page_urls compare_num randint (suc fuel) url_num lower upper w
        ≡ search get_page_urls compare_num randint fuel url_num l u v
  unfolding search next_range
  search_step fuel url_num lower upper l u url more w v h p q = rw (lt→ltb lower upper h, p, q) refl

  pub search_done :
      (fuel : ℕ) (url_num : ℤ) (lower upper : ℕ) (w : W)
      → upper ≤ lower
      → search get_page_urls compare_num randint fuel url_num lower upper w ≡ (ok lower, w)
  unfolding search
  search_done zero url_num lower upper w h =
      let e : ltb lower upper ≡ false = ground arith in rw e refl
  search_done (suc fuel) url_num lower upper w h =
      let e : ltb lower upper ≡ false = ground arith in rw e refl

module _ {W : Type 0} (get_page_urls : ℕ → Exec W (List Text)) (compare_num : Text → Result ℤ)
    (randint : ℕ → ℕ → Exec W ℕ) (full : AllFull get_page_urls compare_num) where
  -- A round leaves a smaller range.
  narrow-smaller :
      (fuel : ℕ) (url_num : ℤ) (lower upper mid : ℕ) (url : Text) (more : List Text)
      → lower ≤ mid
      → mid < upper
      → upper ≤ lower + suc fuel
      → (l u : ℕ) × (narrow get_page_urls compare_num randint url_num lower upper mid (url ∷ more)
          ≡ ok (l, u))
        × (u ≤ l + fuel)
  unfolding narrow
  narrow-smaller fuel url_num lower upper mid url more h k s =
      let (a, p) = full.number url in
      let (b, q) = last_total url more in
      let (c, r) = full.number b in
      elim (Bool-cases (ltb_ℤ url_num a)) [
        | inl left ↦ (lower, mid - 1, rw (p, left) refl, omega arith)
        | inr right ↦ elim (Bool-cases (ltb_ℤ c url_num)) [
          | inl behind ↦ (mid + 1, upper, rw (p, right, q, r, behind) refl, omega arith)
          | inr here ↦ (mid, mid, rw (p, right, q, r, here) refl, omega arith)
        ]
      ]

  -- On a board none of whose pages is empty, and whose urls all have numbers, the search of
  -- `_get_page_contain_url_num` ends with a page and raises nothing, within as many rounds as
  -- there are pages in the range.
  pub search_ends :
      (fuel : ℕ) (url_num : ℤ) (lower upper : ℕ) (w : W)
      → upper ≤ lower + fuel
      → (i : ℕ) × (w' : W) × (search get_page_urls compare_num randint fuel url_num lower upper w
          ≡ (ok i, w'))
  search_ends zero url_num lower upper w h = (
    lower,
    w,
    search_done get_page_urls compare_num randint zero url_num lower upper w (omega arith),
  )
  search_ends (suc fuel) url_num lower upper w h = elim (dec_lt lower upper) [
    | no d ↦ (
      lower,
      w,
      search_done get_page_urls compare_num randint (suc fuel) url_num lower upper w (omega arith),
    )
    | yes d ↦
        let (url, more, p) = full.page ((lower + upper) / 2) w in
        let (l, u, q, s) =
          narrow-smaller fuel url_num lower upper ((lower + upper) / 2) url more (omega arith)
            (omega arith) h in
        let (i, w', r) = search_ends fuel url_num l u (get_page_urls ((lower + upper) / 2) w).1 s in
        (
          i,
          w',
          search_step get_page_urls compare_num randint fuel url_num lower upper l u url more w _ d
                (probe_full get_page_urls compare_num randint fuel lower upper ((lower + upper) / 2)
                  url more w p)
                q
              ∙ r,
        )
  ]
