-- ===== src/L2Miner/BoardListener/Search/Found.antt =====
-- Which page `_get_page_contain_url_num` of src/miner/modules/l2_miner/board_listener.py finds.
use native.Mathlib.Decide.{dec_lt}
use pttarticle_recommander.Common.{
  ℕ, zero, suc, ◌+◌, ◌/◌, ◌≤◌, ◌<◌, ◌≡◌, refl, subst, ◌∙◌, List, [], ◌∷◌, All, Text, arith,
}
use pttarticle_recommander.Common.Int.{ℤ, ◌≤ℤ◌, ◌<ℤ◌}
use pttarticle_recommander.Common.Results.{Result, ok}
use pttarticle_recommander.Common.Exec.{Exec}
use pttarticle_recommander.L2Miner.BoardListener.Search.{search, get_page_contain_url_num}
use pttarticle_recommander.L2Miner.BoardListener.Search.Ending.{
  probe_full, search_step, search_done,
}
use pttarticle_recommander.L2Miner.BoardListener.Search.Sorted.{
  HasNumber, IsSorted, IsRange, narrow-IsRange, closed-IsRange,
}

module _ {W : Type 0} (get_page_urls : ℕ → Exec W (List Text)) (compare_num : Text → Result ℤ)
    (low high : ℕ → ℤ) (randint : ℕ → ℕ → Exec W ℕ) {max : ℕ}
    (sorted : IsSorted get_page_urls compare_num low high max) (url_num : ℤ) where
  search-IsRange :
      (fuel l u : ℕ) (w : W)
      → IsRange get_page_urls compare_num low high max url_num l u
      → u ≤ l + fuel
      → (i : ℕ) × (w' : W) × (search get_page_urls compare_num randint fuel url_num l u w
          ≡ (ok i, w'))
        × IsRange get_page_urls compare_num low high max url_num i i
  search-IsRange zero l u w r s = (
    l,
    w,
    search_done get_page_urls compare_num randint zero url_num l u w (omega arith),
    closed-IsRange get_page_urls compare_num low high randint sorted url_num l u r (omega arith),
  )
  search-IsRange (suc fuel) l u w r s = elim (dec_lt l u) [
    | no d ↦ (
      l,
      w,
      search_done get_page_urls compare_num randint (suc fuel) url_num l u w (omega arith),
      closed-IsRange get_page_urls compare_num low high randint sorted url_num l u r (omega arith),
    )
    | yes d ↦
        let first = r.first in
        let top = r.top in
        let mid = (l + u) / 2 in
        let p = sorted.page mid (omega arith) (omega arith) w in
        let (l', u', q, r', s') =
          narrow-IsRange get_page_urls compare_num low high randint sorted url_num fuel l u mid w p
            r (omega arith) (omega arith) s in
        let v = (get_page_urls mid w).1 in
        let (i, w', e, k) = search-IsRange fuel l' u' v r' s' in
        (
          i,
          w',
          search_step get_page_urls compare_num randint fuel url_num l u l' u' p.front p.more w v d
                (probe_full get_page_urls compare_num randint fuel l u mid p.front p.more w
                  p.fetched)
                q
              ∙ e,
          k,
        )
  ]

  All-numbers :
      (P Q : ℤ → Type 0) (us : List Text)
      → ((n : ℤ) → P n → Q n)
      → All (HasNumber compare_num P) us
      → All (HasNumber compare_num Q) us
  All-numbers P Q [] k h = tt
  All-numbers P Q (u ∷ us) k h = let (n, p, q) = h.0 in ((n, p, k n q), All-numbers P Q us k h.1)

  -- The numbers on a page, however it was fetched.
  pub page_numbers :
      (Q : ℤ → Type 0) (j : ℕ) (x : W) (us : List Text)
      → 1 ≤ j
      → j ≤ max
      → (get_page_urls j x).0 ≡ ok us
      → ((n : ℤ) → low j ≤ℤ n → n ≤ℤ high j → Q n)
      → All (HasNumber compare_num Q) us
  page_numbers Q j x us h k p q =
      let page = sorted.page j h k x in
      let e : page.front ∷ page.more ≡ us = let f = page.fetched in cc in
      subst (λ l. All (HasNumber compare_num Q) l) e
        (All-numbers (λ n. (low j ≤ℤ n) × (n ≤ℤ high j)) Q (page.front ∷ page.more)
          (λ n b. q n b.0 b.1) page.within)

  -- The page that is found, with its urls.
  pub record IsFound (i : ℕ) (urls : List Text) (w : W) : Type 0 where
    pub fetched : (get_page_urls i w).0 ≡ ok urls
    pub below :
        (j : ℕ) (x : W) (us : List Text)
        → 1 ≤ j
        → j < i
        → (get_page_urls j x).0 ≡ ok us
        → All (HasNumber compare_num (λ n. n <ℤ url_num)) us
    pub above :
        (j : ℕ) (x : W) (us : List Text)
        → i < j
        → j ≤ max
        → (get_page_urls j x).0 ≡ ok us
        → All (HasNumber compare_num (λ n. url_num <ℤ n)) us
    pub only : (j : ℕ) → 1 ≤ j → j ≤ max → low j ≤ℤ url_num → url_num ≤ℤ high j → i ≡ j

  range-IsFound :
      (i : ℕ) (urls : List Text) (w : W)
      → IsRange get_page_urls compare_num low high max url_num i i
      → (get_page_urls i w).0 ≡ ok urls
      → IsFound i urls w
  range-IsFound i urls w r p = record {
    fetched = p;
    below = λ j x us h k q.
        let inside = r.inside in
        page_numbers (λ n. n <ℤ url_num) j x us h (omega arith) q
          (λ n a b. omega (arith, b, r.below j h k));
    above = λ j x us h k q.
        let first = r.first in
        page_numbers (λ n. url_num <ℤ n) j x us (omega arith) k q
          (λ n a b. omega (arith, a, r.above j h k));
    only = λ j h k s t. elim (dec_lt i j) [
      | yes d ↦ absurd (omega (arith, s, r.above j d k))
      | no d ↦ elim (dec_lt j i) [
        | yes e ↦ absurd (omega (arith, t, r.below j h e))
        | no e ↦ omega arith
      ]
    ];
  }

  get_page_steps :
      (fuel i : ℕ) (urls : List Text) (w v : W)
      → search get_page_urls compare_num randint fuel url_num 1 max w ≡ (ok i, v)
      → (get_page_urls i v).0 ≡ ok urls
      → get_page_contain_url_num get_page_urls compare_num randint fuel url_num max w
        ≡ (ok (i, urls), (get_page_urls i v).1)
  unfolding get_page_contain_url_num
  get_page_steps fuel i urls w v p q = rw (p, q) refl

  -- On a board whose pages from one up to `max`, at least one, have urls, where the first url
  -- of a page has its lowest number and the last its highest, and the numbers rise from page to
  -- page, `_get_page_contain_url_num` ends, within as many rounds as there are pages, and
  -- returns a page with its urls, such that every number on the pages before is smaller than
  -- the one looked for, and every number on the pages behind is greater; if this number lies
  -- between the lowest and the highest of a page, that page is returned.
  pub page_of_number :
      (fuel : ℕ) (w : W)
      → 1 ≤ max
      → max ≤ suc fuel
      → (i : ℕ) × (urls : List Text) × (v w' : W) × (get_page_contain_url_num get_page_urls
            compare_num randint fuel url_num max w
          ≡ (ok (i, urls), w'))
        × IsFound i urls v
  page_of_number fuel w h k =
      let whole : IsRange get_page_urls compare_num low high max url_num 1 max = record {
        first = omega arith;
        inside = h;
        top = omega arith;
        below = λ j b m. absurd (omega arith);
        above = λ j b m. absurd (omega arith);
      } in
      let (i, v, e, r) = search-IsRange fuel 1 max w whole (omega arith) in
      let p = sorted.page i (r.first) (r.inside) v in
      let urls = p.front ∷ p.more in
      (
        i,
        urls,
        v,
        (get_page_urls i v).1,
        get_page_steps fuel i urls w v e p.fetched,
        range-IsFound i urls v r p.fetched,
      )
