-- ===== src/Tests/Pages.antt =====
-- The theorems on a board's pages at a site with one page, which refuses every other request.
use pttarticle_recommander.Common.{
  ℕ, suc, ◌<◌, ◌≡◌, refl, ap, List, [], ◌∷◌, none, some, Text, text_eq, text_eq_refl, text_eq→eq,
  Bool, true, false, arith,
}
use pttarticle_recommander.Common.Results.{ok}
use pttarticle_recommander.Common.Exec.{Exec, pure}
use pttarticle_recommander.L2Miner.BoardListener.{get_max_page_idx}
use pttarticle_recommander.L2Miner.BoardListener.Pages.{
  Child, text_child, element_child, Page, separator_class, entry_class, get_url, is_page_availiable,
  get_page_urls,
}
use pttarticle_recommander.L2Miner.BoardListener.Pages.Numerals.{get_url-injective}
use pttarticle_recommander.L2Miner.BoardListener.Pages.Sites.{
  Fetched, at_once, again, IsSite, site_last_page,
}
use pttarticle_recommander.L2Miner.BoardListener.Pages.Links.{listed_urls, page_urls_listed}

abbrev boards : Text
boards = 47 ∷ []

-- A text, an entry with two links, and an entry behind the separator.
abbrev children : List Child
children =
    text_child
    ∷ element_child (some (entry_class ∷ [])) ((97 ∷ []) ∷ (98 ∷ []) ∷ [])
    ∷ element_child (some (separator_class ∷ [])) []
    ∷ element_child (some (entry_class ∷ [])) ((99 ∷ []) ∷ [])
    ∷ []

-- The answer to a request for the page, or for another, of a site that is ready or busy.
abbrev answer : Bool → Exec Bool (ℕ × Page)
answer false ready = (ok (404, none), ready)
answer true true = (ok (200, some children), false)
answer true false = (ok (503, none), true)

abbrev site : Text → Exec Bool (ℕ × Page)
site url = answer (text_eq url (get_url boards 1))

abbrev quiet : Exec Bool (Unit {0})
quiet = pure tt

first_page : (ready : Bool) → site (get_url boards 1) ready ≡ answer true ready
first_page ready = ap (λ b. answer b ready) (text_eq_refl (get_url boards 1))

other_page : (i : ℕ) (ready : Bool) → 1 < i → site (get_url boards i) ready ≡ answer false ready
other_page i ready h =
    let e : text_eq (get_url boards i) (get_url boards 1) ≡ false =
      ground
        (arith, text_eq→eq (get_url boards i) (get_url boards 1), get_url-injective boards i 1) in
    ap (λ b. answer b ready) e

first_page-Fetched :
    (n : ℕ) (ready : Bool)
    → Fetched site quiet (get_url boards 1) (some children) false (suc n) ready
first_page-Fetched n true = at_once (first_page true)
first_page-Fetched n false =
    again 503 none (first_page false) (λ e. absurd (omega (arith, e))) refl
      (at_once (first_page true))

first_page_of :
    (i : ℕ) (ready : Bool)
    → i ≡ 1
    → Fetched site quiet (get_url boards i) (some children) false 9 ready
first_page_of i ready e = rw e (first_page-Fetched 8 ready)

site-IsSite : IsSite site quiet boards 1
site-IsSite = record {
  serves = λ i k h ready. (some children, false, first_page_of i ready (omega (arith, k, h)));
  refuses = λ i h ready. record {
    status_code = 404;
    page = none;
    answered = ready;
    after = ready;
    answer = other_page i ready h;
    other = λ e. absurd (omega (arith, e));
    sleeps = refl;
  };
}

site_last_page_example :
    (ready : Bool) × (get_max_page_idx (is_page_availiable site quiet boards) 2 true
      ≡ (ok 1, ready))
site_last_page_example = site_last_page site quiet boards site-IsSite 2 true (omega arith)

page_urls_listed_example :
    get_page_urls site quiet boards 2 1 false ≡ (ok (listed_urls children), false)
page_urls_listed_example =
    page_urls_listed site quiet boards 1 2 1 false false children (omega arith)
      (first_page-Fetched 0 false)
