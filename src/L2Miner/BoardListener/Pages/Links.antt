-- ===== src/L2Miner/BoardListener/Pages/Links.antt =====
-- The urls that `_get_page_urls` of src/miner/modules/l2_miner/board_listener.py returns for a page.
use pttarticle_recommander.Common.{
  ℕ, zero, suc, ◌<◌, ◌≡◌, ◌≢◌, ◌==◌, refl, sym, ap, ◌∙◌, List, [], ◌∷◌, ◌++◌, append-nil,
  append_assoc, none, some, Text, Bool, false, Bool-cases, inl, inr, if◌then◌else◌, arith,
}
use pttarticle_recommander.Common.Results.{ok}
use pttarticle_recommander.Common.Exec.{Exec}
use pttarticle_recommander.L2Miner.BoardListener.Pages.{
  Child, text_child, element_child, Page, separator_class, entry_class, has_class, append_link,
  collect_urls, get_url, fetch, get_page_urls,
}
use pttarticle_recommander.L2Miner.BoardListener.Pages.Sites.{Fetched, at_once, again}

-- Whether a child is an element of a class.
is_of_class : Text → Child → Bool
is_of_class c text_child = false
is_of_class c (element_child none hrefs) = false
is_of_class c (element_child (some classes) hrefs) = has_class c classes

-- The children in front of the first separator.
before_separator : List Child → List Child
before_separator [] = []
before_separator (child ∷ children) =
    if is_of_class separator_class child then [] else child ∷ before_separator children

-- The address of the first link in a child, if it has one.
first_link : Child → List Text
first_link text_child = []
first_link (element_child classes hrefs) = append_link hrefs []

-- The first links of all entries, in their order.
entry_links : List Child → List Text
entry_links [] = []
entry_links (child ∷ children) =
    if is_of_class entry_class child
    then first_link child ++ entry_links children
    else entry_links children

-- The urls of a page: the first links of the entries in front of the first separator.
pub listed_urls : List Child → List Text
listed_urls children = entry_links (before_separator children)

append_link_lem :
    (hrefs ret more : List Text)
    → append_link hrefs ret ++ more ≡ ret ++ (append_link hrefs [] ++ more)
append_link_lem [] ret more = refl
append_link_lem (href ∷ hrefs) ret more = append_assoc ret (href ∷ []) more

-- The loop adds the urls that are listed to those that it has.
collect_urls_lem :
    (children : List Child) (ret : List Text)
    → collect_urls children ret ≡ ret ++ listed_urls children
unfolding listed_urls collect_urls is_of_class before_separator entry_links first_link
collect_urls_lem [] ret = sym (append-nil ret)
collect_urls_lem (text_child ∷ children) ret = collect_urls_lem children ret
collect_urls_lem (element_child none hrefs ∷ children) ret = collect_urls_lem children ret
collect_urls_lem (element_child (some classes) hrefs ∷ children) ret =
    elim (Bool-cases (has_class separator_class classes)) [
      | inl s ↦ rw s (sym (append-nil ret))
      | inr s ↦ elim (Bool-cases (has_class entry_class classes)) [
        | inl e ↦
            rw (s, e)
              (collect_urls_lem children (append_link hrefs ret)
                ∙ append_link_lem hrefs ret (listed_urls children))
        | inr e ↦ rw (s, e) (collect_urls_lem children ret)
      ]
    ]

module _ {W : Type 0} (get : Text → Exec W (ℕ × Page)) (sleep : Exec W (Unit {0}))
    (url_prefix : Text) where
  fetch_once :
      (n i : ℕ) (w v : W) (page : Page)
      → get (get_url url_prefix i) w ≡ (ok (200, page), v)
      → fetch get sleep url_prefix (suc n) i w ≡ (ok page, v)
  unfolding fetch
  fetch_once n i w v page p = rw p refl

  fetch_again :
      (n i status_code : ℕ) (w v u : W) (page : Page)
      → get (get_url url_prefix i) w ≡ (ok (status_code, page), v)
      → status_code ≢ 200
      → sleep v ≡ (ok tt, u)
      → fetch get sleep url_prefix (suc n) i w ≡ fetch get sleep url_prefix n i u
  unfolding fetch
  fetch_again n i status_code w v u page p h q =
      let e : (status_code == 200) ≡ false = ground arith in rw (p, e, q) refl

  fetch-Fetched :
      (n fuel i : ℕ) (w v : W) (page : Page)
      → n < fuel
      → Fetched get sleep (get_url url_prefix i) page v n w
      → fetch get sleep url_prefix fuel i w ≡ (ok page, v)
  fetch-Fetched n zero i w v page h s = absurd (omega arith)
  fetch-Fetched n (suc fuel) i w v page h (at_once p) = fetch_once fuel i w v page p
  fetch-Fetched (suc n) (suc fuel) i w v page h (again {u = u} {x = x} status_code other p d q s) =
      fetch_again fuel i status_code w u x other p d q
      ∙ fetch-Fetched n fuel i x v page (omega arith) s

  -- If the site serves a page with a container after `n` refusals, `_get_page_urls` ends, with
  -- any fuel above `n`, and returns the first links of the entries in front of the first
  -- separator, in their order.
  pub page_urls_listed :
      (n fuel i : ℕ) (w v : W) (children : List Child)
      → n < fuel
      → Fetched get sleep (get_url url_prefix i) (some children) v n w
      → get_page_urls get sleep url_prefix fuel i w ≡ (ok (listed_urls children), v)
  unfolding get_page_urls
  page_urls_listed n fuel i w v children h s =
      rw (fetch-Fetched n fuel i w v (some children) h s)
        (ap (λ l. (ok l, v)) (collect_urls_lem children []))
