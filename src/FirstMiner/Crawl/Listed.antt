-- ===== src/FirstMiner/Crawl/Listed.antt =====
-- The list that `getContent` of src/miner/modules/mining.py returns, and what `BuildData` of
-- src/miner/modules/build.py makes of it.
use pttarticle_recommander.Common.{
  ℕ, zero, suc, ◌-◌, ◌≡◌, refl, sym, subst, ◌∙◌, List, [], ◌∷◌, ◌++◌, length, get_elem?, Bool,
  Option, none, some, Option-cases, Text, inl, inr,
}
use pttarticle_recommander.Common.Int.{ℤ}
use pttarticle_recommander.Common.Results.{Result, ok, err, index_error, Result-cases}
use pttarticle_recommander.Common.Exec.{Exec, gets, ◌>>=◌, Keeps, >>=-Keeps}
use pttarticle_recommander.FirstMiner.Replies.{count_replies}
use pttarticle_recommander.FirstMiner.Build.{
  Entry, BuildData, init, is_doc, first_entry, get_doc_meta_data_series,
}
use pttarticle_recommander.FirstMiner.Build.Shifted.{series_raises}
use pttarticle_recommander.FirstMiner.Crawl.{
  Site, parse_post, append_entry, append_if, store_post, crawl_post, crawl_link, crawl_links,
  crawl_page, crawl_pages, written, start_index, end_index, get_content,
}
use pttarticle_recommander.FirstMiner.Variables.{
  Crawl, start, attempt, on_net, begin_meta, entry_in, report_post_id, report_meta_name,
}
use pttarticle_recommander.FirstMiner.Crawl.Numbering.{
  IsNumbered, Steady, Assigned, Outcome, attempt-Keeps, on_net-Steady, begin_meta-Assigned,
  read_spans-Assigned, bound_id, push_entry-Steady,
}

module _ {L P W : Type 0} (site : Site L P W) where
  parse_post-Outcome :
      (post_id : Text) (post : P) (s : Crawl W)
      → Steady s
      → Outcome (parse_post site post_id post s).0 (parse_post site post_id post s).1
  unfolding parse_post begin_meta
  parse_post-Outcome post_id post s h =
      let t : Crawl W = record s {
        net = (site.write_text (written (site.text_of post)) s.net).1;
      } in
      let k : Steady t = record { list = h.list; next = h.next } in
      elim (Result-cases (site.write_text (written (site.text_of post)) s.net).0) [
        | inr (e, p) ↦ rw p (record { steady = k; assigned = λ q. cc })
        | inl (a, p) ↦ elim (Result-cases (site.spans_of post)) [
          | inr (e, q) ↦ rw (p, q) (record { steady = k; assigned = λ q. cc })
          | inl (spans, q) ↦
              let a =
                read_spans-Assigned (site.parse_time) 1 spans _
                  (begin_meta-Assigned post_id (count_replies (site.text_of post)) t k) in
              rw (p, q) (record { steady = a.steady; assigned = λ _. a })
        ]
      ]

  append_entry-Steady : (s : Crawl W) → Assigned s → Steady (append_entry site s).1
  unfolding append_entry
  append_entry-Steady s h =
      let t : Crawl W = record s { net = (site.chdir s.net).1 } in
      let k : Steady t = record { list = h.steady.list; next = h.steady.next } in
      elim (Result-cases (site.chdir s.net).0) [
        | inr (e, p) ↦ rw p k
        | inl (a, p) ↦ elim (Result-cases (entry_in s.meta)) [
          | inr (e, q) ↦ rw (p, q) k
          | inl (e, q) ↦
              rw (p, q) (push_entry-Steady e t k (bound_id s.meta s.next_id e h.current q))
        ]
      ]

  report_meta_name-Steady : Keeps (λ s. Steady {W = W} s) report_meta_name
  unfolding report_meta_name
  report_meta_name-Steady s h = elim (Option-cases s.meta.meta_name) [
    | inl e ↦ rw (e, report_meta_name) h
    | inr (t, e) ↦ rw (e, report_meta_name) h
  ]

  report_post_id-Steady : Keeps (λ s. Steady {W = W} s) report_post_id
  unfolding report_post_id
  report_post_id-Steady s h = elim (Option-cases s.post_id) [
    | inl e ↦ rw (e, report_post_id) h
    | inr (t, e) ↦ rw (e, report_post_id) h
  ]

  parse_and_append-Steady :
      (post_id : Text) (post : P)
      → Keeps Steady (attempt (parse_post site post_id post) >>= append_if site)
  unfolding attempt append_if
  parse_and_append-Steady post_id post s h =
      let o = parse_post-Outcome post_id post s h in
      elim (Result-cases (parse_post site post_id post s).0) [
        | inl (a, p) ↦ rw p (append_entry-Steady _ (o.assigned p))
        | inr (e, p) ↦ rw p (report_meta_name-Steady _ o.steady)
      ]

  store_post-Steady :
      (post_id : Text) (post : Option P) → Keeps Steady (store_post site post_id post)
  unfolding store_post
  store_post-Steady post_id none = λ s h. record { list = h.list; next = h.next }
  store_post-Steady post_id (some post) =
      >>=-Keeps Steady (on_net (site.open_file post_id)) _ (on_net-Steady (site.open_file post_id))
        (λ _. parse_and_append-Steady post_id post)

  crawl_post-Steady : (post_id : Text) → Keeps Steady (crawl_post site post_id)
  unfolding crawl_post
  crawl_post-Steady post_id s h =
      >>=-Keeps Steady (attempt (on_net (site.fetch_post post_id)))
        (λ post. store_post site post_id post)
        (attempt-Keeps Steady (on_net (site.fetch_post post_id))
          (on_net-Steady (site.fetch_post post_id)))
        (store_post-Steady post_id) _ (record { list = h.list; next = h.next })

  crawl_link-Steady : (r : Result Text) → Keeps Steady (crawl_link site r)
  unfolding crawl_link
  crawl_link-Steady (err e) = report_post_id-Steady
  crawl_link-Steady (ok post_id) = crawl_post-Steady post_id

  crawl_links-Steady : (links : List L) → Keeps Steady (crawl_links site links)
  unfolding crawl_links
  crawl_links-Steady [] = λ s h. h
  crawl_links-Steady (link ∷ links) =
      >>=-Keeps Steady (crawl_link site (site.post_id_of link)) _
        (crawl_link-Steady (site.post_id_of link)) (λ _. crawl_links-Steady links)

  crawl_page-Steady : (page : Option (List L)) → Keeps Steady (crawl_page site page)
  unfolding crawl_page
  crawl_page-Steady none = λ s h. record { list = h.list; next = h.next }
  crawl_page-Steady (some links) = crawl_links-Steady links

  crawl_pages-Steady : (n index : ℕ) → Keeps Steady (crawl_pages site n index)
  unfolding crawl_pages
  crawl_pages-Steady zero index = λ s h. h
  crawl_pages-Steady (suc n) index =
      >>=-Keeps Steady (attempt (on_net (site.fetch_page index))) _
        (attempt-Keeps Steady _ (on_net-Steady (site.fetch_page index)))
        (λ page.
          >>=-Keeps Steady (crawl_page site page) _ (crawl_page-Steady page)
            (λ _. crawl_pages-Steady n (suc index)))

  start-Steady : (w : W) → Steady (start w)
  start-Steady w = record { list = record { numbered = λ i e p. cc }; next = refl }

  list_of :
      (m : Exec (Crawl W) (Unit {0})) (s : Crawl W) (entries : List Entry)
      → Keeps Steady m
      → Steady s
      → ((m >>= λ _. gets (λ t. t.arr)) s).0 ≡ ok entries
      → IsNumbered entries
  list_of m s entries k h p = elim (Result-cases (m s).0) [
    | inr (e, q) ↦ let r : err e ≡ ok entries = sym (rw q refl) ∙ p in cc
    | inl (a, q) ↦
        let r : ok ((m s).1.arr) ≡ ok entries = sym (rw q refl) ∙ p in
        let same : (m s).1.arr ≡ entries = cc in subst IsNumbered same ((k s h).list)
  ]

  -- Whatever pages and documents cannot be fetched or parsed, the list that a crawl returns is
  -- numbered from one on without a gap.
  pub get_content-IsNumbered :
      (my_page_num to_num all_page_nums : ℕ) (for_all : Bool) (w : W) (entries : List Entry)
      → (get_content site my_page_num to_num for_all all_page_nums (start w)).0 ≡ ok entries
      → IsNumbered entries
  unfolding get_content
  get_content-IsNumbered my_page_num to_num all_page_nums for_all w entries p =
      let first : ℕ = start_index my_page_num to_num for_all all_page_nums in
      let rounds : ℕ = end_index my_page_num to_num for_all all_page_nums - first in
      list_of (crawl_pages site rounds first) (start w) entries (crawl_pages-Steady rounds first)
        (start-Steady w) p

end-get : (xs : List Entry) (x : Entry) → get_elem? (xs ++ x ∷ []) (length xs) ≡ some x
end-get [] x = refl
end-get (y ∷ xs) x = end-get xs x

-- On a list that a crawl has returned, a query for the series of a document whose title is also
-- the title of the last document never succeeds: the identities, which the crawl counts from
-- one, are taken for positions, which count from zero, and an `IndexError` is raised.
pub crawled_series_raises :
    {L P W : Type 0} (site : Site L P W) (my_page_num to_num all_page_nums : ℕ) (for_all : Bool)
    → (w : W) (int : Text → Option ℤ) (entries : List Entry) (last e : Entry) (board : Text)
    → (idid : ℤ) (b : BuildData)
    → (get_content site my_page_num to_num for_all all_page_nums (start w)).0
      ≡ ok (entries ++ last ∷ [])
    → init int (entries ++ last ∷ []) ≡ ok b
    → first_entry (is_doc board idid) (entries ++ last ∷ []) ≡ some e
    → e.title ≡ last.title
    → get_doc_meta_data_series board idid b ≡ err index_error
crawled_series_raises site my_page_num to_num all_page_nums for_all w int entries last e board idid
      b p q f t =
    let h =
      get_content-IsNumbered site my_page_num to_num all_page_nums for_all w (entries ++ last ∷ [])
        p in
    series_raises int entries last e board idid b q
      (h.numbered (length entries) last (end-get entries last)) f t
