-- ===== src/L2Miner/BoardListener/Running/Restarting.antt =====
-- Which page the thread that `_run_fill_old_docs` of src/miner/modules/l2_miner/board_listener.py starts goes on
-- with, on a board whose numbers rise.
use pttarticle_recommander.Common.{
  ℕ, suc, ◌≤◌, ◌<◌, ◌≡◌, refl, ap, List, [], ◌∷◌, ◌++◌, some, Text, All, false, arith,
}
use pttarticle_recommander.Common.Int.{ℤ, negsuc, ◌+ℤ◌, ◌<ℤ◌, leb_ℤ}
use pttarticle_recommander.Common.Results.{Result, ok}
use pttarticle_recommander.Common.Exec.{Exec}
use pttarticle_recommander.L2Miner.Document.{ADocument}
use pttarticle_recommander.L2Miner.BoardListener.{UrlGenerator, server_addr, pop, next}
use pttarticle_recommander.L2Miner.BoardListener.Search.{last}
use pttarticle_recommander.L2Miner.BoardListener.Search.Sorted.{HasNumber, IsSorted}
use pttarticle_recommander.L2Miner.BoardListener.Search.Found.{page_numbers}
use pttarticle_recommander.L2Miner.BoardListener.Running.{
  UpdateThread, BoardListener, Threading, thread_of, older_than, run_fill_old_docs,
}
use pttarticle_recommander.L2Miner.BoardListener.Running.Filling.{fill_restarts}

-- `pop` takes the last url.
last-pop :
    (url : Text) (urls : List Text) (b : Text)
    → last (url ∷ urls) ≡ ok b
    → (front : List Text) × (pop (url ∷ urls) ≡ some (b, front))
unfolding last pop
last-pop url [] b h = let e : url ≡ b = cc in ([], ap (λ u. some (u, [])) e)
last-pop url (next ∷ urls) b h = let (front, p) = last-pop next urls b h in (url ∷ front, rw p refl)

module _ {W : Type 0} (threading : Threading W) (compare_num : Text → Result ℤ)
    (get_page_urls : ℕ → Exec W (List Text)) (estimate : ℤ → ℕ → Exec W ℕ)
    (page_of : ℤ → ℕ → Exec W (ℕ × List Text)) (low high : ℕ → ℤ) where
  -- A thread for the identities below `idid`, whose first url has a number above all those on the pages
  -- before page `p`.
  pub record Skips (idid : ℤ) (p : ℕ) (thr : UpdateThread) (w : W) : Type 0 where
    pub first_id : thr.max_id ≡ idid +ℤ negsuc 0
    pub url : Text
    pub number : ℤ
    pub generator : UrlGenerator
    pub after : W
    pub generated :
        next get_page_urls compare_num thr.min_url_num thr.url_generator w
        ≡ (ok (server_addr ++ url, generator), after)
    pub numbered : compare_num url ≡ ok number
    pub newer :
        (j : ℕ) (x : W) (us : List Text)
        → 1 ≤ j
        → j < p
        → (get_page_urls j x).0 ≡ ok us
        → All (HasNumber compare_num (λ n. n <ℤ number)) us

  module _ (i : ℕ) (sorted : IsSorted get_page_urls compare_num low high (suc (suc i))) where
    -- On a listener that is not stopped and a board of two pages or more, all with urls, where
    -- the first url of a page has its lowest number and the last its highest, and the numbers
    -- rise from page to page, if the oldest document has an identity and its url a number, the
    -- search returns a page `p` before the board's last none of whose urls is older, starting a
    -- thread returns, and the highest number on the last page but one is above -1, then
    -- `_run_fill_old_docs` starts one thread, from the identity below the oldest one's on, and
    -- this thread does not go on with page `p - 1`: the first url that it generates has a
    -- number greater than every number on the pages before `p`.
    pub fill-Skips :
        (doc : ADocument) (idid num : ℤ) (p : ℕ) (us : List Text) (s : BoardListener W) (v w : W)
        → doc.meta_data.idid ≡ some idid
        → compare_num doc.url ≡ ok num
        → page_of num (suc (suc i)) s.net ≡ (ok (p, us), v)
        → older_than compare_num num us ≡ ok []
        → s.stop_flag ≡ false
        → threading.start
            (thread_of threading s (idid +ℤ negsuc 0) (negsuc 1) (suc (suc i)) [] doc.url)
            v
          ≡ (ok tt, w)
        → p < suc (suc i)
        → negsuc 1 <ℤ high (suc i)
        → (t : BoardListener W) × (thr : UpdateThread) × (run_fill_old_docs threading compare_num
              get_page_urls estimate page_of
              (some doc)
              (suc (suc i))
              s
            ≡ (ok tt, t))
          × (t.update_threads ≡ s.update_threads ++ thr ∷ [])
          × ((x : W) → Skips idid p thr x)
    fill-Skips doc idid num p us s v w a b c d e f h k =
        let (t, r) =
          fill_restarts threading compare_num get_page_urls estimate page_of doc idid num i p us s v
            w a b c d e f in
        let above : leb_ℤ (high (suc i)) (negsuc 1) ≡ false = ground arith in
        (
          t,
          r.thr,
          r.ran,
          r.only,
          λ x.
              let page = sorted.page (suc i) (omega arith) (omega arith) x in
              let (front, popped) = last-pop page.front page.more page.back page.ends in
              let v' : W = (get_page_urls (suc i) x).1 in
              let (g, n) =
                r.turned page.front page.back page.more front (high (suc i)) x v'
                  (ap (λ q. (q, v')) page.fetched) popped page.back_num above in
              record {
                first_id = r.first_id;
                url = page.back;
                number = high (suc i);
                generator = g;
                after = v';
                generated = n;
                numbered = page.back_num;
                newer = λ j y vs l m q.
                    page_numbers get_page_urls compare_num low high (λ l u y. (ok l, y)) sorted
                      (high (suc i)) (λ n. n <ℤ high (suc i)) j y vs l (omega arith) q
                      (λ n o o'. omega (
                        arith,
                        o',
                        sorted.apart j (suc i) l (omega arith) (omega arith),
                        sorted.ordered (suc i) (omega arith) (omega arith),
                      ));
              },
        )
