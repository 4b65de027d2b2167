-- ===== src/L2Miner/BoardListener/Running/Filling.antt =====
-- Where `_run_fill_old_docs` of src/miner/modules/l2_miner/board_listener.py lets an update thread start.
use pttarticle_recommander.Common.{ℕ, zero, suc, ◌≡◌, refl, List, [], ◌∷◌, ◌++◌, some, Text, false}
use pttarticle_recommander.Common.Int.{ℤ, negsuc, ◌+ℤ◌, leb_ℤ}
use pttarticle_recommander.Common.Results.{Result, ok}
use pttarticle_recommander.Common.Exec.{Exec}
use pttarticle_recommander.L2Miner.Document.{ADocument}
use pttarticle_recommander.L2Miner.BoardListener.{
  UrlGenerator, server_addr, pop, turn_pages, next_of_page, next,
}
use pttarticle_recommander.L2Miner.BoardListener.Running.{
  UpdateThread, BoardListener, Threading, thread_of, start_update_thread, older_than,
  run_fill_old_docs,
}

module _ {W : Type 0} (threading : Threading W) where
  -- The listener with one more thread, which the network `w` runs.
  abbrev pub with_thread : BoardListener W → UpdateThread → W → BoardListener W
  with_thread s thr w = record s {
    update_threads = s.update_threads ++ thr ∷ [];
    started = suc s.started;
    net = w;
  }

  start_steps :
      (max_id min_url_num : ℤ) (max_page_idx : ℕ) (urls : List Text) (prev_url : Text)
      → (s : BoardListener W) (w : W) → s.stop_flag ≡ false
      → threading.start (thread_of threading s max_id min_url_num max_page_idx urls prev_url) s.net
        ≡ (ok tt, w)
      → start_update_thread threading max_id min_url_num max_page_idx urls prev_url s ≡ (
        ok tt,
        with_thread s (thread_of threading s max_id min_url_num max_page_idx urls prev_url) w,
      )
  unfolding start_update_thread
  start_steps max_id min_url_num max_page_idx urls prev_url s w e p = rw (e, p) refl

  module _ (compare_num : Text → Result ℤ) (get_page_urls : ℕ → Exec W (List Text))
      (estimate : ℤ → ℕ → Exec W ℕ) (page_of : ℤ → ℕ → Exec W (ℕ × List Text)) where
    fill_steps :
        (doc : ADocument) (idid num : ℤ) (max_page_idx page : ℕ) (us older : List Text)
        → (s t : BoardListener W) (v : W) → doc.meta_data.idid ≡ some idid
        → compare_num doc.url ≡ ok num
        → page_of num max_page_idx s.net ≡ (ok (page, us), v)
        → older_than compare_num num us ≡ ok older
        → start_update_thread threading
            (idid +ℤ negsuc 0)
            (negsuc 1)
            max_page_idx
            older
            doc.url
            (record s { net = v })
          ≡ (ok tt, t)
        → run_fill_old_docs threading compare_num get_page_urls estimate page_of
            (some doc)
            max_page_idx
            s
          ≡ (ok tt, t)
    unfolding run_fill_old_docs
    fill_steps doc idid num max_page_idx page us older s t v a b c d e = rw (a, b, c, d, e) refl

module _ {W : Type 0} (get_page_urls : ℕ → Exec W (List Text)) (compare_num : Text → Result ℤ) where
  page_steps :
      (min_url_num num : ℤ) (idx : ℕ) (urls front : List Text) (curr prev_url : Text)
      → pop urls ≡ some (curr, front)
      → compare_num curr ≡ ok num
      → leb_ℤ num min_url_num ≡ false
      → next_of_page get_page_urls compare_num min_url_num prev_url (idx, urls)
        ≡ ok (
          server_addr ++ curr,
          record { curr_page_idx = idx; curr_page_urls = front; prev_url = server_addr ++ curr },
        )
  unfolding next_of_page
  page_steps min_url_num num idx urls front curr prev_url p q r =
      rw (p, next_of_page) (rw (q, next_of_page) (rw r refl))

  turn_steps :
      (min_url_num : ℤ) (i : ℕ) (url : Text) (urls : List Text) (w v : W)
      → get_page_urls (suc i) w ≡ (ok (url ∷ urls), v)
      → turn_pages get_page_urls compare_num min_url_num (suc (suc i)) [] w
        ≡ (ok (suc i, url ∷ urls), v)
  unfolding turn_pages
  turn_steps min_url_num zero url urls w v p = rw p refl
  turn_steps min_url_num (suc i) url urls w v p = rw p refl

  next_steps :
      (min_url_num num : ℤ) (i : ℕ) (url : Text) (urls front : List Text) (curr prev_url : Text)
      → (w v : W) → get_page_urls (suc i) w ≡ (ok (url ∷ urls), v)
      → pop (url ∷ urls) ≡ some (curr, front)
      → compare_num curr ≡ ok num
      → leb_ℤ num min_url_num ≡ false
      → next get_page_urls compare_num min_url_num
          (record { curr_page_idx = suc (suc i); curr_page_urls = []; prev_url = prev_url })
          w
        ≡ (
          ok (
            server_addr ++ curr,
            record {
              curr_page_idx = suc i;
              curr_page_urls = front;
              prev_url = server_addr ++ curr;
            },
          ),
          v,
        )
  unfolding next
  next_steps min_url_num num i url urls front curr prev_url w v p q r l =
      rw
        (
          turn_steps min_url_num i url urls w v p,
          page_steps min_url_num num (suc i) (url ∷ urls) front curr prev_url q r l,
        )
        refl

module _ {W : Type 0} (threading : Threading W) (compare_num : Text → Result ℤ)
    (get_page_urls : ℕ → Exec W (List Text)) (estimate : ℤ → ℕ → Exec W ℕ)
    (page_of : ℤ → ℕ → Exec W (ℕ × List Text)) where
  -- The thread that fills in the documents below the oldest one.
  pub record FillsFrom (doc : ADocument) (idid : ℤ) (i : ℕ) (s t : BoardListener W) : Type 0 where
    pub thr : UpdateThread
    pub ran :
        run_fill_old_docs threading compare_num get_page_urls estimate page_of
          (some doc)
          (suc (suc i))
          s
        ≡ (ok tt, t)
    pub only : t.update_threads ≡ s.update_threads ++ thr ∷ []
    pub first_id : thr.max_id ≡ idid +ℤ negsuc 0
    pub turned :
        (url curr : Text) (urls front : List Text) (num : ℤ) (w v : W)
        → get_page_urls (suc i) w ≡ (ok (url ∷ urls), v)
        → pop (url ∷ urls) ≡ some (curr, front)
        → compare_num curr ≡ ok num
        → leb_ℤ num (negsuc 1) ≡ false
        → (g : UrlGenerator) × (next get_page_urls compare_num thr.min_url_num thr.url_generator w
            ≡ (ok (server_addr ++ curr, g), v))

  -- On a listener that is not stopped and a board of two pages or more, if the oldest document
  -- has an identity and its url a number, the search returns a page none of whose urls is
  -- older, whichever page this is, and starting a thread returns, then `_run_fill_old_docs`
  -- starts one thread, from the identity below the oldest one's on, and the first url that this
  -- thread generates is the last url of the board's last page but one, if this page is not
  -- empty and that url has a number above -1.
  pub fill_restarts :
      (doc : ADocument) (idid num : ℤ) (i p : ℕ) (us : List Text) (s : BoardListener W) (v w : W)
      → doc.meta_data.idid ≡ some idid
      → compare_num doc.url ≡ ok num
      → page_of num (suc (suc i)) s.net ≡ (ok (p, us), v)
      → older_than compare_num num us ≡ ok []
      → s.stop_flag ≡ false
      → threading.start
          (thread_of threading s (idid +ℤ negsuc 0) (negsuc 1) (suc (suc i)) [] doc.url)
          v
        ≡ (ok tt, w)
      → (t : BoardListener W) × FillsFrom doc idid i s t
  fill_restarts doc idid num i p us s v w a b c d e f =
      let thr = thread_of threading s (idid +ℤ negsuc 0) (negsuc 1) (suc (suc i)) [] doc.url in
      let s' : BoardListener W = record s { net = v } in
      (
        with_thread threading s' thr w,
        record {
          thr = thr;
          ran =
              fill_steps threading compare_num get_page_urls estimate page_of doc idid num
                (suc (suc i)) p us [] s (with_thread threading s' thr w) v a b c d
                (start_steps threading (idid +ℤ negsuc 0) (negsuc 1) (suc (suc i)) [] doc.url s' w e
                  f);
          only = refl;
          first_id = refl;
          turned = λ url curr urls front num' u x q r k l. (
            _,
            next_steps get_page_urls compare_num (negsuc 1) num' i url urls front curr doc.url u x q
                r k l,
          );
        },
      )
