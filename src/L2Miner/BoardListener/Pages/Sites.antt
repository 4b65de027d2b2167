-- ===== src/L2Miner/BoardListener/Pages/Sites.antt =====
-- The last page of a board in src/miner/modules/l2_miner/board_listener.py, asked of the site: what
-- `_is_page_availiable` and `_get_max_page_idx` come to together.
use native.Mathlib.Decide.{dec_le}
use pttarticle_recommander.Common.{
  ℕ, zero, suc, ◌≤◌, ◌<◌, ◌≡◌, ◌≢◌, ◌==◌, refl, Text, true, false, leb, arith,
}
use pttarticle_recommander.Common.Results.{ok}
use pttarticle_recommander.Common.Exec.{Exec}
use pttarticle_recommander.L2Miner.BoardListener.{get_max_page_idx}
use pttarticle_recommander.L2Miner.BoardListener.LastPage.{HasPages, last_page_found}
use pttarticle_recommander.L2Miner.BoardListener.Pages.{Page, get_url, ask, is_page_availiable}

module _ {W : Type 0} (get : Text → Exec W (ℕ × Page)) (sleep : Exec W (Unit {0})) where
  -- A page is fetched from a url, and the state is `v` then, after at most `n` answers with another
  -- status than 200.
  pub data Fetched (url : Text) (page : Page) (v : W) : ℕ → W → Type 0 where
    at_once : {n : ℕ} {w : W} → get url w ≡ (ok (200, page), v) → Fetched url page v n w
    again :
        {n : ℕ} {w u x : W} (status_code : ℕ) (other : Page)
        → get url w ≡ (ok (status_code, other), u)
        → status_code ≢ 200
        → sleep u ≡ (ok tt, x)
        → Fetched url page v n x
        → Fetched url page v (suc n) w

  -- It is not: whoever asks, the site answers with another status.
  pub record Refused (url : Text) (w : W) : Type 0 where
    pub status_code : ℕ
    pub page : Page
    pub answered : W
    pub after : W
    pub answer : get url w ≡ (ok (status_code, page), answered)
    pub other : status_code ≢ 200
    pub sleeps : sleep answered ≡ (ok tt, after)

  -- The site has the pages from one up to `last`, and serves each of them at the tenth attempt at the latest.
  pub record IsSite (url_prefix : Text) (last : ℕ) : Type 0 where
    pub serves :
        (i : ℕ)
        → 0 < i
        → i ≤ last
        → (w : W) → (page : Page) × (v : W) × Fetched (get_url url_prefix i) page v 9 w
    pub refuses : (i : ℕ) → last < i → (w : W) → Refused (get_url url_prefix i) w

  module _ (url_prefix : Text) where
    ask_once :
        (n i : ℕ) (w v : W) (page : Page)
        → get (get_url url_prefix i) w ≡ (ok (200, page), v)
        → ask get sleep url_prefix (suc n) i w ≡ (ok true, v)
    unfolding ask
    ask_once n i w v page p = rw p refl

    ask_again :
        (n i status_code : ℕ) (w v u : W) (page : Page)
        → get (get_url url_prefix i) w ≡ (ok (status_code, page), v)
        → status_code ≢ 200
        → sleep v ≡ (ok tt, u)
        → ask get sleep url_prefix (suc n) i w ≡ ask get sleep url_prefix n i u
    unfolding ask
    ask_again n i status_code w v u page p h q =
        let e : (status_code == 200) ≡ false = ground arith in rw (p, e, q) refl

    ask-Fetched :
        (n m i : ℕ) (w v : W) (page : Page)
        → n < m
        → Fetched (get_url url_prefix i) page v n w
        → (ask get sleep url_prefix m i w).0 ≡ ok true
    ask-Fetched n zero i w v page h s = absurd (omega arith)
    ask-Fetched n (suc m) i w v page h (at_once p) = rw (ask_once m i w v page p) refl
    ask-Fetched (suc n) (suc m) i w v page h (again {u = u} {x = x} status_code other p d q s) =
        rw (ask_again m i status_code w u x other p d q)
          (ask-Fetched n m i x v page (omega arith) s)

    ask-refused :
        (m i : ℕ) (w : W)
        → ((v : W) → Refused (get_url url_prefix i) v)
        → (ask get sleep url_prefix m i w).0 ≡ ok false
    ask-refused zero i w h = unfold ask in refl
    ask-refused (suc m) i w h =
        let r = h w in
        rw
          (ask_again m i (r.status_code) w (r.answered) (r.after) (r.page) (r.answer) (r.other)
            (r.sleeps))
          (ask-refused m i (r.after) h)

    module _ {last : ℕ} (site : IsSite url_prefix last) where
      site-HasPages : HasPages (is_page_availiable get sleep url_prefix) last
      site-HasPages = record {
        answer = λ i w k. elim (dec_le i last) [
          | yes d ↦
              let e : leb i last ≡ true = ground arith in
              let (page, v, s) = site.serves i k d w in
              rw e (ask-Fetched 9 10 i w v page (omega arith) s)
          | no d ↦
              let e : leb i last ≡ false = ground arith in
              rw e (ask-refused 10 i w (site.refuses i (omega arith)))
        ];
      }

      -- If the site serves each page of a board from one up to `last` within ten requests,
      -- whenever it is asked, and never one behind, `_get_max_page_idx` ends, with any fuel
      -- above `last`, and finds `last`.
      pub site_last_page :
          (fuel : ℕ) (w : W)
          → last < fuel
          → (w' : W) × (get_max_page_idx (is_page_availiable get sleep url_prefix) fuel w
              ≡ (ok last, w'))
      site_last_page fuel w h = last_page_found site-HasPages fuel w h
