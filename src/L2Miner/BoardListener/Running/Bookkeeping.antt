-- ===== src/L2Miner/BoardListener/Running/Bookkeeping.antt =====
-- The threads of a `BoardListener` of src/miner/modules/l2_miner/board_listener.py when it is stopped.
use pttarticle_recommander.Common.{ℕ, ◌≡◌, refl, List, [], ◌∷◌, ◌++◌, All, All-append, Text, true}
use pttarticle_recommander.Common.Int.{ℤ}
use pttarticle_recommander.Common.Results.{ok}
use pttarticle_recommander.L2Miner.BoardListener.Running.{
  UpdateThread, BoardListener, Threading, join_all, stop_all, clean_died_threads, stop,
  start_update_thread,
}

-- Stopping and joining a thread return; `Done` holds of a thread that was joined, and stays.
pub record IsThreading {W : Type 0} (threading : Threading W) (Done : ℕ → W → Type 0) : Type 0 where
  pub stops :
      (i : ℕ) (w : W)
      → (w' : W) × (threading.stop i w ≡ (ok tt, w')) × ((j : ℕ) → Done j w → Done j w')
  pub joins :
      (i : ℕ) (w : W)
      → (w' : W) × (threading.join i w ≡ (ok tt, w')) × Done i w' × ((j : ℕ) → Done j w → Done j w')

module _ {W : Type 0} {threading : Threading W} {Done : ℕ → W → Type 0}
    (given : IsThreading threading Done) where
  -- Both loops leave the listener as it is, but for the network, where the threads are done.
  record Finished (thrs : List UpdateThread) (w w' : W) : Type 0 where
    pub done : All (λ thr. Done thr.ident w') thrs
    pub stays : (j : ℕ) → Done j w → Done j w'

  join_all_step :
      (thr : UpdateThread) (thrs : List UpdateThread) (s t : BoardListener W) (w : W)
      → threading.join thr.ident s.net ≡ (ok tt, w)
      → join_all threading thrs (record s { net = w }) ≡ (ok tt, t)
      → join_all threading (thr ∷ thrs) s ≡ (ok tt, t)
  unfolding join_all
  join_all_step thr thrs s t w p q = rw p q

  stop_all_step :
      (thr : UpdateThread) (thrs : List UpdateThread) (s t : BoardListener W) (v w : W)
      → threading.stop thr.ident s.net ≡ (ok tt, v)
      → threading.join thr.ident v ≡ (ok tt, w)
      → stop_all threading thrs (record s { net = w }) ≡ (ok tt, t)
      → stop_all threading (thr ∷ thrs) s ≡ (ok tt, t)
  unfolding stop_all
  stop_all_step thr thrs s t v w p q r = rw (p, q) r

  join_all-Finished :
      (thrs : List UpdateThread) (s : BoardListener W)
      → (w : W) × (join_all threading thrs s ≡ (ok tt, record s { net = w }))
        × Finished thrs s.net w
  join_all-Finished [] s = (s.net, unfold join_all in refl, record { done = tt; stays = λ j d. d })
  join_all-Finished (thr ∷ thrs) s =
      let (v, p, d, k) = given.joins thr.ident s.net in
      let (w, q, f) = join_all-Finished thrs (record s { net = v }) in
      (
        w,
        join_all_step thr thrs s (record s { net = w }) v p q,
        record { done = (f.stays thr.ident d, f.done); stays = λ j e. f.stays j (k j e) },
      )

  stop_all-Finished :
      (thrs : List UpdateThread) (s : BoardListener W)
      → (w : W) × (stop_all threading thrs s ≡ (ok tt, record s { net = w }))
        × Finished thrs s.net w
  stop_all-Finished [] s = (s.net, unfold stop_all in refl, record { done = tt; stays = λ j d. d })
  stop_all-Finished (thr ∷ thrs) s =
      let (u, o, l) = given.stops thr.ident s.net in
      let (v, p, d, k) = given.joins thr.ident u in
      let (w, q, f) = stop_all-Finished thrs (record s { net = v }) in
      (
        w,
        stop_all_step thr thrs s (record s { net = w }) u v o p q,
        record { done = (f.stays thr.ident d, f.done); stays = λ j e. f.stays j (k j (l j e)) },
      )

  All-stays :
      (thrs : List UpdateThread) (w w' : W)
      → ((j : ℕ) → Done j w → Done j w')
      → All (λ thr. Done thr.ident w) thrs
      → All (λ thr. Done thr.ident w') thrs
  All-stays [] w w' k h = tt
  All-stays (thr ∷ thrs) w w' k h = (k thr.ident h.0, All-stays thrs w w' k h.1)

  -- What stopping leaves of a listener.
  pub record Stopped (s s' : BoardListener W) : Type 0 where
    pub ran : stop threading s ≡ (ok tt, s')
    pub flag : s'.stop_flag ≡ true
    pub no_update : s'.update_threads ≡ []
    pub no_died : s'.died_threads ≡ []
    pub done : All (λ thr. Done thr.ident s'.net) (s.update_threads ++ s.died_threads)
    pub refuses :
        (max_id min_url_num : ℤ) (max_page_idx : ℕ) (urls : List Text) (prev_url : Text)
        → start_update_thread threading max_id min_url_num max_page_idx urls prev_url s'
          ≡ (ok tt, s')

  stop_steps :
      (s : BoardListener W) (v w : W)
      → stop_all threading s.update_threads (record s { stop_flag = true })
        ≡ (ok tt, record s { stop_flag = true; net = v })
      → join_all threading s.died_threads
          (record s { stop_flag = true; update_threads = []; net = v })
        ≡ (ok tt, record s { stop_flag = true; update_threads = []; net = w })
      → stop threading s
        ≡ (ok tt, record s { stop_flag = true; update_threads = []; died_threads = []; net = w })
  unfolding stop clean_died_threads
  stop_steps s v w p q = rw (p, q) refl

  -- If stopping and joining a thread return, stopping a listener in any state returns, joins
  -- every thread that it has not yet forgotten, alive or dead, forgets them all, and no call
  -- starts a thread afterwards.
  pub stop-Stopped : (s : BoardListener W) → (s' : BoardListener W) × Stopped s s'
  stop-Stopped s =
      let (v, p, f) = stop_all-Finished s.update_threads (record s { stop_flag = true }) in
      let (w, q, g) =
        join_all-Finished s.died_threads
          (record s { stop_flag = true; update_threads = []; net = v }) in
      (
        record s { stop_flag = true; update_threads = []; died_threads = []; net = w },
        record {
          ran = stop_steps s v w p q;
          flag = refl;
          no_update = refl;
          no_died = refl;
          done =
              All-append (λ thr. Done thr.ident w) s.update_threads s.died_threads
                (All-stays s.update_threads v w g.stays f.done) g.done;
          refuses =
              λ max_id min_url_num max_page_idx urls prev_url. unfold start_update_thread in refl;
        },
      )
