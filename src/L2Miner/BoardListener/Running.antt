-- ===== src/L2Miner/BoardListener/Running.antt =====
-- `BoardListener` of src/miner/modules/l2_miner/board_listener.py: the rounds of its thread, and the update
-- threads that it starts, forgets and stops. The search for pages and the threads are parameters.
pub mod Filling
pub mod Restarting
pub mod Bookkeeping
pub mod Dying
pub mod Kept
use pttarticle_recommander.Common.{
  ℕ, zero, suc, ◌+◌, ◌==◌, List, [], ◌∷◌, ◌++◌, Option, none, some, Text, Bool, true, false, not,
  ltb, if◌then◌else◌,
}
use pttarticle_recommander.Common.Int.{ℤ, pos, negsuc, ◌+ℤ◌, ◌-ℤ◌, ltb_ℤ}
use pttarticle_recommander.Common.Results
use pttarticle_recommander.Common.Results.{Result, ok, err, type_error, value_error, out_of_fuel}
use pttarticle_recommander.Common.Exec.{Exec, pure, raise, lift, gets, ◌>>=◌, ◌>>◌}
use pttarticle_recommander.L2Miner.Document.{ADocument}
use pttarticle_recommander.L2Miner.BoardListener.{UrlGenerator}

-- `_UpdateThread` with what it was made of; `ident` tells the threads apart.
pub record UpdateThread : Type 0 where
  pub ident : ℕ
  pub max_id : ℤ
  pub min_url_num : ℤ
  pub url_generator : UrlGenerator

pub record BoardListener (W : Type 0) : Type 0 where
  pub stop_flag : Bool
  pub update_threads : List UpdateThread
  pub died_threads : List UpdateThread
  pub started : ℕ
  pub net : W

abbrev pub init : {W : Type 0} → W → BoardListener W
init w = record { stop_flag = false; update_threads = []; died_threads = []; started = 0; net = w }

-- `list.remove`, of the first thread that is the same.
unfoldable pub remove : ℕ → List UpdateThread → Result (List UpdateThread)
remove i [] = err value_error
remove i (thr ∷ thrs) =
    if thr.ident == i then ok thrs else Results.◌>>=◌ (remove i thrs) (λ rest. ok (thr ∷ rest))

-- What the listener calls of its threads.
pub record Threading (W : Type 0) : Type 0 where
  pub start : UpdateThread → Exec W (Unit {0})
  pub stop : ℕ → Exec W (Unit {0})
  pub join : ℕ → Exec W (Unit {0})

module _ {W : Type 0} where
  abbrev pub on_net : {A : Type 0} → Exec W A → Exec (BoardListener W) A
  on_net m s = let r = m s.net in (r.0, record s { net = r.1 })

module _ {W : Type 0} (threading : Threading W) where
  abbrev pub thread_of : BoardListener W → ℤ → ℤ → ℕ → List Text → Text → UpdateThread
  thread_of s max_id min_url_num max_page_idx urls prev_url = record {
    ident = s.started;
    max_id = max_id;
    min_url_num = min_url_num;
    url_generator = record {
      curr_page_idx = max_page_idx;
      curr_page_urls = urls;
      prev_url = prev_url;
    };
  }

  abbrev pub register : UpdateThread → Exec (BoardListener W) (Unit {0})
  register thr s =
      (ok tt, record s { update_threads = s.update_threads ++ thr ∷ []; started = suc s.started })

  -- `_start_update_thread`, a section under `_sync_lock`.
  unfoldable pub start_update_thread :
      ℤ → ℤ → ℕ → List Text → Text → Exec (BoardListener W) (Unit {0})
  start_update_thread max_id min_url_num max_page_idx urls prev_url s =
      let thr = thread_of s max_id min_url_num max_page_idx urls prev_url in
      let begun = (do register thr; on_net (threading.start thr)) s in
      if s.stop_flag then (ok tt, s) else begun

  -- `_update_thread_died_callback`, which the dying thread runs: another section.
  unfoldable pub update_thread_died : UpdateThread → Exec (BoardListener W) (Unit {0})
  update_thread_died thr s =
      let rest = remove thr.ident s.update_threads in
      let moved : Result (Unit {0}) × BoardListener W = elim rest [
        | err e ↦ (err e, record s { died_threads = s.died_threads ++ thr ∷ [] })
        | ok thrs ↦
            (ok tt, record s { died_threads = s.died_threads ++ thr ∷ []; update_threads = thrs })
      ] in
      if s.stop_flag then (ok tt, s) else moved

  unfoldable pub join_all : List UpdateThread → Exec (BoardListener W) (Unit {0})
  join_all [] = pure tt
  join_all (thr ∷ thrs) = do on_net (threading.join thr.ident); join_all thrs

  abbrev pub forget_died : Exec (BoardListener W) (Unit {0})
  forget_died s = (ok tt, record s { died_threads = [] })

  unfoldable pub clean_died_threads : Exec (BoardListener W) (Unit {0})
  clean_died_threads s = (do join_all s.died_threads; forget_died) s

  unfoldable pub clean_and_check_should_continue : Exec (BoardListener W) Bool
  clean_and_check_should_continue s =
      let cleaned = (do clean_died_threads; pure true) s in
      if s.stop_flag then (ok false, s) else cleaned

  abbrev pub set_stop_flag : Exec (BoardListener W) (Unit {0})
  set_stop_flag s = (ok tt, record s { stop_flag = true })

  abbrev pub forget_threads : Exec (BoardListener W) (Unit {0})
  forget_threads s = (ok tt, record s { update_threads = [] })

  unfoldable pub stop_all : List UpdateThread → Exec (BoardListener W) (Unit {0})
  stop_all [] = pure tt
  stop_all (thr ∷ thrs) = do
    on_net (threading.stop thr.ident)
    on_net (threading.join thr.ident)
    stop_all thrs

  unfoldable pub stop : Exec (BoardListener W) (Unit {0})
  stop = do
    set_stop_flag
    thrs ← gets (λ s. s.update_threads)
    stop_all thrs
    forget_threads
    clean_died_threads

-- The numbers of urls, in halves.
module _ (compare_num : Text → Result ℤ) where
  -- `[u for u in us if self.get_url_compare_num(u) < url_num]`
  unfoldable pub older_than : ℤ → List Text → Result (List Text)
  older_than url_num [] = ok []
  older_than url_num (u ∷ us) = Results.◌>>=◌ (compare_num u) λ num.
      Results.◌>>=◌ (older_than url_num us)
        λ rest. ok (if ltb_ℤ num url_num then u ∷ rest else rest)

module _ {W : Type 0} (threading : Threading W) (compare_num : Text → Result ℤ)
    (get_page_urls : ℕ → Exec W (List Text)) (estimate : ℤ → ℕ → Exec W ℕ)
    (page_of : ℤ → ℕ → Exec W (ℕ × List Text)) where
  -- The number of a document's url and its identity, or twice -1 without a document.
  unfoldable pub newest_known : Option ADocument → Result (ℤ × Option ℤ)
  newest_known none = ok (negsuc 1, some (negsuc 0))
  newest_known (some doc) = Results.◌>>=◌ (compare_num doc.url) λ num. ok (num, doc.meta_data.idid)

  -- `idid + n`, where a `None` cannot be added to.
  abbrev pub plus : Option ℤ → ℤ → Result ℤ
  plus none n = err type_error
  plus (some idid) n = ok (idid +ℤ n)

  unfoldable pub fetch_new : ℤ → Option ℤ → ℕ → ℕ → Exec (BoardListener W) (Unit {0})
  fetch_new url_num idid max_page_idx zero = pure tt
  fetch_new url_num idid max_page_idx (suc n) = do
    urls ← on_net (get_page_urls max_page_idx)
    max_id ← lift (plus idid (pos (suc n)))
    start_update_thread threading max_id url_num max_page_idx urls []

  unfoldable pub run_fetch_new_docs : Option ADocument → ℕ → Exec (BoardListener W) (Unit {0})
  run_fetch_new_docs newest_doc max_page_idx = do
    (url_num, idid) ← lift (newest_known newest_doc)
    n ← on_net (estimate url_num max_page_idx)
    fetch_new url_num idid max_page_idx n

  -- The page `p` that contains the oldest document is found, and not used.
  unfoldable pub run_fill_old_docs : Option ADocument → ℕ → Exec (BoardListener W) (Unit {0})
  run_fill_old_docs none max_page_idx = pure tt
  run_fill_old_docs (some oldest_doc) max_page_idx = do
    max_id ← lift (plus oldest_doc.meta_data.idid (negsuc 0))
    url_num ← lift (compare_num oldest_doc.url)
    (p, us) ← on_net (page_of url_num max_page_idx)
    older ← lift (older_than compare_num url_num us)
    start_update_thread threading max_id (negsuc 1) max_page_idx older oldest_doc.url

  module _ (newest_doc oldest_doc : Exec W (Option ADocument)) (max_page_idx : Exec W ℕ)
      (sleep : Exec W (Unit {0})) where
    -- The body of the `try`, whose exceptions are logged.
    unfoldable pub round : Exec (BoardListener W) (Unit {0})
    round = do
      newest ← on_net newest_doc
      oldest ← on_net oldest_doc
      idx ← on_net max_page_idx
      run_fetch_new_docs newest idx
      run_fill_old_docs oldest idx

    -- `while not self._stop_flag`, on fuel: the thread runs until it is stopped. While it sleeps, it
    -- cleans the dead threads and looks at the flag.
    unfoldable pub run : ℕ → Exec (BoardListener W) (Unit {0})
    run zero s = (err out_of_fuel, s)
    run (suc fuel) s =
        let s' = (round s).1 in
        let next =
          (do
            on_net sleep
            go_on ← clean_and_check_should_continue threading
            if go_on then run fuel else pure tt)
            s' in
        if s.stop_flag then (ok tt, s) else next
