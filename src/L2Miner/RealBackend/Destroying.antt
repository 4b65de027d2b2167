-- ===== src/L2Miner/RealBackend/Destroying.antt =====
-- `RealBackend.destroy` of src/miner/modules/l2_miner/real_backend.py, and `Cache.stop_auto_update` of
-- src/miner/modules/l2_miner/cache.py, which it calls. The threads of a board's worker are parameters.
pub mod Ended
use pttarticle_recommander.Common.{List, [], ◌∷◌, Text}
use pttarticle_recommander.Common.Results.{ok}
use pttarticle_recommander.Common.Exec.{Exec, pure, gets, ◌>>=◌, ◌>>◌}
use pttarticle_recommander.L2Miner.Cache.{Cache}
use pttarticle_recommander.L2Miner.RealBackend.{Workers}

-- What is called of the worker of a board: its listener's `stop` and `join`, its notifier's `stop` and
-- `join`, and its storage's `notify_stop`.
pub record Ending (S : Type 0) : Type 0 where
  pub stop_listener : Text → Exec S (Unit {0})
  pub join_listener : Text → Exec S (Unit {0})
  pub stop_notifier : Text → Exec S (Unit {0})
  pub join_notifier : Text → Exec S (Unit {0})
  pub notify_stop : Text → Exec S (Unit {0})

module _ {S : Type 0} (ending : Ending S) where
  abbrev pub on_stored : {A : Type 0} → Exec S A → Exec (Workers S) A
  on_stored m w = let r = m w.stored in (r.0, record w { stored = r.1 })

  unfoldable pub stop_auto_update : Text → Exec S (Unit {0})
  stop_auto_update board = do ending.stop_notifier board; ending.join_notifier board

  -- The body of the loop over `self._workers.values()`.
  unfoldable pub stop_worker : Text → Exec S (Unit {0})
  stop_worker board = do
    ending.stop_listener board
    ending.join_listener board
    stop_auto_update board
    ending.notify_stop board

  unfoldable pub stop_workers : List (Text × Cache) → Exec S (Unit {0})
  stop_workers [] = pure tt
  stop_workers ((board, c) ∷ workers) = do stop_worker board; stop_workers workers

  abbrev pub forget_workers : Exec (Workers S) (Unit {0})
  forget_workers w = (ok tt, record w { caches = [] })

  -- One section under `_worker_lock`.
  unfoldable pub destroy : Exec (Workers S) (Unit {0})
  destroy = do workers ← gets (λ w. w.caches); on_stored (stop_workers workers); forget_workers
