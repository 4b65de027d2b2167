-- ===== src/L2Miner/BoardListener/Running/Dying.antt =====
-- `_UpdateThread.run` of src/miner/modules/l2_miner/board_listener.py with its `except`, and what the listener
-- knows of a thread that has ended.
use pttarticle_recommander.Common.{ℕ, List, Text, Bool}
use pttarticle_recommander.Common.Int.{ℤ}
use pttarticle_recommander.Common.Results.{Result, ok, err, out_of_fuel}
use pttarticle_recommander.Common.Exec.{Exec}
use pttarticle_recommander.L2Miner.BoardListener.{update}
use pttarticle_recommander.L2Miner.BoardListener.Running.{
  UpdateThread, BoardListener, Threading, on_net, update_thread_died,
}

module _ {W : Type 0} (threading : Threading W) where
  -- `except Exception`, in which the callback stands: it is called for an exception only.
  unfoldable pub call_if_raised :
      UpdateThread → Result (Unit {0}) × BoardListener W → Result (Unit {0}) × BoardListener W
  call_if_raised thr (ok u, s) = (ok u, s)
  call_if_raised thr (err out_of_fuel, s) = (err out_of_fuel, s)
  call_if_raised thr (err e, s) = update_thread_died threading thr s

module _ {W : Type 0} (threading : Threading W) (urls_getter : ℕ → Exec W (List Text))
    (url_num_getter : Text → Result ℤ) (add_doc : ℤ → Text → Exec W Bool)
    (stop_flag : ℕ → Exec W Bool) where
  -- The loop of the thread, on the network.
  abbrev pub run_loop : ℕ → UpdateThread → Exec W (Unit {0})
  run_loop fuel thr =
      update urls_getter url_num_getter thr.min_url_num add_doc (stop_flag thr.ident) fuel
        thr.max_id thr.url_generator

  unfoldable pub run_update : ℕ → UpdateThread → Exec (BoardListener W) (Unit {0})
  run_update fuel thr s = call_if_raised threading thr (on_net (run_loop fuel thr) s)
