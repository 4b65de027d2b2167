-- ===== src/Server/Accepting.antt =====
-- `Server` of src/miner/modules/server.py: accepting connections, each with a thread of its own. The socket
-- and the threads are parameters.
pub mod Stopping
use pttarticle_recommander.Common.{
  ℕ, zero, suc, List, [], ◌∷◌, ◌++◌, Option, none, some, Bool, true, false, if◌then◌else◌,
}
use pttarticle_recommander.Common.Results.{Result, ok, err, timeout_error, out_of_fuel}
use pttarticle_recommander.Common.Exec.{Exec, pure, raise, lift, gets, ◌>>=◌, ◌>>◌}

-- What the server calls. `accept` raises a `timeout_error` when nobody connects within a second; a thread
-- is made for a connection, and `start` returns at once. The flag is set by `stop`, from another thread.
pub record Listening (C T W : Type 0) : Type 0 where
  pub bind_and_listen : Exec W (Unit {0})
  pub accept : Exec W C
  pub close : Exec W (Unit {0})
  pub make_handler : C → Exec W T
  pub start : T → Exec W (Unit {0})
  pub stop : T → Exec W (Unit {0})
  pub join : T → Exec W (Unit {0})
  pub stop_flag : Exec W Bool
  pub set_stop_flag : Exec W (Unit {0})

pub record Server (T W : Type 0) : Type 0 where
  pub handler_threads : List T
  pub net : W

module _ {T W : Type 0} where
  abbrev pub on_net : {A : Type 0} → Exec W A → Exec (Server T W) A
  on_net m s = let r = m s.net in (r.0, record s { net = r.1 })

  -- `self._handler_threads.append(thr)`
  abbrev pub append_thread : T → Exec (Server T W) (Unit {0})
  append_thread thr s = (ok tt, record s { handler_threads = s.handler_threads ++ thr ∷ [] })

  abbrev pub forget_threads : Exec (Server T W) (Unit {0})
  forget_threads s = (ok tt, record s { handler_threads = [] })

module _ {C T W : Type 0} (listening : Listening C T W) where
  -- A round of the loop on what `accept` came to.
  unfoldable pub handle_accepted : Result C → Exec (Server T W) (Unit {0})
  handle_accepted (err timeout_error) = pure tt
  handle_accepted (err e) = raise e
  handle_accepted (ok conn) = do
    thr ← on_net (listening.make_handler conn)
    append_thread thr
    on_net (listening.start thr)

  unfoldable pub accept_one : Exec (Server T W) (Unit {0})
  accept_one s = let r = listening.accept s.net in handle_accepted r.0 (record s { net = r.1 })

  -- `while not self._stop_flag`, on fuel: the server runs until it is stopped.
  unfoldable pub accept_while : ℕ → Exec (Server T W) (Unit {0})
  accept_while zero = raise out_of_fuel
  accept_while (suc fuel) = do
    stop ← on_net (listening.stop_flag)
    if stop then pure tt else (do accept_one; accept_while fuel)

  unfoldable pub run : ℕ → Exec (Server T W) (Unit {0})
  run fuel = do on_net (listening.bind_and_listen); accept_while fuel; on_net (listening.close)

  unfoldable pub stop_threads : List T → Exec (Server T W) (Unit {0})
  stop_threads [] = pure tt
  stop_threads (thr ∷ thrs) = do
    on_net (listening.stop thr)
    on_net (listening.join thr)
    stop_threads thrs

  unfoldable pub stop : Exec (Server T W) (Unit {0})
  stop = do
    on_net (listening.set_stop_flag)
    thrs ← gets (λ s. s.handler_threads)
    stop_threads thrs
    forget_threads

  -- `notify_handler_thread_end` does nothing: the thread stays in the list.
  abbrev pub notify_handler_thread_end : C → Exec (Server T W) (Unit {0})
  notify_handler_thread_end thr = pure tt
