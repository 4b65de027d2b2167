-- ===== src/Server/Connection/Run.antt =====
-- `_SocketConnectionHandler.run` of src/miner/modules/server.py: the loop of a connection's thread, which
-- receives a query, has it handled and sends the reply. `W` is the state of the socket and of the
-- backend.
pub mod Stream
pub mod Closing
pub mod Frame
pub mod Round
use pttarticle_recommander.Common.{ℕ, zero, suc, Bool, true, false, if◌then◌else◌}
use pttarticle_recommander.Common.Results.{Result, ok, err, stop_exception, out_of_fuel}
use pttarticle_recommander.Common.Exec.{Exec, pure, raise, lift, ◌>>=◌, ◌>>◌}
use pttarticle_recommander.Server.Backend.{Backend}
use pttarticle_recommander.Server.Delegator.{handle_package}
use pttarticle_recommander.Server.Connection.{Connection, recv_package, send_package}

module _ {W : Type 0} (conn : Connection W) (backend : Backend W) (recv_fuel : ℕ) where
  -- The body of the loop; the delegator always returns a reply.
  unfoldable pub serve_one : Exec W (Unit {0})
  serve_one = do
    (typee, buf) ← recv_package conn recv_fuel
    (reply, out) ← handle_package backend typee buf
    send_package conn reply out

  -- `while not self._stop_flag`, on fuel: a peer may send queries without end.
  unfoldable pub serve : ℕ → Exec W (Unit {0})
  serve zero = raise out_of_fuel
  serve (suc fuel) = do stop ← conn.stop_flag; if stop then pure tt else (do serve_one; serve fuel)

module _ {W : Type 0} (end_notify_func : Exec W (Unit {0})) where
  -- The two `except` clauses. A loop that does not end has no sequel.
  unfoldable pub handled : Result (Unit {0}) → Exec W (Unit {0})
  handled (ok a) = pure tt
  handled (err stop_exception) = pure tt
  handled (err out_of_fuel) = raise out_of_fuel
  handled (err e) = end_notify_func

module _ {W : Type 0} (conn : Connection W) (auto_close : Bool) where
  -- `finally`: the connection is closed whether something is raised or not.
  unfoldable pub finally_close : Result (Unit {0}) → Exec W (Unit {0})
  finally_close (err out_of_fuel) = raise out_of_fuel
  finally_close r = if auto_close then (do conn.close; lift r) else lift r

module _ {W : Type 0} (conn : Connection W) (backend : Backend W) (recv_fuel : ℕ)
    (end_notify_func : Exec W (Unit {0})) (auto_close : Bool) where
  unfoldable pub guarded : ℕ → Exec W (Unit {0})
  guarded fuel w =
      let served = serve conn backend recv_fuel fuel w in handled end_notify_func served.0 served.1

  unfoldable pub run : ℕ → Exec W (Unit {0})
  run fuel w = let caught = guarded fuel w in finally_close conn auto_close caught.0 caught.1
