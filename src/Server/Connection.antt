-- ===== src/Server/Connection.antt =====
-- `_SocketConnectionHandler` of src/miner/modules/server.py: packages in and out of a connection.
pub mod Ending
pub mod Run
use pttarticle_recommander.Common.{
  ℕ, zero, suc, ◌-◌, ◌==◌, List, [], ◌∷◌, ◌++◌, length, drop, Bool, true, false, leb, if◌then◌else◌,
}
use pttarticle_recommander.Common.Results.{
  Error, Result, ok, err, protocol_error, timeout_error, stop_exception, out_of_fuel,
}
use pttarticle_recommander.Common.Exec.{Exec, pure, raise, lift, ◌>>=◌, ◌>>◌}
use pttarticle_recommander.Protocol.Bytes.{Bytes}
use pttarticle_recommander.Protocol.Net.PackageHeader
use pttarticle_recommander.Protocol.Net.PackageHeader.{PackageHeader, byte_size}
use pttarticle_recommander.Server.Backend.{Backend}
use pttarticle_recommander.Server.Delegator.{handle_package}

-- The accepted socket and the flag `_stop_flag`, which another thread may set at any time: reading it
-- is a step of its own. `recv` raises a `timeout_error` when nothing comes within a second.
pub record Connection (W : Type 0) : Type 0 where
  pub stop_flag : Exec W Bool
  pub recv : ℕ → Exec W Bytes
  pub send : Bytes → Exec W ℕ
  pub close : Exec W (Unit {0})

module _ {W : Type 0} where
  -- A round of the first loop: an empty chunk means that the peer is gone; a timeout is no chunk.
  abbrev pub header_chunk : Result Bytes → Exec W Bytes
  header_chunk (ok []) = raise protocol_error
  header_chunk (ok (x ∷ a)) = pure (x ∷ a)
  header_chunk (err timeout_error) = pure []
  header_chunk (err e) = raise e

  -- A round of the second loop.
  abbrev pub content_chunk : Result Bytes → Exec W Bytes
  content_chunk (ok a) = pure a
  content_chunk (err timeout_error) = pure []
  content_chunk (err e) = raise e

module _ {W : Type 0} (conn : Connection W) where
  unfoldable pub recv_header_chunk : ℕ → Exec W Bytes
  recv_header_chunk n w = header_chunk (conn.recv n w).0 (conn.recv n w).1

  unfoldable pub recv_content_chunk : ℕ → Exec W Bytes
  recv_content_chunk n w = content_chunk (conn.recv n w).0 (conn.recv n w).1

  -- `while len(buf) < sz and not self._stop_flag`, on fuel: timeouts may come without end.
  unfoldable pub recv_while : (ℕ → Exec W Bytes) → ℕ → ℕ → Bytes → Exec W Bytes
  recv_while chunk zero sz buf = raise out_of_fuel
  recv_while chunk (suc fuel) sz buf = if leb sz (length buf) then pure buf else (do
    stop ← conn.stop_flag
    if stop
        then pure buf
        else (do a ← chunk (sz - length buf); recv_while chunk fuel sz (buf ++ a)))

  -- The body of the `try`.
  unfoldable pub recv_parts : ℕ → Exec W (ℕ × Bytes)
  recv_parts fuel = do
    head ← recv_while recv_header_chunk fuel byte_size []
    (header, offs) ← lift (PackageHeader.load head 0)
    buf ← recv_while recv_content_chunk fuel header.size []
    pure (header.typee, buf)

  -- What follows it: the stop flag goes before the exception. A loop that does not end has no sequel.
  unfoldable pub unless_stopped : Result (ℕ × Bytes) → Exec W (ℕ × Bytes)
  unless_stopped (err out_of_fuel) = raise out_of_fuel
  unless_stopped r = do stop ← conn.stop_flag; if stop then raise stop_exception else lift r

  unfoldable pub recv_package : ℕ → Exec W (ℕ × Bytes)
  recv_package fuel w = unless_stopped (recv_parts fuel w).0 (recv_parts fuel w).1

  -- `while buf and not self._stop_flag`, on fuel.
  unfoldable pub send_while : ℕ → Bytes → Exec W (Unit {0})
  send_while fuel [] = pure tt
  send_while zero (x ∷ buf) = raise out_of_fuel
  send_while (suc fuel) (x ∷ buf) = do
    stop ← conn.stop_flag
    if stop then pure tt else (do
      curr_sent ← conn.send (x ∷ buf)
      if curr_sent == 0 then raise protocol_error else send_while fuel (drop curr_sent (x ∷ buf)))

  -- Each round sends a byte at least, so that as many rounds as bytes are enough.
  unfoldable pub send_package : ℕ → Bytes → Exec W (Unit {0})
  send_package typee buf = do
    header ← lift (PackageHeader.dump (record { typee = typee; size = length buf }))
    send_while (length (header ++ buf)) (header ++ buf)
    stop ← conn.stop_flag
    if stop then raise stop_exception else pure tt
