-- ===== src/AppServer/ProxyClient.antt =====
-- `ProxyClient` of src/app_server/modules/proxy_client.py, over a socket that is a parameter.
pub mod Stream
use pttarticle_recommander.Common.{
  ℕ, zero, suc, ◌+◌, ◌-◌, ◌≡◌, [], ◌∷◌, ◌++◌, length, Bool, true, false, leb, if◌then◌else◌,
}
use pttarticle_recommander.Common.Results.{
  Error, Result, ok, err, os_error, proxy_client_error, out_of_fuel,
}
use pttarticle_recommander.Common.Exec.{Exec, pure, raise, lift, ◌>>=◌, ◌>>◌}
use pttarticle_recommander.Protocol.Bytes.{Bytes}
use pttarticle_recommander.Protocol.Net.PackageHeader
use pttarticle_recommander.Protocol.Net.PackageHeader.{PackageHeader, byte_size}

-- A TCP socket: what Python's `socket` offers, over the state `W` of the network. `recv n` returns at
-- most `n` bytes, and none once the peer has closed; a failing call raises `socket.error`.
pub record Socket (W : Type 0) : Type 0 where
  pub connect : Exec W (Unit {0})
  pub sendall : Bytes → Exec W (Unit {0})
  pub recv : ℕ → Exec W Bytes
  pub close : Exec W (Unit {0})

module _ {W A : Type 0} where
  -- `except socket.error`: the handler runs on the state that the failing call left.
  abbrev pub except_socket_error : Result A → Exec W A → Exec W A
  except_socket_error (ok a) handler w = (ok a, w)
  except_socket_error (err os_error) handler w = handler w
  except_socket_error (err e) handler w = (err e, w)

module _ {W : Type 0} where
  -- `except Exception: pass`
  abbrev pub ignore : Exec W (Unit {0}) → Exec W (Unit {0})
  ignore m w = (ok tt, (m w).1)

  -- `if not a: raise`, and `except socket.error as e: raise`
  abbrev pub received : Result Bytes → Exec W Bytes
  received (ok []) w = (err proxy_client_error, w)
  received (ok (x ∷ a)) w = (ok (x ∷ a), w)
  received (err os_error) w = (err proxy_client_error, w)
  received (err e) w = (err e, w)

module _ {W : Type 0} (sock : Socket W) where
  unfoldable pub init_sock : Exec W (Unit {0})
  init_sock w = except_socket_error (sock.connect w).0 (raise proxy_client_error) (sock.connect w).1

  -- `self._sock.sendall(net.PackageHeader(typee, len(buf)).dump() + buf)`
  unfoldable pub send_once : ℕ → Bytes → Exec W (Unit {0})
  send_once typee buf = do
    header ← lift (PackageHeader.dump (record { typee = typee; size = length buf }))
    sock.sendall (header ++ buf)

  -- `for i in range(10)`: what is left of the attempts.
  unfoldable pub send_attempts : ℕ → ℕ → Bytes → Exec W (Unit {0})
  unfolding init_sock send_once
  send_attempts zero typee buf w = (err proxy_client_error, w)
  send_attempts (suc i) typee buf w =
      except_socket_error (send_once typee buf w).0
        (do ignore (sock.close); init_sock; send_attempts i typee buf) (send_once typee buf w).1

  unfoldable pub send_pkg : ℕ → Bytes → Exec W (Unit {0})
  unfolding send_attempts
  send_pkg typee buf = send_attempts 10 typee buf

  -- A round of `recv_all`: a chunk, where an empty one means that the peer is gone.
  unfoldable pub recv_some : ℕ → Exec W Bytes
  recv_some n w = received (sock.recv n w).0 (sock.recv n w).1

  -- `while len(buf) < sz`, on fuel.
  unfoldable pub recv_loop : ℕ → ℕ → Bytes → Exec W Bytes
  unfolding recv_some
  recv_loop zero sz buf = if leb sz (length buf) then pure buf else raise out_of_fuel
  recv_loop (suc fuel) sz buf =
      if leb sz (length buf)
      then pure buf
      else (do a ← recv_some (sz - length buf); recv_loop fuel sz (buf ++ a))

  -- Each round takes a byte at least, so `sz` rounds are enough.
  unfoldable pub recv_all : ℕ → Exec W Bytes
  unfolding recv_loop
  recv_all sz = recv_loop sz sz []

  unfoldable pub recv_header : Exec W PackageHeader
  unfolding recv_all
  recv_header = do
    buf ← recv_all byte_size
    (header, offs) ← lift (PackageHeader.load buf 0)
    pure header
