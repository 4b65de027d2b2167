-- ===== src/Server/Connection/Run/Frame.antt =====
-- What receiving and sending leave alone in `_SocketConnectionHandler` of src/miner/modules/server.py:
-- what the calls of the socket leave alone.
use pttarticle_recommander.Common.{
  ℕ, zero, suc, ◌-◌, ◌==◌, if◌then◌else◌, [], ◌∷◌, ◌++◌, length, drop, leb,
}
use pttarticle_recommander.Common.Results.{
  Result, ok, err, timeout_error, stop_exception, out_of_fuel,
}
use pttarticle_recommander.Common.Exec.{Exec, raise, lift, ◌>>=◌, Keeps, >>=-Keeps, if-Keeps}
use pttarticle_recommander.Protocol.Bytes.{Bytes}
use pttarticle_recommander.Protocol.Net.PackageHeader
use pttarticle_recommander.Protocol.Net.PackageHeader.{PackageHeader, byte_size}
use pttarticle_recommander.Server.Connection.{
  Connection, header_chunk, content_chunk, recv_header_chunk, recv_content_chunk, recv_while,
  recv_parts, unless_stopped, recv_package, send_while, send_package,
}

module _ {W : Type 0} (P : W → Type 0) (conn : Connection W) (flag : Keeps P (conn.stop_flag)) where
  header_chunk-Keeps : (r : Result Bytes) → Keeps P (header_chunk {W = W} r)
  header_chunk-Keeps (ok []) w h = h
  header_chunk-Keeps (ok (x ∷ a)) w h = h
  header_chunk-Keeps (err timeout_error) w h = h
  header_chunk-Keeps (err e) w h = h

  content_chunk-Keeps : (r : Result Bytes) → Keeps P (content_chunk {W = W} r)
  content_chunk-Keeps (ok a) w h = h
  content_chunk-Keeps (err timeout_error) w h = h
  content_chunk-Keeps (err e) w h = h

  recv_while-Keeps :
      (round : ℕ → Exec W Bytes) (fuel sz : ℕ) (buf : Bytes)
      → ((n : ℕ) → Keeps P (round n))
      → Keeps P (recv_while conn round fuel sz buf)
  unfolding recv_while
  recv_while-Keeps round zero sz buf h = λ w k. k
  recv_while-Keeps round (suc fuel) sz buf h =
      if-Keeps P (leb sz (length buf)) _ _ (λ w k. k)
        (>>=-Keeps P (conn.stop_flag) _ flag (λ stop.
          if-Keeps P stop _ _ (λ w k. k)
            (>>=-Keeps P (round (sz - length buf)) _ (h (sz - length buf))
              (λ a. recv_while-Keeps round fuel sz (buf ++ a) h))))

  stop_or :
      (r : Result (ℕ × Bytes))
      → Keeps P (do stop ← conn.stop_flag; if stop then raise stop_exception else lift r)
  stop_or r = >>=-Keeps P (conn.stop_flag) _ flag λ stop. if-Keeps P stop _ _ (λ w k. k) (λ w k. k)

  module _ (recv : (n : ℕ) → Keeps P (conn.recv n)) where
    header_round-Keeps : (n : ℕ) → Keeps P (recv_header_chunk conn n)
    unfolding recv_header_chunk
    header_round-Keeps n w h = header_chunk-Keeps (conn.recv n w).0 (conn.recv n w).1 (recv n w h)

    content_round-Keeps : (n : ℕ) → Keeps P (recv_content_chunk conn n)
    unfolding recv_content_chunk
    content_round-Keeps n w h = content_chunk-Keeps (conn.recv n w).0 (conn.recv n w).1 (recv n w h)

    recv_parts-Keeps : (fuel : ℕ) → Keeps P (recv_parts conn fuel)
    unfolding recv_parts
    recv_parts-Keeps fuel =
        >>=-Keeps P (recv_while conn (recv_header_chunk conn) fuel byte_size []) _
          (recv_while-Keeps (recv_header_chunk conn) fuel byte_size [] header_round-Keeps)
          (λ head.
            >>=-Keeps P (lift (PackageHeader.load head 0)) _ (λ w h. h)
              (λ x.
                >>=-Keeps P (recv_while conn (recv_content_chunk conn) fuel x.0.size []) _
                  (recv_while-Keeps (recv_content_chunk conn) fuel x.0.size [] content_round-Keeps)
                  (λ buf w h. h)))

    stop_or-Keeps : (r : Result (ℕ × Bytes)) → Keeps P (unless_stopped conn r)
    unfolding unless_stopped
    stop_or-Keeps (err out_of_fuel) w h = h
    stop_or-Keeps r w h = stop_or r w h

    pub recv_package-Keeps : (fuel : ℕ) → Keeps P (recv_package conn fuel)
    unfolding recv_package
    recv_package-Keeps fuel w h =
        stop_or-Keeps (recv_parts conn fuel w).0 (recv_parts conn fuel w).1
          (recv_parts-Keeps fuel w h)

  module _ (send : (buf : Bytes) → Keeps P (conn.send buf)) where
    send_while-Keeps : (fuel : ℕ) (buf : Bytes) → Keeps P (send_while conn fuel buf)
    unfolding send_while
    send_while-Keeps fuel [] w h = h
    send_while-Keeps zero (x ∷ buf) w h = h
    send_while-Keeps (suc fuel) (x ∷ buf) w h =
        >>=-Keeps P (conn.stop_flag) _ flag
          (λ stop.
            if-Keeps P stop _ _ (λ v k. k)
              (>>=-Keeps P (conn.send (x ∷ buf)) _ (send (x ∷ buf)) (λ n.
                if-Keeps P (n == 0) _ _ (λ v k. k) (send_while-Keeps fuel (drop n (x ∷ buf))))))
          w h

    pub send_package-Keeps : (typee : ℕ) (buf : Bytes) → Keeps P (send_package conn typee buf)
    unfolding send_package
    send_package-Keeps typee buf =
        >>=-Keeps P (lift (PackageHeader.dump (record { typee = typee; size = length buf }))) _
          (λ w h. h)
          (λ header.
            >>=-Keeps P (send_while conn (length (header ++ buf)) (header ++ buf)) _
              (send_while-Keeps (length (header ++ buf)) (header ++ buf))
              (λ _.
                >>=-Keeps P (conn.stop_flag) _ flag
                  (λ stop. if-Keeps P stop _ _ (λ w h. h) (λ w h. h))))
