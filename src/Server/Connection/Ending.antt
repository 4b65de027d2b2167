-- ===== src/Server/Connection/Ending.antt =====
-- How receiving and sending end in `_SocketConnectionHandler` of src/miner/modules/server.py.
use pttarticle_recommander.Common.{
  ℕ, zero, suc, ◌-◌, ◌≤◌, ◌<◌, ◌≡◌, ◌==◌, refl, sym, ap, ◌∙◌, List, [], ◌∷◌, ◌++◌, slice, length,
  take, drop, append_assoc, append-nil, arith, leb, true, false,
}
use pttarticle_recommander.Common.Results.{ok, err, stop_exception, out_of_fuel, struct_error}
use pttarticle_recommander.Protocol.Bytes.{Bytes, unpack_unsigned}
use pttarticle_recommander.Protocol.Net.PackageHeader
use pttarticle_recommander.Protocol.Net.PackageHeader.{PackageHeader, byte_size}
use pttarticle_recommander.Server.Connection.{
  Connection, recv_content_chunk, recv_while, recv_parts, recv_package, unless_stopped, send_while,
  send_package,
}

-- A peer that is gone, as long as the handler is not stopped: every call returns nothing at once, and
-- it stays gone.
pub record IsGone {W : Type 0} (conn : Connection W) (Gone : W → Type 0) : Type 0 where
  pub running : (w : W) → Gone w → (w' : W) × (conn.stop_flag w ≡ (ok false, w')) × Gone w'
  pub nothing : (n : ℕ) (w : W) → Gone w → (w' : W) × (conn.recv n w ≡ (ok [], w')) × Gone w'

module _ {W : Type 0} {conn : Connection W} {Gone : W → Type 0} (gone : IsGone conn Gone) where
  recv_while_spin :
      (fuel sz : ℕ) (buf : Bytes) (w v u : W)
      → length buf < sz
      → conn.stop_flag w ≡ (ok false, v)
      → conn.recv (sz - length buf) v ≡ (ok [], u)
      → recv_while conn (recv_content_chunk conn) (suc fuel) sz buf w
        ≡ recv_while conn (recv_content_chunk conn) fuel sz buf u
  unfolding recv_while recv_content_chunk
  recv_while_spin fuel sz buf w v u h p q =
      let e : leb sz (length buf) ≡ false = ground arith in rw (e, p, q, append-nil buf) refl

  -- From any point at which bytes of a package's content are missing, however many have come, a
  -- peer that is gone is not noticed: as long as the stop flag is not set and `recv` returns
  -- nothing, the loop does not end, however many rounds it is given.
  pub content_loop_spins :
      (fuel sz : ℕ) (buf : Bytes) (w : W)
      → length buf < sz
      → Gone w
      → (recv_while conn (recv_content_chunk conn) fuel sz buf w).0 ≡ err out_of_fuel
  content_loop_spins zero sz buf w h g = unfold recv_while in refl
  content_loop_spins (suc fuel) sz buf w h g =
      let (v, p, g₁) = gone.running w g in
      let (u, q, g₂) = gone.nothing (sz - length buf) v g₁ in
      rw (recv_while_spin fuel sz buf w v u h p q) (content_loop_spins fuel sz buf u h g₂)

-- A peer that takes what is sent, at least one byte at a time, and a handler that is not stopped.
pub record IsSink {W : Type 0} (conn : Connection W) (sent : W → Bytes) : Type 0 where
  pub running : (w : W) → conn.stop_flag w ≡ (ok false, w)
  pub accept :
      (x : ℕ) (buf : Bytes) (w : W)
      → (n : ℕ) × (w' : W) × (conn.send (x ∷ buf) w ≡ (ok (suc n), w'))
        × (sent w' ≡ sent w ++ take (suc n) (x ∷ buf))

module _ {A : Type 0} where
  take-drop : (n : ℕ) (xs : List A) → take n xs ++ drop n xs ≡ xs
  take-drop zero xs = refl
  take-drop (suc n) [] = refl
  take-drop (suc n) (x ∷ xs) = ap (λ l. x ∷ l) (take-drop n xs)

  length-drop-le : (n : ℕ) (xs : List A) → length (drop n xs) ≤ length xs
  length-drop-le zero xs = omega arith
  length-drop-le (suc n) [] = omega arith
  length-drop-le (suc n) (x ∷ xs) = omega (arith, length-drop-le n xs)

module _ {W : Type 0} {conn : Connection W} {sent : W → Bytes} (sink : IsSink conn sent) where
  send_while_step :
      (fuel x n : ℕ) (buf : Bytes) (w w' : W)
      → conn.send (x ∷ buf) w ≡ (ok (suc n), w')
      → send_while conn (suc fuel) (x ∷ buf) w ≡ send_while conn fuel (drop (suc n) (x ∷ buf)) w'
  unfolding send_while
  send_while_step fuel x n buf w w' p =
      let e : (suc n == 0) ≡ false = ground arith in rw (sink.running w, p, e) refl

  send_while-sent :
      (fuel : ℕ) (buf : Bytes) (w : W)
      → length buf ≤ fuel
      → (w' : W) × (send_while conn fuel buf w ≡ (ok tt, w')) × (sent w' ≡ sent w ++ buf)
  send_while-sent fuel [] w h = (w, unfold send_while in refl, sym (append-nil (sent w)))
  send_while-sent zero (x ∷ buf) w h = absurd (omega arith)
  send_while-sent (suc fuel) (x ∷ buf) w h =
      let (n, v, p, q) = sink.accept x buf w in
      let (w', r, s) = send_while-sent fuel (drop n buf) v (omega (arith, length-drop-le n buf)) in
      (
        w',
        send_while_step fuel x n buf w v p ∙ r,
        s
            ∙ ap (λ l. l ++ drop n buf) q
            ∙ append_assoc (sent w) (x ∷ take n buf) (drop n buf)
            ∙ ap (λ l. sent w ++ x ∷ l) (take-drop n buf),
      )

  -- To a peer that takes at least one byte at a time, `_send_package` of a handler that is not
  -- stopped sends the header and the content, whole and in order, and raises nothing.
  pub send_package-sent :
      (typee : ℕ) (buf h : Bytes) (w : W)
      → PackageHeader.dump (record { typee = typee; size = length buf }) ≡ ok h
      → (w' : W) × (send_package conn typee buf w ≡ (ok tt, w')) × (sent w' ≡ sent w ++ (h ++ buf))
  unfolding send_package
  send_package-sent typee buf h w p =
      let (w', r, s) = send_while-sent (length (h ++ buf)) (h ++ buf) w (omega arith) in
      (w', rw (p, r, sink.running w') refl, s)

module _ {W : Type 0} (conn : Connection W) where
  short_header : PackageHeader.load [] 0 ≡ err struct_error
  unfolding PackageHeader.load PackageHeader.unpack unpack_unsigned slice
  short_header = refl

  stopped_parts :
      (fuel : ℕ) (w : W)
      → conn.stop_flag w ≡ (ok true, w)
      → recv_parts conn (suc fuel) w ≡ (err struct_error, w)
  unfolding recv_parts recv_while
  stopped_parts fuel w p = rw (p, short_header) refl

  -- A handler that is stopped between two packages ends by the `_StopException` without reading.
  pub stopped_between :
      (fuel : ℕ) (w : W)
      → conn.stop_flag w ≡ (ok true, w)
      → recv_package conn (suc fuel) w ≡ (err stop_exception, w)
  unfolding recv_package unless_stopped
  stopped_between fuel w p = rw (stopped_parts fuel w p, p) refl
