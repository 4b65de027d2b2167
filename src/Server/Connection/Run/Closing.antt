-- ===== src/Server/Connection/Run/Closing.antt =====
-- How `_SocketConnectionHandler.run` of src/miner/modules/server.py ends, and how it comes to that by a query
-- that the delegator refuses.
use pttarticle_recommander.Common.{
  ℕ, suc, ◌+◌, ◌<◌, ◌≡◌, ◌≢◌, refl, ◌∙◌, List, ◌++◌, length, none, some, true,
}
use pttarticle_recommander.Common.Results.{
  Error, Result, ok, err, stop_exception, protocol_error, out_of_fuel,
}
use pttarticle_recommander.Protocol.Bytes.{Bytes}
use pttarticle_recommander.Protocol.Net.PackageHeader
use pttarticle_recommander.Protocol.Net.PackageHeader.{PackageHeader, byte_size}
use pttarticle_recommander.Server.Arguments.{ArgStruct, unpack_args_buf}
use pttarticle_recommander.Server.Delegator.{find, handle_package}
use pttarticle_recommander.Server.Delegator.Dispatch.{signatures, unsupported, malformed}
use pttarticle_recommander.Common.Exec.{Exec}
use pttarticle_recommander.Server.Backend.{Backend}
use pttarticle_recommander.Server.Connection.{Connection, recv_package}
use pttarticle_recommander.Server.Connection.Run.Stream.{recv_package-stream}
use pttarticle_recommander.Server.Connection.Run.Round.{IsPeer, received_quiet}
use pttarticle_recommander.Server.Connection.Run.{
  serve_one, serve, handled, finally_close, guarded, run,
}

module _ {W : Type 0} (conn : Connection W) where
  close_last :
      (r : Result (Unit {0})) (w w' : W)
      → r ≢ err out_of_fuel
      → conn.close w ≡ (ok tt, w')
      → finally_close conn true r w ≡ (r, w')
  unfolding finally_close
  close_last (ok a) w w' h p = rw p refl
  close_last (err out_of_fuel) w w' h p = absurd (h refl)
  close_last (err e) w w' h p = rw p refl

module _ {W : Type 0} (end_notify_func : Exec W (Unit {0})) where
  handled_error :
      (e : Error) (w : W)
      → e ≢ stop_exception
      → e ≢ out_of_fuel
      → handled end_notify_func (err e) w ≡ end_notify_func w
  unfolding handled
  handled_error stop_exception w h k = absurd (h refl)
  handled_error out_of_fuel w h k = absurd (k refl)
  handled_error e w h k = refl

module _ {W : Type 0} (conn : Connection W) (backend : Backend W) (recv_fuel : ℕ)
    (end_notify_func : Exec W (Unit {0})) where
  guarded_error :
      (fuel : ℕ) (e : Error) (w v : W)
      → serve conn backend recv_fuel fuel w ≡ (err e, v)
      → e ≢ stop_exception
      → e ≢ out_of_fuel
      → guarded conn backend recv_fuel end_notify_func true fuel w ≡ end_notify_func v
  unfolding guarded
  guarded_error fuel e w v p h k = rw p (handled_error end_notify_func e v h k)

  -- What is raised in the loop does not leave `run`: the callback is called on what the loop left, and
  -- closing the connection is the last that is done.
  error_closes :
      (fuel : ℕ) (e : Error) (w v u w' : W)
      → serve conn backend recv_fuel fuel w ≡ (err e, v)
      → e ≢ stop_exception
      → e ≢ out_of_fuel
      → end_notify_func v ≡ (ok tt, u)
      → conn.close u ≡ (ok tt, w')
      → run conn backend recv_fuel end_notify_func true fuel w ≡ (ok tt, w')
  unfolding run
  error_closes fuel e w v u w' p h k q r =
      rw (guarded_error fuel e w v p h k ∙ q) (close_last conn (ok tt) u w' (λ x. cc) r)

  -- A thread that is stopped ends in the same way, but without the callback.
  stop_closes :
      (fuel : ℕ) (w v w' : W)
      → serve conn backend recv_fuel fuel w ≡ (err stop_exception, v)
      → conn.close v ≡ (ok tt, w')
      → run conn backend recv_fuel end_notify_func true fuel w ≡ (ok tt, w')
  unfolding run guarded handled
  stop_closes fuel w v w' p q = rw p (close_last conn (ok tt) v w' (λ x. cc) q)

-- Ending a connection's thread: the callback and closing return and send nothing, and what the callback
-- has told stays told.
pub record IsClosing {W : Type 0} (conn : Connection W) (end_notify_func : Exec W (Unit {0}))
    (sent : W → Bytes) (Notified Closed : W → Type 0) : Type 0 where
  pub notifies :
      (w : W) → (w' : W) × (end_notify_func w ≡ (ok tt, w')) × (sent w' ≡ sent w) × Notified w'
  pub closes :
      (w : W)
      → (w' : W) × (conn.close w ≡ (ok tt, w'))
        × (sent w' ≡ sent w)
        × Closed w'
        × (Notified w → Notified w')

-- A query that the delegator refuses: its type has no signature, or its arguments do not unpack by it.
pub data IsRefused (typee : ℕ) (buf : Bytes) : Type 0 where
  no_signature : find typee signatures ≡ none → IsRefused typee buf
  no_arguments :
      (structs : List ArgStruct) (e : Error)
      → find typee signatures ≡ some structs
      → unpack_args_buf buf structs ≡ err e
      → IsRefused typee buf

refused_lem :
    {W : Type 0} (backend : Backend W) (typee : ℕ) (buf : Bytes) (w : W)
    → IsRefused typee buf
    → handle_package backend typee buf w ≡ (err protocol_error, w)
refused_lem backend typee buf w (no_signature p) = unsupported backend typee buf w p
refused_lem backend typee buf w (no_arguments structs e p q) =
    malformed backend typee structs buf w e p q

module _ {W : Type 0} {conn : Connection W} {pending sent : W → Bytes} {delay : W → ℕ}
    (peer : IsPeer conn pending sent delay) (backend : Backend W)
    {end_notify_func : Exec W (Unit {0})} {Notified Closed : W → Type 0}
    (closing : IsClosing conn end_notify_func sent Notified Closed) where
  serve_steps :
      (recv_fuel fuel typee : ℕ) (buf : Bytes) (w v : W)
      → recv_package conn recv_fuel w ≡ (ok (typee, buf), v)
      → handle_package backend typee buf v ≡ (err protocol_error, v)
      → serve conn backend recv_fuel (suc fuel) w ≡ (err protocol_error, v)
  unfolding serve serve_one
  serve_steps recv_fuel fuel typee buf w v p q = rw (peer.feed.running w, p, q) refl

  -- A query that a peer has dumped into the stream, whose type has no signature or whose
  -- arguments do not unpack by it, ends the connection's thread, if the callback and closing
  -- return and neither of them sends anything: `run` returns, nothing was sent, the callback
  -- was called, and the connection is closed, whatever stands behind the query in the stream.
  pub refused_closes :
      (recv_fuel fuel typee : ℕ) (head buf rest : Bytes) (w : W)
      → PackageHeader.dump (record { typee = typee; size = length buf }) ≡ ok head
      → pending w ≡ head ++ (buf ++ rest)
      → byte_size + length buf + delay w < recv_fuel
      → IsRefused typee buf
      → (w' : W) × (run conn backend recv_fuel end_notify_func true (suc fuel) w ≡ (ok tt, w'))
        × (sent w' ≡ sent w)
        × Notified w'
        × Closed w'
  refused_closes recv_fuel fuel typee head buf rest w d p k refused =
      let (v, q, _) = recv_package-stream peer.feed recv_fuel typee head buf rest w d p k in
      let quiet : sent v ≡ sent w = received_quiet peer recv_fuel typee buf w v q in
      let (u, n, s, told) = closing.notifies v in
      let (w', c, s', closed, k') = closing.closes u in
      let served =
        serve_steps recv_fuel fuel typee buf w v q (refused_lem backend typee buf v refused) in
      (
        w',
        error_closes conn backend recv_fuel end_notify_func (suc fuel) protocol_error w v u w'
            served (λ x. cc) (λ x. cc) n c,
        s' ∙ s ∙ quiet,
        k' told,
        closed,
      )
