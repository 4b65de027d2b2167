-- ===== src/Server/Connection/Run/Round.antt =====
-- One query and its reply, in a round of `_SocketConnectionHandler.run` of src/miner/modules/server.py.
use pttarticle_recommander.Common.{ℕ, ◌+◌, ◌<◌, ◌≡◌, refl, ap, subst, ◌∙◌, ◌++◌, length}
use pttarticle_recommander.Common.Results.{ok}
use pttarticle_recommander.Common.Exec.{Keeps}
use pttarticle_recommander.Protocol.Bytes.{Bytes}
use pttarticle_recommander.Protocol.Net.PackageHeader
use pttarticle_recommander.Protocol.Net.PackageHeader.{PackageHeader, byte_size}
use pttarticle_recommander.Server.Backend.{Backend}
use pttarticle_recommander.Server.Delegator.{handle_package}
use pttarticle_recommander.Server.Connection.{Connection, send_package, recv_package}
use pttarticle_recommander.Server.Connection.Ending.{IsSink, send_package-sent}
use pttarticle_recommander.Server.Connection.Run.{serve_one}
use pttarticle_recommander.Server.Connection.Run.Frame.{recv_package-Keeps, send_package-Keeps}
use pttarticle_recommander.Server.Connection.Run.Stream.{IsFeed, recv_package-stream}

-- A peer that sends and takes bytes, where neither direction disturbs the other.
pub record IsPeer {W : Type 0} (conn : Connection W) (pending sent : W → Bytes) (delay : W → ℕ)
    : Type 0 where
  pub feed : IsFeed conn pending delay
  pub sink : IsSink conn sent
  pub recv_quiet : (n : ℕ) (w : W) → sent (conn.recv n w).1 ≡ sent w
  pub send_quiet : (buf : Bytes) (w : W) → pending (conn.send buf w).1 ≡ pending w

-- The delegator answers a query, and does not touch the connection.
pub record IsAnswered {W : Type 0} (backend : Backend W) (pending sent : W → Bytes) (typee : ℕ)
    (buf : Bytes) (reply : ℕ) (out : Bytes) : Type 0 where
  pub answer : (w : W) → (handle_package backend typee buf w).0 ≡ ok (reply, out)
  pub pending_quiet : (w : W) → pending (handle_package backend typee buf w).1 ≡ pending w
  pub sent_quiet : (w : W) → sent (handle_package backend typee buf w).1 ≡ sent w

module _ {W : Type 0} {conn : Connection W} {pending sent : W → Bytes} {delay : W → ℕ}
    (peer : IsPeer conn pending sent delay) where
  flag-Keeps : (P : W → Type 0) → Keeps P (conn.stop_flag)
  flag-Keeps P w h = rw (peer.feed.running w) h

  -- Receiving a package sends nothing.
  pub received_quiet :
      (fuel typee : ℕ) (buf : Bytes) (w v : W)
      → recv_package conn fuel w ≡ (ok (typee, buf), v)
      → sent v ≡ sent w
  received_quiet fuel typee buf w v q =
      subst (λ t. sent t ≡ sent w) (ap (λ t. t.1) q)
        (recv_package-Keeps (λ t. sent t ≡ sent w) conn (flag-Keeps (λ t. sent t ≡ sent w))
          (λ n t h. peer.recv_quiet n t ∙ h) fuel w refl)

module _ {W : Type 0} (conn : Connection W) (backend : Backend W) where
  one_steps :
      (fuel typee reply : ℕ) (buf out : Bytes) (w v u w' : W)
      → recv_package conn fuel w ≡ (ok (typee, buf), v)
      → handle_package backend typee buf v ≡ (ok (reply, out), u)
      → send_package conn reply out u ≡ (ok tt, w')
      → serve_one conn backend fuel w ≡ (ok tt, w')
  unfolding serve_one
  one_steps fuel typee reply buf out w v u w' p q r = rw (p, q, r) refl

  -- What a round that receives the package and sends the reply `reply` leaves.
  pub record Replied (pending sent : W → Bytes) (fuel : ℕ) (rest reply : Bytes) (w w' : W)
      : Type 0 where
    pub ran : serve_one conn backend fuel w ≡ (ok tt, w')
    pub left : pending w' ≡ rest
    pub grown : sent w' ≡ sent w ++ reply

module _ {W : Type 0} {conn : Connection W} {pending sent : W → Bytes} {delay : W → ℕ}
    (peer : IsPeer conn pending sent delay) (backend : Backend W) where
  -- A query that a peer has dumped into the stream, and that the delegator answers in every
  -- state without touching the connection, is answered in one round of the loop: the round
  -- raises nothing, takes the query's bytes and no more from the stream, and sends the dumped
  -- reply and nothing else.
  pub serve_one-Replied :
      (fuel typee reply : ℕ) (head buf rest header out : Bytes) (w : W)
      → PackageHeader.dump (record { typee = typee; size = length buf }) ≡ ok head
      → pending w ≡ head ++ (buf ++ rest)
      → byte_size + length buf + delay w < fuel
      → IsAnswered backend pending sent typee buf reply out
      → PackageHeader.dump (record { typee = reply; size = length out }) ≡ ok header
      → (w' : W) × Replied conn backend pending sent fuel rest (header ++ out) w w'
  serve_one-Replied fuel typee reply head buf rest header out w d p k handles d' =
      let (v, q, left) = recv_package-stream peer.feed fuel typee head buf rest w d p k in
      let u : W = (handle_package backend typee buf v).1 in
      let (w', r, grown) = send_package-sent peer.sink reply out header u d' in
      let received = received_quiet peer fuel typee buf w v q in
      let kept : pending w' ≡ pending u =
        subst (λ t. pending t ≡ pending u) (ap (λ t. t.1) r)
          (send_package-Keeps (λ t. pending t ≡ pending u) conn
            (flag-Keeps peer (λ t. pending t ≡ pending u)) (λ b t h. peer.send_quiet b t ∙ h) reply
            out u refl) in
      (
        w',
        record {
          ran =
              one_steps conn backend fuel typee reply buf out w v u w' q
                (ap (λ t. (t, u)) (handles.answer v)) r;
          left = kept ∙ handles.pending_quiet v ∙ left;
          grown = grown ∙ ap (λ t. t ++ (header ++ out)) (handles.sent_quiet v ∙ received);
        },
      )
