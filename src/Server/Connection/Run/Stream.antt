-- ===== src/Server/Connection/Run/Stream.antt =====
-- A round of `_SocketConnectionHandler.run` of src/miner/modules/server.py on a stream of bytes that
-- arrives in chunks, with timeouts in between.
use native.Mathlib.Nat.{zero-add}
use pttarticle_recommander.Common.{
  ℕ, zero, suc, ◌+◌, ◌-◌, ◌≤◌, ◌<◌, ◌≡◌, refl, sym, ap, subst, ◌∙◌, [], ◌∷◌, ◌++◌, length,
  append_assoc, append-nil, append_split, length-append, arith, leb, le→leb, false,
}
use pttarticle_recommander.Common.Results.{ok, err, timeout_error}
use pttarticle_recommander.Common.Exec.{Exec}
use pttarticle_recommander.Protocol.Bytes.{Bytes}
use pttarticle_recommander.Protocol.Net.PackageHeader
use pttarticle_recommander.Protocol.Net.PackageHeader.{
  PackageHeader, byte_size, length-dump, header_load-dump,
}
use pttarticle_recommander.Server.Connection.{
  Connection, recv_header_chunk, recv_content_chunk, recv_while, recv_parts, unless_stopped,
  recv_package,
}

module _ {W : Type 0} (conn : Connection W) (pending : W → Bytes) (delay : W → ℕ) where
  -- What `recv` of at most `n` bytes may come to while bytes are pending: a second passes, or some of
  -- the pending bytes are taken.
  pub data Arrival (n : ℕ) (w : W) : Type 0 where
    late :
        (w' : W)
        → conn.recv n w ≡ (err timeout_error, w')
        → pending w' ≡ pending w
        → delay w' < delay w
        → Arrival n w
    chunk :
        (x : ℕ) (a : Bytes) (w' : W)
        → conn.recv n w ≡ (ok (x ∷ a), w')
        → length (x ∷ a) ≤ n
        → pending w ≡ (x ∷ a) ++ pending w'
        → delay w' ≤ delay w
        → Arrival n w

  -- A handler that is not stopped, and a peer whose bytes arrive in their order, with at most `delay`
  -- timeouts before the last of them.
  pub record IsFeed : Type 0 where
    pub running : (w : W) → conn.stop_flag w ≡ (ok false, w)
    pub arrival : (n : ℕ) (w : W) → 0 < n → 0 < length (pending w) → Arrival n w

-- The two kinds of rounds agree on what arrives.
pub record IsRound {W : Type 0} (conn : Connection W) (round : ℕ → Exec W Bytes) : Type 0 where
  pub on_late :
      (n : ℕ) (w w' : W) → conn.recv n w ≡ (err timeout_error, w') → round n w ≡ (ok [], w')
  pub on_chunk :
      (n x : ℕ) (a : Bytes) (w w' : W)
      → conn.recv n w ≡ (ok (x ∷ a), w')
      → round n w ≡ (ok (x ∷ a), w')

module _ {W : Type 0} (conn : Connection W) where
  header-IsRound : IsRound conn (recv_header_chunk conn)
  unfolding recv_header_chunk
  header-IsRound = record { on_late = λ n w w' p. rw p refl; on_chunk = λ n x a w w' p. rw p refl }

  content-IsRound : IsRound conn (recv_content_chunk conn)
  unfolding recv_content_chunk
  content-IsRound = record { on_late = λ n w w' p. rw p refl; on_chunk = λ n x a w w' p. rw p refl }

  recv_while_done :
      (round : ℕ → Exec W Bytes) (fuel sz : ℕ) (buf : Bytes) (w : W)
      → sz ≤ length buf
      → recv_while conn round (suc fuel) sz buf w ≡ (ok buf, w)
  unfolding recv_while
  recv_while_done round fuel sz buf w h = rw (le→leb sz (length buf) h)

  recv_while_round :
      (round : ℕ → Exec W Bytes) (fuel sz : ℕ) (buf a : Bytes) (w w' : W)
      → length buf < sz
      → conn.stop_flag w ≡ (ok false, w)
      → round (sz - length buf) w ≡ (ok a, w')
      → recv_while conn round (suc fuel) sz buf w ≡ recv_while conn round fuel sz (buf ++ a) w'
  unfolding recv_while
  recv_while_round round fuel sz buf a w w' h p q =
      let e : leb sz (length buf) ≡ false = ground arith in rw (e, p, q) refl

module _ {W : Type 0} {conn : Connection W} {pending : W → Bytes} {delay : W → ℕ}
    (feed : IsFeed conn pending delay) where
  -- What a loop leaves that took `taken` from the stream.
  record Taken (rest : Bytes) (w w' : W) : Type 0 where
    pub left : pending w' ≡ rest
    pub sooner : delay w' ≤ delay w

  recv_while-Taken :
      (round : ℕ → Exec W Bytes) (fuel : ℕ) (buf more rest : Bytes) (w : W)
      → IsRound conn round
      → length more + delay w < fuel
      → pending w ≡ more ++ rest
      → (w' : W) × (recv_while conn round fuel (length buf + length more) buf w
          ≡ (ok (buf ++ more), w'))
        × Taken rest w w'
  recv_while-Taken round zero buf more rest w i k p = absurd (omega arith)
  recv_while-Taken round (suc fuel) buf [] rest w i k p = (
    w,
    recv_while_done conn round fuel (length buf + 0) buf w (omega arith) ∙ rw (append-nil buf),
    record { left = p; sooner = omega arith },
  )
  recv_while-Taken round (suc fuel) buf (x ∷ more) rest w i k p =
      let n : ℕ = length buf + length (x ∷ more) in
      elim (feed.arrival (n - length buf) w (omega arith) (rw p (omega arith))) [
        | late v q s d ↦
            let (w', r, t) =
              recv_while-Taken round fuel buf (x ∷ more) rest v i (omega (arith, d)) (s ∙ p) in
            (
              w',
              recv_while_round conn round fuel n buf [] w v (omega arith) (feed.running w)
                    (i.on_late (n - length buf) w v q)
                  ∙ ap (λ z. recv_while conn round fuel n z v) (append-nil buf)
                  ∙ r,
              record { left = t.left; sooner = omega (arith, d, t.sooner) },
            )
        | chunk y a v q f s d ↦
            let u : Bytes = y ∷ a in
            let (m, e, o) =
              append_split u (pending v) (x ∷ more) rest (omega (arith, f)) (sym s ∙ p) in
            let size : length (x ∷ more) ≡ length u + length m = ap length e ∙ length-append u m in
            let (w', r, t) =
              recv_while-Taken round fuel (buf ++ u) m rest v i (omega (arith, size, d)) o in
            let total : length (buf ++ u) + length m ≡ n =
              omega (arith, length-append buf u, size) in
            let joined : (buf ++ u) ++ m ≡ buf ++ (x ∷ more) =
              append_assoc buf u m ∙ ap (λ z. buf ++ z) (sym e) in
            (
              w',
              recv_while_round conn round fuel n buf u w v (omega arith) (feed.running w)
                    (i.on_chunk (n - length buf) y a w v q)
                  ∙ subst
                      (λ j. recv_while conn round fuel j (buf ++ u) v ≡ (ok (buf ++ x ∷ more), w'))
                      total (r ∙ ap (λ z. (ok z, w')) joined),
              record { left = t.left; sooner = omega (arith, d, t.sooner) },
            )
      ]

  parts_steps :
      (fuel typee offs : ℕ) (head buf : Bytes) (w v w' : W)
      → recv_while conn (recv_header_chunk conn) fuel byte_size [] w ≡ (ok head, v)
      → PackageHeader.load head 0 ≡ ok (record { typee = typee; size = length buf }, offs)
      → recv_while conn (recv_content_chunk conn) fuel (length buf) [] v ≡ (ok buf, w')
      → recv_parts conn fuel w ≡ (ok (typee, buf), w')
  unfolding recv_parts
  parts_steps fuel typee offs head buf w v w' p q r = rw (p, q, r) refl

  package_steps :
      (fuel typee : ℕ) (buf : Bytes) (w w' : W)
      → recv_parts conn fuel w ≡ (ok (typee, buf), w')
      → recv_package conn fuel w ≡ (ok (typee, buf), w')
  unfolding recv_package unless_stopped
  package_steps fuel typee buf w w' p = rw (p, feed.running w') refl

  -- A package that a peer has dumped into the stream is the one that `_recv_package` returns, type
  -- and content, and the bytes behind it stay in the stream, whatever the chunks in which they
  -- arrive, for a handler that is not stopped, with fuel for the bytes and for the timeouts.
  pub recv_package-stream :
      (fuel typee : ℕ) (head buf rest : Bytes) (w : W)
      → PackageHeader.dump (record { typee = typee; size = length buf }) ≡ ok head
      → pending w ≡ head ++ (buf ++ rest)
      → byte_size + length buf + delay w < fuel
      → (w' : W) × (recv_package conn fuel w ≡ (ok (typee, buf), w')) × (pending w' ≡ rest)
  recv_package-stream fuel typee head buf rest w d p k =
      let h : PackageHeader = record { typee = typee; size = length buf } in
      let sized = length-dump h head d in
      let (v, q, t) =
        recv_while-Taken (recv_header_chunk conn) fuel [] head (buf ++ rest) w (header-IsRound conn)
          (omega (arith, sized)) p in
      let (w', r, u) =
        recv_while-Taken (recv_content_chunk conn) fuel [] buf rest v (content-IsRound conn)
          (omega (arith, t.sooner)) t.left in
      let q' : recv_while conn (recv_header_chunk conn) fuel byte_size [] w ≡ (ok head, v) =
        subst (λ n. recv_while conn (recv_header_chunk conn) fuel n [] w ≡ (ok head, v))
          (omega (arith, sized)) q in
      let r' : recv_while conn (recv_content_chunk conn) fuel (length buf) [] v ≡ (ok buf, w') =
        rw zero-add at r in
      (
        w',
        package_steps fuel typee buf w w' (
            parts_steps fuel typee (0 + length head) head buf w v w' q'
              (header_load-dump h head head [] 0 d (sym (append-nil head))) r'),
        u.left,
      )
