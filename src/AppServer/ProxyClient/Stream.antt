-- ===== src/AppServer/ProxyClient/Stream.antt =====
-- `ProxyClient` of src/app_server/modules/proxy_client.py on a stream of bytes that arrives in chunks.
use native.Mathlib.Decide.{dec_le}
use native.Mathlib.Nat.{zero-add}
use pttarticle_recommander.Common.{
  ℕ, zero, suc, ◌+◌, ◌-◌, ◌≤◌, ◌<◌, ◌≡◌, ◌≢◌, ◌⊎◌, refl, sym, ap, subst, ◌∙◌, [], ◌∷◌, ◌++◌, length,
  append_assoc, append-nil, append_split, length-append, arith, leb, le→leb, inl, inr, false,
}
use pttarticle_recommander.Common.Results.{
  Error, Result, ok, err, os_error, proxy_client_error, out_of_fuel,
}
use pttarticle_recommander.Common.Exec.{continue_with}
use pttarticle_recommander.Protocol.Bytes.{Bytes}
use pttarticle_recommander.Protocol.Net.PackageHeader
use pttarticle_recommander.Protocol.Net.PackageHeader.{
  PackageHeader, byte_size, length-dump, header_load-dump,
}
use pttarticle_recommander.AppServer.ProxyClient.{
  Socket, received, recv_some, recv_loop, recv_all, recv_header,
}

-- A chunk that `recv` may return when bytes are pending: some of them, at most as many as asked for.
pub record Chunk {W : Type 0} (sock : Socket W) (pending : W → Bytes) (n : ℕ) (w : W) : Type 0 where
  pub first : ℕ
  pub others : Bytes
  pub after : W
  pub returned : sock.recv n w ≡ (ok (first ∷ others), after)
  pub fits : length (first ∷ others) ≤ n
  pub taken : pending w ≡ (first ∷ others) ++ pending after

-- The network keeps the bytes that were sent and not yet received, in their order.
pub record IsStream {W : Type 0} (sock : Socket W) (pending : W → Bytes) : Type 0 where
  pub chunk : (n : ℕ) (w : W) → 0 < n → 0 < length (pending w) → Chunk sock pending n w

-- What a round of `recv_all` comes to: a chunk with the state as it is, or an exception.
abbrev Received : {W : Type 0} → Result Bytes × W → Type 0
Received p =
    ((x : ℕ) × (a : Bytes) × (p.0 ≡ ok (x ∷ a))) ⊎ ((e : Error) × (p.0 ≡ err e) × (e ≢ out_of_fuel))

received-Received :
    {W : Type 0} (r : Result Bytes) (w : W) → r ≢ err out_of_fuel → Received (received r w)
received-Received (ok []) w h = inr (proxy_client_error, refl, λ e. cc)
received-Received (ok (x ∷ a)) w h = inl (x, a, refl)
received-Received (err os_error) w h = inr (proxy_client_error, refl, λ e. cc)
received-Received (err out_of_fuel) w h = absurd (h refl)
received-Received (err e) w h = inr (_, refl, λ e. cc)

module _ {W : Type 0} (sock : Socket W) where
  recv_loop_done :
      (fuel sz : ℕ) (buf : Bytes) (w : W)
      → sz ≤ length buf
      → recv_loop sock fuel sz buf w ≡ (ok buf, w)
  unfolding recv_loop
  recv_loop_done zero sz buf w h = rw (le→leb sz (length buf) h)
  recv_loop_done (suc fuel) sz buf w h = rw (le→leb sz (length buf) h)

  recv_loop_step :
      (fuel sz : ℕ) (buf : Bytes) (w : W)
      → length buf < sz
      → recv_loop sock (suc fuel) sz buf w
        ≡ continue_with
            (recv_some sock (sz - length buf) w).0
            (λ a. recv_loop sock fuel sz (buf ++ a))
            (recv_some sock (sz - length buf) w).1
  unfolding recv_loop
  recv_loop_step fuel sz buf w h = let e : leb sz (length buf) ≡ false = ground arith in rw e

  recv_loop_round :
      (fuel sz n : ℕ) (buf u out : Bytes) (w v w' : W)
      → n ≡ sz - length buf
      → length buf < sz
      → recv_some sock n w ≡ (ok u, v)
      → recv_loop sock fuel sz (buf ++ u) v ≡ (ok out, w')
      → recv_loop sock (suc fuel) sz buf w ≡ (ok out, w')
  recv_loop_round fuel sz n buf u out w v w' k h p q =
      recv_loop_step fuel sz buf w h ∙ rw (subst (λ j. recv_some sock j w ≡ (ok u, v)) k p) q

  recv_some-Received :
      (n : ℕ) (w : W) → (sock.recv n w).0 ≢ err out_of_fuel → Received (recv_some sock n w)
  unfolding recv_some
  recv_some-Received n w h = received-Received (sock.recv n w).0 (sock.recv n w).1 h

  recv_loop_ends :
      (fuel sz : ℕ) (buf : Bytes) (w : W)
      → ((n : ℕ) (v : W) → (sock.recv n v).0 ≢ err out_of_fuel)
      → sz ≤ fuel + length buf
      → (recv_loop sock fuel sz buf w).0 ≢ err out_of_fuel
  recv_loop_ends zero sz buf w h k = rw (recv_loop_done zero sz buf w (omega arith)) (λ e. cc)
  recv_loop_ends (suc fuel) sz buf w h k = elim (dec_le sz (length buf)) [
    | yes d ↦ rw (recv_loop_done (suc fuel) sz buf w d) (λ e. cc)
    | no d ↦
        rw (recv_loop_step fuel sz buf w (omega arith))
          (elim (recv_some-Received (sz - length buf) w (h (sz - length buf) w)) [
            | inl (x, a, p) ↦ rw p (
                recv_loop_ends fuel sz (buf ++ x ∷ a) _ h
                  (omega (arith, length-append buf (x ∷ a))))
            | inr (e, p, q) ↦ rw p (λ d. q (ground arith))
          ])
  ]

  -- If `recv` itself ends, `recv_all` returns or raises for every size, whatever the peer sends.
  pub recv_all_ends :
      (sz : ℕ) (w : W)
      → ((n : ℕ) (v : W) → (sock.recv n v).0 ≢ err out_of_fuel)
      → (recv_all sock sz w).0 ≢ err out_of_fuel
  unfolding recv_all
  recv_all_ends sz w h = recv_loop_ends sz sz [] w h (omega arith)

module _ {W : Type 0} {sock : Socket W} {pending : W → Bytes} (stream : IsStream sock pending) where
  recv_some-Chunk :
      (n : ℕ) (w : W) (c : Chunk sock pending n w)
      → recv_some sock n w ≡ (ok (c.first ∷ c.others), c.after)
  unfolding recv_some
  recv_some-Chunk n w c = rw c.returned

  -- What the loop returns when the stream holds enough: the bytes so far and the next of the stream.
  recv_loop-stream :
      (fuel : ℕ) (buf more rest : Bytes) (w : W)
      → length more ≤ fuel
      → pending w ≡ more ++ rest
      → (w' : W) × (recv_loop sock fuel (length buf + length more) buf w ≡ (ok (buf ++ more), w'))
        × (pending w' ≡ rest)
  recv_loop-stream fuel buf [] rest w k p =
      (w, recv_loop_done sock fuel (length buf + 0) buf w (omega arith) ∙ rw (append-nil buf), p)
  recv_loop-stream zero buf (x ∷ more) rest w k p = absurd (omega arith)
  recv_loop-stream (suc fuel) buf (x ∷ more) rest w k p =
      let n : ℕ = length (x ∷ more) in
      let c = stream.chunk n w (omega arith) (rw p (omega arith)) in
      let u : Bytes = c.first ∷ c.others in
      let (m, e, q) = append_split u (pending c.after) (x ∷ more) rest c.fits (sym c.taken ∙ p) in
      let size : n ≡ length u + length m = ap length e ∙ length-append u m in
      let (w', r, s) = recv_loop-stream fuel (buf ++ u) m rest c.after (omega arith) q in
      let total : length (buf ++ u) + length m ≡ length buf + n =
        omega (arith, length-append buf u) in
      let joined : (buf ++ u) ++ m ≡ buf ++ (x ∷ more) =
        append_assoc buf u m ∙ ap (λ z. buf ++ z) (sym e) in
      let next : recv_loop sock fuel (length buf + n) (buf ++ u) c.after
          ≡ (ok (buf ++ x ∷ more), w') =
        subst (λ k. recv_loop sock fuel k (buf ++ u) c.after ≡ (ok (buf ++ x ∷ more), w')) total
          (r ∙ ap (λ z. (ok z, w')) joined) in
      (
        w',
        recv_loop_round sock fuel (length buf + n) n buf u (buf ++ x ∷ more) w c.after w'
            (omega arith) (omega arith) (recv_some-Chunk n w c) next,
        s,
      )

  -- On a stream that holds `sz` bytes or more, `recv_all` returns exactly the next `sz` and
  -- leaves the rest, whatever the chunks in which they arrive.
  pub recv_all-stream :
      (front rest : Bytes) (w : W)
      → pending w ≡ front ++ rest
      → (w' : W) × (recv_all sock (length front) w ≡ (ok front, w')) × (pending w' ≡ rest)
  unfolding recv_all
  recv_all-stream front rest w p =
      rw zero-add at (recv_loop-stream (length front) [] front rest w (omega arith) p)

  recv_all-sized :
      (n : ℕ) (front rest : Bytes) (w : W)
      → n ≡ length front
      → pending w ≡ front ++ rest
      → (w' : W) × (recv_all sock n w ≡ (ok front, w')) × (pending w' ≡ rest)
  recv_all-sized n front rest w e p = rw e (recv_all-stream front rest w p)

  -- The header that a peer dumped into the stream is the one that `recv_header` returns, and the
  -- bytes behind it stay in the stream.
  pub recv_header-stream :
      (h : PackageHeader) (front rest : Bytes) (w : W)
      → PackageHeader.dump h ≡ ok front
      → pending w ≡ front ++ rest
      → (w' : W) × (recv_header sock w ≡ (ok h, w')) × (pending w' ≡ rest)
  unfolding recv_header
  recv_header-stream h front rest w d p =
      let (w', r, s) = recv_all-sized byte_size front rest w (sym (length-dump h front d)) p in
      (w', rw (r, header_load-dump h front front [] 0 d (sym (append-nil front))), s)
