-- ===== src/AppServer/MinerProxy/RoundTrip.antt =====
-- A query of the app server, through the miner's delegator and back.
use native.Mathlib.Nat.{zero-add}
use pttarticle_recommander.Common.{
  ℕ, ◌≡◌, refl, sym, ap, subst, ◌∙◌, [], ◌++◌, length, append-nil, Text, ==_iff,
}
use pttarticle_recommander.Common.Results.{Error, ok, miner_error, type_error}
use pttarticle_recommander.Protocol.Bytes.{Bytes}
use pttarticle_recommander.Protocol.Codec.{Packer, Unpacker, RoundTrips}
use pttarticle_recommander.Protocol.PackageType.{
  query_url_by_id, reply_url_by_id, query_id_by_url, reply_id_by_url,
}
use pttarticle_recommander.Protocol.Net.PackageHeader
use pttarticle_recommander.Protocol.Net.PackageHeader.{PackageHeader}
use pttarticle_recommander.Protocol.Net.StringStruct
use pttarticle_recommander.Protocol.Net.StringStruct.{StringStruct-RoundTrips}
use pttarticle_recommander.Protocol.Types.DocIdentity
use pttarticle_recommander.Protocol.Types.DocIdentity.{DocIdentity, DocIdentity-RoundTrips}
use pttarticle_recommander.Server.Backend.{Backend}
use pttarticle_recommander.Server.Delegator.{handle_package}
use pttarticle_recommander.Server.Delegator.Answers.{answer-url_by_id, answer-id_by_url}
use pttarticle_recommander.AppServer.ProxyClient.{Socket, send_once, send_attempts, send_pkg}
use pttarticle_recommander.AppServer.ProxyClient.Stream.{
  IsStream, recv_header-stream, recv_all-stream,
}
use pttarticle_recommander.AppServer.MinerProxy.{
  receive, recv_and_unpack, get_url_by_doc_identity, get_doc_identity_by_url,
}

module _ {W : Type 0} (sock : Socket W) where
  -- The first attempt to send is the last, if the socket takes it.
  pub send_pkg_first :
      (typee : ℕ) (buf h : Bytes) (w v : W)
      → PackageHeader.dump (record { typee = typee; size = length buf }) ≡ ok h
      → sock.sendall (h ++ buf) w ≡ (ok tt, v)
      → send_pkg sock typee buf w ≡ (ok tt, v)
  unfolding send_pkg send_attempts send_once
  send_pkg_first typee buf h w v p q = rw (p, q)

-- The header of a reply, under the equations for its type and content.
same_header :
    {r t : ℕ} {reply out rh : Bytes}
    → r ≡ t
    → reply ≡ out
    → PackageHeader.dump (record { typee = r; size = length reply }) ≡ ok rh
    → PackageHeader.dump (record { typee = t; size = length out }) ≡ ok rh
same_header {r} {out = out} {rh} e f p =
    subst (λ k. PackageHeader.dump (record { typee = k; size = length out }) ≡ ok rh) e
      (subst (λ b. PackageHeader.dump (record { typee = r; size = length b }) ≡ ok rh) f p)

module _ {W : Type 0} {sock : Socket W} {pending : W → Bytes} (stream : IsStream sock pending) where
  module _ {A : Type 0} {pack : Packer A} {unpack : Unpacker A} (law : RoundTrips pack unpack) where
    -- A package that stands in the stream, of the type that is waited for, is unpacked and taken.
    pub receive-stream :
        (wrong_type wrong_format : Error) (typee : ℕ) (x : A) (out h rest : Bytes) (v : W)
        → pack x ≡ ok out
        → PackageHeader.dump (record { typee = typee; size = length out }) ≡ ok h
        → pending v ≡ h ++ (out ++ rest)
        → (w' : W) × (receive sock wrong_type wrong_format typee unpack v ≡ (ok x, w'))
          × (pending w' ≡ rest)
    unfolding receive
    receive-stream wrong_type wrong_format typee x out h rest v p d s =
        let ph : PackageHeader = record { typee = typee; size = length out } in
        let (w₁, r₁, s₁) = recv_header-stream stream ph h (out ++ rest) v d s in
        let (w₂, r₂, s₂) = recv_all-stream stream out rest w₁ s₁ in
        let u : unpack out 0 ≡ ok (x, length out) =
          rw zero-add at (law.at x out out [] 0 p (sym (append-nil out))) in
        (
          w₂,
          rw (r₁, (==_iff typee typee).1 refl, r₂, u, (==_iff (length out) (length out)).1 refl),
          s₂,
        )

  url_reply :
      (d : DocIdentity) (url : Text) (buf h out rh rest : Bytes) (w v : W)
      → DocIdentity.dump d ≡ ok buf
      → PackageHeader.dump (record { typee = query_url_by_id; size = length buf }) ≡ ok h
      → sock.sendall (h ++ buf) w ≡ (ok tt, v)
      → PackageHeader.dump (record { typee = reply_url_by_id; size = length out }) ≡ ok rh
      → pending v ≡ rh ++ (out ++ rest)
      → StringStruct.pack url ≡ ok out
      → (w' : W) × (get_url_by_doc_identity sock d w ≡ (ok url, w')) × (pending w' ≡ rest)
  unfolding get_url_by_doc_identity recv_and_unpack
  url_reply d url buf h out rh rest w v p hp sent rhp replied q =
      let (w', e, s) =
        receive-stream StringStruct-RoundTrips miner_error type_error reply_url_by_id url out rh
          rest v q rhp replied in
      (w', rw (p, send_pkg_first sock query_url_by_id buf h w v hp sent) e, s)

  identity_reply :
      (url : Text) (d : DocIdentity) (buf h out rh rest : Bytes) (w v : W)
      → StringStruct.pack url ≡ ok buf
      → PackageHeader.dump (record { typee = query_id_by_url; size = length buf }) ≡ ok h
      → sock.sendall (h ++ buf) w ≡ (ok tt, v)
      → PackageHeader.dump (record { typee = reply_id_by_url; size = length out }) ≡ ok rh
      → pending v ≡ rh ++ (out ++ rest)
      → DocIdentity.dump d ≡ ok out
      → (w' : W) × (get_doc_identity_by_url sock url w ≡ (ok d, w')) × (pending w' ≡ rest)
  unfolding get_doc_identity_by_url recv_and_unpack
  identity_reply url d buf h out rh rest w v p hp sent rhp replied q =
      let (w', e, s) =
        receive-stream DocIdentity-RoundTrips miner_error type_error reply_id_by_url d out rh rest v
          q rhp replied in
      (w', rw (p, send_pkg_first sock query_id_by_url buf h w v hp sent) e, s)

  module _ {S : Type 0} (backend : Backend S) where
    -- If the socket takes the dumped query for a document's url and the miner's delegator's
    -- answer to it stands in the stream, `get_url_by_doc_identity` returns the url that the
    -- backend returned and leaves the bytes behind the reply in the stream, however the network
    -- cuts it into chunks.
    pub url_by_identity :
        (d : DocIdentity) (url : Text) (buf h out reply : Bytes) (r : ℕ) (rh rest : Bytes) (w v : W)
        (s s' : S)
        → DocIdentity.dump d ≡ ok buf
        → PackageHeader.dump (record { typee = query_url_by_id; size = length buf }) ≡ ok h
        → sock.sendall (h ++ buf) w ≡ (ok tt, v)
        → handle_package backend query_url_by_id buf s ≡ (ok (r, reply), s')
        → PackageHeader.dump (record { typee = r; size = length reply }) ≡ ok rh
        → pending v ≡ rh ++ (reply ++ rest)
        → backend.get_url_by_id d.board d.idid s ≡ (ok url, s')
        → StringStruct.pack url ≡ ok out
        → (w' : W) × (get_url_by_doc_identity sock d w ≡ (ok url, w')) × (pending w' ≡ rest)
    url_by_identity d url buf h out reply r rh rest w v s s' p hp sent served rhp replied asked q =
        let answer = answer-url_by_id backend d buf out url s s' p asked q in
        let type_is : r ≡ reply_url_by_id = cc (served, answer) in
        let reply_is : reply ≡ out = cc (served, answer) in
        url_reply d url buf h out rh rest w v p hp sent (same_header type_is reply_is rhp)
          (replied ∙ ap (λ b. rh ++ (b ++ rest)) reply_is) q

    -- If the socket takes the packed query for a url's identity and the miner's delegator's
    -- answer to it stands in the stream, `get_doc_identity_by_url` returns the identity that
    -- the backend returned and leaves the bytes behind the reply in the stream.
    pub identity_by_url :
        (url : Text) (d : DocIdentity) (buf h out reply : Bytes) (r : ℕ) (rh rest : Bytes) (w v : W)
        (s s' : S)
        → StringStruct.pack url ≡ ok buf
        → PackageHeader.dump (record { typee = query_id_by_url; size = length buf }) ≡ ok h
        → sock.sendall (h ++ buf) w ≡ (ok tt, v)
        → handle_package backend query_id_by_url buf s ≡ (ok (r, reply), s')
        → PackageHeader.dump (record { typee = r; size = length reply }) ≡ ok rh
        → pending v ≡ rh ++ (reply ++ rest)
        → backend.get_id_by_url url s ≡ (ok d, s')
        → DocIdentity.dump d ≡ ok out
        → (w' : W) × (get_doc_identity_by_url sock url w ≡ (ok d, w')) × (pending w' ≡ rest)
    identity_by_url url d buf h out reply r rh rest w v s s' p hp sent served rhp replied asked q =
        let answer = answer-id_by_url backend url buf out d s s' p asked q in
        let type_is : r ≡ reply_id_by_url = cc (served, answer) in
        let reply_is : reply ≡ out = cc (served, answer) in
        identity_reply url d buf h out rh rest w v p hp sent (same_header type_is reply_is rhp)
          (replied ∙ ap (λ b. rh ++ (b ++ rest)) reply_is) q
