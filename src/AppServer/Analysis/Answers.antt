-- ===== src/AppServer/Analysis/Answers.antt =====
-- What `ArticleAnalysis` of src/app_server/modules/article_analysis.py answers.
use pttarticle_recommander.Common.{
  ℕ, ◌+◌, ◌/◌, ◌≡◌, ◌≢◌, refl, sym, ap, ◌∙◌, List, [], ◌∷◌, ◌++◌, length, All, All-append, All-drop,
  none, some, ltb, arith, text_eq, text_eq→eq, ◌&&◌, ◌==◌, Option-cases, Bool-cases, inl, inr,
  false,
}
use pttarticle_recommander.Common.Int.{eqb_ℤ, eqb_ℤ→eq}
use pttarticle_recommander.Common.Results.{Error, ok, err, analysis_error}
use pttarticle_recommander.Common.Exec.{Exec}
use pttarticle_recommander.Protocol.Bytes.{Bytes}
use pttarticle_recommander.Protocol.Codec.{Unpacker}
use pttarticle_recommander.Protocol.PackageType.{query_doc_rel_info, reply_doc_rel_info}
use pttarticle_recommander.Protocol.Net.PackageHeader
use pttarticle_recommander.Protocol.Net.PackageHeader.{PackageHeader}
use pttarticle_recommander.Protocol.Types.DocIdentity
use pttarticle_recommander.Protocol.Types.DocIdentity.{DocIdentity}
use pttarticle_recommander.Protocol.Types.DocRelInfo
use pttarticle_recommander.Protocol.Types.DocRelInfo.{DocRelInfo, DocRelInfo-RoundTrips}
use pttarticle_recommander.AppServer.ProxyClient.{Socket}
use pttarticle_recommander.AppServer.ProxyClient.Stream.{IsStream, recv_header-stream}
use pttarticle_recommander.AppServer.MinerProxy.{receive}
use pttarticle_recommander.AppServer.MinerProxy.RoundTrip.{send_pkg_first, receive-stream}
use pttarticle_recommander.AppServer.Analysis.{
  recv_and_unpack, proxy_get_doc_rel_info, Entry, Analysis, cached_rel_info,
  ensure_cached_size_acceptable, keep_rel_info, get_doc_rel_info,
}

module _ {W : Type 0} {sock : Socket W} {pending : W → Bytes} (stream : IsStream sock pending) where
  -- If the query is sent and a dumped package of the type of the reply is in the stream, the proxy
  -- of the analyst returns the content of that package and takes no byte behind it.
  pub rel_info_reply :
      (d : DocIdentity) (info : DocRelInfo) (buf h out rh rest : Bytes) (w v : W)
      → DocIdentity.dump d ≡ ok buf
      → PackageHeader.dump (record { typee = query_doc_rel_info; size = length buf }) ≡ ok h
      → sock.sendall (h ++ buf) w ≡ (ok tt, v)
      → DocRelInfo.dump info ≡ ok out
      → PackageHeader.dump (record { typee = reply_doc_rel_info; size = length out }) ≡ ok rh
      → pending v ≡ rh ++ (out ++ rest)
      → (w' : W) × (proxy_get_doc_rel_info sock d w ≡ (ok info, w')) × (pending w' ≡ rest)
  unfolding proxy_get_doc_rel_info recv_and_unpack
  rel_info_reply d info buf h out rh rest w v p hp sent q rhp replied =
      let (w', e, s) =
        receive-stream stream DocRelInfo-RoundTrips analysis_error analysis_error reply_doc_rel_info
          info out rh rest v q rhp replied in
      (w', rw (p, send_pkg_first sock query_doc_rel_info buf h w v hp sent) e, s)

  module _ {A : Type 0} where
    -- A package of another type than the one that is waited for raises the proxy's own error, and
    -- its content stays in the stream.
    pub other_type_refused :
        (wrong_type wrong_format : Error) (typee : ℕ) (unpack : Unpacker A) (header : PackageHeader)
        (h rest : Bytes) (w : W)
        → PackageHeader.dump header ≡ ok h
        → pending w ≡ h ++ rest
        → header.typee ≢ typee
        → (w' : W) × (receive sock wrong_type wrong_format typee unpack w ≡ (err wrong_type, w'))
          × (pending w' ≡ rest)
    unfolding receive
    other_type_refused wrong_type wrong_format typee unpack header h rest w p s ne =
        let (w', r, s') = recv_header-stream stream header h rest w p s in
        let e : (header.typee == typee) ≡ false = ground arith in (w', rw (r, e), s')

module _ {W : Type 0} (query : DocIdentity → Exec W DocRelInfo) (max : ℕ) where
  hit :
      (d : DocIdentity) (info : DocRelInfo) (a : Analysis W)
      → cached_rel_info d a.cache ≡ some info
      → get_doc_rel_info query max d a ≡ (ok info, a)
  unfolding get_doc_rel_info
  hit d info a h = rw (h, get_doc_rel_info)

  miss :
      (d : DocIdentity) (info : DocRelInfo) (a : Analysis W)
      → cached_rel_info d a.cache ≡ none
      → (query d a.world).0 ≡ ok info
      → get_doc_rel_info query max d a ≡ (
        ok info,
        record {
          cache = ensure_cached_size_acceptable max (a.cache ++ (d, info) ∷ []);
          world = (query d a.world).1;
        },
      )
  unfolding get_doc_rel_info keep_rel_info
  miss d info a h p = rw (h, get_doc_rel_info) (rw (p, keep_rel_info))

-- The server behind the query answers by a function of the identity.
pub record IsAnalyst {W : Type 0} (query : DocIdentity → Exec W DocRelInfo)
    (info_of : DocIdentity → DocRelInfo) : Type 0 where
  pub answer : (d : DocIdentity) (w : W) → (query d w).0 ≡ ok (info_of d)

module _ (info_of : DocIdentity → DocRelInfo) where
  abbrev IsCoherentEntry : Entry → Type 0
  IsCoherentEntry p = p.1 ≡ info_of p.0

  abbrev pub IsCoherent : {W : Type 0} → Analysis W → Type 0
  IsCoherent a = All IsCoherentEntry a.cache

  cached-coherent :
      (d : DocIdentity) (cache : List Entry) (info : DocRelInfo)
      → All IsCoherentEntry cache
      → cached_rel_info d cache ≡ some info
      → info ≡ info_of d
  unfolding cached_rel_info
  cached-coherent d [] info h p = cc
  cached-coherent d ((c, i) ∷ rest) info h p =
      elim (Bool-cases (text_eq d.board c.board && eqb_ℤ d.idid c.idid)) [
        | inl same ↦
            let e : d ≡ c = ground (arith, text_eq→eq d.board c.board, eqb_ℤ→eq d.idid c.idid) in
            let v : i ≡ info = ground (arith, same) in sym v ∙ h.0 ∙ ap info_of (sym e)
        | inr other ↦ cached-coherent d rest info h.1 (ground (arith, other))
      ]

  ensure-coherent :
      (max : ℕ) (cache : List Entry) (d : DocIdentity)
      → All IsCoherentEntry cache
      → All IsCoherentEntry (ensure_cached_size_acceptable max (cache ++ (d, info_of d) ∷ []))
  unfolding ensure_cached_size_acceptable
  ensure-coherent max cache d h =
      let longer = All-append IsCoherentEntry cache ((d, info_of d) ∷ []) h (refl, tt) in
      elim (Bool-cases (ltb max (length (cache ++ (d, info_of d) ∷ [])))) [
        | inl full ↦ rw full (All-drop IsCoherentEntry ((max + 1) / 2) _ longer)
        | inr room ↦ rw room longer
      ]

module _ {W : Type 0} (query : DocIdentity → Exec W DocRelInfo)
    (info_of : DocIdentity → DocRelInfo) where
  -- Over a server that answers by a function of the identity, and from a coherent cache of any
  -- size, the answer of `ArticleAnalysis` about a document is that of the function, and the
  -- cache stays coherent.
  pub rel_info_answer_lem :
      (max : ℕ) (d : DocIdentity) (a : Analysis W)
      → IsAnalyst query info_of
      → IsCoherent info_of a
      → ((get_doc_rel_info query max d a).0 ≡ ok (info_of d))
        × IsCoherent info_of (get_doc_rel_info query max d a).1
  rel_info_answer_lem max d a given h = elim (Option-cases (cached_rel_info d a.cache)) [
    | inl missing ↦
        let e = miss query max d (info_of d) a missing (given.answer d a.world) in
        rw e (refl, ensure-coherent info_of max a.cache d h)
    | inr (info, found) ↦
        rw (hit query max d info a found)
          (ap ok (cached-coherent info_of d a.cache info h found), h)
  ]
