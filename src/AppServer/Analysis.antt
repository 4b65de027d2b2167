-- ===== src/AppServer/Analysis.antt =====
-- `_ArticleAnalysisProxy` and `ArticleAnalysis` of src/app_server/modules/article_analysis.py.
pub mod Answers
use pttarticle_recommander.Common.{
  ℕ, ◌+◌, ◌/◌, List, [], ◌∷◌, ◌++◌, length, drop, ltb, Option, none, some, text_eq, ◌&&◌,
  if◌then◌else◌,
}
use pttarticle_recommander.Common.Int.{eqb_ℤ}
use pttarticle_recommander.Common.Results.{Result, ok, err, analysis_error}
use pttarticle_recommander.Common.Exec.{Exec, lift, ◌>>=◌, ◌>>◌}
use pttarticle_recommander.Protocol.Codec.{Unpacker}
use pttarticle_recommander.Protocol.PackageType.{query_doc_rel_info, reply_doc_rel_info}
use pttarticle_recommander.Protocol.Types.DocIdentity
use pttarticle_recommander.Protocol.Types.DocIdentity.{DocIdentity}
use pttarticle_recommander.Protocol.Types.DocRelInfo
use pttarticle_recommander.Protocol.Types.DocRelInfo.{DocRelInfo}
use pttarticle_recommander.AppServer.ProxyClient.{Socket, send_pkg}
use pttarticle_recommander.AppServer.MinerProxy.{receive}

module _ {W : Type 0} (sock : Socket W) where
  module _ {A : Type 0} where
    unfoldable pub recv_and_unpack : ℕ → Unpacker A → Exec W A
    recv_and_unpack = receive sock analysis_error analysis_error

  unfoldable pub proxy_get_doc_rel_info : DocIdentity → Exec W DocRelInfo
  proxy_get_doc_rel_info identity = do
    buf ← lift (DocIdentity.dump identity)
    send_pkg sock query_doc_rel_info buf
    recv_and_unpack reply_doc_rel_info DocRelInfo.load

abbrev pub Entry : Type 0
Entry = DocIdentity × DocRelInfo

-- The object, and the world that its proxy talks to.
pub record Analysis (W : Type 0) : Type 0 where
  pub cache : List Entry
  pub world : W

-- The first entry of the cache that the loop returns at.
unfoldable pub cached_rel_info : DocIdentity → List Entry → Option DocRelInfo
cached_rel_info identity [] = none
cached_rel_info identity ((c_identity, c_doc_rel_info) ∷ rest) =
    if text_eq identity.board c_identity.board && eqb_ℤ identity.idid c_identity.idid
    then some c_doc_rel_info
    else cached_rel_info identity rest

unfoldable pub ensure_cached_size_acceptable : ℕ → List Entry → List Entry
ensure_cached_size_acceptable max_cached_size cache =
    if ltb max_cached_size (length cache) then drop ((max_cached_size + 1) / 2) cache else cache

module _ {W : Type 0} (query : DocIdentity → Exec W DocRelInfo) (max_cached_size : ℕ) where
  -- What follows the query of the proxy.
  unfoldable pub keep_rel_info :
      DocIdentity → List Entry → Result DocRelInfo × W → Result DocRelInfo × Analysis W
  keep_rel_info identity cache (ok doc_rel_info, w) = (
    ok doc_rel_info,
    record {
      cache =
          ensure_cached_size_acceptable max_cached_size (cache ++ (identity, doc_rel_info) ∷ []);
      world = w;
    },
  )
  keep_rel_info identity cache (err e, w) = (err e, record { cache = cache; world = w })

  unfoldable pub get_doc_rel_info : DocIdentity → Exec (Analysis W) DocRelInfo
  get_doc_rel_info identity a = elim (cached_rel_info identity a.cache) [
    | some doc_rel_info ↦ (ok doc_rel_info, a)
    | none ↦ keep_rel_info identity a.cache (query identity a.world)
  ]
