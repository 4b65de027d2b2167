-- ===== src/AppServer/Miner.antt =====
-- `Miner` of src/app_server/modules/miner.py: the mapping between urls and identities, with a cache
-- over the proxy. The constructor's `max_cached_size` is an argument of the methods.
pub mod Bounds
pub mod Coherence
use pttarticle_recommander.Common.{
  ℕ, ◌+◌, ◌/◌, List, [], ◌∷◌, ◌++◌, length, drop, ltb, Option, none, some, Text, text_eq, Bool,
  ◌&&◌, if◌then◌else◌,
}
use pttarticle_recommander.Common.Int.{eqb_ℤ}
use pttarticle_recommander.Common.Results.{Result, ok, err}
use pttarticle_recommander.Common.Exec.{Exec}
use pttarticle_recommander.Protocol.Types.DocIdentity.{DocIdentity}
use pttarticle_recommander.AppServer.ProxyClient.{Socket}
use pttarticle_recommander.AppServer.MinerProxy

-- The two queries that the proxy offers.
pub record Remote (W : Type 0) : Type 0 where
  pub get_url_by_doc_identity : DocIdentity → Exec W Text
  pub get_doc_identity_by_url : Text → Exec W DocIdentity

-- `_MinerProxy` is such a proxy.
abbrev pub proxy : {W : Type 0} → Socket W → Remote W
proxy sock = record {
  get_url_by_doc_identity = MinerProxy.get_url_by_doc_identity sock;
  get_doc_identity_by_url = MinerProxy.get_doc_identity_by_url sock;
}

abbrev pub Entry : Type 0
Entry = Text × DocIdentity

-- The object, and the world that its proxy talks to.
pub record Miner (W : Type 0) : Type 0 where
  pub cache : List Entry
  pub world : W

-- `identity.board == c_identity.board and identity.idid == c_identity.idid`
unfoldable pub same_identity : DocIdentity → DocIdentity → Bool
same_identity d e = text_eq d.board e.board && eqb_ℤ d.idid e.idid

-- The first entry of the cache that the loop returns at.
unfoldable pub cached_url : DocIdentity → List Entry → Option Text
cached_url identity [] = none
cached_url identity ((c_url, c_identity) ∷ rest) =
    if same_identity identity c_identity then some c_url else cached_url identity rest

unfoldable pub cached_identity : Text → List Entry → Option DocIdentity
cached_identity url [] = none
cached_identity url ((c_url, c_identity) ∷ rest) =
    if text_eq url c_url then some c_identity else cached_identity url rest

unfoldable pub add_to_cache : Text → DocIdentity → List Entry → List Entry
add_to_cache url identity cache = cache ++ (url, identity) ∷ []

module _ {A : Type 0} where
  -- `del self._cache[ : int((max + 1) / 2)]`, where the half is rounded down.
  unfoldable pub ensure_cached_size_acceptable : ℕ → List A → List A
  ensure_cached_size_acceptable max_cached_size cache =
      if ltb max_cached_size (length cache) then drop ((max_cached_size + 1) / 2) cache else cache

module _ {W : Type 0} (remote : Remote W) (max_cached_size : ℕ) where
  -- What follows the query of the proxy: on a return the answer is cached, on a raise nothing is.
  unfoldable pub keep_url : DocIdentity → List Entry → Result Text × W → Result Text × Miner W
  keep_url identity cache (ok url, w) = (
    ok url,
    record {
      cache = ensure_cached_size_acceptable max_cached_size (add_to_cache url identity cache);
      world = w;
    },
  )
  keep_url identity cache (err e, w) = (err e, record { cache = cache; world = w })

  unfoldable pub keep_identity :
      Text → List Entry → Result DocIdentity × W → Result DocIdentity × Miner W
  keep_identity url cache (ok identity, w) = (
    ok identity,
    record {
      cache = ensure_cached_size_acceptable max_cached_size (add_to_cache url identity cache);
      world = w;
    },
  )
  keep_identity url cache (err e, w) = (err e, record { cache = cache; world = w })

  unfoldable pub get_url_by_doc_identity : DocIdentity → Exec (Miner W) Text
  get_url_by_doc_identity identity m = elim (cached_url identity m.cache) [
    | some url ↦ (ok url, m)
    | none ↦ keep_url identity m.cache (remote.get_url_by_doc_identity identity m.world)
  ]

  unfoldable pub get_doc_identity_by_url : Text → Exec (Miner W) DocIdentity
  get_doc_identity_by_url url m = elim (cached_identity url m.cache) [
    | some identity ↦ (ok identity, m)
    | none ↦ keep_identity url m.cache (remote.get_doc_identity_by_url url m.world)
  ]
