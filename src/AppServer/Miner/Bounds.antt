-- ===== src/AppServer/Miner/Bounds.antt =====
-- The size of the cache.
use pttarticle_recommander.Common.{
  ℕ, ◌+◌, ◌/◌, ◌≤◌, ◌<◌, ◌≡◌, List, [], ◌∷◌, ◌++◌, length, length-append, length-drop, none, arith,
  Text,
}
use pttarticle_recommander.Common.Results.{Result, ok, err}
use pttarticle_recommander.Protocol.Types.DocIdentity.{DocIdentity}
use pttarticle_recommander.AppServer.Miner.{
  Remote, Entry, Miner, cached_identity, add_to_cache, ensure_cached_size_acceptable, keep_url,
  keep_identity, get_url_by_doc_identity, get_doc_identity_by_url,
}

module _ {A : Type 0} where
  -- One entry more than the bound allows is brought back under the bound, if that is not zero.
  pub ensure-le :
      (max : ℕ) (cache : List A) (x : A)
      → 0 < max
      → length cache ≤ max
      → length (ensure_cached_size_acceptable max (cache ++ x ∷ [])) ≤ max
  unfolding ensure_cached_size_acceptable
  ensure-le max cache x h k =
      ground (arith, length-append cache (x ∷ []), length-drop ((max + 1) / 2) (cache ++ x ∷ []))

  -- With a bound of zero nothing is ever removed.
  pub ensure_zero : (cache : List A) → ensure_cached_size_acceptable 0 cache ≡ cache
  unfolding ensure_cached_size_acceptable
  ensure_zero cache = ground arith

module _ {W : Type 0} (remote : Remote W) where
  keep_url-le :
      (max : ℕ) (d : DocIdentity) (cache : List Entry) (r : Result Text) (w : W)
      → 0 < max
      → length cache ≤ max
      → length (keep_url remote max d cache (r, w)).1.cache ≤ max
  unfolding keep_url add_to_cache
  keep_url-le max d cache (ok url) w h k = ensure-le max cache (url, d) h k
  keep_url-le max d cache (err e) w h k = k

  keep_identity-le :
      (max : ℕ) (url : Text) (cache : List Entry) (r : Result DocIdentity) (w : W)
      → 0 < max
      → length cache ≤ max
      → length (keep_identity remote max url cache (r, w)).1.cache ≤ max
  unfolding keep_identity add_to_cache
  keep_identity-le max url cache (ok d) w h k = ensure-le max cache (url, d) h k
  keep_identity-le max url cache (err e) w h k = k

  -- With a bound above zero, neither query of the miner makes its cache longer than the bound,
  -- whatever the proxy answers or raises.
  pub queries-le :
      (max : ℕ) (d : DocIdentity) (url : Text) (m : Miner W)
      → 0 < max
      → length m.cache ≤ max
      → (length (get_url_by_doc_identity remote max d m).1.cache ≤ max)
        × (length (get_doc_identity_by_url remote max url m).1.cache ≤ max)
  unfolding get_url_by_doc_identity get_doc_identity_by_url
  queries-le max d url m h k =
      let (r, w) = remote.get_url_by_doc_identity d m.world in
      let (r', w') = remote.get_doc_identity_by_url url m.world in
      (
        ground (arith, keep_url-le max d m.cache r w),
        ground (arith, keep_identity-le max url m.cache r' w'),
      )

  -- With a bound of zero, each url that is not cached and that the proxy answers makes the cache
  -- one entry longer: nothing is removed.
  pub zero_bound_grows :
      (url : Text) (d : DocIdentity) (m : Miner W) (w : W)
      → cached_identity url m.cache ≡ none
      → remote.get_doc_identity_by_url url m.world ≡ (ok d, w)
      → length (get_doc_identity_by_url remote 0 url m).1.cache ≡ length m.cache + 1
  unfolding get_doc_identity_by_url keep_identity add_to_cache
  zero_bound_grows url d m w h p =
      ground (arith, ensure_zero (m.cache ++ (url, d) ∷ []), length-append m.cache ((url, d) ∷ []))
