-- ===== src/L2Miner/Lookup/Urls.antt =====
-- `get_id_by_url` of `Cache` in src/miner/modules/l2_miner/cache.py.
use pttarticle_recommander.Common.{
  ℕ, ◌<◌, ◌≡◌, ◌⊎◌, refl, sym, ap, subst, ◌∙◌, none, some, Option-cases, Text, inl, inr,
}
use pttarticle_recommander.Common.Int.{ℤ, negsuc}
use pttarticle_recommander.Common.Dict
use pttarticle_recommander.Common.Results.{Error, Result, ok, err}
use pttarticle_recommander.L2Miner.Document.{ADocument}
use pttarticle_recommander.L2Miner.Cache.{Cache, cache_doc_if_ok}
use pttarticle_recommander.L2Miner.Cache.Room.{IsValid}
use pttarticle_recommander.L2Miner.Cache.Keep.{cache_doc-IsValid}
use pttarticle_recommander.L2Miner.Cache.Owned.{IsOwned, cache_doc-Keeps}
use pttarticle_recommander.L2Miner.Lookup.{
  Storing, Mirror, known_id, identify_fetched, identify_if_unknown, get_id_by_url,
}
use pttarticle_recommander.L2Miner.Lookup.Answers.{IsDocument}

-- What asking a storage for a url may come to: nothing, the board's document of the url, or an
-- exception. The storage stays as it should be.
pub data Found {S : Type 0} (storage : Storing S) (owner : Text → ℤ) (Good : S → Type 0)
    (url : Text) (s : S) : Type 0 where
  nothing :
      (s' : S)
      → storage.get_doc_by_url url s ≡ (ok none, s')
      → Good s'
      → Found storage owner Good url s
  document :
      (doc : ADocument) (s' : S)
      → storage.get_doc_by_url url s ≡ (ok (some doc), s')
      → Good s'
      → IsDocument owner (owner url) doc
      → Found storage owner Good url s
  fails :
      (e : Error) (s' : S)
      → storage.get_doc_by_url url s ≡ (err e, s')
      → Good s'
      → Found storage owner Good url s

pub record IsFinding {S : Type 0} (storage : Storing S) (owner : Text → ℤ) (Good : S → Type 0)
    : Type 0 where
  pub found : (url : Text) (s : S) → Good s → Found storage owner Good url s

module _ {S : Type 0} (storage : Storing S) (owner : Text → ℤ) (cache_size : ℕ)
    (Good : S → Type 0) where
  -- The answer about a url: its identity, -1 if the storage finds nothing, or what the storage raises.
  abbrev pub Answers : Text → S → Result ℤ → Type 0
  Answers url s (ok idid) =
      (idid ≡ owner url) ⊎ ((idid ≡ negsuc 0) × ((storage.get_doc_by_url url s).0 ≡ ok none))
  Answers url s (err e) = (storage.get_doc_by_url url s).0 ≡ err e

  -- What looking up a url comes to.
  pub record Identified (url : Text) (m : Mirror S) (r : Result ℤ) (m' : Mirror S) : Type 0 where
    pub ran : get_id_by_url storage cache_size url m ≡ (r, m')
    pub right : Answers url m.stored r
    pub valid : IsValid owner cache_size m'.cache
    pub owned : IsOwned owner m'.cache
    pub good : Good m'.stored

  known :
      (url : Text) (idid : ℤ) (m : Mirror S)
      → Dict.lookup url m.cache.url_to_id ≡ some idid
      → get_id_by_url storage cache_size url m ≡ (ok idid, m)
  unfolding get_id_by_url known_id identify_if_unknown
  known url idid m e = rw (e, identify_if_unknown) refl

  unknown :
      (url : Text) (m : Mirror S) (s : S)
      → Dict.lookup url m.cache.url_to_id ≡ none
      → storage.get_doc_by_url url m.stored ≡ (ok none, s)
      → get_id_by_url storage cache_size url m ≡ (ok (negsuc 0), record m { stored = s })
  unfolding get_id_by_url known_id identify_if_unknown identify_fetched
  unknown url m s e p = rw (e, identify_if_unknown) (rw (p, identify_fetched) refl)

  failed :
      (url : Text) (e : Error) (m : Mirror S) (s : S)
      → Dict.lookup url m.cache.url_to_id ≡ none
      → storage.get_doc_by_url url m.stored ≡ (err e, s)
      → get_id_by_url storage cache_size url m ≡ (err e, record m { stored = s })
  unfolding get_id_by_url known_id identify_if_unknown
  failed url e m s u p = rw (u, identify_if_unknown) (rw p refl)

  fetched :
      (url : Text) (idid : ℤ) (doc : ADocument) (m : Mirror S) (s : S) (c : Cache)
      → Dict.lookup url m.cache.url_to_id ≡ none
      → storage.get_doc_by_url url m.stored ≡ (ok (some doc), s)
      → cache_doc_if_ok cache_size doc m.cache ≡ (ok tt, c)
      → doc.meta_data.idid ≡ some idid
      → get_id_by_url storage cache_size url m ≡ (ok idid, record { cache = c; stored = s })
  unfolding get_id_by_url known_id identify_if_unknown identify_fetched
  fetched url idid doc m s c e p q i =
      rw (e, identify_if_unknown) (rw (p, identify_fetched) (rw (q, i) refl))

  -- The url is not in the dictionary.
  identify-Identified :
      (url : Text) (m : Mirror S)
      → 0 < cache_size
      → IsValid owner cache_size m.cache
      → IsOwned owner m.cache
      → Dict.lookup url m.cache.url_to_id ≡ none
      → Found storage owner Good url m.stored
      → (r : Result ℤ) × (m' : Mirror S) × Identified url m r m'
  identify-Identified url m h v o e (nothing s p g) = (
    ok (negsuc 0),
    record m { stored = s },
    record {
      ran = unknown url m s e p;
      right = inr (refl, ap (λ t. t.0) p);
      valid = v;
      owned = o;
      good = g;
    },
  )
  identify-Identified url m h v o e (fails x s p g) = (
    err x,
    record m { stored = s },
    record { ran = failed url x m s e p; right = ap (λ t. t.0) p; valid = v; owned = o; good = g },
  )
  identify-Identified url m h v o e (document doc s p g is) =
      let (c, q, valid) =
        cache_doc-IsValid owner cache_size (owner url) doc m.cache h v is.known is.owned in
      let kept =
        cache_doc-Keeps owner cache_size doc
          (λ k i. let same : owner url ≡ k = cc (is.known, i) in is.owned ∙ same) m.cache o in
      (
        ok (owner url),
        record { cache = c; stored = s },
        record {
          ran = fetched url (owner url) doc m s c e p q is.known;
          right = inl refl;
          valid = valid;
          owned = subst (λ t. IsOwned owner t) (ap (λ t. t.1) q) kept;
          good = g;
        },
      )

  -- On a cache in a good state (valid, and each url in its dictionary with the identity that
  -- the board gives to it) of a size above zero, over a storage that finds nothing, the board's
  -- document of the url, or raises, `get_id_by_url` keeps the state good, and either returns
  -- the url's identity, or -1 where the storage finds nothing for the url, or raises what the
  -- storage raises for it.
  pub get_id_by_url-Identified :
      IsFinding storage owner Good
      → (url : Text) (m : Mirror S) → 0 < cache_size
      → IsValid owner cache_size m.cache
      → IsOwned owner m.cache
      → Good m.stored
      → (r : Result ℤ) × (m' : Mirror S) × Identified url m r m'
  get_id_by_url-Identified given url m h v o g =
      elim (Option-cases (Dict.lookup url m.cache.url_to_id)) [
        | inr (idid, e) ↦ (
          ok idid,
          m,
          record {
            ran = known url idid m e;
            right = inl (sym (o.owns url idid e));
            valid = v;
            owned = o;
            good = g;
          },
        )
        | inl e ↦ identify-Identified url m h v o e (given.found url m.stored g)
      ]
