-- ===== src/L2Miner/Lookup.antt =====
-- The queries of `Cache` in src/miner/modules/l2_miner/cache.py, over a storage that is a parameter.
-- Each use of the cache's fields is a section under `_cache_lock`; the storage is asked outside of it.
pub mod Answers
pub mod Sweep
pub mod Flush
pub mod Urls
use pttarticle_recommander.Common.{
  ℕ, zero, suc, ◌+◌, List, [], ◌∷◌, Option, none, some, Text, ◌&&◌, if◌then◌else◌,
}
use pttarticle_recommander.Common.Int.{ℤ, pos, negsuc, pos_part, ◌+ℤ◌, ◌-ℤ◌, leb_ℤ, ltb_ℤ}
use pttarticle_recommander.Common.Dict
use pttarticle_recommander.Common.Results.{ok, err, type_error, attribute_error}
use pttarticle_recommander.Common.Exec.{Exec, pure, raise, ◌>>=◌, ◌>>◌}
use pttarticle_recommander.Protocol.Types.DocMetaData.{DocMetaData}
use pttarticle_recommander.Protocol.Types.DocRealData.{DocRealData}
use pttarticle_recommander.L2Miner.Document.{ADocument}
use pttarticle_recommander.L2Miner.Cache.{Cache, entry, clean_cache_entry, cache_doc_if_ok}

-- What the cache calls of `StorageInterface`: a document is `None` when the storage is told to stop or
-- has none of that url; an update returns the least and the greatest identity that it fetched again.
pub record Storing (S : Type 0) : Type 0 where
  pub get_doc_by_id : ℤ → Exec S (Option ADocument)
  pub get_doc_by_url : Text → Exec S (Option ADocument)
  pub update_after_time : ℤ → Exec S (ℤ × ℤ)

-- The cache object, with its storage.
pub record Mirror (S : Type 0) : Type 0 where
  pub cache : Cache
  pub stored : S

module _ {S A : Type 0} where
  abbrev pub on_cache : Exec Cache A → Exec (Mirror S) A
  on_cache f m = let r = f m.cache in (r.0, record m { cache = r.1 })

  abbrev pub on_storage : Exec S A → Exec (Mirror S) A
  on_storage f m = let r = f m.stored in (r.0, record m { stored = r.1 })

-- `if self._min_id <= idid <= self._max_id: doc = self._docs[idid - self._min_id]`
unfoldable pub cached_doc : ℤ → Exec Cache (Option ADocument)
cached_doc idid c =
    if leb_ℤ c.min_id idid && leb_ℤ idid c.max_id
    then entry (pos_part (idid -ℤ c.min_id)) c
    else (ok none, c)

unfoldable pub known_id : Text → Exec Cache (Option ℤ)
known_id url c = (ok (Dict.lookup url c.url_to_id), c)

-- `for idid in range(...): self._clean_cache_entry(idid - self._min_id)`, from a position on.
unfoldable pub clean_entries : ℕ → ℕ → Exec Cache (Unit {0})
clean_entries zero i = pure tt
clean_entries (suc n) i = do clean_cache_entry i; clean_entries n (suc i)

abbrev pub max_ℤ : ℤ → ℤ → ℤ
max_ℤ a b = if ltb_ℤ a b then b else a

abbrev pub min_ℤ : ℤ → ℤ → ℤ
min_ℤ a b = if ltb_ℤ b a then b else a

unfoldable pub flush_range : ℤ → ℤ → Exec Cache (Unit {0})
flush_range min_id max_id c =
    let first = max_ℤ c.min_id min_id in
    let behind = min_ℤ c.max_id max_id +ℤ pos 1 in
    clean_entries (pos_part (behind -ℤ first)) (pos_part (first -ℤ c.min_id)) c

module _ {S : Type 0} (storage : Storing S) (cache_size : ℕ) where
  -- `self._cache_doc_if_ok(doc)` after a fetch, where a `None` has no `meta_data`.
  unfoldable pub keep_fetched : Option ADocument → Exec (Mirror S) ADocument
  keep_fetched none = raise attribute_error
  keep_fetched (some doc) = do on_cache (cache_doc_if_ok cache_size doc); pure doc

  unfoldable pub fetch_if_none : ℤ → Option ADocument → Exec (Mirror S) ADocument
  fetch_if_none idid (some doc) = pure doc
  fetch_if_none idid none = do doc ← on_storage (storage.get_doc_by_id idid); keep_fetched doc

  unfoldable pub safe_get_doc_by_id : ℤ → Exec (Mirror S) ADocument
  safe_get_doc_by_id idid = do doc ← on_cache (cached_doc idid); fetch_if_none idid doc

  unfoldable pub get_doc_real_data : ℤ → Exec (Mirror S) DocRealData
  get_doc_real_data idid = do doc ← safe_get_doc_by_id idid; pure doc.real_data

  unfoldable pub get_url_by_id : ℤ → Exec (Mirror S) Text
  get_url_by_id idid = do doc ← safe_get_doc_by_id idid; pure doc.url

  -- `return doc.meta_data.idid`, behind `_cache_doc_if_ok`, which refuses a `None`.
  abbrev pub identity_of : ADocument → Exec (Mirror S) ℤ
  identity_of doc = elim doc.meta_data.idid [ none ↦ raise type_error | some idid ↦ pure idid ]

  unfoldable pub identify_fetched : Option ADocument → Exec (Mirror S) ℤ
  identify_fetched none = pure (negsuc 0)
  identify_fetched (some doc) = do on_cache (cache_doc_if_ok cache_size doc); identity_of doc

  unfoldable pub identify_if_unknown : Text → Option ℤ → Exec (Mirror S) ℤ
  identify_if_unknown url (some idid) = pure idid
  identify_if_unknown url none = do
    doc ← on_storage (storage.get_doc_by_url url)
    identify_fetched doc

  unfoldable pub get_id_by_url : Text → Exec (Mirror S) ℤ
  get_id_by_url url = do known ← on_cache (known_id url); identify_if_unknown url known

  -- `_update_nearest_docs`, where `t` is the time from which on documents are fetched again.
  unfoldable pub update_nearest_docs : ℤ → Exec (Mirror S) (Unit {0})
  update_nearest_docs t = do
    (min_id, max_id) ← on_storage (storage.update_after_time t)
    on_cache (flush_range min_id max_id)
