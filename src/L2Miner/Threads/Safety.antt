-- ===== src/L2Miner/Threads/Safety.antt =====
-- What holds in every state that the threads of src/miner/modules/l2_miner/cache.py can reach.
use pttarticle_recommander.Common.{
  ℕ, zero, suc, ◌<◌, ◌≡◌, refl, sym, ap, subst, ◌∙◌, Text, some, arith, Bool-cases, inl, inr, ◌&&◌,
}
use pttarticle_recommander.Common.Int.{ℤ, pos_part, ◌-ℤ◌, leb_ℤ}
use pttarticle_recommander.Common.Dict
use pttarticle_recommander.Common.Results.{ok}
use pttarticle_recommander.Common.Exec.{Exec, Keeps, >>=-Keeps}
use pttarticle_recommander.L2Miner.Document.{ADocument}
use pttarticle_recommander.L2Miner.Cache.{Cache, init, clean_cache_entry}
use pttarticle_recommander.L2Miner.Cache.Room.{IsValid}
use pttarticle_recommander.L2Miner.Cache.Keep.{cache_doc-IsValid}
use pttarticle_recommander.L2Miner.Cache.Owned.{
  IsOwned, init-IsOwned, entry-Keeps, clean-Keeps, cache_doc-Keeps,
}
use pttarticle_recommander.L2Miner.Lookup.{cached_doc, known_id, clean_entries, flush_range}
use pttarticle_recommander.L2Miner.Lookup.Answers.{IsDocument, cached_doc-Looked}
use pttarticle_recommander.L2Miner.Lookup.Flush.{flush_range-IsValid}
use pttarticle_recommander.L2Miner.Threads.{
  Section, look_up, look_up_url, keep, flush, Reachable, start, later,
}

pub known_id_lem : (url : Text) (c : Cache) → known_id url c ≡ (ok (Dict.lookup url c.url_to_id), c)
unfolding known_id
known_id_lem url c = refl

module _ (owner : Text → ℤ) where
  clean_entries-Keeps : (n i : ℕ) → Keeps (IsOwned owner) (clean_entries n i)
  unfolding clean_entries
  clean_entries-Keeps zero i c h = h
  clean_entries-Keeps (suc n) i c h =
      >>=-Keeps (IsOwned owner) (clean_cache_entry i) _ (clean-Keeps owner i)
        (λ _. clean_entries-Keeps n (suc i)) c h

  flush_range-Keeps : (min_id max_id : ℤ) → Keeps (IsOwned owner) (flush_range min_id max_id)
  unfolding flush_range
  flush_range-Keeps min_id max_id c h = clean_entries-Keeps _ _ c h

  cached_doc-Keeps : (idid : ℤ) → Keeps (IsOwned owner) (cached_doc idid)
  unfolding cached_doc
  cached_doc-Keeps idid c h = elim (Bool-cases (leb_ℤ c.min_id idid && leb_ℤ idid c.max_id)) [
    | inl e ↦ rw e (entry-Keeps owner (pos_part (idid -ℤ c.min_id)) c h)
    | inr e ↦ rw e h
  ]

  known_id-Keeps : (url : Text) → Keeps (IsOwned owner) (known_id url)
  unfolding known_id
  known_id-Keeps url c h = h

module _ (owner : Text → ℤ) (cache_size : ℕ) where
  pub init-IsValid : IsValid owner cache_size init
  init-IsValid = record { held = record { at = λ i d p. cc }; within = omega arith; width = refl }

  -- A state in which nothing goes wrong, and which says nothing wrong.
  pub record IsSafe (c : Cache) : Type 0 where
    pub valid : IsValid owner cache_size c
    pub owned : IsOwned owner c

  -- What running a section comes to: it returns, and leaves a safe state.
  record Ran {A : Type 0} (f : Exec Cache A) (c : Cache) : Type 0 where
    pub value : A
    pub after : Cache
    pub ran : f c ≡ (ok value, after)
    pub safe : IsValid owner cache_size after

  Section-Ran :
      {A : Type 0} (f : Exec Cache A) (c : Cache)
      → 0 < cache_size
      → IsValid owner cache_size c
      → Section owner cache_size A f
      → Ran f c
  Section-Ran f c h v (look_up idid) =
      let (slot, looked) = cached_doc-Looked owner cache_size idid c v in
      record { value = slot; after = c; ran = looked.ran; safe = v }
  Section-Ran f c h v (look_up_url url) = record {
    value = Dict.lookup url c.url_to_id;
    after = c;
    ran = known_id_lem url c;
    safe = v;
  }
  Section-Ran f c h v (keep idid doc is) =
      let (c', ran, valid) = cache_doc-IsValid owner cache_size idid doc c h v is.known is.owned in
      record { value = tt; after = c'; ran = ran; safe = valid }
  Section-Ran f c h v (flush min_id max_id) =
      let (c', ran, valid) = flush_range-IsValid owner cache_size min_id max_id c v in
      record { value = tt; after = c'; ran = ran; safe = valid }

  Section-Keeps :
      {A : Type 0} (f : Exec Cache A) → Section owner cache_size A f → Keeps (IsOwned owner) f
  Section-Keeps f (look_up idid) c h = cached_doc-Keeps owner idid c h
  Section-Keeps f (look_up_url url) c h = known_id-Keeps owner url c h
  Section-Keeps f (keep idid doc is) c h =
      cache_doc-Keeps owner cache_size doc
        (λ k e. let same : idid ≡ k = cc (is.known, e) in is.owned ∙ same) c h
  Section-Keeps f (flush min_id max_id) c h = flush_range-Keeps owner min_id max_id c h

  pub reachable-IsSafe : (c : Cache) → 0 < cache_size → Reachable owner cache_size c → IsSafe c
  reachable-IsSafe c h start = record { valid = init-IsValid; owned = init-IsOwned owner }
  reachable-IsSafe c h (later {A = A} {f = f} {c = b} r s) =
      let safe = reachable-IsSafe b h r in
      let o = Section-Ran f b h safe.valid s in
      record {
        valid = subst (λ t. IsValid owner cache_size t) (sym (ap (λ t. t.1) o.ran)) o.safe;
        owned = Section-Keeps f s b safe.owned;
      }

  -- If each document that is kept has the identity that one function of urls (the board's)
  -- gives to its url, then in whatever order the threads run their sections under the lock,
  -- from the empty cache on and with a cache size above zero, no section raises: each returns,
  -- and leaves a valid cache.
  pub sections_return :
      {A : Type 0} (f : Exec Cache A) (c : Cache)
      → 0 < cache_size
      → Reachable owner cache_size c
      → Section owner cache_size A f
      → (value : A) × (c' : Cache) × (f c ≡ (ok value, c')) × IsValid owner cache_size c'
  sections_return f c h r s =
      let o = Section-Ran f c h ((reachable-IsSafe c h r).valid) s in
      (o.value, o.after, o.ran, o.safe)

  -- In whatever order the threads run their sections under the lock, from the empty cache on
  -- and with a cache size above zero, a document that the cache returns for an identity is the
  -- board's document with that identity, and an identity that it returns for a url is the one
  -- that the board gives to the url.
  pub never_wrong :
      (c : Cache) (idid : ℤ) (url : Text) (doc : ADocument) (k : ℤ)
      → 0 < cache_size
      → Reachable owner cache_size c
      → ((cached_doc idid c).0 ≡ ok (some doc) → IsDocument owner idid doc)
        × ((known_id url c).0 ≡ ok (some k) → owner url ≡ k)
  never_wrong c idid url doc k h r =
      let safe = reachable-IsSafe c h r in
      let (slot, looked) = cached_doc-Looked owner cache_size idid c safe.valid in
      (
        λ p. looked.found doc (let e : some slot ≡ some (some doc) = cc (looked.ran, p) in cc),
        unfold known_id in λ p. safe.owned.owns url k cc,
      )
