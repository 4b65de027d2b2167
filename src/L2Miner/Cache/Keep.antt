-- ===== src/L2Miner/Cache/Keep.antt =====
-- `_cache_doc_if_ok` of src/miner/modules/l2_miner/cache.py as a whole.
use pttarticle_recommander.Common.{
  ℕ, ◌<◌, ◌≡◌, sym, subst, get_elem?, Option, none, some, Text, arith, ◌&&◌, Bool-cases, inl, inr,
  false,
}
use pttarticle_recommander.Common.Int.{ℤ, pos_part, ◌-ℤ◌, ◌≤ℤ◌, ◌<ℤ◌, leb_ℤ}
use pttarticle_recommander.Common.Results.{ok}
use pttarticle_recommander.L2Miner.Document.{ADocument}
use pttarticle_recommander.L2Miner.Cache.{
  Cache, keep_doc, make_room, cache_identified, cache_doc_if_ok,
}
use pttarticle_recommander.L2Miner.Cache.Slots.{get_elem?-write_self}
use pttarticle_recommander.L2Miner.Cache.Room.{IsValid, make_room-Roomy}
use pttarticle_recommander.L2Miner.Cache.Written.{
  with_doc, position-lt, with_doc-IsValid, keep_doc_inside, keep_doc_outside,
}

-- The document that the cache returns for an identity in its window.
abbrev pub Caches : Cache → ℤ → ADocument → Type 0
Caches c idid doc = get_elem? c.docs (pos_part (idid -ℤ c.min_id)) ≡ some (some doc)

module _ (owner : Text → ℤ) (cache_size : ℕ) where
  not_outside :
      (idid : ℤ) (c : Cache)
      → (c.max_id ≡ idid) × (c.min_id ≤ℤ idid)
      → (leb_ℤ c.min_id idid && leb_ℤ idid c.max_id) ≡ false
      → ⊥
  not_outside idid c (e, h) =
      subst (λ m. (leb_ℤ c.min_id idid && leb_ℤ idid m) ≡ false → ⊥) (sym e) (λ k. ground arith)

  -- What `_cache_doc_if_ok` leaves of a cache.
  pub record Cached (idid : ℤ) (doc : ADocument) (c c' : Cache) : Type 0 where
    pub ran : cache_doc_if_ok cache_size doc c ≡ (ok tt, c')
    pub valid : IsValid owner cache_size c'
    pub newest : c.max_id <ℤ idid → (c'.max_id ≡ idid) × Caches c' idid doc
    pub older : idid ≤ℤ c.max_id → c'.max_id ≡ c.max_id

  cache_identified_steps :
      (o : Option ℤ) (idid : ℤ) (doc : ADocument) (c c' c'' : Cache)
      → o ≡ some idid
      → make_room cache_size idid c ≡ (ok tt, c')
      → keep_doc idid doc c' ≡ (ok tt, c'')
      → cache_identified cache_size o doc c ≡ (ok tt, c'')
  unfolding cache_identified
  cache_identified_steps none idid doc c c' c'' e p q = cc
  cache_identified_steps (some k) idid doc c c' c'' e p q =
      let same : idid ≡ k = cc in
      subst (λ t. cache_identified cache_size (some t) doc c ≡ (ok tt, c'')) same (rw p q)

  cache_doc_steps :
      (idid : ℤ) (doc : ADocument) (c c' c'' : Cache)
      → doc.meta_data.idid ≡ some idid
      → make_room cache_size idid c ≡ (ok tt, c')
      → keep_doc idid doc c' ≡ (ok tt, c'')
      → cache_doc_if_ok cache_size doc c ≡ (ok tt, c'')
  unfolding cache_doc_if_ok
  cache_doc_steps idid doc c c' c'' = cache_identified_steps doc.meta_data.idid idid doc c c' c''

  with_doc-Caches :
      (idid : ℤ) (doc : ADocument) (c : Cache)
      → IsValid owner cache_size c
      → c.min_id ≤ℤ idid
      → idid ≤ℤ c.max_id
      → Caches (with_doc idid doc c) idid doc
  with_doc-Caches idid doc c v h k =
      get_elem?-write_self c.docs (pos_part (idid -ℤ c.min_id)) (some doc)
        (position-lt owner cache_size idid c v h k)

  pub cache_doc-Cached :
      (idid : ℤ) (doc : ADocument) (c : Cache)
      → 0 < cache_size
      → IsValid owner cache_size c
      → doc.meta_data.idid ≡ some idid
      → owner doc.url ≡ idid
      → (c' : Cache) × Cached idid doc c c'
  cache_doc-Cached idid doc c h v e o =
      let (c', p, r) = make_room-Roomy owner cache_size idid c h v in
      elim (Bool-cases (leb_ℤ c'.min_id idid && leb_ℤ idid c'.max_id)) [
        | inl inside ↦
            let a : c'.min_id ≤ℤ idid = ground arith in
            let b : idid ≤ℤ c'.max_id = ground arith in
            (
              with_doc idid doc c',
              record {
                ran =
                    cache_doc_steps idid doc c c' _ e p
                      (keep_doc_inside owner cache_size idid doc c' r.valid a b);
                valid = with_doc-IsValid owner cache_size idid doc c' r.valid a b e o;
                newest = λ k. ((r.newest k).0, with_doc-Caches idid doc c' r.valid a b);
                older = r.older;
              },
            )
        | inr outside ↦ (
          c',
          record {
            ran =
                cache_doc_steps idid doc c c' c' e p
                  (keep_doc_outside owner cache_size idid doc c' outside);
            valid = r.valid;
            newest = λ k. absurd (not_outside idid c' (r.newest k) outside);
            older = r.older;
          },
        )
      ]

  -- With a cache size above zero, `_cache_doc_if_ok` raises nothing and keeps the cache valid
  -- (its window as wide as its list, within the size, each entry under its own identity and in
  -- the url dictionary), for a document whose identity is the one that the board gives to its
  -- url.
  pub cache_doc-IsValid :
      (idid : ℤ) (doc : ADocument) (c : Cache)
      → 0 < cache_size
      → IsValid owner cache_size c
      → doc.meta_data.idid ≡ some idid
      → owner doc.url ≡ idid
      → (c' : Cache) × (cache_doc_if_ok cache_size doc c ≡ (ok tt, c'))
        × IsValid owner cache_size c'
  cache_doc-IsValid idid doc c h v e o =
      let (c', r) = cache_doc-Cached idid doc c h v e o in (c', r.ran, r.valid)

  -- With a cache size above zero, a document newer than everything in a valid cache, whose
  -- identity is the one that the board gives to its url, is always cached: `_cache_doc_if_ok`
  -- raises nothing, and afterwards the window ends at the identity and holds the document
  -- there.
  pub cache_newest_doc :
      (idid : ℤ) (doc : ADocument) (c : Cache)
      → 0 < cache_size
      → IsValid owner cache_size c
      → doc.meta_data.idid ≡ some idid
      → owner doc.url ≡ idid
      → c.max_id <ℤ idid
      → (c' : Cache) × (cache_doc_if_ok cache_size doc c ≡ (ok tt, c'))
        × (c'.max_id ≡ idid)
        × Caches c' idid doc
  cache_newest_doc idid doc c h v e o k =
      let (c', r) = cache_doc-Cached idid doc c h v e o in
      (c', r.ran, (r.newest k).0, (r.newest k).1)
