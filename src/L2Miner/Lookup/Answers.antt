-- ===== src/L2Miner/Lookup/Answers.antt =====
-- `_safe_get_doc_by_id` of src/miner/modules/l2_miner/cache.py, on a valid cache.
use pttarticle_recommander.Common.{
  ℕ, ◌<◌, ◌≡◌, ap, ◌∙◌, get_elem?, Option, none, some, Option-cases, Text, arith, ◌&&◌, Bool-cases,
  inl, inr, true, false,
}
use pttarticle_recommander.Common.Int.{ℤ, pos, pos_part, ◌-ℤ◌, ◌≤ℤ◌, leb_ℤ}
use pttarticle_recommander.Common.Results.{ok}
use pttarticle_recommander.L2Miner.Document.{ADocument}
use pttarticle_recommander.L2Miner.Cache.{Cache, entry, cache_doc_if_ok}
use pttarticle_recommander.L2Miner.Cache.Slots.{get_elem?_total}
use pttarticle_recommander.L2Miner.Cache.Room.{IsValid}
use pttarticle_recommander.L2Miner.Cache.Written.{position-lt, id_at-position}
use pttarticle_recommander.L2Miner.Cache.Keep.{cache_doc-IsValid}
use pttarticle_recommander.L2Miner.Lookup.{
  Storing, Mirror, cached_doc, keep_fetched, fetch_if_none, safe_get_doc_by_id,
}

-- `doc` is the board's document with the identity `idid`.
pub record IsDocument (owner : Text → ℤ) (idid : ℤ) (doc : ADocument) : Type 0 where
  pub known : doc.meta_data.idid ≡ some idid
  pub owned : owner doc.url ≡ idid

-- What the cache relies on: the storage returns, and it returns the document of an identity that
-- is not negative.
pub record IsStoring {S : Type 0} (storage : Storing S) (owner : Text → ℤ) : Type 0 where
  pub doc_of :
      (idid : ℤ) (s : S)
      → pos 0 ≤ℤ idid
      → (doc : ADocument) × (s' : S) × (storage.get_doc_by_id idid s ≡ (ok (some doc), s'))
        × IsDocument owner idid doc

entry_lem :
    (i : ℕ) (c : Cache) (slot : Option ADocument)
    → get_elem? c.docs i ≡ some slot
    → entry i c ≡ (ok slot, c)
unfolding entry
entry_lem i c slot e = rw (e, entry)

module _ (owner : Text → ℤ) (cache_size : ℕ) where
  -- What reading the cache comes to.
  pub record Looked (idid : ℤ) (c : Cache) (slot : Option ADocument) : Type 0 where
    pub ran : cached_doc idid c ≡ (ok slot, c)
    pub found : (doc : ADocument) → slot ≡ some doc → IsDocument owner idid doc

  pub cached_doc_inside :
      (idid : ℤ) (c : Cache) (slot : Option ADocument)
      → (leb_ℤ c.min_id idid && leb_ℤ idid c.max_id) ≡ true
      → get_elem? c.docs (pos_part (idid -ℤ c.min_id)) ≡ some slot
      → cached_doc idid c ≡ (ok slot, c)
  unfolding cached_doc
  cached_doc_inside idid c slot h e = rw h (entry_lem (pos_part (idid -ℤ c.min_id)) c slot e)

  pub cached_doc_outside :
      (idid : ℤ) (c : Cache)
      → (leb_ℤ c.min_id idid && leb_ℤ idid c.max_id) ≡ false
      → cached_doc idid c ≡ (ok none, c)
  unfolding cached_doc
  cached_doc_outside idid c h = rw h

  pub cached_doc-Looked :
      (idid : ℤ) (c : Cache)
      → IsValid owner cache_size c
      → (slot : Option ADocument) × Looked idid c slot
  cached_doc-Looked idid c v = elim (Bool-cases (leb_ℤ c.min_id idid && leb_ℤ idid c.max_id)) [
    | inl inside ↦
        let a : c.min_id ≤ℤ idid = ground arith in
        let b : idid ≤ℤ c.max_id = ground arith in
        let i : ℕ = pos_part (idid -ℤ c.min_id) in
        let (slot, e) = get_elem?_total c.docs i (position-lt owner cache_size idid c v a b) in
        (
          slot,
          record {
            ran = cached_doc_inside idid c slot inside e;
            found = λ doc p.
                let h = v.held.at i doc (e ∙ ap some p) in
                let same = id_at-position owner cache_size idid c a in
                record { known = h.known ∙ ap some same; owned = h.owned ∙ same };
          },
        )
    | inr outside ↦ (none, record { ran = cached_doc_outside idid c outside; found = λ doc p. cc })
  ]

module _ {S : Type 0} (storage : Storing S) (owner : Text → ℤ) (cache_size : ℕ) where
  hit :
      (idid : ℤ) (doc : ADocument) (m : Mirror S)
      → cached_doc idid m.cache ≡ (ok (some doc), m.cache)
      → safe_get_doc_by_id storage cache_size idid m ≡ (ok doc, m)
  unfolding safe_get_doc_by_id fetch_if_none
  hit idid doc m p = rw p

  miss :
      (idid : ℤ) (doc : ADocument) (m : Mirror S) (s : S) (c : Cache)
      → cached_doc idid m.cache ≡ (ok none, m.cache)
      → storage.get_doc_by_id idid m.stored ≡ (ok (some doc), s)
      → cache_doc_if_ok cache_size doc m.cache ≡ (ok tt, c)
      → safe_get_doc_by_id storage cache_size idid m ≡ (ok doc, record { cache = c; stored = s })
  unfolding safe_get_doc_by_id fetch_if_none keep_fetched
  miss idid doc m s c p q r = rw (p, q, r)

  -- On a valid cache of a size above zero, over a storage that returns the document of each
  -- identity, `_safe_get_doc_by_id` of an identity that is not negative raises nothing, returns
  -- the document of that identity, cached or not, and keeps the cache valid.
  pub safe_get_doc-IsDocument :
      IsStoring storage owner
      → (idid : ℤ) (m : Mirror S) → pos 0 ≤ℤ idid
      → 0 < cache_size
      → IsValid owner cache_size m.cache
      → (doc : ADocument) × (m' : Mirror S) × (safe_get_doc_by_id storage cache_size idid m
          ≡ (ok doc, m'))
        × IsDocument owner idid doc
        × IsValid owner cache_size m'.cache
  safe_get_doc-IsDocument given idid m l h v =
      let (slot, looked) = cached_doc-Looked owner cache_size idid m.cache v in
      elim (Option-cases slot) [
        | inl empty ↦
            let (doc, s, asked, is) = given.doc_of idid m.stored l in
            let (c, kept, valid) =
              cache_doc-IsValid owner cache_size idid doc m.cache h v is.known is.owned in
            (
              doc,
              record { cache = c; stored = s },
              miss idid doc m s c (looked.ran ∙ ap (λ t. (ok t, m.cache)) empty) asked kept,
              is,
              valid,
            )
        | inr (doc, full) ↦ (
          doc,
          m,
          hit idid doc m (looked.ran ∙ ap (λ t. (ok t, m.cache)) full),
          looked.found doc full,
          v,
        )
      ]
