-- ===== src/L2Miner/Cache/Written.antt =====
-- The second branch of `_cache_doc_if_ok` in src/miner/modules/l2_miner/cache.py, which writes the document
-- at its position.
use native.Mathlib.Decide.{ℕ_discrete}
use pttarticle_recommander.Common.{
  ℕ, ◌<◌, ◌≡◌, sym, ap, subst, ◌∙◌, length, get_elem?, some, Text, arith, lt→ltb, ◌&&◌, Bool-cases,
  inl, inr, true, false, text_eq, text_eq→eq,
}
use pttarticle_recommander.Common.Int.{
  ℤ, pos, pos_part, ◌-ℤ◌, ◌≤ℤ◌, leb_ℤ, eq_of_parts, difference, +ℤ_parts,
}
use pttarticle_recommander.Common.Dict
use pttarticle_recommander.Common.Dict.{Dict, text_eq→ne, lookup-insert_self, lookup-insert_ne}
use pttarticle_recommander.Common.Results.{ok}
use pttarticle_recommander.L2Miner.Document.{ADocument}
use pttarticle_recommander.L2Miner.Cache.{Cache, write, set_entry, remember_url, keep_doc}
use pttarticle_recommander.L2Miner.Cache.Slots.{
  Held, id_at, length-write, get_elem?-write_self, get_elem?-write_ne,
}
use pttarticle_recommander.L2Miner.Cache.Room.{IsValid}

-- The cache with a document written at its position.
abbrev pub with_doc : ℤ → ADocument → Cache → Cache
with_doc idid doc c = record c {
  docs = write c.docs (pos_part (idid -ℤ c.min_id)) (some doc);
  url_to_id = Dict.insert doc.url idid c.url_to_id;
}

module _ (owner : Text → ℤ) where
  Held-insert :
      (m : Dict ℤ) (u : Text) (v k : ℤ) (d : ADocument)
      → owner u ≡ v
      → Held owner m k d
      → Held owner (Dict.insert u v m) k d
  Held-insert m u v k d o h = record {
    known = h.known;
    owned = h.owned;
    mapped = elim (Bool-cases (text_eq u d.url)) [
      | inl same ↦
          let e : u ≡ d.url = text_eq→eq u d.url same in
          subst (λ t. Dict.lookup t (Dict.insert u v m) ≡ some k) e
            (lookup-insert_self u v m ∙ ap some (sym o ∙ ap owner e ∙ h.owned))
      | inr other ↦ lookup-insert_ne u d.url v m (text_eq→ne u d.url other) ∙ h.mapped
    ];
  }

  Held-new :
      (m : Dict ℤ) (k k' : ℤ) (d d' : ADocument)
      → some (some d) ≡ some (some d')
      → k ≡ k'
      → d.meta_data.idid ≡ some k
      → owner d.url ≡ k
      → Held owner (Dict.insert d.url k m) k' d'
  Held-new m k k' d d' p q e o =
      let same : d ≡ d' = cc in
      subst (λ t. Held owner (Dict.insert d.url k m) k' t) same
        (record {
          known = e ∙ ap some q;
          owned = o ∙ q;
          mapped = lookup-insert_self d.url k m ∙ ap some q;
        })

module _ (owner : Text → ℤ) (cache_size : ℕ) where
  pub position-lt :
      (idid : ℤ) (c : Cache)
      → IsValid owner cache_size c
      → c.min_id ≤ℤ idid
      → idid ≤ℤ c.max_id
      → pos_part (idid -ℤ c.min_id) < length c.docs
  position-lt idid c v h k = omega (arith, difference idid c.min_id h, v.width)

  pub id_at-position :
      (idid : ℤ) (c : Cache) → c.min_id ≤ℤ idid → id_at c (pos_part (idid -ℤ c.min_id)) ≡ idid
  id_at-position idid c h = eq_of_parts _ _ (
      omega
        (arith, difference idid c.min_id h, +ℤ_parts c.min_id (pos (pos_part (idid -ℤ c.min_id)))))

  pub with_doc-IsValid :
      (idid : ℤ) (doc : ADocument) (c : Cache)
      → IsValid owner cache_size c
      → c.min_id ≤ℤ idid
      → idid ≤ℤ c.max_id
      → doc.meta_data.idid ≡ some idid
      → owner doc.url ≡ idid
      → IsValid owner cache_size (with_doc idid doc c)
  with_doc-IsValid idid doc c v h k e o =
      let i : ℕ = pos_part (idid -ℤ c.min_id) in
      let lt : i < length c.docs = position-lt idid c v h k in
      let size = length-write c.docs i (some doc) in
      record {
        held = record {
          at = λ j d p. elim (ℕ_discrete i j) [
            | yes same ↦
                Held-new owner c.url_to_id idid (id_at c j) doc d
                  (sym (get_elem?-write_self c.docs i (some doc) lt)
                    ∙ ap (λ t. get_elem? (write c.docs i (some doc)) t) same
                    ∙ p)
                  (sym (id_at-position idid c h) ∙ ap (λ t. id_at c t) same) e o
            | no other ↦
                Held-insert owner c.url_to_id doc.url idid (id_at c j) d o
                  (v.held.at j d (sym (get_elem?-write_ne c.docs i j (some doc) other) ∙ p))
          ];
        };
        within = omega (arith, size, v.within);
        width = omega (arith, size, v.width);
      }

  pub keep_doc_inside :
      (idid : ℤ) (doc : ADocument) (c : Cache)
      → IsValid owner cache_size c
      → c.min_id ≤ℤ idid
      → idid ≤ℤ c.max_id
      → keep_doc idid doc c ≡ (ok tt, with_doc idid doc c)
  unfolding keep_doc set_entry remember_url
  keep_doc_inside idid doc c v h k =
      let a : leb_ℤ c.min_id idid ≡ true = ground arith in
      let b : leb_ℤ idid c.max_id ≡ true = ground arith in
      rw (a, b, lt→ltb _ _ (position-lt idid c v h k))

  pub keep_doc_outside :
      (idid : ℤ) (doc : ADocument) (c : Cache)
      → (leb_ℤ c.min_id idid && leb_ℤ idid c.max_id) ≡ false
      → keep_doc idid doc c ≡ (ok tt, c)
  unfolding keep_doc
  keep_doc_outside idid doc c h = rw h
