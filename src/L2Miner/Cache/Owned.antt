-- ===== src/L2Miner/Cache/Owned.antt =====
-- What the url dictionary of the cache in src/miner/modules/l2_miner/cache.py holds: no operation
-- relies on the state being valid to keep it, and none spoils it by raising.
use pttarticle_recommander.Common.{
  ℕ, zero, suc, ◌≡◌, refl, sym, ap, ◌∙◌, List, [], ◌∷◌, length, get_elem?, Option, none, some,
  Option-cases, Text, ltb, ◌&&◌, Bool-cases, inl, inr, text_eq, text_eq→eq,
}
use pttarticle_recommander.Common.Int.{ℤ, pos, pos_part, ◌+ℤ◌, ◌-ℤ◌, ltb_ℤ, leb_ℤ}
use pttarticle_recommander.Common.Dict
use pttarticle_recommander.Common.Dict.{Dict, text_eq→ne}
use pttarticle_recommander.Common.Exec.{Keeps, >>=-Keeps}
use pttarticle_recommander.L2Miner.Document.{ADocument}
use pttarticle_recommander.L2Miner.Cache.{
  Cache, init, entry, forget_url, set_entry, clean_slot, clean_cache_entry, rest_after_pop,
  pop_first, advance_min, shrink_loop, shrink_cache_size, restart_at, extend_right, extend_left,
  remember_url, keep_doc, move_forward, make_room, cache_identified, cache_doc_if_ok,
}

module _ (owner : Text → ℤ) where
  -- Each url that the dictionary knows has the identity that the board gives to it.
  pub record IsOwned (c : Cache) : Type 0 where
    pub owns : (url : Text) (idid : ℤ) → Dict.lookup url c.url_to_id ≡ some idid → owner url ≡ idid

  pub init-IsOwned : IsOwned init
  unfolding Dict.lookup
  init-IsOwned = record { owns = λ url idid h. cc }

  insert-owns :
      (u : Text) (k : ℤ) (m : Dict ℤ) (url : Text) (idid : ℤ)
      → owner u ≡ k
      → (Dict.lookup url m ≡ some idid → owner url ≡ idid)
      → Dict.lookup url (Dict.insert u k m) ≡ some idid
      → owner url ≡ idid
  insert-owns u k m url idid o h p = elim (Bool-cases (text_eq u url)) [
    | inl same ↦
        let e : u ≡ url = text_eq→eq u url same in
        let q : some k ≡ some idid =
          sym (Dict.lookup-insert_self u k m) ∙ ap (λ t. Dict.lookup t (Dict.insert u k m)) e ∙ p in
        cc
    | inr other ↦ h (sym (Dict.lookup-insert_ne u url k m (text_eq→ne u url other)) ∙ p)
  ]

  remove-owns :
      (u : Text) (m : Dict ℤ) (url : Text) (idid : ℤ)
      → (Dict.lookup url m ≡ some idid → owner url ≡ idid)
      → Dict.lookup url (Dict.remove u m) ≡ some idid
      → owner url ≡ idid
  remove-owns u m url idid h p = elim (Bool-cases (text_eq u url)) [
    | inl same ↦
        let e : u ≡ url = text_eq→eq u url same in
        let q : none ≡ some idid =
          sym (Dict.lookup-remove_self u m) ∙ ap (λ t. Dict.lookup t (Dict.remove u m)) e ∙ p in
        cc
    | inr other ↦ h (sym (Dict.lookup-remove_ne u url m (text_eq→ne u url other)) ∙ p)
  ]

  pub entry-Keeps : (i : ℕ) → Keeps IsOwned (entry i)
  unfolding entry
  entry-Keeps i c h = elim (Option-cases (get_elem? c.docs i)) [
    | inl e ↦ rw (e, entry) h
    | inr (slot, e) ↦ rw (e, entry) h
  ]

  forget_url-Keeps : (url : Text) → Keeps IsOwned (forget_url url)
  unfolding forget_url
  forget_url-Keeps url c h = elim (Option-cases (Dict.lookup url c.url_to_id)) [
    | inl e ↦ rw (e, forget_url) h
    | inr (k, e) ↦
        rw (e, forget_url)
          (record { owns = λ u idid. remove-owns url c.url_to_id u idid (h.owns u idid) })
  ]

  set_entry-Keeps : (i : ℕ) (slot : Option ADocument) → Keeps IsOwned (set_entry i slot)
  unfolding set_entry
  set_entry-Keeps i slot c h = elim (Bool-cases (ltb i (length c.docs))) [
    | inl e ↦ rw e (record { owns = h.owns })
    | inr e ↦ rw e h
  ]

  clean_slot-Keeps : (i : ℕ) (slot : Option ADocument) → Keeps IsOwned (clean_slot i slot)
  unfolding clean_slot
  clean_slot-Keeps i none c h = h
  clean_slot-Keeps i (some doc) c h =
      >>=-Keeps IsOwned (forget_url doc.url) _ (forget_url-Keeps doc.url)
        (λ _. set_entry-Keeps i none) c h

  pub clean-Keeps : (i : ℕ) → Keeps IsOwned (clean_cache_entry i)
  unfolding clean_cache_entry
  clean-Keeps i = >>=-Keeps IsOwned (entry i) _ (entry-Keeps i) λ slot. clean_slot-Keeps i slot

  rest_after_pop-Keeps : (docs : List (Option ADocument)) → Keeps IsOwned (rest_after_pop docs)
  unfolding rest_after_pop
  rest_after_pop-Keeps [] c h = h
  rest_after_pop-Keeps (slot ∷ docs) c h = record { owns = h.owns }

  pop_first-Keeps : Keeps IsOwned pop_first
  unfolding pop_first
  pop_first-Keeps c = rest_after_pop-Keeps c.docs c

  advance_min-Keeps : Keeps IsOwned advance_min
  unfolding advance_min
  advance_min-Keeps c h = record { owns = h.owns }

  shrink_loop-Keeps : (fuel size : ℕ) → Keeps IsOwned (shrink_loop fuel size)
  unfolding shrink_loop
  shrink_loop-Keeps zero size c h = elim (Bool-cases (ltb size (length c.docs))) [
    | inl e ↦ rw e h
    | inr e ↦ rw e h
  ]
  shrink_loop-Keeps (suc fuel) size c h = elim (Bool-cases (ltb size (length c.docs))) [
    | inl e ↦ rw e (
        >>=-Keeps IsOwned (clean_cache_entry 0) _ (clean-Keeps 0)
          (λ _. >>=-Keeps IsOwned pop_first _ pop_first-Keeps (λ _.
            >>=-Keeps IsOwned advance_min _ advance_min-Keeps (λ _. shrink_loop-Keeps fuel size)))
          c h)
    | inr e ↦ rw e h
  ]

  shrink_cache_size-Keeps : (size : ℕ) → Keeps IsOwned (shrink_cache_size size)
  unfolding shrink_cache_size
  shrink_cache_size-Keeps size c = shrink_loop-Keeps (length c.docs) size c

  restart_at-Keeps : (idid : ℤ) → Keeps IsOwned (restart_at idid)
  unfolding restart_at Dict.lookup
  restart_at-Keeps idid c h = record { owns = λ url k p. cc }

  extend_right-Keeps : (num idid : ℤ) → Keeps IsOwned (extend_right num idid)
  unfolding extend_right
  extend_right-Keeps num idid c h = record { owns = h.owns }

  extend_left-Keeps : (idid : ℤ) → Keeps IsOwned (extend_left idid)
  unfolding extend_left
  extend_left-Keeps idid c h = record { owns = h.owns }

  remember_url-Keeps :
      (url : Text) (idid : ℤ) → owner url ≡ idid → Keeps IsOwned (remember_url url idid)
  unfolding remember_url
  remember_url-Keeps url idid o c h = record {
    owns = λ u k. insert-owns url idid c.url_to_id u k o (h.owns u k);
  }

  keep_doc-Keeps :
      (idid : ℤ) (doc : ADocument) → owner doc.url ≡ idid → Keeps IsOwned (keep_doc idid doc)
  unfolding keep_doc
  keep_doc-Keeps idid doc o c h = elim (Bool-cases (leb_ℤ c.min_id idid && leb_ℤ idid c.max_id)) [
    | inl e ↦ rw e (
        >>=-Keeps IsOwned (set_entry (pos_part (idid -ℤ c.min_id)) (some doc)) _
          (set_entry-Keeps (pos_part (idid -ℤ c.min_id)) (some doc))
          (λ _. remember_url-Keeps doc.url idid o) c h)
    | inr e ↦ rw e h
  ]

  module _ (cache_size : ℕ) where
    move_forward-Keeps : (idid : ℤ) → Keeps IsOwned (move_forward cache_size idid)
    unfolding move_forward
    move_forward-Keeps idid c h = elim (Bool-cases (leb_ℤ (pos cache_size) (idid -ℤ c.max_id))) [
      | inl e ↦ rw e (restart_at-Keeps idid c h)
      | inr e ↦ rw e (
          >>=-Keeps IsOwned (shrink_cache_size (pos_part (pos cache_size -ℤ (idid -ℤ c.max_id)))) _
            (shrink_cache_size-Keeps (pos_part (pos cache_size -ℤ (idid -ℤ c.max_id))))
            (λ _. extend_right-Keeps (idid -ℤ c.max_id) idid) c h)
    ]

    make_room-Keeps : (idid : ℤ) → Keeps IsOwned (make_room cache_size idid)
    unfolding make_room
    make_room-Keeps idid c h = elim (Bool-cases (ltb_ℤ c.max_id idid)) [
      | inl e ↦ rw e (move_forward-Keeps idid c h)
      | inr e ↦
          elim (Bool-cases
            (ltb_ℤ idid c.min_id && leb_ℤ (c.max_id -ℤ idid +ℤ pos 1) (pos cache_size))) [
              | inl f ↦ rw (e, f) (extend_left-Keeps idid c h)
              | inr f ↦ rw (e, f) h
            ]
    ]

    cache_identified-Keeps :
        (o : Option ℤ) (doc : ADocument)
        → ((idid : ℤ) → o ≡ some idid → owner doc.url ≡ idid)
        → Keeps IsOwned (cache_identified cache_size o doc)
    unfolding cache_identified
    cache_identified-Keeps none doc h c k = k
    cache_identified-Keeps (some idid) doc h c k =
        >>=-Keeps IsOwned (make_room cache_size idid) _ (make_room-Keeps idid)
          (λ _. keep_doc-Keeps idid doc (h idid refl)) c k

    pub cache_doc-Keeps :
        (doc : ADocument)
        → ((idid : ℤ) → doc.meta_data.idid ≡ some idid → owner doc.url ≡ idid)
        → Keeps IsOwned (cache_doc_if_ok cache_size doc)
    unfolding cache_doc_if_ok
    cache_doc-Keeps doc h = cache_identified-Keeps doc.meta_data.idid doc h
