-- ===== src/L2Miner/Storage/Finding.antt =====
-- That `Storage` of src/miner/modules/l2_miner/storage.py is a storage as the look-up of a url in `Cache` of
-- src/miner/modules/l2_miner/cache.py relies on it.
use pttarticle_recommander.Common.{
  ℕ, zero, suc, ◌≡◌, refl, sym, ap, subst, ◌∙◌, Option, none, some, Option-cases, Text, Bool-cases,
  inl, inr, if◌then◌else◌,
}
use pttarticle_recommander.Common.Int.{ℤ, pos, ltb_ℤ, eqb_ℤ, eqb_ℤ→eq}
use pttarticle_recommander.Common.Results.{Error, Result, ok, err, Result-cases}
use pttarticle_recommander.L2Miner.Document.{ADocument}
use pttarticle_recommander.L2Miner.Lookup.{Storing}
use pttarticle_recommander.L2Miner.Lookup.Answers.{IsDocument}
use pttarticle_recommander.L2Miner.Lookup.Urls.{IsFinding, Found, nothing, document, fails}
use pttarticle_recommander.L2Miner.Storage.{
  Files, find, Storage, identities, search_url, get_doc_by_url,
}

module _ (getter : Text → Result ℤ) (files : Files) where
  -- A file of a document whose url has a number.
  pub record IsHit (url_num : ℤ) (doc : ADocument) : Type 0 where
    pub name : ℕ
    pub stored : find (pos name) files ≡ some doc
    pub same : getter doc.url ≡ ok url_num

  -- What a search may come to.
  abbrev pub Searched : ℤ → Result (Option ADocument) → Type 0
  Searched url_num (ok none) = Unit
  Searched url_num (ok (some doc)) = IsHit url_num doc
  Searched url_num (err e) = Unit

  branch-Searched :
      (i : ℕ) (url_num num : ℤ) (doc : ADocument) (rest : Result (Option ADocument))
      → find (pos i) files ≡ some doc
      → getter doc.url ≡ ok num
      → Searched url_num rest
      → Searched url_num
          (if eqb_ℤ url_num num then ok (some doc) else if ltb_ℤ num url_num then ok none else rest)
  branch-Searched i url_num num doc rest p q h = elim (Bool-cases (eqb_ℤ url_num num)) [
    | inl e ↦
        rw e (record { name = i; stored = p; same = q ∙ ap ok (sym (eqb_ℤ→eq url_num num e)) })
    | inr e ↦ elim (Bool-cases (ltb_ℤ num url_num)) [ inl f ↦ rw (e, f) tt | inr f ↦ rw (e, f) h ]
  ]

  round-Searched :
      (i : ℕ) (url_num : ℤ)
      → Searched url_num (search_url getter files i url_num)
      → Searched url_num (search_url getter files (suc i) url_num)
  unfolding search_url
  round-Searched i url_num h = elim (Option-cases (find (pos i) files)) [
    | inl missing ↦ rw (missing, search_url) h
    | inr (doc, found) ↦ elim (Result-cases (getter doc.url)) [
      | inl (num, q) ↦
          rw (found, search_url)
            (rw (q, search_url)
              (branch-Searched i url_num num doc (search_url getter files i url_num) found q h))
      | inr (e, q) ↦ rw (found, search_url) (rw (q, search_url) tt)
    ]
  ]

  search-Searched : (n : ℕ) (url_num : ℤ) → Searched url_num (search_url getter files n url_num)
  search-Searched zero url_num = unfold search_url in tt
  search-Searched (suc i) url_num = round-Searched i url_num (search-Searched i url_num)

-- Urls of one number have one identity.
pub record IsNumbering (getter : Text → Result ℤ) (owner : Text → ℤ) : Type 0 where
  pub agree : (u v : Text) (n : ℤ) → getter u ≡ ok n → getter v ≡ ok n → owner u ≡ owner v

module _ {W : Type 0} (getter : Text → Result ℤ) (owner : Text → ℤ) where
  -- The files hold the board's documents, each under its identity.
  pub record IsMirror (s : Storage W) : Type 0 where
    pub mirrored :
        (i : ℕ) (doc : ADocument) → find (pos i) s.files ≡ some doc → IsDocument owner (pos i) doc

  result-Found :
      (storage : Storing (Storage W)) (url : Text) (url_num : ℤ) (s : Storage W)
      → (r : Result (Option ADocument)) → storage.get_doc_by_url url s ≡ (r, s)
      → IsNumbering getter owner
      → IsMirror s
      → getter url ≡ ok url_num
      → Searched getter s.files url_num r
      → Found storage owner IsMirror url s
  result-Found storage url url_num s (ok none) p n m q h = nothing s p m
  result-Found storage url url_num s (err e) p n m q h = fails e s p m
  result-Found storage url url_num s (ok (some doc)) p n m q h =
      let is = m.mirrored (h.name) doc (h.stored) in
      let e : pos h.name ≡ owner url = sym is.owned ∙ n.agree doc.url url url_num h.same q in
      document doc s p m (subst (λ i. IsDocument owner i doc) e is)

  steps :
      (url : Text) (url_num : ℤ) (s : Storage W)
      → getter url ≡ ok url_num
      → get_doc_by_url getter url s ≡ search_url getter s.files (identities s.max_id) url_num
  unfolding get_doc_by_url
  steps url url_num s q = rw (q, get_doc_by_url) refl

  fails_at :
      (url : Text) (e : Error) (s : Storage W)
      → getter url ≡ err e
      → get_doc_by_url getter url s ≡ err e
  unfolding get_doc_by_url
  fails_at url e s q = rw (q, get_doc_by_url) refl

  -- Whatever else a storage does, its search for a url is as the cache needs it, if the files hold the
  -- board's documents and urls of one number have one identity.
  pub storage-IsFinding :
      (storage : Storing (Storage W))
      → ((url : Text) (s : Storage W)
          → storage.get_doc_by_url url s ≡ (get_doc_by_url getter url s, s))
      → IsNumbering getter owner
      → IsFinding storage owner IsMirror
  storage-IsFinding storage is n = record {
    found = λ url s m. elim (Result-cases (getter url)) [
      | inl (num, q) ↦
          result-Found storage url num s (search_url getter s.files (identities s.max_id) num)
            (is url s ∙ ap (λ r. (r, s)) (steps url num s q)) n m q
            (search-Searched getter s.files (identities s.max_id) num)
      | inr (e, q) ↦ fails e s (is url s ∙ ap (λ r. (r, s)) (fails_at url e s q)) m
    ];
  }
