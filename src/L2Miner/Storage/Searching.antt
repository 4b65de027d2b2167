-- ===== src/L2Miner/Storage/Searching.antt =====
-- `get_doc_by_url` of src/miner/modules/l2_miner/storage.py, which leaves its loop early, against a search
-- of all files.
use pttarticle_recommander.Common.{
  ℕ, zero, suc, ◌<◌, ◌≡◌, refl, sym, ap, subst, ◌∙◌, Option, none, some, Option-cases, Text,
  Bool-cases, inl, inr, true, false, arith, if◌then◌else◌,
}
use pttarticle_recommander.Common.Int.{ℤ, pos, ◌≤ℤ◌, ◌<ℤ◌, ltb_ℤ, eqb_ℤ, eqb_ℤ→eq}
use pttarticle_recommander.Common.Results.{Result, ok}
use pttarticle_recommander.L2Miner.Document.{ADocument}
use pttarticle_recommander.L2Miner.Storage.{
  Files, find, Storage, identities, search_url, get_doc_by_url,
}

module _ (number : Text → ℤ) (files : Files) where
  -- The newest document below the identity `n` whose url has the number.
  unfoldable pub newest_with : ℕ → ℤ → Option ADocument
  newest_with zero num = none
  newest_with (suc idid) num =
      let rest = newest_with idid num in
      elim (find (pos idid) files) [
        | none ↦ rest
        | some doc ↦ if eqb_ℤ num (number doc.url) then some doc else rest
      ]

  -- A newer document has a greater number, or the same.
  pub record IsSorted : Type 0 where
    pub sorted :
        (i j : ℕ) (a b : ADocument)
        → i < j
        → find (pos i) files ≡ some a
        → find (pos j) files ≡ some b
        → number a.url ≤ℤ number b.url

  newest_missing :
      (i : ℕ) (num : ℤ) → find (pos i) files ≡ none → newest_with (suc i) num ≡ newest_with i num
  unfolding newest_with
  newest_missing i num e = rw (e, newest_with)

  newest_other :
      (i : ℕ) (num : ℤ) (doc : ADocument)
      → find (pos i) files ≡ some doc
      → eqb_ℤ num (number doc.url) ≡ false
      → newest_with (suc i) num ≡ newest_with i num
  unfolding newest_with
  newest_other i num doc e f = rw (e, newest_with) (rw f)

  newest_same :
      (i : ℕ) (num : ℤ) (doc : ADocument)
      → find (pos i) files ≡ some doc
      → eqb_ℤ num (number doc.url) ≡ true
      → newest_with (suc i) num ≡ some doc
  unfolding newest_with
  newest_same i num doc e f = rw (e, newest_with) (rw f)

  -- Below documents with smaller numbers there is none with the number.
  newest-none :
      (n : ℕ) (num : ℤ)
      → ((i : ℕ) (doc : ADocument) → i < n → find (pos i) files ≡ some doc → number doc.url <ℤ num)
      → newest_with n num ≡ none
  newest-none zero num h = unfold newest_with in refl
  newest-none (suc i) num h =
      let rest = newest-none i num (λ j doc l. h j doc (omega (arith, l))) in
      elim (Option-cases (find (pos i) files)) [
        | inl missing ↦ newest_missing i num missing ∙ rest
        | inr (doc, found) ↦ elim (Bool-cases (eqb_ℤ num (number doc.url))) [
          | inl same ↦
              let e : num ≡ number doc.url = eqb_ℤ→eq num (number doc.url) same in
              let l : number doc.url <ℤ num = h i doc (omega arith) found in
              let k : num <ℤ num = subst (λ t. t <ℤ num) (sym e) l in absurd (omega arith)
          | inr other ↦ newest_other i num doc found other ∙ rest
        ]
      ]

  module _ (getter : Text → Result ℤ)
      (reads : (i : ℕ) (doc : ADocument)
        → find (pos i) files ≡ some doc
        → getter doc.url ≡ ok (number doc.url)) where
    search_missing :
        (i : ℕ) (num : ℤ)
        → find (pos i) files ≡ none
        → search_url getter files (suc i) num ≡ search_url getter files i num
    unfolding search_url
    search_missing i num e = rw (e, search_url)

    search_found :
        (i : ℕ) (num : ℤ) (doc : ADocument)
        → find (pos i) files ≡ some doc
        → search_url getter files (suc i) num ≡ (
            let rest = search_url getter files i num in
            if eqb_ℤ num (number doc.url)
            then ok (some doc)
            else if ltb_ℤ (number doc.url) num
            then ok none
            else rest)
    unfolding search_url
    search_found i num doc e = rw (e, search_url) (rw (reads i doc e, search_url))

    search-newest :
        (n : ℕ) (num : ℤ) → IsSorted → search_url getter files n num ≡ ok (newest_with n num)
    search-newest zero num s = unfold search_url newest_with in refl
    search-newest (suc i) num s =
        let rest = search-newest i num s in
        elim (Option-cases (find (pos i) files)) [
          | inl missing ↦
              search_missing i num missing ∙ rest ∙ ap ok (sym (newest_missing i num missing))
          | inr (doc, found) ↦ elim (Bool-cases (eqb_ℤ num (number doc.url))) [
            | inl same ↦
                search_found i num doc found
                ∙ rw same (ap ok (sym (newest_same i num doc found same)))
            | inr other ↦ elim (Bool-cases (ltb_ℤ (number doc.url) num)) [
              | inl less ↦
                  let l : number doc.url <ℤ num = ground arith in
                  let all =
                    newest-none i num
                      (λ j d k e. let m = s.sorted j i d doc k e found in omega (arith, l, m)) in
                  search_found i num doc found
                  ∙ rw (other, less) (ap ok (sym (newest_other i num doc found other ∙ all)))
              | inr more ↦
                  search_found i num doc found
                  ∙ rw (other, more) (rest ∙ ap ok (sym (newest_other i num doc found other)))
            ]
          ]
        ]

    get_doc-steps :
        {W : Type 0} (url : Text) (s : Storage W)
        → getter url ≡ ok (number url)
        → s.files ≡ files
        → get_doc_by_url getter url s ≡ search_url getter files (identities s.max_id) (number url)
    unfolding get_doc_by_url
    get_doc-steps url s r e =
        rw (r, get_doc_by_url) (ap (λ t. search_url getter t (identities s.max_id) (number url)) e)

-- Where the url that is asked for and those of all files have numbers, and newer documents have
-- greater numbers or the same, leaving the loop early makes no difference: `get_doc_by_url`
-- returns what a search of all identities up to `max_id` from new to old does, the newest
-- document whose number is that of the url, or `None`.
pub get_doc_by_url-newest :
    {W : Type 0} (number : Text → ℤ) (getter : Text → Result ℤ) (url : Text) (s : Storage W)
    → getter url ≡ ok (number url)
    → ((i : ℕ) (doc : ADocument)
        → find (pos i) s.files ≡ some doc
        → getter doc.url ≡ ok (number doc.url))
    → IsSorted number s.files
    → get_doc_by_url getter url s
      ≡ ok (newest_with number s.files (identities s.max_id) (number url))
get_doc_by_url-newest number getter url s asked reads h =
    get_doc-steps number s.files getter reads url s asked refl
    ∙ search-newest number s.files getter reads (identities s.max_id) (number url) h
