-- ===== src/FirstMiner/Build/Shifted.antt =====
-- `get_doc_meta_data_series` of src/miner/modules/build.py on a list that the crawler of
-- src/miner/modules/mining.py has numbered from one, where the metadata are numbered from zero.
use pttarticle_recommander.Common.{
  ℕ, zero, suc, ◌-◌, ltb, ◌≤◌, ◌≡◌, refl, sym, ap, subst, ◌∙◌, List, [], ◌∷◌, ◌++◌, length,
  get_elem?, length-append, Option, none, some, Text, text_eq_refl, Bool-cases, inl, inr, arith,
}
use pttarticle_recommander.Common.Int.{ℤ, pos, negsuc}
use pttarticle_recommander.Common.Dict
use pttarticle_recommander.Common.Results.{Error, ok, err, index_error, Result-cases}
use pttarticle_recommander.Protocol.Types.DocMetaData.{DocMetaData}
use pttarticle_recommander.FirstMiner.Build.{
  Entry, BuildData, in_range, at, init, metas_at, series_of, is_doc, series_from,
  get_doc_meta_data_series, first_entry,
}
use pttarticle_recommander.FirstMiner.Build.Series.{
  titled, nonempty, titled-append, titled_one, nonempty-snoc, series_titled,
}

module _ {A : Type 0} where
  in_range_error : (o : Option A) (x : Error) → in_range o ≡ err x → x ≡ index_error
  unfolding in_range
  in_range_error none x p = cc
  in_range_error (some a) x p = cc

  at_error : (xs : List A) (i : ℤ) (x : Error) → at xs i ≡ err x → x ≡ index_error
  unfolding at
  at_error xs (pos i) x p = in_range_error (get_elem? xs i) x p
  at_error xs (negsuc i) x p = elim (Bool-cases (ltb i (length xs))) [
    | inl e ↦ in_range_error (get_elem? xs (length xs - suc i)) x (sym (rw e refl) ∙ p)
    | inr e ↦ let q : err index_error ≡ err x = sym (rw e refl) ∙ p in cc
  ]

  behind_end : (xs : List A) (n : ℕ) → length xs ≤ n → get_elem? xs n ≡ none
  behind_end [] n h = refl
  behind_end (x ∷ xs) zero h = absurd (omega arith)
  behind_end (x ∷ xs) (suc n) h = behind_end xs n (omega arith)

  at_end : (xs : List A) (n : ℕ) → length xs ≡ n → at xs (pos n) ≡ err index_error
  unfolding at in_range
  at_end xs n h = ap in_range (behind_end xs n (omega arith))

metas_at_end :
    (ids : List ℤ) (metas : List DocMetaData) (n : ℕ)
    → length metas ≡ n
    → metas_at (ids ++ pos n ∷ []) metas ≡ err index_error
unfolding metas_at
metas_at_end [] metas n h = rw (at_end metas n h) refl
metas_at_end (i ∷ ids) metas n h = elim (Result-cases (at metas i)) [
  | inl (meta, p) ↦ rw (p, metas_at_end ids metas n h) refl
  | inr (x, p) ↦ rw p (ap err (at_error metas i x p))
]

series_fails :
    (title : Text) (ids : List ℤ) (b : BuildData)
    → Dict.lookup title b.series ≡ some ids
    → metas_at ids b.metadata ≡ err index_error
    → series_of title b ≡ err index_error
unfolding series_of
series_fails title ids b p q = rw (p, series_of) q

series_from_fails :
    (board : Text) (idid : ℤ) (entries : List Entry) (e : Entry) (b : BuildData)
    → first_entry (is_doc board idid) entries ≡ some e
    → series_of e.title b ≡ err index_error
    → series_from board idid entries b ≡ err index_error
unfolding first_entry series_from
series_from_fails board idid [] e b p q = cc
series_from_fails board idid (x ∷ entries) e b p q = elim (Bool-cases (is_doc board idid x)) [
  | inl h ↦
      let r : some x ≡ some e = sym (rw h refl) ∙ p in
      let same : x ≡ e = cc in
      let s : series_of x.title b ≡ err index_error =
        subst (λ t. series_of t.title b ≡ err index_error) (sym same) q in
      rw (h, s) refl
  | inr h ↦ rw h (series_from_fails board idid entries e b (sym (rw h refl) ∙ p) q)
]

-- On a list that is numbered from one, as the crawler numbers it, a query for the series of a
-- document whose title is also the title of the last entry never succeeds: it takes the identities
-- for positions, and raises an `IndexError`.
pub series_raises :
    (int : Text → Option ℤ) (entries : List Entry) (last e : Entry) (board : Text) (idid : ℤ)
    → (b : BuildData) → init int (entries ++ last ∷ []) ≡ ok b
    → last.id ≡ pos (suc (length entries))
    → first_entry (is_doc board idid) (entries ++ last ∷ []) ≡ some e
    → e.title ≡ last.title
    → get_doc_meta_data_series board idid b ≡ err index_error
unfolding get_doc_meta_data_series
series_raises int entries last e board idid b p n f t =
    let (json, size, looked) = series_titled int (entries ++ last ∷ []) b p in
    let ids : List ℤ = titled last.title entries in
    let count : length b.metadata ≡ suc (length entries) =
      omega (arith, size, length-append entries (last ∷ [])) in
    let all : titled last.title (entries ++ last ∷ []) ≡ ids ++ pos (suc (length entries)) ∷ [] =
      titled-append last.title entries (last ∷ [])
      ∙ ap (λ l. ids ++ l) (titled_one last last.title (text_eq_refl last.title))
      ∙ ap (λ i. ids ++ i ∷ []) n in
    let known : Dict.lookup e.title b.series ≡ some (ids ++ pos (suc (length entries)) ∷ []) =
      ap (λ u. Dict.lookup u b.series) t
      ∙ looked last.title
      ∙ ap nonempty all
      ∙ nonempty-snoc ids (pos (suc (length entries))) in
    subst (λ l. series_from board idid l b ≡ err index_error) (sym json)
      (series_from_fails board idid (entries ++ last ∷ []) e b f
        (series_fails e.title _ b known (metas_at_end ids b.metadata (suc (length entries)) count)))
