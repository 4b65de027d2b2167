-- ===== src/FirstMiner/Build/Series.antt =====
-- The series that `BuildData` of src/miner/modules/build.py makes of the titles.
use pttarticle_recommander.Common.{
  suc, ◌≡◌, refl, sym, ap, subst, ◌∙◌, List, [], ◌∷◌, ◌++◌, length, append_assoc, append-nil,
  Option, none, some, Text, text_eq, text_eq→eq, text_eq_refl, true, false, Bool-cases, inl, inr,
  if◌then◌else◌,
}
use pttarticle_recommander.Common.Int.{ℤ}
use pttarticle_recommander.Common.Dict
use pttarticle_recommander.Common.Dict.{Dict, text_eq→ne}
use pttarticle_recommander.Common.Results.{ok, >>=-eq-ok}
use pttarticle_recommander.Protocol.Types.DocMetaData.{DocMetaData}
use pttarticle_recommander.FirstMiner.Build.{
  Entry, BuildData, first_id, add_id, metadata_of, build_from, init,
}

-- The identities of the entries with a title, in their order.
unfoldable pub titled : Text → List Entry → List ℤ
titled title [] = []
titled title (e ∷ entries) =
    let rest = titled title entries in if text_eq e.title title then e.id ∷ rest else rest

pub titled-append :
    (title : Text) (xs ys : List Entry)
    → titled title (xs ++ ys) ≡ titled title xs ++ titled title ys
unfolding titled
titled-append title [] ys = refl
titled-append title (e ∷ xs) ys =
    let rest = titled-append title xs ys in
    elim (Bool-cases (text_eq e.title title)) [
      | inl p ↦ rw p (ap (λ l. e.id ∷ l) rest)
      | inr p ↦ rw p rest
    ]

-- A dictionary has no empty lists.
abbrev pub nonempty : List ℤ → Option (List ℤ)
nonempty [] = none
nonempty (i ∷ ids) = some (i ∷ ids)

pub nonempty-snoc : (ids : List ℤ) (i : ℤ) → nonempty (ids ++ i ∷ []) ≡ some (ids ++ i ∷ [])
nonempty-snoc [] i = refl
nonempty-snoc (j ∷ ids) i = refl

-- The dictionary has the identities of the entries so far, by title.
record IsSeries (d : Dict (List ℤ)) (done : List Entry) : Type 0 where
  pub looked : (title : Text) → Dict.lookup title d ≡ nonempty (titled title done)

nothing-IsSeries : IsSeries [] []
unfolding Dict.lookup titled
nothing-IsSeries = record { looked = λ title. refl }

pub titled_one :
    (e : Entry) (title : Text) → text_eq e.title title ≡ true → titled title (e ∷ []) ≡ e.id ∷ []
unfolding titled
titled_one e title p = rw p refl

titled_other :
    (e : Entry) (title : Text) → text_eq e.title title ≡ false → titled title (e ∷ []) ≡ []
unfolding titled
titled_other e title p = rw p refl

add_id_known :
    (e : Entry) (d : Dict (List ℤ)) (ids : List ℤ)
    → Dict.lookup e.title d ≡ some ids
    → add_id e d ≡ Dict.insert e.title (ids ++ e.id ∷ []) d
unfolding add_id
add_id_known e d ids p = rw (p, add_id)

add_id_new :
    (e : Entry) (d : Dict (List ℤ))
    → Dict.lookup e.title d ≡ none
    → add_id e d ≡ Dict.insert e.title (e.id ∷ []) d
unfolding add_id
add_id_new e d p = rw (p, add_id)

-- Whether the title is new or not, the entry's identity is put behind those that it has.
add_id_lem :
    (e : Entry) (d : Dict (List ℤ)) (done : List Entry)
    → IsSeries d done
    → add_id e d ≡ Dict.insert e.title (titled e.title done ++ e.id ∷ []) d
add_id_lem e d done s = go (titled e.title done) (s.looked e.title)
  where
    go :
        (ids : List ℤ)
        → Dict.lookup e.title d ≡ nonempty ids
        → add_id e d ≡ Dict.insert e.title (ids ++ e.id ∷ []) d
    go [] p = add_id_new e d p
    go (i ∷ ids) p = add_id_known e d (i ∷ ids) p

add_id-IsSeries :
    (e : Entry) (d : Dict (List ℤ)) (done : List Entry)
    → IsSeries d done
    → IsSeries (add_id e d) (done ++ e ∷ [])
add_id-IsSeries e d done s = record {
  looked = λ title. elim (Bool-cases (text_eq e.title title)) [
    | inl p ↦
        let same : e.title ≡ title = text_eq→eq e.title title p in
        subst (λ t. Dict.lookup t (add_id e d) ≡ nonempty (titled t (done ++ e ∷ []))) same
          (ap (λ m. Dict.lookup e.title m) (add_id_lem e d done s)
            ∙ Dict.lookup-insert_self e.title (titled e.title done ++ e.id ∷ []) d
            ∙ sym (nonempty-snoc (titled e.title done) e.id)
            ∙ ap nonempty (
                sym (
                  titled-append e.title done (e ∷ [])
                  ∙ ap (λ l. titled e.title done ++ l)
                      (titled_one e e.title (text_eq_refl e.title)))))
    | inr p ↦
        ap (λ m. Dict.lookup title m) (add_id_lem e d done s)
        ∙ Dict.lookup-insert_ne e.title title (titled e.title done ++ e.id ∷ []) d
            (text_eq→ne e.title title p)
        ∙ s.looked title
        ∙ ap nonempty (
            sym (
              titled-append title done (e ∷ [])
              ∙ ap (λ l. titled title done ++ l) (titled_other e title p)
              ∙ append-nil (titled title done)))
  ];
}

module _ (int : Text → Option ℤ) where
  -- What the loop of `__init__` has made.
  record Built (done entries : List Entry) (metas : List DocMetaData) (d : Dict (List ℤ))
      : Type 0 where
    pub size : length metas ≡ length entries
    pub series : IsSeries d (done ++ entries)

  build_from-Built :
      (done entries : List Entry) (d : Dict (List ℤ))
      → (metas : List DocMetaData) (d' : Dict (List ℤ)) → IsSeries d done
      → build_from int entries d ≡ ok (metas, d')
      → Built done entries metas d'
  unfolding build_from
  build_from-Built done [] d metas d' s p =
      let m : [] ≡ metas = cc in
      let e : d ≡ d' = cc in
      record {
        size = ap length (sym m);
        series =
            subst (λ t. IsSeries t (done ++ [])) e
              (subst (λ l. IsSeries d l) (sym (append-nil done)) s);
      }
  build_from-Built done (e ∷ entries) d metas d' s p =
      let (rid, p₁, q₁) = >>=-eq-ok (first_id e d) _ p in
      let (meta, p₂, q₂) = >>=-eq-ok (metadata_of int rid e) _ q₁ in
      let ((ms, d₁), p₃, q₃) = >>=-eq-ok (build_from int entries (add_id e d)) _ q₂ in
      let rest =
        build_from-Built (done ++ e ∷ []) entries (add_id e d) ms d₁ (add_id-IsSeries e d done s)
          p₃ in
      let m : meta ∷ ms ≡ metas = cc in
      let k : d₁ ≡ d' = cc in
      record {
        size = ap length (sym m) ∙ ap suc rest.size;
        series =
            subst (λ t. IsSeries t (done ++ e ∷ entries)) k
              (subst (λ l. IsSeries d₁ l) (append_assoc done (e ∷ []) entries) rest.series);
      }

-- When `__init__` succeeds, there is a metadata for each entry, and each title's series holds
-- the identities of all entries with the title, in their order.
pub series_titled :
    (int : Text → Option ℤ) (entries : List Entry) (b : BuildData)
    → init int entries ≡ ok b
    → (b.jsondata ≡ entries)
      × (length b.metadata ≡ length entries)
      × ((title : Text) → Dict.lookup title b.series ≡ nonempty (titled title entries))
unfolding init
series_titled int entries b p =
    let ((metas, d), q, r) = >>=-eq-ok (build_from int entries []) _ p in
    let built = build_from-Built int [] entries [] metas d nothing-IsSeries q in
    let same : record { jsondata = entries; metadata = metas; series = d } ≡ b = cc in
    (
      sym (ap (λ t. t.jsondata) same),
      ap (λ t. length t.metadata) (sym same) ∙ built.size,
      λ title. ap (λ t. Dict.lookup title t.series) (sym same) ∙ built.series.looked title,
    )
