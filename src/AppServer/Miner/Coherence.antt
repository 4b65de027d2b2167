-- ===== src/AppServer/Miner/Coherence.antt =====
-- `Miner` of src/app_server/modules/miner.py against the miner server behind its proxy.
use pttarticle_recommander.Common.{
  ℕ, ◌+◌, ◌/◌, ◌≡◌, refl, sym, ap, subst, ◌∙◌, List, [], ◌∷◌, ◌++◌, length, All, All-append,
  All-drop, none, some, ltb, arith, Text, text_eq→eq, text_eq, Option-cases, Bool-cases, inl, inr,
  true,
}
use pttarticle_recommander.Common.Int.{eqb_ℤ→eq}
use pttarticle_recommander.Common.Results.{ok}
use pttarticle_recommander.Protocol.Types.DocIdentity.{DocIdentity}
use pttarticle_recommander.AppServer.Miner.{
  Remote, Entry, Miner, same_identity, cached_url, cached_identity, add_to_cache,
  ensure_cached_size_acceptable, keep_url, keep_identity, get_url_by_doc_identity,
  get_doc_identity_by_url,
}

-- What the app server relies on: the miner server answers from one mapping between urls and the
-- documents that it knows, and the answer for an unknown url is no known document.
pub record IsServed {W : Type 0} (remote : Remote W) (Known : DocIdentity → Type 0)
    (url_of : DocIdentity → Text) (id_of : Text → DocIdentity) : Type 0 where
  pub url_answer :
      (d : DocIdentity) (w : W) → Known d → (remote.get_url_by_doc_identity d w).0 ≡ ok (url_of d)
  pub id_answer : (u : Text) (w : W) → (remote.get_doc_identity_by_url u w).0 ≡ ok (id_of u)
  pub id_url : (d : DocIdentity) → Known d → id_of (url_of d) ≡ d
  pub url_id : (u : Text) → Known (id_of u) → url_of (id_of u) ≡ u

module _ {W : Type 0} (remote : Remote W) (max : ℕ) where
  url_hit :
      (d : DocIdentity) (u : Text) (m : Miner W)
      → cached_url d m.cache ≡ some u
      → get_url_by_doc_identity remote max d m ≡ (ok u, m)
  unfolding get_url_by_doc_identity
  url_hit d u m h = rw (h, get_url_by_doc_identity)

  url_miss :
      (d : DocIdentity) (u : Text) (m : Miner W)
      → cached_url d m.cache ≡ none
      → (remote.get_url_by_doc_identity d m.world).0 ≡ ok u
      → get_url_by_doc_identity remote max d m ≡ (
        ok u,
        record {
          cache = ensure_cached_size_acceptable max (add_to_cache u d m.cache);
          world = (remote.get_url_by_doc_identity d m.world).1;
        },
      )
  unfolding get_url_by_doc_identity keep_url
  url_miss d u m h p = rw (h, get_url_by_doc_identity) (rw (p, keep_url))

  identity_hit :
      (u : Text) (d : DocIdentity) (m : Miner W)
      → cached_identity u m.cache ≡ some d
      → get_doc_identity_by_url remote max u m ≡ (ok d, m)
  unfolding get_doc_identity_by_url
  identity_hit u d m h = rw (h, get_doc_identity_by_url)

  identity_miss :
      (u : Text) (d : DocIdentity) (m : Miner W)
      → cached_identity u m.cache ≡ none
      → (remote.get_doc_identity_by_url u m.world).0 ≡ ok d
      → get_doc_identity_by_url remote max u m ≡ (
        ok d,
        record {
          cache = ensure_cached_size_acceptable max (add_to_cache u d m.cache);
          world = (remote.get_doc_identity_by_url u m.world).1;
        },
      )
  unfolding get_doc_identity_by_url keep_identity
  identity_miss u d m h p = rw (h, get_doc_identity_by_url) (rw (p, keep_identity))

same_identity→eq : (d e : DocIdentity) → same_identity d e ≡ true → d ≡ e
unfolding same_identity
same_identity→eq d e h = ground (arith, text_eq→eq d.board e.board, eqb_ℤ→eq d.idid e.idid)

module _ {W : Type 0} {remote : Remote W} {Known : DocIdentity → Type 0}
    {url_of : DocIdentity → Text} {id_of : Text → DocIdentity}
    (served : IsServed remote Known url_of id_of) where
  -- An entry is what the server would answer, in both directions.
  abbrev IsCoherentEntry : Entry → Type 0
  IsCoherentEntry p = (id_of p.0 ≡ p.1) × (Known p.1 → url_of p.1 ≡ p.0)

  abbrev pub IsCoherent : Miner W → Type 0
  IsCoherent m = All IsCoherentEntry m.cache

  cached_url-coherent :
      (d : DocIdentity) (cache : List Entry) (u : Text)
      → Known d
      → All IsCoherentEntry cache
      → cached_url d cache ≡ some u
      → u ≡ url_of d
  unfolding cached_url
  cached_url-coherent d [] u k h p = cc
  cached_url-coherent d ((c_url, c_identity) ∷ rest) u k h p =
      elim (Bool-cases (same_identity d c_identity)) [
        | inl same ↦
            let e : d ≡ c_identity = same_identity→eq d c_identity same in
            let v : c_url ≡ u = ground (arith, same) in
            sym v ∙ sym (h.0.1 (subst Known e k)) ∙ ap url_of (sym e)
        | inr other ↦ cached_url-coherent d rest u k h.1 (ground (arith, other))
      ]

  cached_identity-coherent :
      (url : Text) (cache : List Entry) (d : DocIdentity)
      → All IsCoherentEntry cache
      → cached_identity url cache ≡ some d
      → d ≡ id_of url
  unfolding cached_identity
  cached_identity-coherent url [] d h p = cc
  cached_identity-coherent url ((c_url, c_identity) ∷ rest) d h p =
      elim (Bool-cases (text_eq url c_url)) [
        | inl same ↦
            let e : url ≡ c_url = text_eq→eq url c_url same in
            let v : c_identity ≡ d = ground (arith, same) in sym v ∙ sym h.0.0 ∙ ap id_of (sym e)
        | inr other ↦ cached_identity-coherent url rest d h.1 (ground (arith, other))
      ]

  ensure-coherent :
      (max : ℕ) (cache : List Entry) (u : Text) (d : DocIdentity)
      → All IsCoherentEntry cache
      → IsCoherentEntry (u, d)
      → All IsCoherentEntry (ensure_cached_size_acceptable max (add_to_cache u d cache))
  unfolding ensure_cached_size_acceptable add_to_cache
  ensure-coherent max cache u d h k =
      let longer = All-append IsCoherentEntry cache ((u, d) ∷ []) h (k, tt) in
      elim (Bool-cases (ltb max (length (cache ++ (u, d) ∷ [])))) [
        | inl full ↦ rw full (All-drop IsCoherentEntry ((max + 1) / 2) _ longer)
        | inr room ↦ rw room longer
      ]

  -- Over a miner server that answers from one mapping between urls and documents, and from a
  -- coherent cache of any size, the url of a known document is the one of that mapping, and the
  -- cache stays coherent.
  pub url_answer_lem :
      (max : ℕ) (d : DocIdentity) (m : Miner W)
      → Known d
      → IsCoherent m
      → ((get_url_by_doc_identity remote max d m).0 ≡ ok (url_of d))
        × IsCoherent (get_url_by_doc_identity remote max d m).1
  url_answer_lem max d m k h = elim (Option-cases (cached_url d m.cache)) [
    | inl missing ↦
        let e = url_miss remote max d (url_of d) m missing (served.url_answer d m.world k) in
        rw e (refl, ensure-coherent max m.cache (url_of d) d h (served.id_url d k, λ _. refl))
    | inr (u, found) ↦
        rw (url_hit remote max d u m found) (ap ok (cached_url-coherent d m.cache u k h found), h)
  ]

  -- Over a miner server that answers from one mapping between urls and documents, and from a
  -- coherent cache of any size, the identity of a url is the one of that mapping, and the cache
  -- stays coherent.
  pub identity_answer_lem :
      (max : ℕ) (u : Text) (m : Miner W)
      → IsCoherent m
      → ((get_doc_identity_by_url remote max u m).0 ≡ ok (id_of u))
        × IsCoherent (get_doc_identity_by_url remote max u m).1
  identity_answer_lem max u m h = elim (Option-cases (cached_identity u m.cache)) [
    | inl missing ↦
        let e = identity_miss remote max u (id_of u) m missing (served.id_answer u m.world) in
        rw e (refl, ensure-coherent max m.cache u (id_of u) h (refl, served.url_id u))
    | inr (d, found) ↦
        rw (identity_hit remote max u d m found)
          (ap ok (cached_identity-coherent u m.cache d h found), h)
  ]
