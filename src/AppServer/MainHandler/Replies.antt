-- ===== src/AppServer/MainHandler/Replies.antt =====
-- What `MainHandler.handle_json` of src/app_server/modules/main_handler.py replies.
use pttarticle_recommander.Common.{
  ◌≡◌, refl, ap, ◌∙◌, List, [], ◌∷◌, map, some, Text, arith, true, false,
}
use pttarticle_recommander.Common.Int.{pos, ltb_ℤ, ◌<ℤ◌, ◌≤ℤ◌}
use pttarticle_recommander.Common.Dict
use pttarticle_recommander.Common.Dict.{Dict}
use pttarticle_recommander.Common.Results.{ok}
use pttarticle_recommander.Protocol.Types.DocIdentity.{DocIdentity}
use pttarticle_recommander.Protocol.Types.DocRelInfo.{DocRelInfo}
use pttarticle_recommander.AppServer.MainHandler.{
  Experts, Field, string_value, object_query, Link, empty_reply, links_reply, url_token, filt,
  url_field, identify, link, links, relate, handle_json,
}

-- The link to a url.
abbrev pub link_to : Text → Link
link_to url = (url_token, url) ∷ []

filt-map-link_to : (urls : List Text) → filt (map link_to urls) ≡ map link_to urls
unfolding filt
filt-map-link_to [] = refl
filt-map-link_to (url ∷ urls) = ap (λ l. link_to url ∷ l) (filt-map-link_to urls)

url_field_lem :
    {S : Type 0} (fields : Dict Field) (field : Field) (s : S)
    → Dict.lookup url_token fields ≡ some field
    → url_field (object_query fields) s ≡ (ok field, s)
unfolding url_field
url_field_lem fields field s e = rw (e, url_field)

module _ {S : Type 0} (experts : Experts S) where
  handle_json_relates :
      (fields : Dict Field) (url : Text) (d : DocIdentity) (s s' : S)
      → Dict.lookup url_token fields ≡ some (string_value url)
      → experts.get_doc_identity_by_url url s ≡ (ok d, s')
      → pos 0 ≤ℤ d.idid
      → handle_json experts (object_query fields) s ≡ relate experts d s'
  unfolding handle_json identify
  handle_json_relates fields url d s s' p q h =
      let e : ltb_ℤ d.idid (pos 0) ≡ false = ground arith in
      rw (url_field_lem fields (string_value url) s p, q, e)

  -- For a url to which the miner answers a negative identity, the reply is empty, and nothing is
  -- asked after that answer.
  pub unknown_url :
      (fields : Dict Field) (url : Text) (d : DocIdentity) (s s' : S)
      → Dict.lookup url_token fields ≡ some (string_value url)
      → experts.get_doc_identity_by_url url s ≡ (ok d, s')
      → d.idid <ℤ pos 0
      → handle_json experts (object_query fields) s ≡ (ok empty_reply, s')
  unfolding handle_json identify
  unknown_url fields url d s s' p q h =
      let e : ltb_ℤ d.idid (pos 0) ≡ true = ground arith in
      rw (url_field_lem fields (string_value url) s p, q, e)

-- The miner answers about identities and the analyst about documents, whatever was asked before.
pub record AreExperts {S : Type 0} (experts : Experts S) (url_of : DocIdentity → Text)
    (info_of : DocIdentity → DocRelInfo) : Type 0 where
  pub url_answer :
      (d : DocIdentity) (s : S) → (experts.get_url_by_doc_identity d s).0 ≡ ok (url_of d)
  pub info_answer : (d : DocIdentity) (s : S) → (experts.get_doc_rel_info d s).0 ≡ ok (info_of d)

module _ {S : Type 0} {experts : Experts S} {url_of : DocIdentity → Text}
    {info_of : DocIdentity → DocRelInfo} (given : AreExperts experts url_of info_of) where
  abbrev pub urls_of : List DocIdentity → List Text
  urls_of docs = map url_of docs

  links_step :
      (d : DocIdentity) (docs : List DocIdentity) (arr : List Link) (s s' : S)
      → links experts docs (experts.get_url_by_doc_identity d s).1 ≡ (ok arr, s')
      → links experts (d ∷ docs) s ≡ (ok (link_to (url_of d) ∷ arr), s')
  unfolding links link
  links_step d docs arr s s' p = rw (given.url_answer d s, p)

  links-urls :
      (docs : List DocIdentity) (s : S)
      → (s' : S) × (links experts docs s ≡ (ok (map link_to (urls_of docs)), s'))
  links-urls [] s = (s, unfold links in refl)
  links-urls (d ∷ docs) s =
      let (s', p) = links-urls docs (experts.get_url_by_doc_identity d s).1 in
      (s', links_step d docs (map link_to (urls_of docs)) s s' p)

  relate_steps :
      (d : DocIdentity) (x y z : List Link) (s s₁ s₂ s₃ : S)
      → links experts (info_of d).pos_rel_docs (experts.get_doc_rel_info d s).1 ≡ (ok x, s₁)
      → links experts (info_of d).neg_rel_docs s₁ ≡ (ok y, s₂)
      → links experts (info_of d).neutral_rel_docs s₂ ≡ (ok z, s₃)
      → relate experts d s ≡ (ok (links_reply (filt x) (filt y) (filt z)), s₃)
  unfolding relate
  relate_steps d x y z s s₁ s₂ s₃ p q r = rw (given.info_answer d s, p, q, r)

  -- For a url of a known document, the reply of `handle_json` links, under each key and in the
  -- analyst's order, the urls of all documents that the analyst relates to it, if miner and
  -- analyst answer by functions of the identity.
  pub known_url :
      (fields : Dict Field) (url : Text) (d : DocIdentity) (s s' : S)
      → Dict.lookup url_token fields ≡ some (string_value url)
      → experts.get_doc_identity_by_url url s ≡ (ok d, s')
      → pos 0 ≤ℤ d.idid
      → (s'' : S) × (handle_json experts (object_query fields) s ≡ (
        ok (
            links_reply
              (map link_to (urls_of (info_of d).pos_rel_docs))
              (map link_to (urls_of (info_of d).neg_rel_docs))
              (map link_to (urls_of (info_of d).neutral_rel_docs))),
        s'',
      ))
  known_url fields url d s s' p q h =
      let (s₁, x) = links-urls (info_of d).pos_rel_docs (experts.get_doc_rel_info d s').1 in
      let (s₂, y) = links-urls (info_of d).neg_rel_docs s₁ in
      let (s₃, z) = links-urls (info_of d).neutral_rel_docs s₂ in
      (
        s₃,
        handle_json_relates experts fields url d s s' p q h
            ∙ relate_steps d _ _ _ s' s₁ s₂ s₃ x y z
            ∙ rw
                (
                  filt-map-link_to (urls_of (info_of d).pos_rel_docs),
                  filt-map-link_to (urls_of (info_of d).neg_rel_docs),
                  filt-map-link_to (urls_of (info_of d).neutral_rel_docs),
                )
                refl,
      )
