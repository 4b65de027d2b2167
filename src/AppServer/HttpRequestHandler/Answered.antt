-- ===== src/AppServer/HttpRequestHandler/Answered.antt =====
-- What `HTTPRequestHandler.do_POST` of src/app_server/modules/http_request_handler.py answers, and what it comes to
-- over `MainHandler`.
use pttarticle_recommander.Common.{◌≡◌, refl, map, Option, some, Text, text_eq_refl}
use pttarticle_recommander.Common.Int.{ℤ, pos, ◌≤ℤ◌}
use pttarticle_recommander.Common.Dict
use pttarticle_recommander.Common.Dict.{Dict}
use pttarticle_recommander.Common.Results.{Result, ok}
use pttarticle_recommander.Common.Exec.{Exec}
use pttarticle_recommander.Protocol.Bytes.{Bytes}
use pttarticle_recommander.Protocol.Utf8.{encode, decode}
use pttarticle_recommander.Protocol.Types.DocIdentity.{DocIdentity}
use pttarticle_recommander.Protocol.Types.DocRelInfo.{DocRelInfo}
use pttarticle_recommander.AppServer.MainHandler.{
  Experts, Field, string_value, Query, object_query, Reply, links_reply, url_token, handle_json,
}
use pttarticle_recommander.AppServer.MainHandler.Replies.{AreExperts, link_to, known_url}
use pttarticle_recommander.AppServer.HttpRequestHandler.{
  Request, json_response, root_path, json_type, read, answer, respond, do_post,
}

module _ {Q R : Type 0} (int : Option Text → Result ℤ) (loads : Text → Result Q)
    (dumps : R → Result Text) where
  -- A request that is the JSON text of an object.
  pub record IsPosted (request : Request) (obj : Q) : Type 0 where
    pub path : request.path ≡ root_path
    pub content_type : request.content_type ≡ some json_type
    pub length : ℤ
    pub data_text : Text
    pub counted : int request.content_length ≡ ok length
    pub decoded : decode (read length request.body) ≡ ok data_text
    pub loaded : loads data_text ≡ ok obj

  -- The bytes of the JSON text of a reply.
  pub record IsDumped (reply : R) (content : Bytes) : Type 0 where
    pub reply_text : Text
    pub dumped : dumps reply ≡ ok reply_text
    pub encoded : encode reply_text ≡ ok content

  posted_answered :
      {S : Type 0} (handle : Q → Exec S R) (request : Request) (obj : Q) (reply : R)
      (content : Bytes) (s s' : S)
      → IsPosted request obj
      → handle obj s ≡ (ok reply, s')
      → IsDumped reply content
      → do_post int loads dumps handle request s ≡ (json_response content, s')
  unfolding do_post respond answer
  posted_answered handle request obj reply content s s' p h d =
      rw
        (
          p.path,
          p.content_type,
          text_eq_refl root_path,
          text_eq_refl json_type,
          p.counted,
          p.decoded,
          p.loaded,
          h,
          d.dumped,
          d.encoded,
        )
        refl

module _ {S : Type 0} {experts : Experts S} {url_of : DocIdentity → Text}
    {info_of : DocIdentity → DocRelInfo} (given : AreExperts experts url_of info_of)
    (int : Option Text → Result ℤ) (loads : Text → Result Query) (dumps : Reply → Result Text) where
  -- The links to the documents that are related to a document.
  abbrev pub related : DocIdentity → Reply
  related d =
      links_reply (map link_to (map url_of (info_of d).pos_rel_docs))
        (map link_to (map url_of (info_of d).neg_rel_docs))
        (map link_to (map url_of (info_of d).neutral_rel_docs))

  -- A POST of a JSON object with the url of a known document is answered with the status 200
  -- and the JSON text of a reply that links, under each key and in the analyst's order, the
  -- urls of all documents that the analyst relates to the document, if this text can be dumped
  -- and encoded, and miner and analyst answer by functions of the identity.
  pub known_url_posted :
      (request : Request) (fields : Dict Field) (url : Text) (d : DocIdentity) (content : Bytes)
      (s s' : S)
      → IsPosted int loads dumps request (object_query fields)
      → Dict.lookup url_token fields ≡ some (string_value url)
      → experts.get_doc_identity_by_url url s ≡ (ok d, s')
      → pos 0 ≤ℤ d.idid
      → IsDumped int loads dumps (related d) content
      → (s'' : S) × (do_post int loads dumps (handle_json experts) request s
          ≡ (json_response content, s''))
  known_url_posted request fields url d content s s' p l q h e =
      let (s'', r) = known_url given fields url d s s' l q h in
      (
        s'',
        posted_answered int loads dumps (handle_json experts) request (object_query fields)
            (related d) content s s'' p r e,
      )
