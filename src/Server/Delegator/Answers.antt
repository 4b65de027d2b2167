-- ===== src/Server/Delegator/Answers.antt =====
-- What the delegator of src/miner/modules/server.py answers to the two queries of the app server.
use pttarticle_recommander.Common.{◌≡◌, [], ◌∷◌, append-nil, Text}
use pttarticle_recommander.Common.Results.{ok, >>=-eq-ok}
use pttarticle_recommander.Protocol.Bytes.{Bytes}
use pttarticle_recommander.Protocol.PackageType.{
  query_id_by_url, query_url_by_id, reply_id_by_url, reply_url_by_id,
}
use pttarticle_recommander.Protocol.Net.StringStruct
use pttarticle_recommander.Protocol.Net.IdentityStruct
use pttarticle_recommander.Protocol.Types.DocIdentity
use pttarticle_recommander.Protocol.Types.DocIdentity.{DocIdentity}
use pttarticle_recommander.Server.Backend.{Backend}
use pttarticle_recommander.Server.Arguments.{
  text, number, string_struct, identity_struct, unpack_args_buf,
}
use pttarticle_recommander.Server.Arguments.Packed.{pack_args, unpack_args_buf-pack_args}
use pttarticle_recommander.Server.Delegator.{
  handle_query_id_by_url, handle_query_url_by_id, handlers, find, handle_package,
}

unpack_args_buf-identity :
    (d : DocIdentity) (buf : Bytes)
    → DocIdentity.dump d ≡ ok buf
    → unpack_args_buf buf (string_struct ∷ identity_struct ∷ [])
      ≡ ok (text d.board ∷ number d.idid ∷ [])
unpack_args_buf-identity d buf p = unpack_args_buf-pack_args _ _ buf packed
  where
    packed :
        pack_args (string_struct ∷ identity_struct ∷ []) (text d.board ∷ number d.idid ∷ [])
        ≡ ok buf
    packed =
        unfold DocIdentity.dump in
        let (x, e, p') = >>=-eq-ok (StringStruct.pack d.board) _ p in
        let (y, q, r) = >>=-eq-ok (IdentityStruct.pack d.idid) _ p' in rw (e, q, append-nil y) r

unpack_args_buf-url :
    (url : Text) (buf : Bytes)
    → StringStruct.pack url ≡ ok buf
    → unpack_args_buf buf (string_struct ∷ []) ≡ ok (text url ∷ [])
unpack_args_buf-url url buf p =
    unpack_args_buf-pack_args (string_struct ∷ []) (text url ∷ []) buf (rw (p, append-nil buf))

module _ {S : Type 0} (backend : Backend S) where
  -- The query for an identity's url is answered by the packed url that the backend returns for
  -- that board and id, if it returns one that can be packed.
  pub answer-url_by_id :
      (d : DocIdentity) (buf out : Bytes) (url : Text) (s s' : S)
      → DocIdentity.dump d ≡ ok buf
      → backend.get_url_by_id d.board d.idid s ≡ (ok url, s')
      → StringStruct.pack url ≡ ok out
      → handle_package backend query_url_by_id buf s ≡ (ok (reply_url_by_id, out), s')
  unfolding handle_package find handlers handle_query_url_by_id
  answer-url_by_id d buf out url s s' p b q = rw (unpack_args_buf-identity d buf p, b, q)

  -- The query for a url's identity is answered by the dump of what the backend returns for that
  -- url, if it returns an identity that can be dumped.
  pub answer-id_by_url :
      (url : Text) (buf out : Bytes) (d : DocIdentity) (s s' : S)
      → StringStruct.pack url ≡ ok buf
      → backend.get_id_by_url url s ≡ (ok d, s')
      → DocIdentity.dump d ≡ ok out
      → handle_package backend query_id_by_url buf s ≡ (ok (reply_id_by_url, out), s')
  unfolding handle_package find handlers handle_query_id_by_url
  answer-id_by_url url buf out d s s' p b q = rw (unpack_args_buf-url url buf p, b, q)
