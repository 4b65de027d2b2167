-- ===== src/Tests/Queries.antt =====
-- The delegator's theorems at a backend that counts the calls.
use pttarticle_recommander.Common.{slice, ◌≡◌, refl, [], ◌∷◌, some}
use pttarticle_recommander.Common.Results.{ok, err, protocol_error}
use pttarticle_recommander.Protocol.Bytes.{Bytes, unpack_unsigned}
use pttarticle_recommander.Protocol.PackageType.{query_max_id, query_url_by_id, reply_url_by_id}
use pttarticle_recommander.Protocol.Net.StringStruct
use pttarticle_recommander.Protocol.Codec.{unsigned_at}
use pttarticle_recommander.Server.Arguments.{
  string_struct, unpack_arg, text_arg, as_protocol_error, unpack_args, unpack_args_buf,
}
use pttarticle_recommander.Server.Delegator.{find, handle_package}
use pttarticle_recommander.Server.Delegator.Dispatch.{signatures, malformed}
use pttarticle_recommander.Server.Delegator.Answers.{answer-url_by_id}
use pttarticle_recommander.Tests.Data.{
  url, url_bytes, url-pack, doc_id, doc_id_bytes, doc_id-dump, counting_backend,
}

abbrev no_args : Bytes
no_args = []

nothing_to_unpack : unpack_args_buf no_args (string_struct ∷ []) ≡ err protocol_error
unfolding unpack_args_buf unpack_args unpack_arg as_protocol_error text_arg StringStruct.unpack
    unsigned_at unpack_unsigned slice
nothing_to_unpack = refl

max_id_signature : find query_max_id signatures ≡ some (string_struct ∷ [])
unfolding find
max_id_signature = refl

malformed_example : handle_package counting_backend query_max_id no_args 0 ≡ (err protocol_error, 0)
malformed_example =
    malformed counting_backend query_max_id (string_struct ∷ []) no_args 0 protocol_error
      max_id_signature nothing_to_unpack

answered :
    handle_package counting_backend query_url_by_id doc_id_bytes 0
    ≡ (ok (reply_url_by_id, url_bytes), 1)
answered =
    answer-url_by_id counting_backend doc_id doc_id_bytes url_bytes url 0 1 doc_id-dump refl
      url-pack
