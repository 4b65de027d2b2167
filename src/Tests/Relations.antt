-- ===== src/Tests/Relations.antt =====
-- The theorems on the analyst and on the main handler at one related document.
use pttarticle_recommander.Common.{
  ℕ, suc, ◌≡◌, refl, [], ◌∷◌, ◌++◌, arith, Option, none, some, Text, text_eq,
}
use pttarticle_recommander.Common.Int.{ℤ, pos, negsuc}
use pttarticle_recommander.Common.Dict
use pttarticle_recommander.Common.Dict.{Dict}
use pttarticle_recommander.Common.Results.{Result, ok}
use pttarticle_recommander.Common.Exec.{Exec}
use pttarticle_recommander.Protocol.Bytes.{Bytes, le_bytes, pack_unsigned, pack_signed}
use pttarticle_recommander.Protocol.Utf8.{encode, encode_char}
use pttarticle_recommander.Protocol.Utf8.RoundTrip.{decode-encode}
use pttarticle_recommander.Protocol.PackageType.{query_doc_rel_info, reply_doc_rel_info}
use pttarticle_recommander.Protocol.Net.PackageHeader
use pttarticle_recommander.Protocol.Net.StringStruct
use pttarticle_recommander.Protocol.Net.IdentityStruct
use pttarticle_recommander.Protocol.Net.ArrayStruct
use pttarticle_recommander.Protocol.Types.DocIdentity
use pttarticle_recommander.Protocol.Types.DocIdentity.{DocIdentity}
use pttarticle_recommander.Protocol.Types.DocRelInfo
use pttarticle_recommander.Protocol.Types.DocRelInfo.{DocRelInfo}
use pttarticle_recommander.AppServer.Analysis.{Analysis, get_doc_rel_info}
use pttarticle_recommander.AppServer.Analysis.Answers.{IsAnalyst, IsCoherent, rel_info_answer_lem}
use pttarticle_recommander.AppServer.MainHandler.{
  Experts, Field, string_value, Query, object_query, Reply, url_token, handle_json,
}
use pttarticle_recommander.AppServer.HttpRequestHandler.{
  Request, json_response, root_path, json_type, do_post,
}
use pttarticle_recommander.AppServer.HttpRequestHandler.Answered.{IsPosted, known_url_posted}
use pttarticle_recommander.AppServer.MainHandler.Replies.{AreExperts}
use pttarticle_recommander.Tests.Data.{url, doc_id, doc_id_bytes, header_of, header_bytes}

abbrev info : DocRelInfo
info = record { pos_rel_docs = doc_id ∷ []; neg_rel_docs = []; neutral_rel_docs = [] }

abbrev info_bytes : Bytes
info_bytes =
    (1 ∷ 0 ∷ 0 ∷ 0 ∷ 0 ∷ 0 ∷ 0 ∷ 0 ∷ doc_id_bytes)
    ++ 0 ∷ 0 ∷ 0 ∷ 0 ∷ 0 ∷ 0 ∷ 0 ∷ 0 ∷ 0 ∷ 0 ∷ 0 ∷ 0 ∷ 0 ∷ 0 ∷ 0 ∷ 0 ∷ []

info-dump : DocRelInfo.dump info ≡ ok info_bytes
unfolding DocRelInfo.dump ArrayStruct.pack ArrayStruct.join DocIdentity.dump StringStruct.pack
    IdentityStruct.pack pack_signed encode encode_char pack_unsigned le_bytes
info-dump = refl

abbrev quiet : Bytes
quiet = []

query-dump :
    PackageHeader.dump (header_of query_doc_rel_info 13) ≡ ok (header_bytes query_doc_rel_info 13)
unfolding PackageHeader.dump pack_unsigned le_bytes
query-dump = refl

reply-dump :
    PackageHeader.dump (header_of reply_doc_rel_info 37) ≡ ok (header_bytes reply_doc_rel_info 37)
unfolding PackageHeader.dump pack_unsigned le_bytes
reply-dump = refl

abbrev answer : Bytes
answer = header_bytes reply_doc_rel_info 37 ++ info_bytes

abbrev number : Bytes
number = 7 ∷ 0 ∷ 0 ∷ 0 ∷ []

abbrev analyst : DocIdentity → Exec ℕ DocRelInfo
analyst d w = (ok info, suc w)

analyst-IsAnalyst : IsAnalyst analyst (λ d. info)
analyst-IsAnalyst = record { answer = λ d w. refl }

abbrev one_entry : Analysis ℕ
one_entry = record { cache = (doc_id, info) ∷ []; world = 0 }

abbrev other_id : DocIdentity
other_id = record { board = url; idid = pos 8 }

rel_info_answer_lem_example :
    ((get_doc_rel_info analyst 1 other_id one_entry).0 ≡ ok info)
    × IsCoherent (λ d. info) (get_doc_rel_info analyst 1 other_id one_entry).1
rel_info_answer_lem_example =
    rel_info_answer_lem analyst (λ d. info) 1 other_id one_entry analyst-IsAnalyst (refl, tt)

-- The miner knows every url but the empty one.
abbrev identity_of : Text → DocIdentity
identity_of [] = record { board = []; idid = negsuc 0 }
identity_of (c ∷ u) = doc_id

abbrev experts : Experts ℕ
experts = record {
  get_doc_identity_by_url = λ u s. (ok (identity_of u), suc s);
  get_url_by_doc_identity = λ d s. (ok url, suc s);
  get_doc_rel_info = analyst;
}

experts-AreExperts : AreExperts experts (λ d. url) (λ d. info)
experts-AreExperts = record { url_answer = λ d s. refl; info_answer = λ d s. refl }

abbrev asking : Text → Dict Field
asking u = (url_token, string_value u) ∷ []

asking-lookup : (u : Text) → Dict.lookup url_token (asking u) ≡ some (string_value u)
unfolding Dict.lookup text_eq
asking-lookup u = refl

-- A request whose body is the url itself, and replies that are written as the url.
abbrev request : Request
request = record {
  path = root_path;
  content_type = some json_type;
  content_length = none;
  body = 97 ∷ 0xc3 ∷ 0xa9 ∷ [];
}

abbrev three : Option Text → Result ℤ
three t = ok (pos 3)

abbrev load : Text → Result Query
load t = ok (object_query (asking t))

abbrev dump_url : Reply → Result Text
dump_url r = ok url

url-encode : encode url ≡ ok (97 ∷ 0xc3 ∷ 0xa9 ∷ [])
unfolding encode encode_char
url-encode = refl

request-IsPosted : IsPosted three load dump_url request (object_query (asking url))
request-IsPosted = record {
  path = refl;
  content_type = refl;
  length = pos 3;
  data_text = url;
  counted = refl;
  decoded = decode-encode url (97 ∷ 0xc3 ∷ 0xa9 ∷ []) url-encode;
  loaded = refl;
}

known_url_posted_example :
    (s : ℕ) × (do_post three load dump_url (handle_json experts) request 0
      ≡ (json_response (97 ∷ 0xc3 ∷ 0xa9 ∷ []), s))
known_url_posted_example =
    known_url_posted experts-AreExperts three load dump_url request (asking url) url doc_id
      (97 ∷ 0xc3 ∷ 0xa9 ∷ []) 0 1 request-IsPosted (asking-lookup url) refl (omega arith)
      (record { reply_text = url; dumped = refl; encoded = url-encode })
