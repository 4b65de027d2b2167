-- ===== src/Tests/Network.antt =====
-- The app server's theorems at a network that holds bytes and at a miner server that knows one
-- document.
use pttarticle_recommander.Common.{
  ℕ, suc, ◌≡◌, ◌≤◌, ◌<◌, refl, sym, ap, ◌∙◌, Bool, true, false, Bool-cases, inl, inr, text_eq→eq,
  [], ◌∷◌, ◌++◌, length, arith, Text, text_eq,
}
use pttarticle_recommander.Common.Int.{negsuc, pos_part}
use pttarticle_recommander.Common.Results.{ok}
use pttarticle_recommander.Protocol.Bytes.{Bytes, le_bytes, pack_unsigned}
use pttarticle_recommander.Protocol.PackageType.{
  query_url_by_id, reply_url_by_id, query_id_by_url, reply_id_by_url,
}
use pttarticle_recommander.Protocol.Net.PackageHeader
use pttarticle_recommander.Protocol.Types.DocIdentity.{DocIdentity}
use pttarticle_recommander.Server.Delegator.{handle_package}
use pttarticle_recommander.Server.Delegator.Answers.{answer-url_by_id, answer-id_by_url}
use pttarticle_recommander.AppServer.MinerProxy
use pttarticle_recommander.AppServer.MinerProxy.RoundTrip.{url_by_identity, identity_by_url}
use pttarticle_recommander.AppServer.Miner.{
  Remote, Miner, get_url_by_doc_identity, get_doc_identity_by_url,
}
use pttarticle_recommander.AppServer.Miner.Bounds.{queries-le}
use pttarticle_recommander.AppServer.Miner.Coherence.{
  IsServed, IsCoherent, url_answer_lem, identity_answer_lem,
}
use pttarticle_recommander.Tests.Data.{
  url, url_bytes, url-pack, doc_id, doc_id_bytes, doc_id-dump, header_of, header_bytes,
  counting_backend, answering, answering-IsStream,
}

abbrev quiet : Bytes
quiet = []

header-dump :
    (t n : ℕ) → t < 65536 → n < 256 → PackageHeader.dump (header_of t n) ≡ ok (header_bytes t n)
unfolding PackageHeader.dump pack_unsigned le_bytes
header-dump t n h k = ground arith

abbrev url_answer : Bytes
url_answer = header_bytes reply_url_by_id 11 ++ url_bytes

url_answered :
    handle_package counting_backend query_url_by_id doc_id_bytes 0
    ≡ (ok (reply_url_by_id, url_bytes), 1)
url_answered =
    answer-url_by_id counting_backend doc_id doc_id_bytes url_bytes url 0 1 doc_id-dump refl
      url-pack

url_by_identity_example :
    (w : Bytes) × (MinerProxy.get_url_by_doc_identity (answering url_answer) doc_id quiet
      ≡ (ok url, w))
    × (w ≡ [])
url_by_identity_example =
    url_by_identity (answering-IsStream url_answer) counting_backend doc_id url doc_id_bytes
      (header_bytes query_url_by_id 13) url_bytes url_bytes reply_url_by_id
      (header_bytes reply_url_by_id 11) [] quiet url_answer 0 1 doc_id-dump
      (header-dump query_url_by_id 13 (omega arith) (omega arith)) refl url_answered
      (header-dump reply_url_by_id 11 (omega arith) (omega arith)) refl refl url-pack

abbrev identity_answer : Bytes
identity_answer = header_bytes reply_id_by_url 13 ++ doc_id_bytes

identity_answered :
    handle_package counting_backend query_id_by_url url_bytes 0
    ≡ (ok (reply_id_by_url, doc_id_bytes), 1)
identity_answered =
    answer-id_by_url counting_backend url url_bytes doc_id_bytes doc_id 0 1 url-pack refl
      doc_id-dump

identity_by_url_example :
    (w : Bytes) × (MinerProxy.get_doc_identity_by_url (answering identity_answer) url quiet
      ≡ (ok doc_id, w))
    × (w ≡ [])
identity_by_url_example =
    identity_by_url (answering-IsStream identity_answer) counting_backend url doc_id url_bytes
      (header_bytes query_id_by_url 11) doc_id_bytes doc_id_bytes reply_id_by_url
      (header_bytes reply_id_by_url 13) [] quiet identity_answer 0 1 url-pack
      (header-dump query_id_by_url 11 (omega arith) (omega arith)) refl identity_answered
      (header-dump reply_id_by_url 13 (omega arith) (omega arith)) refl refl doc_id-dump

-- A document that no board has.
abbrev unknown : DocIdentity
unknown = record { board = []; idid = negsuc 0 }

abbrev known_identity : Bool → DocIdentity
known_identity true = doc_id
known_identity false = unknown

abbrev id_of : Text → DocIdentity
id_of u = known_identity (text_eq u url)

abbrev IsDocument : DocIdentity → Type 0
IsDocument d = doc_id ≡ d

abbrev url_of : DocIdentity → Text
url_of d = url

abbrev one_document : Remote ℕ
one_document = record {
  get_url_by_doc_identity = λ d w. (ok url, suc w);
  get_doc_identity_by_url = λ u w. (ok (id_of u), suc w);
}

unknown-not_document : ¬ (doc_id ≡ unknown)
unknown-not_document e = absurd (omega (arith, ap (λ d. pos_part d.idid) e))

one_document-IsServed : IsServed one_document IsDocument url_of id_of
unfolding text_eq
one_document-IsServed = record {
  url_answer = λ d w k. refl;
  id_answer = λ u w. refl;
  id_url = λ d k. k;
  url_id = λ u k. elim (Bool-cases (text_eq u url)) [
    | inl same ↦ sym (text_eq→eq u url same)
    | inr other ↦ absurd (unknown-not_document (k ∙ ap known_identity other))
  ];
}

abbrev two_entries : Miner ℕ
two_entries = record { cache = (98 ∷ [], unknown) ∷ (url, doc_id) ∷ []; world = 0 }

two_entries-IsCoherent : IsCoherent one_document-IsServed two_entries
unfolding text_eq
two_entries-IsCoherent = ((refl, λ k. absurd (unknown-not_document k)), ((refl, λ k. refl), tt))

url_answer_lem_example :
    ((get_url_by_doc_identity one_document 2 doc_id two_entries).0 ≡ ok url)
    × IsCoherent one_document-IsServed (get_url_by_doc_identity one_document 2 doc_id two_entries).1
url_answer_lem_example =
    url_answer_lem one_document-IsServed 2 doc_id two_entries refl two_entries-IsCoherent

identity_answer_lem_example :
    ((get_doc_identity_by_url one_document 2 (99 ∷ []) two_entries).0 ≡ ok (id_of (99 ∷ [])))
    × IsCoherent one_document-IsServed
        (get_doc_identity_by_url one_document 2 (99 ∷ []) two_entries).1
identity_answer_lem_example =
    identity_answer_lem one_document-IsServed 2 (99 ∷ []) two_entries two_entries-IsCoherent

queries-le_example :
    (length (get_url_by_doc_identity one_document 2 doc_id two_entries).1.cache ≤ 2)
    × (length (get_doc_identity_by_url one_document 2 (99 ∷ []) two_entries).1.cache ≤ 2)
queries-le_example =
    queries-le one_document 2 doc_id (99 ∷ []) two_entries (omega arith) (omega arith)
