-- ===== src/Tests/Data.antt =====
-- Concrete values of the protocol and their bytes, a backend, and a network that holds bytes.
use pttarticle_recommander.Common.{
  ℕ, zero, suc, ◌≡◌, ◌≤◌, ◌<◌, ◌%◌, ◌/◌, refl, ap, List, [], ◌∷◌, ◌++◌, length, take, drop, arith,
  Text,
}
use pttarticle_recommander.Common.Int.{pos}
use pttarticle_recommander.Common.Results.{ok, err, attribute_error}
use pttarticle_recommander.Common.Exec.{pure}
use pttarticle_recommander.Protocol.Bytes.{Bytes, le_bytes, pack_unsigned, pack_signed}
use pttarticle_recommander.Protocol.Utf8.{encode_char, encode}
use pttarticle_recommander.Protocol.Net.PackageHeader.{PackageHeader}
use pttarticle_recommander.Protocol.Net.StringStruct
use pttarticle_recommander.Protocol.Net.IdentityStruct
use pttarticle_recommander.Protocol.Types.DocIdentity
use pttarticle_recommander.Protocol.Types.DocIdentity.{DocIdentity}
use pttarticle_recommander.Server.Backend.{Backend, list_value, iterator_value}
use pttarticle_recommander.AppServer.ProxyClient.{Socket}
use pttarticle_recommander.AppServer.ProxyClient.Stream.{Chunk, IsStream}

abbrev pub board : Text
board = 66 ∷ []

-- A url with a character that takes two bytes.
abbrev pub url : Text
url = 97 ∷ 0xe9 ∷ []

abbrev pub url_bytes : Bytes
url_bytes = 3 ∷ 0 ∷ 0 ∷ 0 ∷ 0 ∷ 0 ∷ 0 ∷ 0 ∷ 97 ∷ 0xc3 ∷ 0xa9 ∷ []

pub url-pack : StringStruct.pack url ≡ ok url_bytes
unfolding StringStruct.pack encode encode_char pack_unsigned le_bytes
url-pack = refl

abbrev pub board_bytes : Bytes
board_bytes = 1 ∷ 0 ∷ 0 ∷ 0 ∷ 0 ∷ 0 ∷ 0 ∷ 0 ∷ 66 ∷ []

pub board-pack : StringStruct.pack board ≡ ok board_bytes
unfolding StringStruct.pack encode encode_char pack_unsigned le_bytes
board-pack = refl

abbrev pub doc_id : DocIdentity
doc_id = record { board = board; idid = pos 7 }

abbrev pub doc_id_bytes : Bytes
doc_id_bytes = 1 ∷ 0 ∷ 0 ∷ 0 ∷ 0 ∷ 0 ∷ 0 ∷ 0 ∷ 66 ∷ 7 ∷ 0 ∷ 0 ∷ 0 ∷ []

pub doc_id-dump : DocIdentity.dump doc_id ≡ ok doc_id_bytes
unfolding DocIdentity.dump StringStruct.pack IdentityStruct.pack pack_signed encode encode_char
    pack_unsigned le_bytes
doc_id-dump = refl

abbrev pub header_of : ℕ → ℕ → PackageHeader
header_of typee size = record { typee = typee; size = size }

abbrev pub header_bytes : ℕ → ℕ → Bytes
header_bytes typee size =
    (typee % 256) ∷ (typee / 256) ∷ 0 ∷ 0 ∷ size ∷ 0 ∷ 0 ∷ 0 ∷ 0 ∷ 0 ∷ 0 ∷ 0 ∷ []

-- A backend that counts the calls.
abbrev pub counting_backend : Backend ℕ
counting_backend = record {
  get_max_id = λ b s. (ok (pos 7), suc s);
  get_doc_meta_data_after_id = λ b i s. (ok (list_value []), suc s);
  get_doc_meta_data_after_time = λ b t s. (ok (list_value []), suc s);
  get_doc_meta_data_of_author = λ b a s. (ok (iterator_value []), suc s);
  get_doc_meta_data_series = λ b i s. (ok (list_value []), suc s);
  get_doc_real_data = λ b i s. (err attribute_error, suc s);
  get_id_by_url = λ u s. (ok doc_id, suc s);
  get_url_by_id = λ b i s. (ok url, suc s);
}

-- A network that holds bytes, to which the peer adds its answer when something is sent.
abbrev pub answering : Bytes → Socket Bytes
answering answer = record {
  connect = pure tt;
  sendall = λ b w. (ok tt, w ++ answer);
  recv = λ n w. (ok (take n w), drop n w);
  close = pure tt;
}

module _ {A : Type 0} where
  pub take-drop : (n : ℕ) (xs : List A) → xs ≡ take n xs ++ drop n xs
  take-drop zero xs = refl
  take-drop (suc n) [] = refl
  take-drop (suc n) (x ∷ xs) = ap (λ l. x ∷ l) (take-drop n xs)

  pub length-take-le : (n : ℕ) (xs : List A) → length (take n xs) ≤ n
  length-take-le zero xs = omega arith
  length-take-le (suc n) [] = omega arith
  length-take-le (suc n) (x ∷ xs) = omega (arith, length-take-le n xs)

answering-Chunk :
    (answer : Bytes) (n : ℕ) (w : Bytes)
    → 0 < n
    → 0 < length w
    → Chunk (answering answer) (λ v. v) n w
answering-Chunk answer zero w h k = absurd (omega arith)
answering-Chunk answer (suc n) [] h k = absurd (omega arith)
answering-Chunk answer (suc n) (x ∷ w) h k = record {
  first = x;
  others = take n w;
  after = drop n w;
  returned = refl;
  fits = omega (arith, length-take-le n w);
  taken = ap (λ l. x ∷ l) (take-drop n w);
}

pub answering-IsStream : (answer : Bytes) → IsStream (answering answer) (λ v. v)
answering-IsStream answer = record { chunk = answering-Chunk answer }
