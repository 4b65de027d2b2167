-- ===== src/AppServer/HttpRequestHandler.antt =====
-- `HTTPRequestHandler.do_POST` of src/app_server/modules/http_request_handler.py. The formats of the
-- `json` module and `int` are parameters, and so is the real handler.
pub mod Answered
use pttarticle_recommander.Common.{
  [], ◌∷◌, Option, none, some, Text, text_eq, take, Bool, false, not, ◌||◌, if◌then◌else◌,
}
use pttarticle_recommander.Common.Int.{ℤ, pos, negsuc}
use pttarticle_recommander.Common.Results.{Result, ok, err}
use pttarticle_recommander.Common.Exec.{Exec, lift, ◌>>=◌}
use pttarticle_recommander.Protocol.Bytes.{Bytes}
use pttarticle_recommander.Protocol.Utf8.{encode, decode}

-- A header that is missing is `None`; `body` is what can be read until the peer closes.
pub record Request : Type 0 where
  pub path : Text
  pub content_type : Option Text
  pub content_length : Option Text
  pub body : Bytes

-- The status 400 and nothing else, or the status 200 with a content.
pub data Response : Type 0 where
  bad_request : Response
  json_response : Bytes → Response

-- '/'
abbrev pub root_path : Text
root_path = 47 ∷ []

-- 'application/json'
abbrev pub json_type : Text
json_type =
    97 ∷ 112 ∷ 112 ∷ 108 ∷ 105 ∷ 99 ∷ 97 ∷ 116 ∷ 105 ∷ 111 ∷ 110 ∷ 47 ∷ 106 ∷ 115 ∷ 111 ∷ 110 ∷ []

abbrev pub is_json : Option Text → Bool
is_json none = false
is_json (some content_type) = text_eq content_type json_type

-- `self.rfile.read(length)`: a negative length reads to the end.
abbrev pub read : ℤ → Bytes → Bytes
read (pos n) body = take n body
read (negsuc n) body = body

module _ {Q R S : Type 0} (int : Option Text → Result ℤ) (loads : Text → Result Q)
    (dumps : R → Result Text) (handle_json : Q → Exec S R) where
  -- The body of the `try`.
  unfoldable pub answer : Request → Exec S Bytes
  answer request = do
    length ← lift (int request.content_length)
    data_text ← lift (decode (read length request.body))
    obj ← lift (loads data_text)
    ret ← handle_json obj
    reply ← lift (dumps ret)
    lift (encode reply)

  -- `except Exception` answers whatever was raised.
  unfoldable pub respond : Result Bytes × S → Response × S
  respond (ok reply, s) = (json_response reply, s)
  respond (err e, s) = (bad_request, s)

  unfoldable pub do_post : Request → S → Response × S
  do_post request s =
      if not (text_eq request.path root_path) || not (is_json request.content_type)
      then (bad_request, s)
      else respond (answer request s)
