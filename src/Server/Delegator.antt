-- ===== src/Server/Delegator.antt =====
-- `_Delegator` of src/miner/modules/server.py.
pub mod Dispatch
pub mod Answers
use Prim.Native.Nat.{bit_or}
use pttarticle_recommander.Common.{ℕ, List, [], ◌∷◌, Option, none, some, Text, ◌==◌, if◌then◌else◌}
use pttarticle_recommander.Common.Int.{ℤ}
use pttarticle_recommander.Common.Results.{Result, err, protocol_error, type_error}
use pttarticle_recommander.Common.Exec.{Exec, pure, raise, lift, ◌>>=◌}
use pttarticle_recommander.Protocol.Bytes.{Bytes}
use pttarticle_recommander.Protocol.PackageType.{
  reply_query_bit, query_max_id, query_doc_meta_data_after_id, query_doc_meta_data_after_time,
  query_doc_meta_data_of_author, query_doc_meta_data_series, query_doc_real_data, query_id_by_url,
  query_url_by_id,
}
use pttarticle_recommander.Protocol.Net.StringStruct
use pttarticle_recommander.Protocol.Net.ArrayStruct
use pttarticle_recommander.Protocol.Net.IdentityStruct
use pttarticle_recommander.Protocol.Types.DocMetaData
use pttarticle_recommander.Protocol.Types.DocMetaData.{DocMetaData}
use pttarticle_recommander.Protocol.Types.DocIdentity
use pttarticle_recommander.Protocol.Types.DocRealData
use pttarticle_recommander.Server.Backend.{
  Sequence, list_value, iterator_value, none_value, Backend,
}
use pttarticle_recommander.Server.Arguments.{
  Arg, text, number, ArgStruct, string_struct, identity_struct, time_struct, unpack_args_buf,
}

-- `ArrayStruct.pack(a, CustomStruct)` takes `len(a)`, which only a list has.
unfoldable pub pack_metas : Sequence DocMetaData → Result Bytes
pack_metas (list_value a) = ArrayStruct.pack DocMetaData.dump a
pack_metas (iterator_value a) = err type_error
pack_metas none_value = err type_error

-- `method(*args)`: a call with other arguments than the method takes raises a `TypeError`.
module _ {S A : Type 0} where
  abbrev pub call_text : (Text → Exec S A) → List Arg → Exec S A
  call_text f (text s ∷ []) = f s
  call_text f _ = raise type_error

  abbrev pub call_text_number : (Text → ℤ → Exec S A) → List Arg → Exec S A
  call_text_number f (text s ∷ number n ∷ []) = f s n
  call_text_number f _ = raise type_error

  abbrev pub call_text_text : (Text → Text → Exec S A) → List Arg → Exec S A
  call_text_text f (text s ∷ text t ∷ []) = f s t
  call_text_text f _ = raise type_error

module _ {S : Type 0} (backend : Backend S) where
  unfoldable pub handle_query_max_id : Bytes → Exec S Bytes
  handle_query_max_id args_buf = do
    args ← lift (unpack_args_buf args_buf (string_struct ∷ []))
    idid ← call_text (backend.get_max_id) args
    lift (IdentityStruct.pack idid)

  unfoldable pub handle_query_doc_meta_data_after_id : Bytes → Exec S Bytes
  handle_query_doc_meta_data_after_id args_buf = do
    args ← lift (unpack_args_buf args_buf (string_struct ∷ identity_struct ∷ []))
    doc_meta_datas ← call_text_number (backend.get_doc_meta_data_after_id) args
    lift (pack_metas doc_meta_datas)

  unfoldable pub handle_query_doc_meta_data_after_time : Bytes → Exec S Bytes
  handle_query_doc_meta_data_after_time args_buf = do
    args ← lift (unpack_args_buf args_buf (string_struct ∷ time_struct ∷ []))
    doc_meta_datas ← call_text_number (backend.get_doc_meta_data_after_time) args
    lift (pack_metas doc_meta_datas)

  unfoldable pub handle_query_doc_meta_data_of_author : Bytes → Exec S Bytes
  handle_query_doc_meta_data_of_author args_buf = do
    args ← lift (unpack_args_buf args_buf (string_struct ∷ string_struct ∷ []))
    doc_meta_datas ← call_text_text (backend.get_doc_meta_data_of_author) args
    lift (pack_metas doc_meta_datas)

  unfoldable pub handle_query_doc_meta_data_series : Bytes → Exec S Bytes
  handle_query_doc_meta_data_series args_buf = do
    args ← lift (unpack_args_buf args_buf (string_struct ∷ identity_struct ∷ []))
    doc_meta_datas ← call_text_number (backend.get_doc_meta_data_series) args
    lift (pack_metas doc_meta_datas)

  unfoldable pub handle_query_doc_real_data : Bytes → Exec S Bytes
  handle_query_doc_real_data args_buf = do
    args ← lift (unpack_args_buf args_buf (string_struct ∷ identity_struct ∷ []))
    doc_real_data ← call_text_number (backend.get_doc_real_data) args
    lift (DocRealData.dump doc_real_data)

  unfoldable pub handle_query_id_by_url : Bytes → Exec S Bytes
  handle_query_id_by_url args_buf = do
    args ← lift (unpack_args_buf args_buf (string_struct ∷ []))
    doc_id ← call_text (backend.get_id_by_url) args
    lift (DocIdentity.dump doc_id)

  unfoldable pub handle_query_url_by_id : Bytes → Exec S Bytes
  handle_query_url_by_id args_buf = do
    args ← lift (unpack_args_buf args_buf (string_struct ∷ identity_struct ∷ []))
    url ← call_text_number (backend.get_url_by_id) args
    lift (StringStruct.pack url)

  -- `_handlers`: what stands under no type here is not supported.
  unfoldable pub handlers : List (ℕ × (Bytes → Exec S Bytes))
  handlers =
      (query_max_id, handle_query_max_id)
      ∷ (query_doc_meta_data_after_id, handle_query_doc_meta_data_after_id)
      ∷ (query_doc_meta_data_after_time, handle_query_doc_meta_data_after_time)
      ∷ (query_doc_meta_data_of_author, handle_query_doc_meta_data_of_author)
      ∷ (query_doc_meta_data_series, handle_query_doc_meta_data_series)
      ∷ (query_doc_real_data, handle_query_doc_real_data)
      ∷ (query_id_by_url, handle_query_id_by_url)
      ∷ (query_url_by_id, handle_query_url_by_id)
      ∷ []

-- The value under a key of a dictionary.
module _ {A : Type 0} where
  unfoldable pub find : ℕ → List (ℕ × A) → Option A
  find key [] = none
  find key ((k, a) ∷ rest) = if k == key then some a else find key rest

module _ {S : Type 0} (backend : Backend S) where
  -- The type and the content of the reply.
  unfoldable pub handle_package : ℕ → Bytes → Exec S (ℕ × Bytes)
  handle_package typee args_buf = elim (find typee (handlers backend)) [
    | none ↦ raise protocol_error
    | some handler ↦ do buf ← handler args_buf; pure (bit_or typee reply_query_bit, buf)
  ]
