-- ===== src/AppServer/MinerProxy.antt =====
-- `_MinerProxy` of src/app_server/modules/miner.py: the two queries over the wire.
pub mod RoundTrip
use pttarticle_recommander.Common.{ℕ, ◌==◌, not, Text, if◌then◌else◌}
use pttarticle_recommander.Common.Results.{Error, miner_error, type_error}
use pttarticle_recommander.Common.Exec.{Exec, pure, raise, lift, ◌>>=◌, ◌>>◌}
use pttarticle_recommander.Protocol.Bytes.{Bytes}
use pttarticle_recommander.Protocol.Codec.{Unpacker}
use pttarticle_recommander.Protocol.PackageType.{
  query_url_by_id, reply_url_by_id, query_id_by_url, reply_id_by_url,
}
use pttarticle_recommander.Protocol.Net.StringStruct
use pttarticle_recommander.Protocol.Types.DocIdentity
use pttarticle_recommander.Protocol.Types.DocIdentity.{DocIdentity}
use pttarticle_recommander.AppServer.ProxyClient.{Socket, send_pkg, recv_header, recv_all}

module _ {W : Type 0} (sock : Socket W) where
  -- `_recv_and_unpack` of both proxies, which differ in what they raise.
  module _ {A : Type 0} (wrong_type wrong_format : Error) where
    unfoldable pub receive : ℕ → Unpacker A → Exec W A
    receive typee unpack_func = do
      ph ← recv_header sock
      if ph.typee == typee
          then (do
            buf ← recv_all sock ph.size
            (out, offs) ← lift (unpack_func buf 0)
            if offs == ph.size then pure out else raise wrong_format)
          else raise wrong_type

  -- `raise Miner('Wrong format.')` calls a class that takes four arguments, and so raises a
  -- `TypeError`.
  module _ {A : Type 0} where
    unfoldable pub recv_and_unpack : ℕ → Unpacker A → Exec W A
    recv_and_unpack = receive miner_error type_error

  unfoldable pub get_url_by_doc_identity : DocIdentity → Exec W Text
  get_url_by_doc_identity identity = do
    buf ← lift (DocIdentity.dump identity)
    send_pkg sock query_url_by_id buf
    recv_and_unpack reply_url_by_id StringStruct.unpack

  unfoldable pub get_doc_identity_by_url : Text → Exec W DocIdentity
  get_doc_identity_by_url url = do
    buf ← lift (StringStruct.pack url)
    send_pkg sock query_id_by_url buf
    recv_and_unpack reply_id_by_url DocIdentity.load
