-- ===== src/Protocol/Types/ReplyMessage.antt =====
-- `ReplyMessage` of src/miner/modules/protocol/types.py.
use pttarticle_recommander.Common.{[], ◌∷◌, Text}
use pttarticle_recommander.Common.Int.{ℤ}
use pttarticle_recommander.Protocol.Codec.{Packer}
use pttarticle_recommander.Protocol.Unambiguous.{join_all}
use pttarticle_recommander.Protocol.Net.StringStruct
use pttarticle_recommander.Protocol.Net.ReplyModeStruct

pub record ReplyMessage : Type 0 where
  pub mode : ℤ
  pub user : Text
  pub message : Text

unfoldable pub dump : Packer ReplyMessage
unfolding join_all
dump r =
    join_all
      (ReplyModeStruct.pack r.mode ∷ StringStruct.pack r.user ∷ StringStruct.pack r.message ∷ [])
