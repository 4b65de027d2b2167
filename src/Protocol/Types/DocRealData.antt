-- ===== src/Protocol/Types/DocRealData.antt =====
-- `DocRealData` of src/miner/modules/protocol/types.py.
use pttarticle_recommander.Common.{List, ◌++◌, Text}
use pttarticle_recommander.Common.Results.{ok, ◌>>=◌}
use pttarticle_recommander.Protocol.Codec.{Packer}
use pttarticle_recommander.Protocol.Net.StringStruct
use pttarticle_recommander.Protocol.Net.ArrayStruct
use pttarticle_recommander.Protocol.Types.ReplyMessage
use pttarticle_recommander.Protocol.Types.ReplyMessage.{ReplyMessage}

pub record DocRealData : Type 0 where
  pub content : Text
  pub reply_messages : List ReplyMessage

-- `CustomStruct` packs an element by its own `dump`.
unfoldable pub dump : Packer DocRealData
dump d = do
  x ← StringStruct.pack d.content
  y ← ArrayStruct.pack ReplyMessage.dump d.reply_messages
  ok (x ++ y)
