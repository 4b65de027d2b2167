-- ===== src/Protocol/Net/ReplyModeStruct.antt =====
-- `ReplyModeStruct` of src/miner/modules/protocol/net.py.
use pttarticle_recommander.Common.Int.{ℤ}
use pttarticle_recommander.Protocol.Bytes.{pack_unsigned}
use pttarticle_recommander.Protocol.Codec.{Packer}

unfoldable pub pack : Packer ℤ
pack a = pack_unsigned 2 a
