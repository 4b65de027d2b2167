-- ===== src/Protocol/Net/TimeStruct.antt =====
-- `TimeStruct` of src/miner/modules/protocol/net.py.
use pttarticle_recommander.Common.{◌+◌, slice}
use pttarticle_recommander.Common.Int.{ℤ, pos}
use pttarticle_recommander.Common.Results.{ok, ◌>>=◌}
use pttarticle_recommander.Protocol.Bytes.{pack_unsigned, unpack_unsigned}
use pttarticle_recommander.Protocol.Codec.{Packer, Unpacker, RoundTrips, unsigned-RoundTrips}

unfoldable pub pack : Packer ℤ
pack t = pack_unsigned 8 t

unfoldable pub unpack : Unpacker ℤ
unpack buf offs = do t ← unpack_unsigned 8 (slice buf offs (offs + 8)); ok (pos t, offs + 8)

pub TimeStruct-RoundTrips : RoundTrips pack unpack
unfolding pack unpack
TimeStruct-RoundTrips = unsigned-RoundTrips 8
