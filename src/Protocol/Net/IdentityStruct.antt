-- ===== src/Protocol/Net/IdentityStruct.antt =====
-- `IdentityStruct` of src/miner/modules/protocol/net.py.
use pttarticle_recommander.Common.{◌+◌, slice}
use pttarticle_recommander.Common.Int.{ℤ}
use pttarticle_recommander.Common.Results.{ok, ◌>>=◌}
use pttarticle_recommander.Protocol.Bytes.{pack_signed, unpack_signed, length-pack_signed}
use pttarticle_recommander.Protocol.Codec.{Packer, Unpacker, RoundTrips, signed_at}

unfoldable pub pack : Packer ℤ
pack idid = pack_signed idid

unfoldable pub unpack : Unpacker ℤ
unpack buf offs = do idid ← unpack_signed (slice buf offs (offs + 4)); ok (idid, offs + 4)

pub IdentityStruct-RoundTrips : RoundTrips pack unpack
unfolding pack unpack
IdentityStruct-RoundTrips = record {
  at = λ x b buf rest offs p h. rw (signed_at x b buf rest offs p h, length-pack_signed x b p);
}
