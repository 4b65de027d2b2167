-- ===== src/Tests/Wire.antt =====
-- The protocol's theorems at concrete values.
use pttarticle_recommander.Common.{◌≡◌, refl, [], ◌∷◌, ◌++◌, some}
use pttarticle_recommander.Common.Int.{pos}
use pttarticle_recommander.Common.Results.{ok}
use pttarticle_recommander.Protocol.Bytes.{Bytes, le_bytes, pack_unsigned, pack_signed}
use pttarticle_recommander.Protocol.Utf8.{encode_char, encode}
use pttarticle_recommander.Protocol.Net.PackageHeader
use pttarticle_recommander.Protocol.Net.PackageHeader.{header_load-dump}
use pttarticle_recommander.Protocol.Net.StringStruct
use pttarticle_recommander.Protocol.Net.StringStruct.{string_unpack-pack}
use pttarticle_recommander.Protocol.Net.IdentityStruct
use pttarticle_recommander.Protocol.Net.TimeStruct
use pttarticle_recommander.Protocol.Types.DocMetaData
use pttarticle_recommander.Protocol.Types.DocMetaData.{
  DocMetaData, pack_identity, pack_board, pack_row, dump_unambiguous,
}
use pttarticle_recommander.Tests.Data.{board, url, url_bytes, header_of, header_bytes}

header-dump : PackageHeader.dump (header_of 130 11) ≡ ok (header_bytes 130 11)
unfolding PackageHeader.dump pack_unsigned le_bytes
header-dump = refl

abbrev meta_data : DocMetaData
meta_data = record {
  idid = some (pos 7);
  prev_id = some (pos 6);
  title = url;
  author = board;
  post_time = pos 300;
  board = some board;
  num_reply_rows = pos 1 ∷ pos 2 ∷ pos 3 ∷ [];
}

abbrev meta_data_bytes : Bytes
meta_data_bytes =
    (7 ∷ 0 ∷ 0 ∷ 0 ∷ 6 ∷ 0 ∷ 0 ∷ 0 ∷ url_bytes)
    ++ (1 ∷ 0 ∷ 0 ∷ 0 ∷ 0 ∷ 0 ∷ 0 ∷ 0 ∷ 66 ∷ 44 ∷ 1 ∷ 0 ∷ 0 ∷ 0 ∷ 0 ∷ 0 ∷ 0 ∷ [])
    ++ (1 ∷ 0 ∷ 0 ∷ 0 ∷ 0 ∷ 0 ∷ 0 ∷ 0 ∷ 66 ∷ [])
    ++ 1 ∷ 0 ∷ 0 ∷ 0 ∷ 2 ∷ 0 ∷ 0 ∷ 0 ∷ 3 ∷ 0 ∷ 0 ∷ 0 ∷ []

meta_data-dump : DocMetaData.dump meta_data ≡ ok meta_data_bytes
unfolding DocMetaData.dump pack_identity pack_board pack_row StringStruct.pack IdentityStruct.pack
    TimeStruct.pack pack_signed encode encode_char pack_unsigned le_bytes
meta_data-dump = refl

abbrev end : Bytes
end = 5 ∷ []

dump_unambiguous_example : (meta_data ≡ meta_data) × (end ≡ end)
dump_unambiguous_example =
    dump_unambiguous meta_data meta_data meta_data_bytes meta_data_bytes end end refl meta_data-dump
      meta_data-dump refl
