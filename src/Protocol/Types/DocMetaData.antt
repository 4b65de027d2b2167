-- ===== src/Protocol/Types/DocMetaData.antt =====
-- `DocMetaData` of src/miner/modules/protocol/types.py.
use pttarticle_recommander.Common.{
  ◌≡◌, ap, Option, none, some, List, ◌∷◌, ◌++◌, length, map, arith, Text, ◌==◌, if◌then◌else◌,
}
use pttarticle_recommander.Common.Int.{ℤ, pos}
use pttarticle_recommander.Common.Results.{
  Result, ok, err, struct_error, attribute_error, assertion_error,
}
use pttarticle_recommander.Protocol.Bytes.{Bytes, pack_unsigned}
use pttarticle_recommander.Protocol.Codec.{Packer}
use pttarticle_recommander.Protocol.Unambiguous.{
  join_all, IsUnambiguous, RoundTrips-IsUnambiguous, Determines, field_then, rows_last,
  unsigned-IsUnambiguous,
}
use pttarticle_recommander.Protocol.Net.StringStruct
use pttarticle_recommander.Protocol.Net.IdentityStruct
use pttarticle_recommander.Protocol.Net.TimeStruct
use pttarticle_recommander.Protocol.Types.ReplyMode.{num_reply_modes}

-- The crewer makes meta data with no identity and no board, which the storage and the backend fill in.
pub record DocMetaData : Type 0 where
  pub idid : Option ℤ
  pub prev_id : Option ℤ
  pub title : Text
  pub author : Text
  pub post_time : ℤ
  pub board : Option Text
  pub num_reply_rows : List ℤ

-- `__init__`: a post time is what `int(post_time)` returns, and `none` where that raises.
unfoldable pub make :
    Option ℤ → Option ℤ → Text → Text → Option ℤ → Option Text → List ℤ → Result DocMetaData
make idid prev_id title author post_time board rows =
    if length rows == num_reply_modes
    then ok (record {
      idid = idid;
      prev_id = prev_id;
      title = title;
      author = author;
      post_time = elim post_time [ none ↦ pos 0 | some t ↦ t ];
      board = board;
      num_reply_rows = rows;
    })
    else err assertion_error

-- `None` is no argument of '<l', and has no `encode`.
unfoldable pub pack_identity : Packer (Option ℤ)
pack_identity none = err struct_error
pack_identity (some i) = IdentityStruct.pack i

unfoldable pub pack_board : Packer (Option Text)
pack_board none = err attribute_error
pack_board (some b) = StringStruct.pack b

-- `struct.Struct('<L').pack`
unfoldable pub pack_row : Packer ℤ
pack_row a = pack_unsigned 4 a

abbrev parts : DocMetaData → List (Result Bytes)
parts d =
    pack_identity d.idid
    ∷ pack_identity d.prev_id
    ∷ StringStruct.pack d.title
    ∷ StringStruct.pack d.author
    ∷ TimeStruct.pack d.post_time
    ∷ pack_board d.board
    ∷ map pack_row d.num_reply_rows

unfoldable pub dump : Packer DocMetaData
unfolding join_all pack_identity pack_board pack_row
dump d = join_all (parts d)

pack_identity-IsUnambiguous : IsUnambiguous pack_identity
unfolding pack_identity
pack_identity-IsUnambiguous = record { at = go }
  where
    law : IsUnambiguous IdentityStruct.pack
    law = RoundTrips-IsUnambiguous IdentityStruct.IdentityStruct-RoundTrips

    go :
        (x y : Option ℤ) (b c r s : Bytes)
        → pack_identity x ≡ ok b
        → pack_identity y ≡ ok c
        → b ++ r ≡ c ++ s
        → (x ≡ y) × (r ≡ s)
    go none y b c r s p q h = cc
    go (some x) none b c r s p q h = cc
    go (some x) (some y) b c r s p q h = let (e, d) = law.at x y b c r s p q h in (ap some e, d)

pack_board-IsUnambiguous : IsUnambiguous pack_board
unfolding pack_board
pack_board-IsUnambiguous = record { at = go }
  where
    law : IsUnambiguous StringStruct.pack
    law = RoundTrips-IsUnambiguous StringStruct.StringStruct-RoundTrips

    go :
        (x y : Option Text) (b c r s : Bytes)
        → pack_board x ≡ ok b
        → pack_board y ≡ ok c
        → b ++ r ≡ c ++ s
        → (x ≡ y) × (r ≡ s)
    go none y b c r s p q h = cc
    go (some x) none b c r s p q h = cc
    go (some x) (some y) b c r s p q h = let (e, d) = law.at x y b c r s p q h in (ap some e, d)

text-IsUnambiguous : IsUnambiguous StringStruct.pack
text-IsUnambiguous = RoundTrips-IsUnambiguous StringStruct.StringStruct-RoundTrips

time-IsUnambiguous : IsUnambiguous TimeStruct.pack
time-IsUnambiguous = RoundTrips-IsUnambiguous TimeStruct.TimeStruct-RoundTrips

row-IsUnambiguous : IsUnambiguous pack_row
unfolding pack_row
row-IsUnambiguous = unsigned-IsUnambiguous 4

abbrev SameFields : DocMetaData → DocMetaData → Type 0
SameFields m n =
    (m.idid ≡ n.idid)
    × ((m.prev_id ≡ n.prev_id)
        × ((m.title ≡ n.title)
            × ((m.author ≡ n.author)
                × ((m.post_time ≡ n.post_time)
                    × ((m.board ≡ n.board) × (m.num_reply_rows ≡ n.num_reply_rows))))))

parts-Determines :
    Determines (λ m n. length m.num_reply_rows ≡ length n.num_reply_rows) parts SameFields
parts-Determines =
    field_then pack_identity-IsUnambiguous (λ d. d.idid)
      (field_then pack_identity-IsUnambiguous (λ d. d.prev_id)
        (field_then text-IsUnambiguous (λ d. d.title)
          (field_then text-IsUnambiguous (λ d. d.author)
            (field_then time-IsUnambiguous (λ d. d.post_time)
              (field_then pack_board-IsUnambiguous (λ d. d.board)
                (rows_last row-IsUnambiguous (λ d. d.num_reply_rows)))))))

-- Two dumps of meta data with as many reply counts that begin one byte sequence are of the same
-- meta data and leave the same rest.
pub dump_unambiguous :
    (m n : DocMetaData) (b c r s : Bytes)
    → length m.num_reply_rows ≡ length n.num_reply_rows
    → dump m ≡ ok b
    → dump n ≡ ok c
    → b ++ r ≡ c ++ s
    → (m ≡ n) × (r ≡ s)
unfolding dump
dump_unambiguous m n b c r s k p q h =
    let (e, end) = parts-Determines.at m n b c r s k p q h in (ground arith, end)
