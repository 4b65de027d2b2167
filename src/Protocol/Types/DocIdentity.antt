-- ===== src/Protocol/Types/DocIdentity.antt =====
-- `DocIdentity` of src/miner/modules/protocol/types.py.
use pttarticle_recommander.Common.{
  ℕ, ◌+◌, ◌≡◌, sym, ap, ◌∙◌, ◌++◌, length, drop, drop_behind, append_assoc, length-append, arith,
  Text,
}
use pttarticle_recommander.Common.Int.{ℤ}
use pttarticle_recommander.Common.Results.{ok, ◌>>=◌, >>=-eq-ok}
use pttarticle_recommander.Protocol.Bytes.{Bytes}
use pttarticle_recommander.Protocol.Codec.{Packer, Unpacker, RoundTrips}
use pttarticle_recommander.Protocol.Net.StringStruct
use pttarticle_recommander.Protocol.Net.IdentityStruct

pub record DocIdentity : Type 0 where
  pub board : Text
  pub idid : ℤ

unfoldable pub dump : Packer DocIdentity
dump d = do x ← StringStruct.pack d.board; y ← IdentityStruct.pack d.idid; ok (x ++ y)

unfoldable pub load : Unpacker DocIdentity
load buf offs = do
  (board, offs') ← StringStruct.unpack buf offs
  (idid, end) ← IdentityStruct.unpack buf offs'
  ok (record { board = board; idid = idid }, end)

-- `DocIdentity.load` reads back the identity that `dump` wrote, wherever it stands in a buffer.
pub identity_load-dump :
    (d : DocIdentity) (b buf rest : Bytes) (offs : ℕ)
    → dump d ≡ ok b
    → drop offs buf ≡ b ++ rest
    → load buf offs ≡ ok (d, offs + length b)
unfolding dump load
identity_load-dump d b buf rest offs p h =
    let (x, e, p') = >>=-eq-ok (StringStruct.pack d.board) _ p in
    let (y, q, r) = >>=-eq-ok (IdentityStruct.pack d.idid) _ p' in
    let joined : x ++ y ≡ b = cc in
    let whole : drop offs buf ≡ x ++ (y ++ rest) =
      h ∙ ap (λ z. z ++ rest) (sym joined) ∙ append_assoc x y rest in
    let total : offs + length x + length y ≡ offs + length b =
      omega (arith, ap length joined, length-append x y) in
    rw
      (
        StringStruct.StringStruct-RoundTrips.at d.board x buf (y ++ rest) offs e whole,
        IdentityStruct.IdentityStruct-RoundTrips.at d.idid y buf rest (offs + length x) q
            (drop_behind buf x (y ++ rest) offs whole),
      )
      (ap (λ k. ok (d, k)) total)

pub DocIdentity-RoundTrips : RoundTrips dump load
DocIdentity-RoundTrips = record { at = identity_load-dump }
