-- ===== src/Protocol/Types/DocRelInfo.antt =====
-- `DocRelInfo` of src/miner/modules/protocol/types.py.
use pttarticle_recommander.Common.{
  ℕ, ◌+◌, ◌≡◌, sym, ap, ◌∙◌, List, ◌++◌, length, drop, drop_behind, append_assoc, length-append,
  arith,
}
use pttarticle_recommander.Common.Results.{ok, ◌>>=◌, >>=-eq-ok}
use pttarticle_recommander.Protocol.Bytes.{Bytes}
use pttarticle_recommander.Protocol.Codec.{Packer, Unpacker, RoundTrips}
use pttarticle_recommander.Protocol.Net.ArrayStruct
use pttarticle_recommander.Protocol.Types.DocIdentity
use pttarticle_recommander.Protocol.Types.DocIdentity.{DocIdentity, DocIdentity-RoundTrips}

pub record DocRelInfo : Type 0 where
  pub pos_rel_docs : List DocIdentity
  pub neg_rel_docs : List DocIdentity
  pub neutral_rel_docs : List DocIdentity

-- An array of identities, through `CustomStruct`.
abbrev pack_docs : Packer (List DocIdentity)
pack_docs = ArrayStruct.pack DocIdentity.dump

abbrev unpack_docs : Unpacker (List DocIdentity)
unpack_docs = ArrayStruct.unpack DocIdentity.load

unfoldable pub dump : Packer DocRelInfo
dump d = do
  x ← pack_docs d.pos_rel_docs
  y ← pack_docs d.neg_rel_docs
  z ← pack_docs d.neutral_rel_docs
  ok ((x ++ y) ++ z)

unfoldable pub load : Unpacker DocRelInfo
load buf offs = do
  (p, o₁) ← unpack_docs buf offs
  (n, o₂) ← unpack_docs buf o₁
  (m, o₃) ← unpack_docs buf o₂
  ok (record { pos_rel_docs = p; neg_rel_docs = n; neutral_rel_docs = m }, o₃)

docs-RoundTrips : RoundTrips pack_docs unpack_docs
docs-RoundTrips = ArrayStruct.ArrayStruct-RoundTrips DocIdentity-RoundTrips

-- `DocRelInfo.load` reads back the three lists that `dump` wrote, wherever they stand in a
-- buffer.
pub rel_info_load-dump :
    (d : DocRelInfo) (b buf rest : Bytes) (offs : ℕ)
    → dump d ≡ ok b
    → drop offs buf ≡ b ++ rest
    → load buf offs ≡ ok (d, offs + length b)
unfolding dump load
rel_info_load-dump d b buf rest offs p h =
    let (x, e, p₁) = >>=-eq-ok (pack_docs d.pos_rel_docs) _ p in
    let (y, q, p₂) = >>=-eq-ok (pack_docs d.neg_rel_docs) _ p₁ in
    let (z, r, p₃) = >>=-eq-ok (pack_docs d.neutral_rel_docs) _ p₂ in
    let joined : (x ++ y) ++ z ≡ b = cc in
    let whole : drop offs buf ≡ x ++ (y ++ (z ++ rest)) =
      h
      ∙ ap (λ w. w ++ rest) (sym joined)
      ∙ append_assoc (x ++ y) z rest
      ∙ append_assoc x y (z ++ rest) in
    let second = drop_behind buf x (y ++ (z ++ rest)) offs whole in
    let third = drop_behind buf y (z ++ rest) (offs + length x) second in
    let total : offs + length x + length y + length z ≡ offs + length b =
      omega (arith, ap length joined, length-append (x ++ y) z, length-append x y) in
    rw
      (
        docs-RoundTrips.at d.pos_rel_docs x buf (y ++ (z ++ rest)) offs e whole,
        docs-RoundTrips.at d.neg_rel_docs y buf (z ++ rest) (offs + length x) q second,
        docs-RoundTrips.at d.neutral_rel_docs z buf rest (offs + length x + length y) r third,
      )
      (ap (λ k. ok (d, k)) total)

pub DocRelInfo-RoundTrips : RoundTrips dump load
DocRelInfo-RoundTrips = record { at = rel_info_load-dump }
