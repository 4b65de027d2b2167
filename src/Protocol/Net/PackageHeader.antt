-- ===== src/Protocol/Net/PackageHeader.antt =====
-- `PackageHeader` of src/miner/modules/protocol/net.py.
use pttarticle_recommander.Common.{
  ℕ, ◌+◌, ◌≡◌, ap, sym, ◌∙◌, [], ◌++◌, length, drop, slice, slice_at, drop_behind, append-nil,
  length-append, arith,
}
use pttarticle_recommander.Common.Int.{pos}
use pttarticle_recommander.Common.Results.{Result, ok, ◌>>=◌, >>=-eq-ok}
use pttarticle_recommander.Protocol.Bytes.{
  Bytes, pack_unsigned, unpack_unsigned, length-pack_unsigned,
}
use pttarticle_recommander.Protocol.Codec.{Packer, Unpacker, unsigned_at}

pub record PackageHeader : Type 0 where
  pub typee : ℕ
  pub size : ℕ

-- `SIZE`: four bytes of type and eight of size.
abbrev pub byte_size : ℕ
byte_size = 4 + 8

-- `_STRUCT.pack`, of format '<LQ'.
unfoldable pub dump : Packer PackageHeader
dump h = do t ← pack_unsigned 4 (pos h.typee); n ← pack_unsigned 8 (pos h.size); ok (t ++ n)

-- `_STRUCT.unpack` wants twelve bytes exactly.
unfoldable pub unpack : Bytes → Result PackageHeader
unpack b = do
  t ← unpack_unsigned 4 (slice b 0 4)
  n ← unpack_unsigned 8 (slice b 4 (length b))
  ok (record { typee = t; size = n })

unfoldable pub load : Unpacker PackageHeader
unfolding unpack
load buf offs = do a ← unpack (slice buf offs (offs + byte_size)); ok (a, offs + byte_size)

-- A header stands in twelve bytes.
pub length-dump : (h : PackageHeader) (b : Bytes) → dump h ≡ ok b → length b ≡ byte_size
unfolding dump
length-dump h b p =
    let (t, e, p') = >>=-eq-ok (pack_unsigned 4 (pos h.typee)) _ p in
    let (n, q, r) = >>=-eq-ok (pack_unsigned 8 (pos h.size)) _ p' in
    let joined : t ++ n ≡ b = cc in
    omega (
      arith,
      ap length joined,
      length-append t n,
      length-pack_unsigned 4 (pos h.typee) t e,
      length-pack_unsigned 8 (pos h.size) n q,
    )

unpack-dump : (h : PackageHeader) (b : Bytes) → dump h ≡ ok b → unpack b ≡ ok h
unfolding dump unpack
unpack-dump h b p =
    let (t, e, p') = >>=-eq-ok (pack_unsigned 4 (pos h.typee)) _ p in
    let (n, q, r) = >>=-eq-ok (pack_unsigned 8 (pos h.size)) _ p' in
    let joined : t ++ n ≡ b = cc in
    let width : length t ≡ 4 = length-pack_unsigned 4 (pos h.typee) t e in
    let behind : drop 4 b ≡ n ++ [] =
      rw width at
        (drop_behind b t (n ++ []) 0 (sym joined ∙ ap (λ z. t ++ z) (sym (append-nil n)))) in
    let end : length b ≡ 4 + 8 = omega (
      arith,
      ap length joined,
      length-append t n,
      width,
      length-pack_unsigned 8 (pos h.size) n q,
    ) in
    rw (unsigned_at 4 h.typee t b n 0 e (sym joined), end, unsigned_at 8 h.size n b [] 4 q behind)

-- `PackageHeader.load` reads back the header that `dump` wrote, wherever it stands in a buffer.
pub header_load-dump :
    (x : PackageHeader) (b buf rest : Bytes) (offs : ℕ)
    → dump x ≡ ok b
    → drop offs buf ≡ b ++ rest
    → load buf offs ≡ ok (x, offs + length b)
unfolding load
header_load-dump x b buf rest offs p h =
    let width : length b ≡ byte_size = length-dump x b p in
    rw (slice_at buf b rest offs byte_size h (sym width), unpack-dump x b p, width)
