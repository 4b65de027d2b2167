-- ===== src/Protocol/Net/StringStruct.antt =====
-- `StringStruct` of src/miner/modules/protocol/net.py.
use pttarticle_recommander.Common.{
  ℕ, ◌+◌, ◌≡◌, refl, ap, sym, ◌∙◌, ◌++◌, length, drop, slice, slice_at, drop_behind, ◌==◌, ==_iff,
  if◌then◌else◌, Text, append_assoc, length-append, arith,
}
use pttarticle_recommander.Common.Int.{pos}
use pttarticle_recommander.Common.Results.{Result, ok, err, struct_error, ◌>>=◌, >>=-eq-ok}
use pttarticle_recommander.Protocol.Bytes.{
  Bytes, pack_unsigned, unpack_unsigned, length-pack_unsigned,
}
use pttarticle_recommander.Protocol.Codec.{Packer, Unpacker, RoundTrips, unsigned_at}
use pttarticle_recommander.Protocol.Utf8.{encode, decode}
use pttarticle_recommander.Protocol.Utf8.RoundTrip.{decode-encode}

unfoldable pub pack : Packer Text
pack s = do b ← encode s; n ← pack_unsigned 8 (pos (length b)); ok (n ++ b)

-- `struct.unpack('<%ds' % l, b)[0]`
unfoldable pub unpack_chars : ℕ → Bytes → Result Bytes
unpack_chars l b = if length b == l then ok b else err struct_error

unfoldable pub unpack : Unpacker Text
unfolding unpack_chars
unpack buf offs = do
  l ← unpack_unsigned 8 (slice buf offs (offs + 8))
  b ← unpack_chars l (slice buf (offs + 8) (offs + 8 + l))
  s ← decode b
  ok (s, offs + 8 + l)

-- The characters `c` behind their length `n`.
string_at :
    (s : Text) (c n buf rest : Bytes) (offs : ℕ)
    → encode s ≡ ok c
    → pack_unsigned 8 (pos (length c)) ≡ ok n
    → drop offs buf ≡ n ++ (c ++ rest)
    → unpack buf offs ≡ ok (s, offs + 8 + length c)
unfolding unpack unpack_chars
string_at s c n buf rest offs e q h =
    let width : length n ≡ 8 = length-pack_unsigned 8 (pos (length c)) n q in
    let behind : drop (offs + 8) buf ≡ c ++ rest =
      rw width at (drop_behind buf n (c ++ rest) offs h) in
    rw (
      unsigned_at 8 (length c) n buf (c ++ rest) offs q h,
      slice_at buf c rest (offs + 8) (length c) behind refl,
      (==_iff (length c) (length c)).1 refl,
      decode-encode s c e,
    )

-- `StringStruct.unpack` reads back the text that `pack` wrote, wherever it stands in a buffer.
pub string_unpack-pack :
    (s : Text) (b buf rest : Bytes) (offs : ℕ)
    → pack s ≡ ok b
    → drop offs buf ≡ b ++ rest
    → unpack buf offs ≡ ok (s, offs + length b)
unfolding pack
string_unpack-pack s b buf rest offs p h =
    let (c, e, p') = >>=-eq-ok (encode s) _ p in
    let (n, q, r) = >>=-eq-ok (pack_unsigned 8 (pos (length c))) _ p' in
    let joined : n ++ c ≡ b = cc in
    let whole : drop offs buf ≡ n ++ (c ++ rest) =
      h ∙ ap (λ z. z ++ rest) (sym joined) ∙ append_assoc n c rest in
    let total : offs + 8 + length c ≡ offs + length b =
      omega
        (arith, ap length joined, length-append n c, length-pack_unsigned 8 (pos (length c)) n q) in
    string_at s c n buf rest offs e q whole ∙ ap (λ k. ok (s, k)) total

pub StringStruct-RoundTrips : RoundTrips pack unpack
StringStruct-RoundTrips = record { at = string_unpack-pack }
