-- ===== src/Protocol/Net/ArrayStruct.antt =====
-- `ArrayStruct` of src/miner/modules/protocol/net.py.
use pttarticle_recommander.Common.{
  ℕ, zero, suc, ◌+◌, ◌≡◌, ap, sym, ◌∙◌, List, [], ◌∷◌, ◌++◌, length, drop, slice, drop_behind,
  append_assoc, length-append, arith,
}
use pttarticle_recommander.Common.Int.{pos}
use pttarticle_recommander.Common.Results.{Result, ok, ◌>>=◌, >>=-eq-ok}
use pttarticle_recommander.Protocol.Bytes.{
  Bytes, pack_unsigned, unpack_unsigned, length-pack_unsigned,
}
use pttarticle_recommander.Protocol.Codec.{Packer, Unpacker, RoundTrips, unsigned_at}

module _ {A : Type 0} where
  -- `b''.join(element_struct.pack(b) for b in a)`
  unfoldable pub join : Packer A → List A → Result Bytes
  join element [] = ok []
  join element (a ∷ rest) = do b ← element a; bs ← join element rest; ok (b ++ bs)

  unfoldable pub pack : Packer A → Packer (List A)
  pack element a = do x ← pack_unsigned 8 (pos (length a)); y ← join element a; ok (x ++ y)

  -- `for i in range(x)`
  unfoldable pub unpack_elements : Unpacker A → ℕ → Unpacker (List A)
  unpack_elements element zero buf offs = ok ([], offs)
  unpack_elements element (suc i) buf offs = do
    (a, offs') ← element buf offs
    (rest, end) ← unpack_elements element i buf offs'
    ok (a ∷ rest, end)

  unfoldable pub unpack : Unpacker A → Unpacker (List A)
  unpack element buf offs = do
    x ← unpack_unsigned 8 (slice buf offs (offs + 8))
    unpack_elements element x buf (offs + 8)

module _ {A : Type 0} {element : Packer A} {read : Unpacker A} (law : RoundTrips element read) where
  unpack_elements-join :
      (a : List A) (b buf rest : Bytes) (offs : ℕ)
      → join element a ≡ ok b
      → drop offs buf ≡ b ++ rest
      → unpack_elements read (length a) buf offs ≡ ok (a, offs + length b)
  unfolding join unpack_elements
  unpack_elements-join [] b buf rest offs p h =
      let e : [] ≡ b = cc in rw (← e) (ap (λ k. ok ([], k)) (omega arith))
  unpack_elements-join (x ∷ a) b buf rest offs p h =
      let (c, e, p') = >>=-eq-ok (element x) _ p in
      let (d, q, r) = >>=-eq-ok (join element a) _ p' in
      let joined : c ++ d ≡ b = cc in
      let whole : drop offs buf ≡ c ++ (d ++ rest) =
        h ∙ ap (λ z. z ++ rest) (sym joined) ∙ append_assoc c d rest in
      let behind =
        unpack_elements-join a d buf rest (offs + length c) q
          (drop_behind buf c (d ++ rest) offs whole) in
      let total : offs + length c + length d ≡ offs + length b =
        omega (arith, ap length joined, length-append c d) in
      rw (law.at x c buf (d ++ rest) offs e whole, behind) (ap (λ k. ok (x ∷ a, k)) total)

  pub ArrayStruct-RoundTrips : RoundTrips (pack element) (unpack read)
  unfolding pack unpack
  ArrayStruct-RoundTrips = record {
    at = λ a b buf rest offs p h.
        let (n, q, p') = >>=-eq-ok (pack_unsigned 8 (pos (length a))) _ p in
        let (d, e, r) = >>=-eq-ok (join element a) _ p' in
        let joined : n ++ d ≡ b = cc in
        let whole : drop offs buf ≡ n ++ (d ++ rest) =
          h ∙ ap (λ z. z ++ rest) (sym joined) ∙ append_assoc n d rest in
        let width : length n ≡ 8 = length-pack_unsigned 8 (pos (length a)) n q in
        let behind : drop (offs + 8) buf ≡ d ++ rest =
          rw width at (drop_behind buf n (d ++ rest) offs whole) in
        let total : offs + 8 + length d ≡ offs + length b =
          omega (arith, ap length joined, length-append n d, width) in
        rw
          (
            unsigned_at 8 (length a) n buf (d ++ rest) offs q whole,
            unpack_elements-join a d buf rest (offs + 8) e behind,
          )
          (ap (λ k. ok (a, k)) total);
  }
