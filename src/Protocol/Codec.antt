-- ===== src/Protocol/Codec.antt =====
-- What a struct of src/miner/modules/protocol/net.py is: a packer and an unpacker. An unpacker reads
-- from an offset of the whole buffer and returns the offset behind what it read.
use pttarticle_recommander.Common.{ℕ, ◌+◌, ◌≡◌, sym, ap, subst, ◌++◌, drop, length, slice, slice_at}
use pttarticle_recommander.Common.Int.{ℤ, pos}
use pttarticle_recommander.Common.Results.{Result, ok, ◌>>=◌}
use pttarticle_recommander.Protocol.Bytes.{
  Bytes, pack_unsigned, unpack_unsigned, pack_signed, unpack_signed, unpack-pack_unsigned,
  length-pack_unsigned, pack_unsigned-eq_ok, unpack-pack_signed, length-pack_signed,
}

abbrev pub Packer {ℓ} : Type ℓ → Type ℓ
Packer A = A → Result Bytes

abbrev pub Unpacker {ℓ} : Type ℓ → Type ℓ
Unpacker A = Bytes → ℕ → Result (A × ℕ)

-- Wherever a packed value stands in a buffer, the unpacker returns the value and the offset behind it.
pub record RoundTrips {A : Type 0} (pack : Packer A) (unpack : Unpacker A) : Type 0 where
  pub at :
      (x : A) (b buf rest : Bytes) (offs : ℕ)
      → pack x ≡ ok b
      → drop offs buf ≡ b ++ rest
      → unpack buf offs ≡ ok (x, offs + length b)

-- A field of fixed width, read where it stands.
unfoldable pub unsigned_at :
    (w n : ℕ) (b buf rest : Bytes) (offs : ℕ)
    → pack_unsigned w (pos n) ≡ ok b
    → drop offs buf ≡ b ++ rest
    → unpack_unsigned w (slice buf offs (offs + w)) ≡ ok n
unsigned_at w n b buf rest offs p h =
    rw (slice_at buf b rest offs w h (sym (length-pack_unsigned w (pos n) b p)))
      (unpack-pack_unsigned w n b p)

pub signed_at :
    (x : ℤ) (b buf rest : Bytes) (offs : ℕ)
    → pack_signed x ≡ ok b
    → drop offs buf ≡ b ++ rest
    → unpack_signed (slice buf offs (offs + 4)) ≡ ok x
signed_at x b buf rest offs p h =
    rw (slice_at buf b rest offs 4 h (sym (length-pack_signed x b p))) (unpack-pack_signed x b p)

-- The reader of an unsigned field of `w` bytes.
abbrev pub read_unsigned : ℕ → Unpacker ℤ
read_unsigned w buf offs = do
  t ← unpack_unsigned w (slice buf offs (offs + w))
  ok (pos t, offs + w)

pub unsigned-RoundTrips : (w : ℕ) → RoundTrips (pack_unsigned w) (read_unsigned w)
unsigned-RoundTrips w = record {
  at = λ x b buf rest offs p h.
      let (n, e, _, _) = pack_unsigned-eq_ok w x b p in
      let q : pack_unsigned w (pos n) ≡ ok b = subst (λ y. pack_unsigned w y ≡ ok b) e p in
      rw (unsigned_at w n b buf rest offs q h, length-pack_unsigned w x b p)
        (ap (λ y. ok (y, offs + w)) (sym e));
}
