-- ===== src/Protocol/Bytes.antt =====
-- The formats of Python's `struct` that the protocol uses: '<L', '<Q', '<l', '<H'.
use pttarticle_recommander.Common.{
  ℕ, zero, suc, ◌+◌, ◌-◌, ◌*◌, ◌/◌, ◌%◌, ◌^◌, ◌<◌, ◌≡◌, refl, ap, List, [], ◌∷◌, length, All, arith,
  ltb, ◌==◌, if◌then◌else◌,
}
use pttarticle_recommander.Common.Int.{ℤ, pos, negsuc}
use pttarticle_recommander.Common.Results.{Result, ok, err, struct_error}
use native.Mathlib.Nat.{pow-suc}

abbrev pub Bytes : Type 0
Bytes = List ℕ

abbrev pub IsByte : ℕ → Type 0
IsByte b = b < 256

-- `w` bytes of `n`, the lowest first.
unfoldable pub le_bytes : ℕ → ℕ → Bytes
le_bytes zero n = []
le_bytes (suc w) n = (n % 256) ∷ le_bytes w (n / 256)

unfoldable pub le_value : Bytes → ℕ
le_value [] = 0
le_value (b ∷ bs) = b + 256 * le_value bs

pub length-le_bytes : (w n : ℕ) → length (le_bytes w n) ≡ w
unfolding le_bytes
length-le_bytes zero n = refl
length-le_bytes (suc w) n = ap suc (length-le_bytes w (n / 256))

pub le_bytes-IsByte : (w n : ℕ) → All IsByte (le_bytes w n)
unfolding le_bytes
le_bytes-IsByte zero n = tt
le_bytes-IsByte (suc w) n = (omega arith, le_bytes-IsByte w (n / 256))

pub le_value-le_bytes : (w n : ℕ) → n < 256 ^ w → le_value (le_bytes w n) ≡ n
unfolding le_bytes le_value
le_value-le_bytes zero n h = omega arith
le_value-le_bytes (suc w) n h = omega (arith, le_value-le_bytes w (n / 256) (omega arith))

pub le_value-lt : (bs : Bytes) → All IsByte bs → le_value bs < 256 ^ length bs
unfolding le_value
le_value-lt [] h = omega arith
le_value-lt (b ∷ bs) (hb, hs) = omega (arith, le_value-lt bs hs, pow-suc 256 (length bs))

-- No two byte strings of one length have the same value.
pub le_bytes-le_value : (bs : Bytes) → All IsByte bs → le_bytes (length bs) (le_value bs) ≡ bs
unfolding le_bytes le_value
le_bytes-le_value [] h = refl
le_bytes-le_value (b ∷ bs) (hb, hs) =
    let low : (b + 256 * le_value bs) % 256 ≡ b = omega arith in
    let high : (b + 256 * le_value bs) / 256 ≡ le_value bs = omega arith in
    rw (low, high, le_bytes-le_value bs hs)

-- `struct.pack` of an unsigned format of `w` bytes.
unfoldable pub pack_unsigned : ℕ → ℤ → Result Bytes
pack_unsigned w (pos n) = if ltb n (256 ^ w) then ok (le_bytes w n) else err struct_error
pack_unsigned w (negsuc n) = err struct_error

unfoldable pub unpack_unsigned : ℕ → Bytes → Result ℕ
unpack_unsigned w b = if length b == w then ok (le_value b) else err struct_error

-- '<l': the two's complement in four bytes.
unfoldable pub pack_signed : ℤ → Result Bytes
pack_signed (pos n) = if ltb n (2 ^ 31) then ok (le_bytes 4 n) else err struct_error
pack_signed (negsuc n) =
    if ltb n (2 ^ 31) then ok (le_bytes 4 (2 ^ 32 - 1 - n)) else err struct_error

abbrev signed : ℕ → ℤ
signed v = if ltb v (2 ^ 31) then pos v else negsuc (2 ^ 32 - 1 - v)

unfoldable pub unpack_signed : Bytes → Result ℤ
unpack_signed b = if length b == 4 then ok (signed (le_value b)) else err struct_error

pub pack_unsigned-eq_ok :
    (w : ℕ) (x : ℤ) (b : Bytes)
    → pack_unsigned w x ≡ ok b
    → (n : ℕ) × (x ≡ pos n) × (n < 256 ^ w) × (b ≡ le_bytes w n)
unfolding pack_unsigned
pack_unsigned-eq_ok w (pos n) b h = (n, refl, ground arith, ground arith)
pack_unsigned-eq_ok w (negsuc n) b h = cc

pub unpack-pack_unsigned :
    (w n : ℕ) (b : Bytes) → pack_unsigned w (pos n) ≡ ok b → unpack_unsigned w b ≡ ok n
unfolding pack_unsigned unpack_unsigned
unpack-pack_unsigned w n b h = ground (arith, length-le_bytes w n, le_value-le_bytes w n)

pub length-pack_unsigned : (w : ℕ) (x : ℤ) (b : Bytes) → pack_unsigned w x ≡ ok b → length b ≡ w
unfolding pack_unsigned
length-pack_unsigned w (pos n) b h = ground (arith, length-le_bytes w n)
length-pack_unsigned w (negsuc n) b h = cc

pub length-pack_signed : (x : ℤ) (b : Bytes) → pack_signed x ≡ ok b → length b ≡ 4
unfolding pack_signed
length-pack_signed (pos n) b h = ground (arith, length-le_bytes 4 n)
length-pack_signed (negsuc n) b h = ground (arith, length-le_bytes 4 (2 ^ 32 - 1 - n))

pub unpack-pack_signed : (x : ℤ) (b : Bytes) → pack_signed x ≡ ok b → unpack_signed b ≡ ok x
unfolding pack_signed unpack_signed
unpack-pack_signed (pos n) b h = ground (arith, length-le_bytes 4 n, le_value-le_bytes 4 n)
unpack-pack_signed (negsuc n) b h =
    ground (arith, length-le_bytes 4 (2 ^ 32 - 1 - n), le_value-le_bytes 4 (2 ^ 32 - 1 - n))
