-- ===== src/Protocol/Utf8.antt =====
-- `str.encode('utf-8')` and `bytes.decode('utf-8')` in their strict mode, which `StringStruct` of
-- src/miner/modules/protocol/net.py calls.
pub mod RoundTrip
use pttarticle_recommander.Common.{
  ℕ, zero, suc, ◌+◌, ◌-◌, ◌*◌, ◌/◌, ◌%◌, Bool, ◌&&◌, not, [], ◌∷◌, ◌++◌, ltb, leb, if◌then◌else◌,
  Text,
}
use pttarticle_recommander.Common.Results.{Result, ok, err, unicode_error, ◌>>=◌}
use pttarticle_recommander.Protocol.Bytes.{Bytes}

abbrev is_surrogate : ℕ → Bool
is_surrogate c = leb 0xd800 c && ltb c 0xe000

-- A surrogate cannot be encoded; no code point of a `str` reaches 0x110000.
unfoldable pub encode_char : ℕ → Result Bytes
encode_char c =
    if ltb c 0x80
    then ok (c ∷ [])
    else if ltb c 0x800
    then ok ((0xc0 + c / 64) ∷ (0x80 + c % 64) ∷ [])
    else if is_surrogate c
    then err unicode_error
    else if ltb c 0x10000
    then ok ((0xe0 + c / 4096) ∷ (0x80 + c / 64 % 64) ∷ (0x80 + c % 64) ∷ [])
    else if ltb c 0x110000
    then ok
        ((0xf0 + c / 262144) ∷ (0x80 + c / 4096 % 64) ∷ (0x80 + c / 64 % 64) ∷ (0x80 + c % 64) ∷ [])
    else err unicode_error

unfoldable pub encode : Text → Result Bytes
encode [] = ok []
encode (c ∷ s) = do b ← encode_char c; bs ← encode s; ok (b ++ bs)

-- What a byte means at the start of a sequence: itself, or a number of continuation bytes with the
-- first bits and the least code point that the sequence may stand for (a smaller one is overlong).
pub data Lead : Type 0 where
  ascii : Lead
  sequence : ℕ → ℕ → ℕ → Lead
  invalid : Lead

unfoldable pub lead : ℕ → Lead
lead b =
    if ltb b 0x80
    then ascii
    else if ltb b 0xc0
    then invalid
    else if ltb b 0xe0
    then sequence 1 (b - 0xc0) 0x80
    else if ltb b 0xf0
    then sequence 2 (b - 0xe0) 0x800
    else if ltb b 0xf8
    then sequence 3 (b - 0xf0) 0x10000
    else invalid

abbrev is_continuation : ℕ → Bool
is_continuation b = leb 0x80 b && ltb b 0xc0

abbrev is_scalar : ℕ → ℕ → Bool
is_scalar low c = leb low c && ltb c 0x110000 && not (is_surrogate c)

-- The decoder: `need` continuation bytes are missing, and `acc` holds the bits so far.
unfoldable pub decode_from : ℕ → ℕ → ℕ → Bytes → Result Text
unfolding lead
decode_from zero acc low [] = ok []
decode_from (suc n) acc low [] = err unicode_error
decode_from zero acc low (b ∷ bs) = elim (lead b) [
  | ascii ↦ decode_from 0 0 0 bs >>= λ s. ok (b ∷ s)
  | sequence n bits least ↦ decode_from n bits least bs
  | invalid ↦ err unicode_error
]
decode_from (suc zero) acc low (b ∷ bs) =
    let c = acc * 64 + (b - 0x80) in
    let rest = (decode_from 0 0 0 bs >>= λ s. ok (c ∷ s)) in
    if is_continuation b && is_scalar low c then rest else err unicode_error
decode_from (suc (suc n)) acc low (b ∷ bs) =
    let more = decode_from (suc n) (acc * 64 + (b - 0x80)) low bs in
    if is_continuation b then more else err unicode_error

unfoldable pub decode : Bytes → Result Text
decode b = decode_from 0 0 0 b
