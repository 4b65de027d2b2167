-- ===== src/Protocol/Utf8/RoundTrip.antt =====
-- The strict UTF-8 codec reads back what it wrote.
use pttarticle_recommander.Common.{
  ℕ, suc, ◌+◌, ◌-◌, ◌*◌, ◌/◌, ◌%◌, ◌≤◌, ◌<◌, ◌≡◌, true, false, ◌∙◌, [], ◌∷◌, ◌++◌, arith, Text,
}
use pttarticle_recommander.Common.Results.{ok, ◌>>=◌, >>=-eq-ok}
use pttarticle_recommander.Protocol.Bytes.{Bytes}
use pttarticle_recommander.Protocol.Utf8.{
  is_surrogate, is_continuation, is_scalar, ascii, sequence, lead, encode_char, encode, decode_from,
  decode,
}

lead-ascii : (c : ℕ) → c < 0x80 → lead c ≡ ascii
unfolding lead
lead-ascii c h = ground arith

lead-two : (a : ℕ) → a < 32 → lead (0xc0 + a) ≡ sequence 1 a 0x80
unfolding lead
lead-two a h = ground arith

lead-three : (a : ℕ) → a < 16 → lead (0xe0 + a) ≡ sequence 2 a 0x800
unfolding lead
lead-three a h = ground arith

lead-four : (a : ℕ) → a < 8 → lead (0xf0 + a) ≡ sequence 3 a 0x10000
unfolding lead
lead-four a h = ground arith

inner_test : (x : ℕ) → x < 64 → is_continuation (0x80 + x) ≡ true
inner_test x h = ground arith

scalar_test : (low c : ℕ) → low ≤ c → c < 0x110000 → is_surrogate c ≡ false → is_scalar low c ≡ true
scalar_test low c l u g = ground arith

module _ (bs : Bytes) where
  start_byte :
      (b n bits low : ℕ)
      → lead b ≡ sequence n bits low
      → decode_from 0 0 0 (b ∷ bs) ≡ decode_from n bits low bs
  unfolding decode_from
  start_byte b n bits low h = unfold decode_from in rw (h, decode_from)

  inner_byte :
      (n acc low x : ℕ)
      → x < 64
      → decode_from (suc (suc n)) acc low ((0x80 + x) ∷ bs)
        ≡ decode_from (suc n) (acc * 64 + x) low bs
  unfolding decode_from
  inner_byte n acc low x h = let e : 0x80 + x - 0x80 ≡ x = omega arith in ground (arith, e)

  last_byte :
      (acc low x c : ℕ)
      → x < 64
      → c ≡ acc * 64 + x
      → low ≤ c
      → c < 0x110000
      → is_surrogate c ≡ false
      → decode_from 1 acc low ((0x80 + x) ∷ bs) ≡ (decode_from 0 0 0 bs >>= λ s. ok (c ∷ s))
  unfolding decode_from
  last_byte acc low x c h e l u g = let k : 0x80 + x - 0x80 ≡ x = omega arith in ground (arith, k)

  ascii_byte :
      (b : ℕ)
      → lead b ≡ ascii
      → decode_from 0 0 0 (b ∷ bs) ≡ (decode_from 0 0 0 bs >>= λ s. ok (b ∷ s))
  unfolding decode_from
  ascii_byte b h = unfold decode_from in rw (h, decode_from)

abbrev Continues : ℕ → Bytes → Bytes → Type 0
Continues c b rest = decode_from 0 0 0 (b ++ rest) ≡ (decode_from 0 0 0 rest >>= λ s. ok (c ∷ s))

module _ (c : ℕ) (rest : Bytes) where
  two_bytes : 0x80 ≤ c → c < 0x800 → Continues c ((0xc0 + c / 64) ∷ (0x80 + c % 64) ∷ []) rest
  two_bytes l u =
      start_byte _ (0xc0 + c / 64) 1 (c / 64) 0x80 (lead-two (c / 64) (omega arith))
      ∙ last_byte rest (c / 64) 0x80 (c % 64) c (omega arith) (omega arith) l (omega arith)
          (ground arith)

  three_bytes :
      0x800 ≤ c
      → c < 0x10000
      → is_surrogate c ≡ false
      → Continues c ((0xe0 + c / 4096) ∷ (0x80 + c / 64 % 64) ∷ (0x80 + c % 64) ∷ []) rest
  three_bytes l u g =
      start_byte _ (0xe0 + c / 4096) 2 (c / 4096) 0x800 (lead-three (c / 4096) (omega arith))
      ∙ inner_byte _ 0 (c / 4096) 0x800 (c / 64 % 64) (omega arith)
      ∙ last_byte rest (c / 4096 * 64 + c / 64 % 64) 0x800 (c % 64) c (omega arith) (omega arith) l
          (omega arith) g

  four_bytes :
      0x10000 ≤ c
      → c < 0x110000
      → Continues c
          ((0xf0 + c / 262144)
            ∷ (0x80 + c / 4096 % 64)
            ∷ (0x80 + c / 64 % 64)
            ∷ (0x80 + c % 64)
            ∷ [])
          rest
  four_bytes l u =
      start_byte _ (0xf0 + c / 262144) 3 (c / 262144) 0x10000 (lead-four (c / 262144) (omega arith))
      ∙ inner_byte _ 1 (c / 262144) 0x10000 (c / 4096 % 64) (omega arith)
      ∙ inner_byte _ 0 (c / 262144 * 64 + c / 4096 % 64) 0x10000 (c / 64 % 64) (omega arith)
      ∙ last_byte rest ((c / 262144 * 64 + c / 4096 % 64) * 64 + c / 64 % 64) 0x10000 (c % 64) c
          (omega arith) (omega arith) l u (ground arith)

  decode-encode_char : (b : Bytes) → encode_char c ≡ ok b → Continues c b rest
  unfolding encode_char
  decode-encode_char b h =
      ground (arith, ascii_byte rest c, lead-ascii c, two_bytes, three_bytes, four_bytes) steps
        9000000

-- Whatever text can be encoded is decoded to itself.
pub decode-encode : (s : Text) (b : Bytes) → encode s ≡ ok b → decode b ≡ ok s
unfolding decode encode
decode-encode [] b h = unfold decode_from in ground arith
decode-encode (c ∷ s) b h =
    let (x, p, q) = >>=-eq-ok (encode_char c) _ h in
    let (y, r, e) = >>=-eq-ok (encode s) _ q in
    let joined : x ++ y ≡ b = cc in rw (← joined, decode-encode_char c y x p, decode-encode s y r)
