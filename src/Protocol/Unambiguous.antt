-- ===== src/Protocol/Unambiguous.antt =====
-- Packers whose output can be read in one way only, also where other bytes follow it. This is what a
-- reader of a dump relies on, for the structures that have no `load` beside their `dump`.
use pttarticle_recommander.Common.{
  ℕ, ◌+◌, ◌≡◌, refl, sym, ap, ap₂, map, ◌∙◌, List, [], ◌∷◌, ◌++◌, length, drop, append_assoc,
  drop-append, arith,
}
use pttarticle_recommander.Common.Results.{Result, ok, ◌>>=◌, >>=-eq-ok}
use pttarticle_recommander.Protocol.Bytes.{Bytes, pack_unsigned}
use pttarticle_recommander.Protocol.Codec.{Packer, Unpacker, RoundTrips, unsigned-RoundTrips}

-- `b''.join` of packed parts, in their order; the first part that raises ends it.
unfoldable pub join_all : List (Result Bytes) → Result Bytes
join_all [] = ok []
join_all (r ∷ rest) = do b ← r; bs ← join_all rest; ok (b ++ bs)

pub record IsUnambiguous {A : Type 0} (pack : Packer A) : Type 0 where
  pub at :
      (x y : A) (b c r s : Bytes)
      → pack x ≡ ok b
      → pack y ≡ ok c
      → b ++ r ≡ c ++ s
      → (x ≡ y) × (r ≡ s)

pub RoundTrips-IsUnambiguous :
    {A : Type 0} {pack : Packer A} {unpack : Unpacker A}
    → RoundTrips pack unpack
    → IsUnambiguous pack
RoundTrips-IsUnambiguous {A} {pack} {unpack} law = record {
  at = λ x y b c r s p q h.
      let u : unpack (b ++ r) 0 ≡ ok (x, 0 + length b) = law.at x b (b ++ r) r 0 p refl in
      let v : unpack (b ++ r) 0 ≡ ok (y, 0 + length c) = law.at y c (b ++ r) s 0 q h in
      let e : ◌≡◌ {A = Result (A × ℕ)} (ok (x, 0 + length b)) (ok (y, 0 + length c)) = sym u ∙ v in
      let same : x ≡ y = cc in
      let width : length b ≡ length c = ground arith in
      (
        same,
        sym (drop-append b r)
            ∙ ap (drop (length b)) h
            ∙ ap (λ n. drop n (c ++ s)) width
            ∙ drop-append c s,
      );
}

pub unsigned-IsUnambiguous : (w : ℕ) → IsUnambiguous (pack_unsigned w)
unsigned-IsUnambiguous w = RoundTrips-IsUnambiguous (unsigned-RoundTrips w)

-- The joined parts `f` of two values with `G` determine what `E` says of the two, and where they end.
pub record Determines {S : Type 0} (G : S → S → Type 0) (f : S → List (Result Bytes))
    (E : S → S → Type 0) : Type 0 where
  pub at :
      (m n : S) (b c r s : Bytes)
      → G m n
      → join_all (f m) ≡ ok b
      → join_all (f n) ≡ ok c
      → b ++ r ≡ c ++ s
      → E m n × (r ≡ s)

module _ {A : Type 0} {pack : Packer A} (law : IsUnambiguous pack) where
  -- The first of the joined parts is one value, and the others stand behind it in both.
  peel :
      (x y : A) (f g : List (Result Bytes)) (b c r s : Bytes)
      → join_all (pack x ∷ f) ≡ ok b
      → join_all (pack y ∷ g) ≡ ok c
      → b ++ r ≡ c ++ s
      → (x ≡ y)
        × (b' : Bytes) × (c' : Bytes) × (join_all f ≡ ok b')
        × (join_all g ≡ ok c')
        × (b' ++ r ≡ c' ++ s)
  unfolding join_all
  peel x y f g b c r s p q h =
      let (b₁, p₁, p') = >>=-eq-ok (pack x) _ p in
      let (b₂, p₂, p₃) = >>=-eq-ok (join_all f) _ p' in
      let (c₁, q₁, q') = >>=-eq-ok (pack y) _ q in
      let (c₂, q₂, q₃) = >>=-eq-ok (join_all g) _ q' in
      let e : b₁ ++ b₂ ≡ b = cc in
      let d : c₁ ++ c₂ ≡ c = cc in
      let whole : b₁ ++ (b₂ ++ r) ≡ c₁ ++ (c₂ ++ s) =
        sym (append_assoc b₁ b₂ r)
        ∙ ap (λ z. z ++ r) e
        ∙ h
        ∙ ap (λ z. z ++ s) (sym d)
        ∙ append_assoc c₁ c₂ s in
      let (same, behind) = law.at x y b₁ c₁ (b₂ ++ r) (c₂ ++ s) p₁ q₁ whole in
      (same, b₂, c₂, p₂, q₂, behind)

  -- A field packed in front of parts that determine `E` is determined too.
  pub field_then :
      {S : Type 0} {G : S → S → Type 0} (field : S → A) {f : S → List (Result Bytes)}
      {E : S → S → Type 0}
      → Determines G f E
      → Determines G (λ d. pack (field d) ∷ f d) (λ m n. (field m ≡ field n) × E m n)
  field_then field {f} others = record {
    at = λ m n b c r s g p q h.
        let (same, b', c', p', q', behind) = peel (field m) (field n) (f m) (f n) b c r s p q h in
        let (e, end) = others.at m n b' c' r s g p' q' behind in ((same, e), end);
  }

  -- So are rows, where both values have as many of them.
  rows_at :
      (xs ys : List A) (b c r s : Bytes)
      → length xs ≡ length ys
      → join_all (map pack xs) ≡ ok b
      → join_all (map pack ys) ≡ ok c
      → b ++ r ≡ c ++ s
      → (xs ≡ ys) × (r ≡ s)
  rows_at [] [] b c r s k p q h =
      unfold join_all in
      let e : [] ≡ b = cc in
      let d : [] ≡ c = cc in (refl, ap (λ z. z ++ r) e ∙ h ∙ ap (λ z. z ++ s) (sym d))
  rows_at [] (y ∷ ys) b c r s k p q h = absurd (omega arith)
  rows_at (x ∷ xs) [] b c r s k p q h = absurd (omega arith)
  rows_at (x ∷ xs) (y ∷ ys) b c r s k p q h =
      let (same, b', c', p', q', behind) = peel x y (map pack xs) (map pack ys) b c r s p q h in
      let (e, end) = rows_at xs ys b' c' r s (omega arith) p' q' behind in
      (ap₂ (λ z zs. z ∷ zs) same e, end)

  pub rows_last :
      {S : Type 0} (field : S → List A)
      → Determines
          (λ m n. length (field m) ≡ length (field n))
          (λ d. map pack (field d))
          (λ m n. field m ≡ field n)
  rows_last field = record {
    at = λ m n b c r s g p q h. rows_at (field m) (field n) b c r s g p q h;
  }
