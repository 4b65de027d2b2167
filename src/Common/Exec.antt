-- ===== src/Common/Exec.antt =====
-- Methods of an object of state `S` that may raise.
use pttarticle_recommander.Common.Tests.{if◌then◌else◌}
use mathlib.Core.Bool.{Bool, true, false}
use mathlib.Core.Path.{◌≡◌, refl, ap, ◌∙◌}
use mathlib.Core.Logic.{◌≢◌, inl, inr}
use pttarticle_recommander.Common.Results.{Error, Result, ok, err, out_of_fuel, Result-cases}

abbrev pub Exec {ℓ} : Type ℓ → Type ℓ → Type ℓ
Exec S A = S → Result A × S

module _ {ℓ} {S A : Type ℓ} where
  abbrev pub pure : A → Exec S A
  pure a s = (ok a, s)

  abbrev pub raise : Error → Exec S A
  raise e s = (err e, s)

  abbrev pub lift : Result A → Exec S A
  lift r s = (r, s)

  abbrev pub gets : (S → A) → Exec S A
  gets f s = (ok (f s), s)

module _ {ℓ} {S A B : Type ℓ} where
  abbrev pub continue_with : Result A → (A → Exec S B) → Exec S B
  continue_with (ok a) f s = f a s
  continue_with (err e) f s = (err e, s)

  infixl 5 ◌>>=◌ ◌>>◌
  abbrev pub ◌>>=◌ : Exec S A → (A → Exec S B) → Exec S B
  ◌>>=◌ m f s = continue_with (m s).0 f (m s).1

  abbrev pub ◌>>◌ : Exec S A → Exec S B → Exec S B
  m >> n = m >>= λ _. n

pub error_of : {A : Type 0} (d e : Error) → ◌≡◌ {A = Result A} (err d) (err e) → d ≡ e
error_of d e h = cc

-- Loops that end: a chain does, if its first call does and what follows every return of that call does.
module _ {S A B : Type 0} where
  pub >>=-ends :
      (m : Exec S A) (f : A → Exec S B) (s : S)
      → (m s).0 ≢ err out_of_fuel
      → ((a : A) → (f a (m s).1).0 ≢ err out_of_fuel)
      → ((m >>= f) s).0 ≢ err out_of_fuel
  >>=-ends m f s h k = elim (Result-cases (m s).0) [
    | inl (a, p) ↦ rw p (k a)
    | inr (e, p) ↦ rw p (λ q. h (p ∙ ap err (error_of e out_of_fuel q)))
  ]

module _ {S A : Type 0} where
  pub if-ends :
      (b : Bool) (m n : Exec S A) (s : S)
      → (b ≡ true → (m s).0 ≢ err out_of_fuel)
      → (b ≡ false → (n s).0 ≢ err out_of_fuel)
      → ((if b then m else n) s).0 ≢ err out_of_fuel
  if-ends true m n s h k = h refl
  if-ends false m n s h k = k refl

-- A property of the state that a method leaves true, whether it returns or raises.
module _ {S : Type 0} (P : S → Type 0) where
  abbrev pub Keeps : {A : Type 0} → Exec S A → Type 0
  Keeps m = (s : S) → P s → P (m s).1

  pub continue-Keeps :
      {A B : Type 0} (r : Result A) (f : A → Exec S B)
      → ((a : A) → Keeps (f a))
      → Keeps (continue_with r f)
  continue-Keeps (ok a) f k s h = k a s h
  continue-Keeps (err e) f k s h = h

  pub >>=-Keeps :
      {A B : Type 0} (m : Exec S A) (f : A → Exec S B)
      → Keeps m
      → ((a : A) → Keeps (f a))
      → Keeps (m >>= f)
  >>=-Keeps m f k l s h = continue-Keeps (m s).0 f l (m s).1 (k s h)

  pub if-Keeps :
      {A : Type 0} (b : Bool) (m n : Exec S A) → Keeps m → Keeps n → Keeps (if b then m else n)
  if-Keeps true m n h k = h
  if-Keeps false m n h k = k
