-- ===== src/L2Miner/Notifier/Periods.antt =====
-- The periods of `_CacheUpdateNotifier` in src/miner/modules/l2_miner/cache.py.
use native.Mathlib.Decide.{ℕ_discrete}
use pttarticle_recommander.Common.{
  ℕ, zero, suc, ◌+◌, ◌-◌, ◌*◌, ◌/◌, ◌%◌, ◌^◌, ◌≤◌, ◌<◌, ◌≡◌, refl, sym, ap, ◌∙◌, arith,
}
use pttarticle_recommander.L2Miner.Notifier.{bit_and, and_neg}

pow_suc : (n : ℕ) → 2 ^ suc n ≡ 2 * 2 ^ n
pow_suc n = omega arith

bit_and_even : (n a b : ℕ) → a % 2 ≡ 0 → bit_and (suc n) a b ≡ 2 * bit_and n (a / 2) (b / 2)
unfolding bit_and
bit_and_even n a b h = rw h (omega arith)

bit_and_odd : (n a b : ℕ) → a % 2 ≡ 1 → bit_and (suc n) a b ≡ b % 2 + 2 * bit_and n (a / 2) (b / 2)
unfolding bit_and
bit_and_odd n a b h = rw h (omega arith)

-- The bits of a number and of its complement have none in common.
bit_and-complement : (n a b : ℕ) → a + b + 1 ≡ 2 ^ n → bit_and n a b ≡ 0
bit_and-complement zero a b h = unfold bit_and in refl
bit_and-complement (suc n) a b h =
    let rest = bit_and-complement n (a / 2) (b / 2) (omega (arith, pow_suc n)) in
    elim (ℕ_discrete (a % 2) 0) [
      | yes even ↦ omega (arith, bit_and_even n a b even, rest)
      | no odd ↦
          let e : a % 2 ≡ 1 = omega arith in
          let f : b % 2 ≡ 0 = omega (arith, pow_suc n) in
          omega (arith, bit_and_odd n a b e, f, rest)
    ]

and_neg_odd : (n a : ℕ) → a < 2 ^ suc n → a % 2 ≡ 1 → and_neg (suc n) a ≡ 1
and_neg_odd n a h e =
    let b : ℕ = 2 ^ suc n - a in
    let f : b % 2 ≡ 1 = omega (arith, pow_suc n) in
    let rest = bit_and-complement n (a / 2) (b / 2) (omega (arith, pow_suc n)) in
    omega (arith, bit_and_odd n a b e, f, rest)

and_neg_even : (n a : ℕ) → a ≤ 2 ^ suc n → a % 2 ≡ 0 → and_neg (suc n) a ≡ 2 * and_neg n (a / 2)
and_neg_even n a h e =
    let b : ℕ = 2 ^ suc n - a in
    let half : b / 2 ≡ 2 ^ n - a / 2 = omega (arith, pow_suc n) in
    bit_and_even n a b e ∙ ap (λ c. 2 * bit_and n (a / 2) c) half

-- `p` is a power of two, and `a` an odd multiple of it.
pub record IsLowest (a p : ℕ) : Type 0 where
  pub exponent : ℕ
  pub odd : ℕ
  pub power : p ≡ 2 ^ exponent
  pub multiple : a ≡ (2 * odd + 1) * p

times_two : (k p : ℕ) → (2 * k + 1) * (2 * p) ≡ 2 * ((2 * k + 1) * p)
times_two k p = grind arith

-- For every number above zero and every width that holds it, `a & -a` is the greatest power of
-- two that divides it: in the n-th period the cache is told to look as many periods back as the
-- greatest power of two in n.
pub and_neg-IsLowest : (n a : ℕ) → 0 < a → a < 2 ^ n → IsLowest a (and_neg n a)
and_neg-IsLowest zero a h k = absurd (omega arith)
and_neg-IsLowest (suc n) a h k = elim (ℕ_discrete (a % 2) 0) [
  | yes even ↦
      let r = and_neg-IsLowest n (a / 2) (omega arith) (omega (arith, pow_suc n)) in
      let e : and_neg (suc n) a ≡ 2 * and_neg n (a / 2) = and_neg_even n a (omega arith) even in
      record {
        exponent = suc (r.exponent);
        odd = r.odd;
        power = omega (arith, e, r.power, pow_suc r.exponent);
        multiple =
            let m : a ≡ 2 * (a / 2) = omega arith in
            m
            ∙ ap (λ t. 2 * t) r.multiple
            ∙ sym (times_two r.odd (and_neg n (a / 2)))
            ∙ ap (λ t. (2 * r.odd + 1) * t) (sym e);
      }
  | no odd ↦
      let e : a % 2 ≡ 1 = omega arith in
      let one = and_neg_odd n a k e in
      record {
        exponent = 0;
        odd = a / 2;
        power = one;
        multiple =
            let m : a ≡ (2 * (a / 2) + 1) * 1 = omega arith in
            m ∙ ap (λ t. (2 * (a / 2) + 1) * t) (sym one);
      }
]
