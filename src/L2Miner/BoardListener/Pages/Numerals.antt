-- ===== src/L2Miner/BoardListener/Pages/Numerals.antt =====
-- The numbers in the urls of src/miner/modules/l2_miner/board_listener.py: two pages have two urls.
use pttarticle_recommander.Common.{
  ℕ, zero, suc, ◌+◌, ◌-◌, ◌*◌, ◌/◌, ◌%◌, ◌≤◌, ◌<◌, ◌≡◌, refl, sym, ap, ◌∙◌, [], ◌∷◌, ◌++◌, Text,
  length, take, drop, length-append, take-append, drop-append, ltb, true, false, arith,
}
use native.Mathlib.Decide.{dec_lt}
use pttarticle_recommander.L2Miner.BoardListener.Pages.{
  digits, decimal, index_name, html_suffix, get_url,
}

-- The number that digits stand for, behind those that have been read.
value_from : ℕ → Text → ℕ
value_from a [] = a
value_from a (c ∷ cs) = value_from (a * 10 + (c - 48)) cs

value_from-append :
    (a c : ℕ) (cs : Text) → value_from a (cs ++ c ∷ []) ≡ value_from a cs * 10 + (c - 48)
unfolding value_from
value_from-append a c [] = refl
value_from-append a c (d ∷ cs) = value_from-append (a * 10 + (d - 48)) c cs

digits_one : (fuel n : ℕ) → n < 10 → digits (suc fuel) n ≡ (48 + n) ∷ []
unfolding digits
digits_one fuel n h = let e : ltb n 10 ≡ true = ground arith in rw e refl

digits_more :
    (fuel n : ℕ) → 10 ≤ n → digits (suc fuel) n ≡ digits fuel (n / 10) ++ (48 + n % 10) ∷ []
unfolding digits
digits_more fuel n h = let e : ltb n 10 ≡ false = ground arith in rw e refl

value_one : (n : ℕ) → value_from 0 ((48 + n) ∷ []) ≡ n
unfolding value_from
value_one n = omega arith

digits-value : (fuel n : ℕ) → n < fuel → value_from 0 (digits fuel n) ≡ n
digits-value zero n h = absurd (omega arith)
digits-value (suc fuel) n h = elim (dec_lt n 10) [
  | yes d ↦ ap (value_from 0) (digits_one fuel n d) ∙ value_one n
  | no d ↦
      ap (value_from 0) (digits_more fuel n (omega arith))
      ∙ value_from-append 0 (48 + n % 10) (digits fuel (n / 10))
      ∙ ap (λ v. v * 10 + (48 + n % 10 - 48)) (digits-value fuel (n / 10) (omega arith))
      ∙ omega arith
]

-- What is left of a url without the suffix, and without the prefix.
abbrev without_suffix : Text → Text
without_suffix u = take (length u - 5) u

abbrev inner : Text → Text → Text
inner pre u = drop (length pre) (without_suffix u)

without_suffix_lem : (t : Text) → without_suffix (t ++ html_suffix) ≡ t
without_suffix_lem t =
    let h = length-append t html_suffix in
    let e : length (t ++ html_suffix) - 5 ≡ length t = omega (arith, h) in
    ap (λ n. take n (t ++ html_suffix)) e ∙ take-append t html_suffix

inner_lem : (pre t : Text) → inner pre (pre ++ t ++ html_suffix) ≡ t
inner_lem pre t = ap (drop (length pre)) (without_suffix_lem (pre ++ t)) ∙ drop-append pre t

get_url_lem :
    (url_prefix : Text) (i : ℕ)
    → get_url url_prefix i ≡ url_prefix ++ index_name ++ decimal i ++ html_suffix
unfolding get_url
get_url_lem url_prefix i = refl

-- Different pages of a board have different urls.
pub get_url-injective :
    (url_prefix : Text) (i j : ℕ) → get_url url_prefix i ≡ get_url url_prefix j → i ≡ j
get_url-injective url_prefix i j h =
    let pre = url_prefix ++ index_name in
    let e : decimal i ≡ decimal j =
      sym (inner_lem pre (decimal i))
      ∙ ap (inner pre) (sym (get_url_lem url_prefix i) ∙ h ∙ get_url_lem url_prefix j)
      ∙ inner_lem pre (decimal j) in
    sym (digits-value (suc i) i (omega arith))
    ∙ ap (value_from 0) e
    ∙ digits-value (suc j) j (omega arith)
