-- ===== src/L2Miner/BoardListener/Search/Sorted.antt =====
-- The range that a round of the search in `_get_page_contain_url_num` of src/miner/modules/l2_miner/board_listener.py leaves.
use native.Mathlib.Decide.{dec_lt}
use pttarticle_recommander.Common.{
  ℕ, suc, ◌+◌, ◌-◌, ◌≤◌, ◌<◌, ◌≡◌, refl, List, ◌∷◌, All, Text, ◌⊎◌, inl, inr, true, false, arith,
}
use pttarticle_recommander.Common.Int.{ℤ, ltb_ℤ, ◌≤ℤ◌, ◌<ℤ◌, pos_part, neg_part}
use pttarticle_recommander.Common.Results.{Result, ok}
use pttarticle_recommander.Common.Exec.{Exec}
use pttarticle_recommander.L2Miner.BoardListener.Search.{last, narrow}

<ℤ-cases : (a b : ℤ) → (a <ℤ b) ⊎ (b ≤ℤ a)
<ℤ-cases a b = elim (dec_lt (pos_part a + neg_part b) (pos_part b + neg_part a)) [
  | yes h ↦ inl h
  | no h ↦ inr (omega arith)
]

-- A url has a number with a property.
abbrev pub HasNumber : (Text → Result ℤ) → (ℤ → Type 0) → Text → Type 0
HasNumber compare_num P url = (n : ℤ) × (compare_num url ≡ ok n) × P n

module _ {W : Type 0} (get_page_urls : ℕ → Exec W (List Text)) (compare_num : Text → Result ℤ)
    (low high : ℕ → ℤ) where
  -- What is fetched for a page: urls, the first of which has the lowest number and the last the highest.
  pub record IsPage (i : ℕ) (w : W) : Type 0 where
    pub front : Text
    pub back : Text
    pub more : List Text
    pub fetched : (get_page_urls i w).0 ≡ ok (front ∷ more)
    pub ends : last (front ∷ more) ≡ ok back
    pub front_num : compare_num front ≡ ok (low i)
    pub back_num : compare_num back ≡ ok (high i)
    pub within : All (HasNumber compare_num (λ n. (low i ≤ℤ n) × (n ≤ℤ high i))) (front ∷ more)

  -- The pages from one up to `max` have urls, and the numbers rise from page to page.
  pub record IsSorted (max : ℕ) : Type 0 where
    pub page : (i : ℕ) → 1 ≤ i → i ≤ max → (w : W) → IsPage i w
    pub ordered : (i : ℕ) → 1 ≤ i → i ≤ max → low i ≤ℤ high i
    pub apart : (i j : ℕ) → 1 ≤ i → i < j → j ≤ max → high i <ℤ low j

  -- A range within the pages that leaves out only such pages.
  pub record IsRange (max : ℕ) (url_num : ℤ) (l u : ℕ) : Type 0 where
    pub first : 1 ≤ l
    pub inside : l ≤ max
    pub top : u ≤ max
    pub below : (j : ℕ) → 1 ≤ j → j < l → high j <ℤ url_num
    pub above : (j : ℕ) → u < j → j ≤ max → url_num <ℤ low j

  module _ (randint : ℕ → ℕ → Exec W ℕ) where
    narrow_left :
        (url_num : ℤ) (lower upper mid i : ℕ) (w : W) (p : IsPage i w)
        → url_num <ℤ low i
        → narrow get_page_urls compare_num randint url_num lower upper mid (p.front ∷ p.more)
          ≡ ok (lower, mid - 1)
    unfolding narrow
    narrow_left url_num lower upper mid i w p h =
        let e : ltb_ℤ url_num (low i) ≡ true = ground arith in rw (p.front_num, e) refl

    narrow_right :
        (url_num : ℤ) (lower upper mid i : ℕ) (w : W) (p : IsPage i w)
        → low i ≤ℤ url_num
        → high i <ℤ url_num
        → narrow get_page_urls compare_num randint url_num lower upper mid (p.front ∷ p.more)
          ≡ ok (mid + 1, upper)
    unfolding narrow
    narrow_right url_num lower upper mid i w p h k =
        let e : ltb_ℤ url_num (low i) ≡ false = ground arith in
        let f : ltb_ℤ (high i) url_num ≡ true = ground arith in
        rw (p.front_num, e, p.ends, p.back_num, f) refl

    narrow_here :
        (url_num : ℤ) (lower upper mid i : ℕ) (w : W) (p : IsPage i w)
        → low i ≤ℤ url_num
        → url_num ≤ℤ high i
        → narrow get_page_urls compare_num randint url_num lower upper mid (p.front ∷ p.more)
          ≡ ok (mid, mid)
    unfolding narrow
    narrow_here url_num lower upper mid i w p h k =
        let e : ltb_ℤ url_num (low i) ≡ false = ground arith in
        let f : ltb_ℤ (high i) url_num ≡ false = ground arith in
        rw (p.front_num, e, p.ends, p.back_num, f) refl

    module _ {max : ℕ} (sorted : IsSorted max) (url_num : ℤ) where
      -- The range on either side of a page, or the page alone.
      left-IsRange :
          (l u mid : ℕ)
          → IsRange max url_num l u
          → 1 ≤ mid
          → mid ≤ max
          → url_num <ℤ low mid
          → IsRange max url_num l (mid - 1)
      left-IsRange l u mid r h k s = record {
        first = r.first;
        inside = r.inside;
        top = omega arith;
        below = r.below;
        above = λ j b m. elim (dec_lt mid j) [
          | yes d ↦ omega (arith, s, sorted.ordered mid h k, sorted.apart mid j h d m)
          | no d ↦ let e : j ≡ mid = omega arith in rw e s
        ];
      }

      right-IsRange :
          (l u mid : ℕ)
          → IsRange max url_num l u
          → 1 ≤ mid
          → mid < u
          → high mid <ℤ url_num
          → IsRange max url_num (mid + 1) u
      right-IsRange l u mid r h k s =
          let top = r.top in
          record {
            first = omega arith;
            inside = omega arith;
            top = top;
            below = λ j b m. elim (dec_lt j mid) [
              | yes d ↦ omega (
                arith,
                s,
                sorted.ordered mid h (omega arith),
                sorted.apart j mid b d (omega arith),
              )
              | no d ↦ let e : j ≡ mid = omega arith in rw e s
            ];
            above = r.above;
          }

      here-IsRange :
          (mid : ℕ)
          → 1 ≤ mid
          → mid ≤ max
          → low mid ≤ℤ url_num
          → url_num ≤ℤ high mid
          → IsRange max url_num mid mid
      here-IsRange mid h k s t = record {
        first = h;
        inside = k;
        top = k;
        below = λ j b m. omega (arith, s, sorted.apart j mid b m k);
        above = λ j b m. omega (arith, t, sorted.apart mid j h b m);
      }

      pub narrow-IsRange :
          (fuel l u mid : ℕ) (w : W) (p : IsPage mid w)
          → IsRange max url_num l u
          → l ≤ mid
          → mid < u
          → u ≤ l + suc fuel
          → (l' u' : ℕ) × (narrow get_page_urls compare_num randint url_num l u mid
                (p.front ∷ p.more)
              ≡ ok (l', u'))
            × IsRange max url_num l' u'
            × (u' ≤ l' + fuel)
      narrow-IsRange fuel l u mid w p r h k s =
          let first = r.first in
          let top = r.top in
          elim (<ℤ-cases url_num (low mid)) [
            | inl a ↦ (
              l,
              mid - 1,
              narrow_left url_num l u mid mid w p a,
              left-IsRange l u mid r (omega arith) (omega arith) a,
              omega arith,
            )
            | inr a ↦ elim (<ℤ-cases (high mid) url_num) [
              | inl b ↦ (
                mid + 1,
                u,
                narrow_right url_num l u mid mid w p a b,
                right-IsRange l u mid r (omega arith) k b,
                omega arith,
              )
              | inr b ↦ (
                mid,
                mid,
                narrow_here url_num l u mid mid w p a b,
                here-IsRange mid (omega arith) (omega arith) a b,
                omega arith,
              )
            ]
          ]

      pub closed-IsRange : (l u : ℕ) → IsRange max url_num l u → u ≤ l → IsRange max url_num l l
      closed-IsRange l u r h = record {
        first = r.first;
        inside = r.inside;
        top = r.inside;
        below = r.below;
        above = λ j b m. r.above j (omega arith) m;
      }
