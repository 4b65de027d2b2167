-- ===== src/L2Miner/BoardListener/LastPage.antt =====
-- `_get_max_page_idx` of src/miner/modules/l2_miner/board_listener.py, on a board of some pages.
use native.Mathlib.Decide.{dec_le, dec_lt}
use pttarticle_recommander.Common.{
  ℕ, zero, suc, ◌+◌, ◌*◌, ◌/◌, ◌≤◌, ◌<◌, ◌≡◌, refl, ap, ◌∙◌, Bool, true, false, leb, ltb, arith,
}
use pttarticle_recommander.Common.Results.{ok}
use pttarticle_recommander.Common.Exec.{Exec}
use pttarticle_recommander.L2Miner.BoardListener.{double, bisect, get_max_page_idx}

-- The board has the pages from one up to `last`, as long as they are asked for.
pub record HasPages {W : Type 0} (is_page_available : ℕ → Exec W Bool) (last : ℕ) : Type 0 where
  pub answer : (i : ℕ) (w : W) → 0 < i → (is_page_available i w).0 ≡ ok (leb i last)

module _ {W : Type 0} {probe : ℕ → Exec W Bool} {last : ℕ} (pages : HasPages probe last) where
  double_on :
      (fuel upper : ℕ) (w : W)
      → 0 < upper
      → upper ≤ last
      → double probe (suc fuel) upper w ≡ double probe fuel (upper * 2) (probe upper w).1
  unfolding double
  double_on fuel upper w k h =
      let e : leb upper last ≡ true = ground arith in
      rw (pages.answer upper w (omega arith), e) refl

  double_end :
      (fuel upper : ℕ) (w : W)
      → last < upper
      → double probe (suc fuel) upper w ≡ (ok upper, (probe upper w).1)
  unfolding double
  double_end fuel upper w h =
      let e : leb upper last ≡ false = ground arith in
      rw (pages.answer upper w (omega arith), e) refl

  -- What the doubling finds: a missing page, at most one doubling behind the pages.
  double-missing :
      (fuel upper : ℕ) (w : W)
      → last < upper + fuel
      → 0 < upper
      → upper / 2 ≤ last
      → (u : ℕ) × (w' : W) × (double probe (suc fuel) upper w ≡ (ok u, w'))
        × (last < u)
        × (u / 2 ≤ last)
  double-missing zero upper w h k l =
      (upper, (probe upper w).1, double_end zero upper w (omega arith), omega arith, l)
  double-missing (suc fuel) upper w h k l = elim (dec_le upper last) [
    | no d ↦ (upper, (probe upper w).1, double_end (suc fuel) upper w (omega arith), omega arith, l)
    | yes d ↦
        let (u, w', p, q, r) =
          double-missing fuel (upper * 2) (probe upper w).1 (omega arith) (omega arith)
            (omega arith) in
        (u, w', double_on (suc fuel) upper w k d ∙ p, q, r)
  ]

  bisect_lower :
      (fuel lower upper : ℕ) (w : W)
      → lower + 1 < upper
      → (lower + upper) / 2 ≤ last
      → bisect probe (suc fuel) lower upper w
        ≡ bisect probe fuel ((lower + upper) / 2) upper (probe ((lower + upper) / 2) w).1
  unfolding bisect
  bisect_lower fuel lower upper w h k =
      let e : leb ((lower + upper) / 2) last ≡ true = ground arith in
      let f : ltb (lower + 1) upper ≡ true = ground arith in
      rw (f, pages.answer ((lower + upper) / 2) w (omega arith), e) refl

  bisect_upper :
      (fuel lower upper : ℕ) (w : W)
      → lower + 1 < upper
      → last < (lower + upper) / 2
      → bisect probe (suc fuel) lower upper w
        ≡ bisect probe fuel lower ((lower + upper) / 2) (probe ((lower + upper) / 2) w).1
  unfolding bisect
  bisect_upper fuel lower upper w h k =
      let e : leb ((lower + upper) / 2) last ≡ false = ground arith in
      let f : ltb (lower + 1) upper ≡ true = ground arith in
      rw (f, pages.answer ((lower + upper) / 2) w (omega arith), e) refl

  bisect_end :
      (fuel lower upper : ℕ) (w : W)
      → upper ≤ lower + 1
      → bisect probe fuel lower upper w ≡ (ok lower, w)
  unfolding bisect
  bisect_end zero lower upper w h =
      let f : ltb (lower + 1) upper ≡ false = ground arith in rw f refl
  bisect_end (suc fuel) lower upper w h =
      let f : ltb (lower + 1) upper ≡ false = ground arith in rw f refl

  bisect-last :
      (fuel lower upper : ℕ) (w : W)
      → lower ≤ last
      → last < upper
      → upper ≤ lower + 1 + fuel
      → (w' : W) × (bisect probe fuel lower upper w ≡ (ok last, w'))
  bisect-last zero lower upper w h k l =
      (w, bisect_end zero lower upper w (omega arith) ∙ ap (λ n. (ok n, w)) (omega arith))
  bisect-last (suc fuel) lower upper w h k l = elim (dec_lt (lower + 1) upper) [
    | no d ↦
        (w, bisect_end (suc fuel) lower upper w (omega arith) ∙ ap (λ n. (ok n, w)) (omega arith))
    | yes d ↦ elim (dec_le ((lower + upper) / 2) last) [
      | yes m ↦
          let (w', p) =
            bisect-last fuel ((lower + upper) / 2) upper (probe ((lower + upper) / 2) w).1 m k
              (omega arith) in
          (w', bisect_lower fuel lower upper w d m ∙ p)
      | no m ↦
          let (w', p) =
            bisect-last fuel lower ((lower + upper) / 2) (probe ((lower + upper) / 2) w).1 h
              (omega arith) (omega arith) in
          (w', bisect_upper fuel lower upper w d (omega arith) ∙ p)
    ]
  ]

  get_max_page_idx_steps :
      (fuel u n : ℕ) (w v w' : W)
      → double probe fuel 1 w ≡ (ok u, v)
      → bisect probe u (u / 2) u v ≡ (ok n, w')
      → get_max_page_idx probe fuel w ≡ (ok n, w')
  unfolding get_max_page_idx
  get_max_page_idx_steps fuel u n w v w' p q = rw p q

  -- On a board whose pages go up to `last`, the doubling and the bisection of
  -- `_get_max_page_idx` end, with any fuel above `last`, and find `last`.
  pub last_page_found :
      (fuel : ℕ) (w : W) → last < fuel → (w' : W) × (get_max_page_idx probe fuel w ≡ (ok last, w'))
  last_page_found zero w h = absurd (omega arith)
  last_page_found (suc fuel) w h =
      let (u, v, p, q, r) = double-missing fuel 1 w (omega arith) (omega arith) (omega arith) in
      let (w', e) = bisect-last u (u / 2) u v r q (omega arith) in
      (w', get_max_page_idx_steps (suc fuel) u last w v w' p e)
