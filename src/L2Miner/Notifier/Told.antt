-- ===== src/L2Miner/Notifier/Told.antt =====
-- What `_CacheUpdateNotifier.run` of src/miner/modules/l2_miner/cache.py does in a round of its outer loop.
use pttarticle_recommander.Common.{
  ℕ, zero, suc, ◌+◌, ◌*◌, ◌<◌, ◌≤◌, ◌≡◌, refl, ap, ◌∙◌, List, [], ◌∷◌, ◌++◌, append_assoc,
  append-nil, sym, Bool, true, arith,
}
use pttarticle_recommander.Common.Results.{ok}
use pttarticle_recommander.Common.Exec.{Exec}
use pttarticle_recommander.L2Miner.Notifier.{time_period, max_bit, width, and_neg, notify_from}
use pttarticle_recommander.L2Miner.Notifier.Periods.{IsLowest, and_neg-IsLowest}

-- What the thread does: it waits for some seconds, or tells the cache how many seconds to look back.
pub data Event : Type 0 where
  waited : ℕ → Event
  told : ℕ → Event

-- `n` periods of ten minutes from the period `a` on: behind each, the cache is told to look back as many
-- periods as the greatest power of two that divides the number of the period.
abbrev pub Periods : ℕ → ℕ → List Event → Type 0
Periods zero a es = es ≡ []
Periods (suc n) a es =
    (p : ℕ) × (rest : List Event) × IsLowest a p
    × (es ≡ waited 600 ∷ told (600 * p) ∷ rest)
    × Periods n (suc a) rest

-- A thread that is not stopped, and a cache that returns.
pub record IsTelling {W : Type 0} (sleep : ℕ → Exec W Bool) (callback : ℕ → Exec W (Unit {0}))
    (events : W → List Event) : Type 0 where
  pub waits :
      (n : ℕ) (w : W)
      → (w' : W) × (sleep n w ≡ (ok true, w')) × (events w' ≡ events w ++ waited n ∷ [])
  pub tells :
      (n : ℕ) (w : W)
      → (w' : W) × (callback n w ≡ (ok tt, w')) × (events w' ≡ events w ++ told n ∷ [])

module _ {W : Type 0} {sleep : ℕ → Exec W Bool} {callback : ℕ → Exec W (Unit {0})}
    {events : W → List Event} (telling : IsTelling sleep callback events) where
  period_steps :
      (n a : ℕ) (w v u : W)
      → sleep time_period w ≡ (ok true, v)
      → callback (time_period * and_neg width a) v ≡ (ok tt, u)
      → notify_from sleep callback (suc n) a w ≡ notify_from sleep callback n (suc a) u
  unfolding notify_from
  period_steps n a w v u p q = rw (p, q) refl

  notify_from-Periods :
      (n a : ℕ) (w : W)
      → 0 < a
      → a + n ≤ 2048
      → (w' : W) × (es : List Event) × (notify_from sleep callback n a w ≡ (ok true, w'))
        × (events w' ≡ events w ++ es)
        × Periods n a es
  notify_from-Periods zero a w h k =
      (w, [], unfold notify_from in refl, sym (append-nil (events w)), refl)
  notify_from-Periods (suc n) a w h k =
      let p : ℕ = and_neg width a in
      let lowest = and_neg-IsLowest 11 a h (omega arith) in
      let (v, x, e) = telling.waits 600 w in
      let (u, y, f) = telling.tells (600 * p) v in
      let (w', es, z, g, rest) = notify_from-Periods n (suc a) u (omega arith) (omega arith) in
      (
        w',
        waited 600 ∷ told (600 * p) ∷ es,
        period_steps n a w v u x y ∙ z,
        g
            ∙ ap (λ l. l ++ es) (f ∙ ap (λ l. l ++ told (600 * p) ∷ []) e)
            ∙ append_assoc (events w ++ waited 600 ∷ []) (told (600 * p) ∷ []) es
            ∙ append_assoc (events w) (waited 600 ∷ []) (told (600 * p) ∷ es),
        (p, es, lowest, refl, rest),
      )

  -- If the thread is not stopped and the cache returns, a round of `_CacheUpdateNotifier.run`
  -- is 1024 periods: in each it waits ten minutes and then tells the cache to look back as many
  -- times ten minutes as the greatest power of two that divides the number of the period, and
  -- nothing else.
  pub round_told :
      (w : W)
      → (w' : W) × (es : List Event) × (notify_from sleep callback max_bit 1 w ≡ (ok true, w'))
        × (events w' ≡ events w ++ es)
        × Periods 1024 1 es
  round_told w = notify_from-Periods 1024 1 w (omega arith) (omega arith)
