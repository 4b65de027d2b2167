-- ===== src/L2Miner/Notifier.antt =====
-- `_CacheUpdateNotifier` of src/miner/modules/l2_miner/cache.py, which tells the cache how far back it should
-- fetch documents again, and `sleep_if` of src/miner/modules/utils.py, in which it waits.
pub mod Periods
pub mod Told
use pttarticle_recommander.Common.{
  ℕ, zero, suc, ◌+◌, ◌-◌, ◌*◌, ◌/◌, ◌%◌, ◌^◌, Bool, true, false, ltb, if◌then◌else◌,
}
use pttarticle_recommander.Common.Results.{err, out_of_fuel}
use pttarticle_recommander.Common.Exec.{Exec, pure, raise, ◌>>=◌, ◌>>◌}

-- `a & b` of two numbers below 2 ^ n.
unfoldable pub bit_and : ℕ → ℕ → ℕ → ℕ
bit_and zero a b = 0
bit_and (suc n) a b = (a % 2) * (b % 2) + 2 * bit_and n (a / 2) (b / 2)

-- `a & -a`, where `-a` is the complement of `a` to 2 ^ n, for any `n` with `a` below 2 ^ n: the bits
-- above are all zero in `a`.
abbrev pub and_neg : ℕ → ℕ → ℕ
and_neg n a = bit_and n a (2 ^ n - a)

-- `_TIME_PERIOD` and `_MAX_BIT`
abbrev pub time_period : ℕ
time_period = 600

abbrev pub max_bit : ℕ
max_bit = 1024

-- Eleven bits hold the numbers up to `max_bit`.
abbrev pub width : ℕ
width = 11

module _ {W : Type 0} (timestamp : Exec W ℕ) (sleep : ℕ → Exec W (Unit {0}))
    (func : Exec W Bool) where
  -- `while now - t0 < total_time`, on fuel: the clock is not the program's.
  unfoldable pub sleep_until : ℕ → ℕ → ℕ → ℕ → Exec W Bool
  sleep_until zero t0 total_time delta = raise out_of_fuel
  sleep_until (suc fuel) t0 total_time delta = do
    now ← timestamp
    if ltb (now - t0) total_time
        then (do
          go_on ← func
          if go_on then (do sleep delta; sleep_until fuel t0 total_time delta) else pure false)
        else pure true

  unfoldable pub sleep_if : ℕ → ℕ → ℕ → Exec W Bool
  sleep_if fuel total_time delta = do t0 ← timestamp; sleep_until fuel t0 total_time delta

module _ {W : Type 0} (sleep : ℕ → Exec W Bool) (callback : ℕ → Exec W (Unit {0})) where
  -- `for a in range(1, self._MAX_BIT + 1)`, from `a` on with the rounds that are left; whether the
  -- thread goes on behind it.
  unfoldable pub notify_from : ℕ → ℕ → Exec W Bool
  notify_from zero a = pure true
  notify_from (suc n) a = do
    go_on ← sleep time_period
    if go_on
        then (do callback (time_period * and_neg width a); notify_from n (suc a))
        else pure false

  -- `while True`, on fuel: the thread runs until it is stopped.
  unfoldable pub run : ℕ → Exec W (Unit {0})
  run zero = raise out_of_fuel
  run (suc fuel) = do go_on ← notify_from max_bit 1; if go_on then run fuel else pure tt
