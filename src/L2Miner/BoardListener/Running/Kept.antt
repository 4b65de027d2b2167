-- ===== src/L2Miner/BoardListener/Running/Kept.antt =====
-- The update threads in the list of a `BoardListener` of src/miner/modules/l2_miner/board_listener.py: what the
-- callback, the cleaning and the start of other threads do to it.
use pttarticle_recommander.Common.{
  ℕ, ◌≡◌, ◌≢◌, ◌==◌, ◌⊎◌, inl, inr, refl, List, [], ◌∷◌, ◌++◌, Text, Bool, true, false, Bool-cases,
  if◌then◌else◌, arith,
}
use pttarticle_recommander.Common.Int.{ℤ}
use pttarticle_recommander.Common.Results
use pttarticle_recommander.Common.Results.{Error, Result, ok, err, out_of_fuel, Result-cases}
use pttarticle_recommander.Common.Exec.{Exec, Keeps, >>=-Keeps}
use pttarticle_recommander.L2Miner.BoardListener.Running.{
  UpdateThread, BoardListener, Threading, on_net, remove, update_thread_died, join_all,
  clean_died_threads, clean_and_check_should_continue, register, thread_of, start_update_thread,
}
use pttarticle_recommander.L2Miner.BoardListener.Running.Dying.{
  call_if_raised, run_loop, run_update,
}

-- A thread is in a list.
abbrev pub IsListed : ℕ → List UpdateThread → Type 0
IsListed i [] = ⊥
IsListed i (thr ∷ thrs) = (thr.ident ≡ i) ⊎ IsListed i thrs

IsListed-append :
    (i : ℕ) (thrs more : List UpdateThread) → IsListed i thrs → IsListed i (thrs ++ more)
IsListed-append i [] more h = absurd h
IsListed-append i (thr ∷ thrs) more (inl e) = inl e
IsListed-append i (thr ∷ thrs) more (inr h) = inr (IsListed-append i thrs more h)

remove_here :
    (j : ℕ) (thr : UpdateThread) (thrs : List UpdateThread)
    → (thr.ident == j) ≡ true
    → remove j (thr ∷ thrs) ≡ ok thrs
unfolding remove
remove_here j thr thrs h = rw h refl

remove_later :
    (j : ℕ) (thr : UpdateThread) (thrs : List UpdateThread)
    → (thr.ident == j) ≡ false
    → remove j (thr ∷ thrs) ≡ Results.◌>>=◌ (remove j thrs) (λ rest. ok (thr ∷ rest))
unfolding remove
remove_later j thr thrs h = rw h refl

-- Whatever removing a thread comes to, another thread stays.
abbrev StaysIn : ℕ → Result (List UpdateThread) → Type 0
StaysIn i (ok thrs) = IsListed i thrs
StaysIn i (err e) = Unit

behind-StaysIn :
    (i : ℕ) (thr : UpdateThread) (r : Result (List UpdateThread))
    → (thr.ident ≡ i) ⊎ StaysIn i r
    → StaysIn i (Results.◌>>=◌ r (λ rest. ok (thr ∷ rest)))
behind-StaysIn i thr (ok thrs) h = h
behind-StaysIn i thr (err e) h = tt

remove-StaysIn :
    (i j : ℕ) (thrs : List UpdateThread) → i ≢ j → IsListed i thrs → StaysIn i (remove j thrs)
remove-StaysIn i j [] d h = absurd h
remove-StaysIn i j (thr ∷ thrs) d h = elim (Bool-cases (thr.ident == j)) [
  | inl e ↦
      rw (remove_here j thr thrs e)
        (elim h [ inl f ↦ absurd (d (ground (arith, e, f))) | inr k ↦ k ])
  | inr e ↦ rw (remove_later j thr thrs e) (
      behind-StaysIn i thr (remove j thrs)
        (elim h [ inl f ↦ inl f | inr k ↦ inr (remove-StaysIn i j thrs d k) ]))
]

module _ {W : Type 0} (threading : Threading W) (i : ℕ) where
  -- The thread is in the list of the listener.
  abbrev pub IsKept : BoardListener W → Type 0
  IsKept s = IsListed i s.update_threads

  branch-Kept :
      {A : Type 0} (b : Bool) (p q : Result A × BoardListener W)
      → IsKept p.1
      → IsKept q.1
      → IsKept (if b then p else q).1
  branch-Kept true p q h k = h
  branch-Kept false p q h k = k

  on_net-Keeps : {A : Type 0} (m : Exec W A) → Keeps IsKept (on_net m)
  on_net-Keeps m s h = h

  join_all-Keeps : (thrs : List UpdateThread) → Keeps IsKept (join_all threading thrs)
  unfolding join_all
  join_all-Keeps [] = λ s h. h
  join_all-Keeps (thr ∷ thrs) =
      >>=-Keeps IsKept (on_net (threading.join thr.ident)) _
        (on_net-Keeps (threading.join thr.ident)) (λ _. join_all-Keeps thrs)

  clean_died-Keeps : Keeps IsKept (clean_died_threads threading)
  unfolding clean_died_threads
  clean_died-Keeps s h =
      >>=-Keeps IsKept (join_all threading s.died_threads) _ (join_all-Keeps s.died_threads)
        (λ _ t k. k) s h

  clean-Keeps : Keeps IsKept (clean_and_check_should_continue threading)
  unfolding clean_and_check_should_continue
  clean-Keeps s h =
      branch-Kept s.stop_flag _ _ h
        (>>=-Keeps IsKept (clean_died_threads threading) _ clean_died-Keeps (λ _ t k. k) s h)

  start-Keeps :
      (max_id min_url_num : ℤ) (max_page_idx : ℕ) (urls : List Text) (prev_url : Text)
      → Keeps IsKept (start_update_thread threading max_id min_url_num max_page_idx urls prev_url)
  unfolding start_update_thread
  start-Keeps max_id min_url_num max_page_idx urls prev_url s h =
      let thr = thread_of threading s max_id min_url_num max_page_idx urls prev_url in
      branch-Kept s.stop_flag _ _ h (
        >>=-Keeps IsKept (register threading thr) (λ _. on_net (threading.start thr))
          (λ t k. IsListed-append i t.update_threads (thr ∷ []) k)
          (λ _. on_net-Keeps (threading.start thr)) s h)

  moved-Kept :
      (thr : UpdateThread) (s : BoardListener W) (r : Result (List UpdateThread))
      → IsKept s
      → StaysIn i r
      → IsKept
          (elim r as (λ _. Result (Unit {0}) × BoardListener W) [
            | err e ↦ (err e, record s { died_threads = s.died_threads ++ thr ∷ [] })
            | ok thrs ↦ (
              ok tt,
              record s { died_threads = s.died_threads ++ thr ∷ []; update_threads = thrs },
            )
          ]).1
  moved-Kept thr s (ok thrs) h k = k
  moved-Kept thr s (err e) h k = h

  died-Keeps :
      (thr : UpdateThread) → i ≢ thr.ident → Keeps IsKept (update_thread_died threading thr)
  unfolding update_thread_died
  died-Keeps thr d s h = branch-Kept s.stop_flag _ _ h (
      moved-Kept thr s (remove thr.ident s.update_threads) h
        (remove-StaysIn i thr.ident s.update_threads d h))

  raised-Kept :
      (thr : UpdateThread) (r : Result (Unit {0})) (s : BoardListener W)
      → i ≢ thr.ident
      → IsKept s
      → IsKept (call_if_raised threading thr (r, s)).1
  unfolding call_if_raised
  raised-Kept thr (ok u) s d h = h
  raised-Kept thr (err out_of_fuel) s d h = h
  raised-Kept thr (err e) s d h = died-Keeps thr d s h

module _ {W : Type 0} (threading : Threading W) (urls_getter : ℕ → Exec W (List Text))
    (url_num_getter : Text → Result ℤ) (add_doc : ℤ → Text → Exec W Bool)
    (stop_flag : ℕ → Exec W Bool) where
  -- What may follow, as far as it is not about the thread `i`: the listener cleans and starts threads,
  -- other threads run to their end, and anything may happen on the network.
  pub data Later (i : ℕ) (s : BoardListener W) : BoardListener W → Type 0 where
    now : Later i s s
    cleaned :
        {t : BoardListener W}
        → Later i s t
        → Later i s (clean_and_check_should_continue threading t).1
    begun :
        {t : BoardListener W} (max_id min_url_num : ℤ) (max_page_idx : ℕ) (urls : List Text)
        (prev_url : Text)
        → Later i s t
        → Later i s
            (start_update_thread threading max_id min_url_num max_page_idx urls prev_url t).1
    ended :
        {t : BoardListener W} (fuel : ℕ) (thr : UpdateThread)
        → i ≢ thr.ident
        → Later i s t
        → Later i s (run_update threading urls_getter url_num_getter add_doc stop_flag fuel thr t).1
    elsewhere : {t : BoardListener W} (w : W) → Later i s t → Later i s (record t { net = w })

  Later-Kept :
      (i : ℕ) (s t : BoardListener W) → Later i s t → IsKept threading i s → IsKept threading i t
  unfolding run_update
  Later-Kept i s t now h = h
  Later-Kept i s t' (cleaned {t = t} l) h = clean-Keeps threading i t (Later-Kept i s t l h)
  Later-Kept i s t' (begun {t = t} max_id min_url_num max_page_idx urls prev_url l) h =
      start-Keeps threading i max_id min_url_num max_page_idx urls prev_url t (Later-Kept i s t l h)
  Later-Kept i s t' (ended {t = t} fuel thr d l) h =
      raised-Kept threading i thr _ _ d (Later-Kept i s t l h)
  Later-Kept i s t' (elsewhere {t = t} w l) h = Later-Kept i s t l h

  -- An update thread in the list of the listener whose loop ends without an exception stays
  -- there, however often the listener then cleans and starts threads and other threads run to
  -- their end.
  pub ended_thread_stays :
      (fuel : ℕ) (thr : UpdateThread) (s t : BoardListener W) (w : W)
      → run_loop threading urls_getter url_num_getter add_doc stop_flag fuel thr s.net ≡ (ok tt, w)
      → IsKept threading thr.ident s
      → Later thr.ident
          (run_update threading urls_getter url_num_getter add_doc stop_flag fuel thr s).1
          t
      → IsKept threading thr.ident t
  unfolding run_update call_if_raised
  ended_thread_stays fuel thr s t w p h l = Later-Kept thr.ident _ t l (rw p h)
