-- ===== src/L2Miner/RealBackend/Destroying/Ended.antt =====
-- The workers of a `RealBackend` of src/miner/modules/l2_miner/real_backend.py when it is destroyed.
use pttarticle_recommander.Common.{◌≡◌, refl, List, [], ◌∷◌, All, Text}
use pttarticle_recommander.Common.Results.{ok}
use pttarticle_recommander.Common.Exec.{Exec, ◌>>◌}
use pttarticle_recommander.L2Miner.Cache.{Cache}
use pttarticle_recommander.L2Miner.RealBackend.{Workers}
use pttarticle_recommander.L2Miner.RealBackend.Destroying.{
  Ending, stop_auto_update, stop_worker, stop_workers, destroy,
}

-- The parts of a board's worker that end by themselves: two threads, and the waits of the storage.
pub data Part : Type 0 where
  listening notifying waiting : Part

module _ {S : Type 0} (Done : Part → Text → S → Type 0) where
  -- The call returns, and what was done before it is done after it.
  pub record Returned (m : Exec S (Unit {0})) (s : S) : Type 0 where
    pub after : S
    pub returns : m s ≡ (ok tt, after)
    pub stays : (p : Part) (b : Text) → Done p b s → Done p b after

  -- It also brings a part of a worker to its end.
  pub record Finished (p : Part) (b : Text) (m : Exec S (Unit {0})) (s : S) : Type 0 where
    pub returned : Returned m s
    pub done : Done p b returned.after

  -- Stopping and joining return; a part that was joined, or a storage that was told, is done.
  pub record IsEnding (ending : Ending S) : Type 0 where
    pub stops_listener : (b : Text) (s : S) → Returned (ending.stop_listener b) s
    pub joins_listener : (b : Text) (s : S) → Finished listening b (ending.join_listener b) s
    pub stops_notifier : (b : Text) (s : S) → Returned (ending.stop_notifier b) s
    pub joins_notifier : (b : Text) (s : S) → Finished notifying b (ending.join_notifier b) s
    pub tells : (b : Text) (s : S) → Finished waiting b (ending.notify_stop b) s

  -- One call behind another.
  abbrev chain :
      (m n : Exec S (Unit {0})) (s : S) (r : Returned m s)
      → Returned n r.after
      → Returned (m >> n) s
  chain m n s r q = record {
    after = q.after;
    returns = rw (r.returns) (q.returns);
    stays = λ p b d. q.stays p b (r.stays p b d);
  }

  pub record IsStopped (b : Text) (s : S) : Type 0 where
    pub listener_done : Done listening b s
    pub notifier_done : Done notifying b s
    pub waits_done : Done waiting b s

  IsStopped-stays :
      (b : Text) (m : Exec S (Unit {0})) (s : S) (r : Returned m s)
      → IsStopped b s
      → IsStopped b r.after
  IsStopped-stays b m s r h = record {
    listener_done = r.stays listening b h.listener_done;
    notifier_done = r.stays notifying b h.notifier_done;
    waits_done = r.stays waiting b h.waits_done;
  }

  module _ {ending : Ending S} (given : IsEnding ending) where
    stop_auto_update-Finished :
        (b : Text) (s : S) → Finished notifying b (stop_auto_update ending b) s
    unfolding stop_auto_update
    stop_auto_update-Finished b s =
        let r = given.stops_notifier b s in
        let q = given.joins_notifier b r.after in
        record {
          returned = chain (ending.stop_notifier b) (ending.join_notifier b) s r q.returned;
          done = q.done;
        }

    stop_worker_lem :
        (b : Text) (s : S) → (r : Returned (stop_worker ending b) s) × IsStopped b r.after
    unfolding stop_worker
    stop_worker_lem b s =
        let r1 = given.stops_listener b s in
        let q2 = given.joins_listener b r1.after in
        let r2 = q2.returned in
        let q3 = stop_auto_update-Finished b r2.after in
        let r3 = q3.returned in
        let q4 = given.tells b r3.after in
        let r4 = q4.returned in
        let r34 = chain (stop_auto_update ending b) (ending.notify_stop b) r2.after r3 r4 in
        let r234 =
          chain (ending.join_listener b) (stop_auto_update ending b >> ending.notify_stop b)
            r1.after r2 r34 in
        (
          chain (ending.stop_listener b)
              (do ending.join_listener b; stop_auto_update ending b; ending.notify_stop b) s r1
              r234,
          record {
            listener_done = r4.stays listening b (r3.stays listening b q2.done);
            notifier_done = r4.stays notifying b q3.done;
            waits_done = q4.done;
          },
        )

    stop_workers_step :
        (b : Text) (c : Cache) (workers : List (Text × Cache)) (s : S)
        (r : Returned (stop_worker ending b) s) (q : Returned (stop_workers ending workers) r.after)
        → IsStopped b r.after
        → All (λ x. IsStopped x.0 q.after) workers
        → (r' : Returned (stop_workers ending ((b, c) ∷ workers)) s) × All
            (λ x. IsStopped x.0 r'.after)
            ((b, c) ∷ workers)
    unfolding stop_workers
    stop_workers_step b c workers s r q h k = (
      chain (stop_worker ending b) (stop_workers ending workers) s r q,
      (IsStopped-stays b (stop_workers ending workers) r.after q h, k),
    )

    stop_workers_lem :
        (workers : List (Text × Cache)) (s : S)
        → (r : Returned (stop_workers ending workers) s) × All (λ x. IsStopped x.0 r.after) workers
    stop_workers_lem [] s =
        (record { after = s; returns = unfold stop_workers in refl; stays = λ p b d. d }, tt)
    stop_workers_lem ((b, c) ∷ workers) s =
        let (r, h) = stop_worker_lem b s in
        let (q, k) = stop_workers_lem workers r.after in stop_workers_step b c workers s r q h k

    -- If stopping and joining a thread and telling a storage to stop return, destroying the
    -- backend in any state returns and forgets all workers, and for each board that had one the
    -- listener and the notifier have been joined and the storage has been told to stop.
    pub destroy-Stopped :
        (w : Workers S)
        → (s : S) × (destroy ending w ≡ (ok tt, record { caches = []; stored = s }))
          × All (λ x. IsStopped x.0 s) w.caches
    unfolding destroy
    destroy-Stopped w =
        let (r, h) = stop_workers_lem w.caches w.stored in (r.after, rw (r.returns) refl, h)
