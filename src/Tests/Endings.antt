-- ===== src/Tests/Endings.antt =====
-- The theorems on how the miner's process ends, at concrete threads.
use pttarticle_recommander.Common.{
  ℕ, zero, suc, ◌≡◌, ◌≢◌, refl, List, [], ◌∷◌, ◌++◌, All, Text, false, ◌⊎◌, inl, inr,
}
use pttarticle_recommander.Common.Results.{Result, ok, err, os_error, out_of_fuel}
use pttarticle_recommander.Common.Exec.{Exec, pure}
use pttarticle_recommander.L2Miner.Cache
use pttarticle_recommander.L2Miner.RealBackend.{Workers}
use pttarticle_recommander.L2Miner.RealBackend.Destroying.{Ending, destroy}
use pttarticle_recommander.L2Miner.RealBackend.Destroying.Ended.{
  Part, listening, notifying, waiting, Finished, IsEnding, IsStopped, destroy-Stopped,
}
use pttarticle_recommander.Server.Accepting.{
  Listening, Server, run, accept_while, accept_one, handle_accepted, stop, stop_threads,
}
use pttarticle_recommander.Server.Accepting.Stopping.{IsListening}
use pttarticle_recommander.Server.Entry.{exit_code, outcome, cleanup, exit, main}
use pttarticle_recommander.Server.Entry.Cleanup.{IsDestroying, Exits, main-joins}
use pttarticle_recommander.Tests.Workers.{Joined, Member, nobody}

-- The threads that were started and those that were joined; three peers connect, then the socket fails.
record World : Type 0 where
  pub peers : ℕ
  pub begun : List ℕ
  pub joined : Joined

abbrev accept_of : ℕ → World → Result ℕ × World
accept_of zero w = (err os_error, w)
accept_of (suc n) w = (ok n, record w { peers = n })

abbrev sockets : Listening ℕ ℕ World
sockets = record {
  bind_and_listen = pure tt;
  accept = λ w. accept_of w.peers w;
  close = pure tt;
  make_handler = λ c. pure c;
  start = λ t w. (ok tt, record w { begun = w.begun ++ t ∷ [] });
  stop = λ t. pure tt;
  join = λ t w. (ok tt, record w { joined = t ∷ w.joined });
  stop_flag = pure false;
  set_stop_flag = pure tt;
}

accept_of-begun : (n : ℕ) (w : World) → (accept_of n w).1.begun ≡ w.begun
accept_of-begun zero w = refl
accept_of-begun (suc n) w = refl

sockets-IsListening : IsListening sockets (λ w. w.begun) (λ t w. Member t w.joined)
sockets-IsListening = record {
  bind_quiet = λ w. refl;
  accept_quiet = λ w. accept_of-begun w.peers w;
  close_quiet = λ w. refl;
  make_quiet = λ c w. refl;
  flag_quiet = λ w. refl;
  starts = λ t w. (record w { begun = w.begun ++ t ∷ [] }, refl, refl);
  sets = λ w. (w, refl);
  stops = λ t w. (w, refl, λ u d. d);
  joins = λ t w. (record w { joined = t ∷ w.joined }, refl, inl refl, λ u d. inr d);
}

abbrev three_peers : World
three_peers = record { peers = 3; begun = []; joined = nobody }

abbrev run_result : Result (Unit {0})
run_result = (run sockets 9 (record { handler_threads = []; net = three_peers })).0

abbrev after_run : Server ℕ World
after_run = (run sockets 9 (record { handler_threads = []; net = three_peers })).1

joined_nothing : IsDestroying sockets-IsListening (pure tt)
joined_nothing = record { destroys = λ w. (w, refl, λ t d. d) }

run-fails : run_result ≢ err out_of_fuel
unfolding run accept_while accept_one handle_accepted
run-fails = λ e. cc

main-joins_example :
    (code : ℕ) × (w : World) × (main sockets (pure tt) 9 three_peers
      ≡ (ok code, record { handler_threads = []; net = w }))
    × Exits run_result code
    × All (λ t. Member t w.joined) after_run.net.begun
main-joins_example =
    main-joins sockets-IsListening (pure tt) 9 three_peers joined_nothing refl run-fails

-- The socket fails, and the process exits with one.
fails-exit : (main sockets (pure tt) 9 three_peers).0 ≡ ok 1
unfolding main exit cleanup exit_code outcome run accept_while accept_one handle_accepted stop
    stop_threads
fails-exit = refl

-- What has come to its end, of which board.
abbrev Ends : Type 0
Ends = List (Part × Text)

abbrev EndedIn : Part → Text → Ends → Type 0
EndedIn p b [] = ⊥
EndedIn p b (x ∷ xs) = ((p, b) ≡ x) ⊎ EndedIn p b xs

abbrev ending : Ending Ends
ending = record {
  stop_listener = λ b. pure tt;
  join_listener = λ b s. (ok tt, (listening, b) ∷ s);
  stop_notifier = λ b. pure tt;
  join_notifier = λ b s. (ok tt, (notifying, b) ∷ s);
  notify_stop = λ b s. (ok tt, (waiting, b) ∷ s);
}

ends :
    (p : Part) (b : Text) (m : Exec Ends (Unit {0})) (s : Ends)
    → m s ≡ (ok tt, (p, b) ∷ s)
    → Finished EndedIn p b m s
ends p b m s h = record {
  returned = record { after = (p, b) ∷ s; returns = h; stays = λ q c d. inr d };
  done = inl refl;
}

ending-IsEnding : IsEnding EndedIn ending
ending-IsEnding = record {
  stops_listener = λ b s. record { after = s; returns = refl; stays = λ q c d. d };
  joins_listener = λ b s. ends listening b (ending.join_listener b) s refl;
  stops_notifier = λ b s. record { after = s; returns = refl; stays = λ q c d. d };
  joins_notifier = λ b s. ends notifying b (ending.join_notifier b) s refl;
  tells = λ b s. ends waiting b (ending.notify_stop b) s refl;
}

abbrev two_workers : Workers Ends
two_workers = record { caches = (97 ∷ [], Cache.init) ∷ (98 ∷ [], Cache.init) ∷ []; stored = [] }

destroy-Stopped_example :
    (s : Ends) × (destroy ending two_workers ≡ (ok tt, record { caches = []; stored = s }))
    × All (λ x. IsStopped EndedIn x.0 s) two_workers.caches
destroy-Stopped_example = destroy-Stopped EndedIn ending-IsEnding two_workers
