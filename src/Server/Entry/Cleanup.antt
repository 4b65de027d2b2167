-- ===== src/Server/Entry/Cleanup.antt =====
-- What `main` of src/miner/main.py leaves behind.
use pttarticle_recommander.Common.{ℕ, ◌≡◌, ◌≢◌, refl, List, [], ◌∷◌, All}
use pttarticle_recommander.Common.Results.{
  Error, Result, ok, err, out_of_fuel, keyboard_interrupt, system_exit,
}
use pttarticle_recommander.Common.Exec.{Exec}
use pttarticle_recommander.Server.Accepting.{Listening, Server, run, stop}
use pttarticle_recommander.Server.Accepting.Stopping.{IsListening, stop-joins}
use pttarticle_recommander.Server.Entry.{exit_code, outcome, cleanup, exit, main}

-- The code of the process by how serving ended: one for an exception, and zero if the server was
-- stopped, interrupted by the user, or told to exit.
pub data Exits : Result (Unit {0}) → ℕ → Type 0 where
  stopped : Exits (ok tt) 0
  interrupted : Exits (err keyboard_interrupt) 0
  exited : Exits (err system_exit) 0
  failed : {e : Error} → e ≢ keyboard_interrupt → e ≢ system_exit → Exits (err e) 1

module _ {C T W : Type 0} {listening : Listening C T W} {started : W → List T}
    {Done : T → W → Type 0} (given : IsListening listening started Done)
    (destroy : Exec W (Unit {0})) where
  -- Destroying the backend returns, and a thread that is done stays so.
  pub record IsDestroying : Type 0 where
    pub destroys : (w : W) → (w' : W) × (destroy w ≡ (ok tt, w')) × ((t : T) → Done t w → Done t w')

  exit_steps :
      (s : Server T W) (r : Result (Unit {0})) (v w : W)
      → r ≢ err out_of_fuel
      → stop listening s ≡ (ok tt, record { handler_threads = []; net = v })
      → destroy v ≡ (ok tt, w)
      → (code : ℕ) × (exit listening destroy r s
          ≡ (ok code, record { handler_threads = []; net = w }))
        × Exits r code
  unfolding exit cleanup exit_code outcome
  exit_steps s (ok tt) v w h p d = (0, rw (p, d) refl, stopped)
  exit_steps s (err out_of_fuel) v w h p d = absurd (h refl)
  exit_steps s (err keyboard_interrupt) v w h p d = (0, rw (p, d) refl, interrupted)
  exit_steps s (err system_exit) v w h p d = (0, rw (p, d) refl, exited)
  exit_steps s (err e) v w h p d = (1, rw (p, d) refl, failed (λ q. cc) (λ q. cc))

  All-Done :
      (thrs : List T) (v w : W)
      → ((t : T) → Done t v → Done t w)
      → All (λ t. Done t v) thrs
      → All (λ t. Done t w) thrs
  All-Done [] v w k h = tt
  All-Done (thr ∷ thrs) v w k h = (k thr h.0, All-Done thrs v w k h.1)

  -- If starting, stopping and joining a thread, setting the flag and destroying the backend
  -- return, and no call but starting a thread starts one, then `main` of the miner, once its
  -- server's run has ended after however many rounds, exits with the code 1 if the run raised
  -- an `Exception`, and with 0 if it returned, was interrupted by the user or told to exit; by
  -- then every thread that the server has ever started was joined and is forgotten.
  pub main-joins :
      (fuel : ℕ) (u : W)
      → IsDestroying
      → started u ≡ []
      → let r = run listening fuel (record { handler_threads = []; net = u }) in
        r.0 ≢ err out_of_fuel
        → (code : ℕ) × (w : W) × (main listening destroy fuel u
            ≡ (ok code, record { handler_threads = []; net = w }))
          × Exits r.0 code
          × All (λ t. Done t w) (started r.1.net)
  unfolding main
  main-joins fuel u destroying h ends =
      let r = run listening fuel (record { handler_threads = []; net = u }) in
      let (v, p, d) = stop-joins given fuel u h in
      let (w, q, k) = destroying.destroys v in
      let (code, e, x) = exit_steps r.1 r.0 v w ends p q in
      (code, w, e, x, All-Done (started r.1.net) v w k d)
