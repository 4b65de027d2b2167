-- ===== src/Server/Entry.antt =====
-- `main` of src/miner/main.py behind the command line: serving, and the cleanup however that ends. The server
-- is the one of Server/Accepting; the backend's `destroy` is a parameter.
pub mod Cleanup
use pttarticle_recommander.Common.{ℕ, []}
use pttarticle_recommander.Common.Results.{
  Error, Result, ok, err, out_of_fuel, keyboard_interrupt, system_exit,
}
use pttarticle_recommander.Common.Exec.{Exec, pure, raise, ◌>>=◌, ◌>>◌}
use pttarticle_recommander.Server.Accepting.{Listening, Server, on_net}
use pttarticle_recommander.Server.Accepting

-- How the `try` is left: `run` returns, the user interrupts it, it exits, or it raises an `Exception`.
pub data Outcome : Type 0 where
  returned : Outcome
  interrupted : Outcome
  exited : Outcome
  raised : Error → Outcome

-- The code that `sys.exit` is called with.
unfoldable pub exit_code : Outcome → ℕ
exit_code (raised e) = 1
exit_code returned = 0
exit_code interrupted = 0
exit_code exited = 0

-- The `except` clauses by what `run` raises: Python's interrupts and exits are no `Exception`.
unfoldable pub outcome : Result (Unit {0}) → Outcome
outcome (ok u) = returned
outcome (err keyboard_interrupt) = interrupted
outcome (err system_exit) = exited
outcome (err e) = raised e

module _ {C T W : Type 0} (listening : Listening C T W) (destroy : Exec W (Unit {0})) where
  -- `finally`: what it raises replaces the exit.
  unfoldable pub cleanup : Exec (Server T W) (Unit {0})
  cleanup = do Accepting.stop listening; on_net destroy

  -- What follows the `try`. A run that goes on has no sequel.
  unfoldable pub exit : Result (Unit {0}) → Exec (Server T W) ℕ
  exit (err out_of_fuel) = raise out_of_fuel
  exit r = do cleanup; pure (exit_code (outcome r))

  -- The code of the process.
  unfoldable pub main : ℕ → W → Result ℕ × Server T W
  main fuel w =
      let r = Accepting.run listening fuel (record { handler_threads = []; net = w }) in
      exit r.0 r.1
