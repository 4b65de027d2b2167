-- ===== src/Server/Accepting/Stopping.antt =====
-- That `Server.stop` of src/miner/modules/server.py reaches every thread that `Server.run` has started.
use pttarticle_recommander.Common.{
  ℕ, zero, suc, ◌≡◌, refl, sym, ap, subst, ◌∙◌, List, [], ◌∷◌, ◌++◌, All,
}
use pttarticle_recommander.Common.Results.{Result, ok, err, timeout_error}
use pttarticle_recommander.Common.Exec.{Exec, ◌>>=◌, Keeps, >>=-Keeps, if-Keeps}
use pttarticle_recommander.Server.Accepting.{
  Listening, Server, on_net, append_thread, handle_accepted, accept_one, accept_while, run,
  stop_threads, stop,
}

-- `started` are the threads that were started, of which only `start` makes one; starting, stopping and
-- joining a thread return, a thread that was joined is done, and stays so.
pub record IsListening {C T W : Type 0} (listening : Listening C T W) (started : W → List T)
    (Done : T → W → Type 0) : Type 0 where
  pub bind_quiet : (w : W) → started (listening.bind_and_listen w).1 ≡ started w
  pub accept_quiet : (w : W) → started (listening.accept w).1 ≡ started w
  pub close_quiet : (w : W) → started (listening.close w).1 ≡ started w
  pub make_quiet : (c : C) (w : W) → started (listening.make_handler c w).1 ≡ started w
  pub flag_quiet : (w : W) → started (listening.stop_flag w).1 ≡ started w
  pub starts :
      (t : T) (w : W)
      → (w' : W) × (listening.start t w ≡ (ok tt, w')) × (started w' ≡ started w ++ t ∷ [])
  pub sets : (w : W) → (w' : W) × (listening.set_stop_flag w ≡ (ok tt, w'))
  pub stops :
      (t : T) (w : W)
      → (w' : W) × (listening.stop t w ≡ (ok tt, w')) × ((u : T) → Done u w → Done u w')
  pub joins :
      (t : T) (w : W)
      → (w' : W) × (listening.join t w ≡ (ok tt, w')) × Done t w' × ((u : T) → Done u w → Done u w')

module _ {C T W : Type 0} {listening : Listening C T W} {started : W → List T}
    {Done : T → W → Type 0} (given : IsListening listening started Done) where
  -- The list of the server holds the threads that were started.
  record IsKnown (s : Server T W) : Type 0 where
    pub known : s.handler_threads ≡ started s.net

  quiet-Keeps :
      {A : Type 0} (m : Exec W A)
      → ((w : W) → started (m w).1 ≡ started w)
      → Keeps IsKnown (on_net m)
  quiet-Keeps m h s k = record { known = k.known ∙ sym (h s.net) }

  begin-Keeps : (thr : T) → Keeps IsKnown (append_thread thr >>= λ _. on_net (listening.start thr))
  begin-Keeps thr s k =
      let (w, p, q) = given.starts thr s.net in
      record { known = ap (λ l. l ++ thr ∷ []) k.known ∙ sym q ∙ ap (λ t. started t.1) (sym p) }

  handle_accepted-Keeps : (r : Result C) → Keeps IsKnown (handle_accepted listening r)
  unfolding handle_accepted
  handle_accepted-Keeps (err timeout_error) = λ s k. k
  handle_accepted-Keeps (err e) = λ s k. k
  handle_accepted-Keeps (ok conn) =
      >>=-Keeps IsKnown (on_net (listening.make_handler conn)) _
        (quiet-Keeps (listening.make_handler conn) (given.make_quiet conn)) (λ thr. begin-Keeps thr)

  accept_one-Keeps : Keeps IsKnown (accept_one listening)
  unfolding accept_one
  accept_one-Keeps s k =
      handle_accepted-Keeps (listening.accept s.net).0
        (record s { net = (listening.accept s.net).1 })
        (record { known = k.known ∙ sym (given.accept_quiet s.net) })

  accept_while-Keeps : (fuel : ℕ) → Keeps IsKnown (accept_while listening fuel)
  unfolding accept_while
  accept_while-Keeps zero = λ s k. k
  accept_while-Keeps (suc fuel) =
      >>=-Keeps IsKnown (on_net (listening.stop_flag)) _
        (quiet-Keeps (listening.stop_flag) (given.flag_quiet))
        (λ stop.
          if-Keeps IsKnown stop _ _ (λ s k. k)
            (>>=-Keeps IsKnown (accept_one listening) _ accept_one-Keeps
              (λ _. accept_while-Keeps fuel)))

  run-Keeps : (fuel : ℕ) → Keeps IsKnown (run listening fuel)
  unfolding run
  run-Keeps fuel =
      >>=-Keeps IsKnown (on_net (listening.bind_and_listen)) _
        (quiet-Keeps (listening.bind_and_listen) (given.bind_quiet))
        (λ _.
          >>=-Keeps IsKnown (accept_while listening fuel) _ (accept_while-Keeps fuel)
            (λ _. quiet-Keeps (listening.close) (given.close_quiet)))

  stop_step :
      (thr : T) (thrs : List T) (s t : Server T W) (v w : W)
      → listening.stop thr s.net ≡ (ok tt, v)
      → listening.join thr v ≡ (ok tt, w)
      → stop_threads listening thrs (record s { net = w }) ≡ (ok tt, t)
      → stop_threads listening (thr ∷ thrs) s ≡ (ok tt, t)
  unfolding stop_threads
  stop_step thr thrs s t v w p q r = rw (p, q) r

  stop_threads-Done :
      (thrs : List T) (s : Server T W)
      → (w : W) × (stop_threads listening thrs s ≡ (ok tt, record s { net = w }))
        × All (λ t. Done t w) thrs
        × ((u : T) → Done u s.net → Done u w)
  stop_threads-Done [] s = (s.net, unfold stop_threads in refl, tt, λ u d. d)
  stop_threads-Done (thr ∷ thrs) s =
      let (u, o, l) = given.stops thr s.net in
      let (v, p, d, k) = given.joins thr u in
      let (w, q, f, g) = stop_threads-Done thrs (record s { net = v }) in
      (
        w,
        stop_step thr thrs s (record s { net = w }) u v o p q,
        (g thr d, f),
        λ x e. g x (k x (l x e)),
      )

  stop_steps :
      (s : Server T W) (v w : W)
      → listening.set_stop_flag s.net ≡ (ok tt, v)
      → stop_threads listening s.handler_threads (record s { net = v })
        ≡ (ok tt, record s { net = w })
      → stop listening s ≡ (ok tt, record { handler_threads = []; net = w })
  unfolding stop
  stop_steps s v w p q = rw (p, q) refl

  -- However the run of a server ends (stopped, or by an exception of the socket or of what
  -- makes a thread), and after however many rounds, stopping it then returns, every thread that
  -- it has ever started was joined, and it forgets them all.
  pub stop-joins :
      (fuel : ℕ) (w : W)
      → started w ≡ []
      → let s = (run listening fuel (record { handler_threads = []; net = w })).1 in
        (w' : W) × (stop listening s ≡ (ok tt, record { handler_threads = []; net = w' }))
        × All (λ t. Done t w') (started s.net)
  stop-joins fuel w h =
      let s : Server T W = (run listening fuel (record { handler_threads = []; net = w })).1 in
      let k =
        run-Keeps fuel (record { handler_threads = []; net = w }) (record { known = sym h }) in
      let (v, p) = given.sets s.net in
      let (w', q, d, _) = stop_threads-Done s.handler_threads (record s { net = v }) in
      (w', stop_steps s v w' p q, subst (λ l. All (λ t. Done t w') l) k.known d)
