-- ===== src/Program/Idle.antt =====
-- A client of the metrics port of src/server/game_server.cpp that connects and then does nothing.
use pokemon_cpp_server.Common.{
  ℕ, zero, suc, ◌≡◌, ◌≢◌, refl, ◌∙◌, ap, inl, inr, Option, some, Bool, arith, subst, if-elim,
  if◌then◌else◌,
}
use pokemon_cpp_server.Text.{Text}
use pokemon_cpp_server.External.Json.{Json}
use pokemon_cpp_server.External.Simulator.{Simulator}
use pokemon_cpp_server.External.Hiredis.{Hiredis}
use pokemon_cpp_server.Metrics.{Double}
use pokemon_cpp_server.Schedule.{run}
use pokemon_cpp_server.SignalHandler.{is_installed}
use pokemon_cpp_server.Program.{
  Main, configured, returned, Listener, Event, main_moves, signal, client, thread, step, move_main,
  Process, running, killed, deliver, react, boot, has_closed,
}
use pokemon_cpp_server.Program.Shutdown.{P, next}
use pokemon_cpp_server.Program.Moves.{other-Frame}
use pokemon_cpp_server.Program.Invariant.{Inv, has_started}
use pokemon_cpp_server.Program.Safety.{step-Inv, boot-Inv, over}
use pokemon_cpp_server.Program.Mute.{recv_blocks}
use pokemon_cpp_server.Program.Signals.{Alive, run-Alive}

module _ (d : Double) (j : Json) (s : Simulator j) (h : Hiredis) (fuel : ℕ) where
  abbrev Q : Type 0
  Q = P d j s h fuel

  -- The metrics thread is in recv.
  record InRecv (p : Q) : Type 0 where
    inv : Inv d j s h fuel p
    at : p.metrics ≡ Listener.receiving

  main-at :
      (built : Bool) (m : Main) (p : Q)
      → p.main ≡ m
      → InRecv p
      → (move_main d j s h fuel built m p).metrics ≡ Listener.receiving
  unfolding move_main has_started
  main-at built configured p e v =
      absurd (let u = (v.inv.threadless (rw e refl)).3 in let a = v.at in ground arith)
  main-at built m p e v = let a = v.at in ground arith

  step-at :
      (e : Event) (p : Q)
      → thread e ≢ some client
      → InRecv p
      → (next d j s h fuel e p).metrics ≡ Listener.receiving
  unfolding step thread
  step-at (main_moves built) p n v = main-at built p.main p refl v
  step-at e p n v = elim (other-Frame d j s h fuel e p) [
    | inl own ↦ absurd (ground arith)
    | inr f ↦ elim f.metrics [
      | inl own ↦ ap (λ q. q.metrics) (recv_blocks d j s h fuel e p own v.at) ∙ v.at
      | inr (inl own) ↦ absurd (n own)
      | inr (inr same) ↦ same ∙ v.at
    ]
  ]

  step-InRecv :
      (e : Event) (p : Q) → thread e ≢ some client → InRecv p → InRecv (next d j s h fuel e p)
  step-InRecv e p n v = record { inv = step-Inv d j s h fuel e p v.inv; at = step-at e p n v }

  -- A process that has not been killed is in recv.
  Waiting : Process d j s h fuel → Type 0
  Waiting (running p) = InRecv p
  Waiting (killed n) = Unit

  react-Waiting :
      (ends : ℕ → Bool) (e : Event) (x : Process d j s h fuel)
      → thread e ≢ some client
      → Waiting x
      → Waiting (react d j s h fuel ends e x)
  unfolding react deliver Waiting thread
  react-Waiting ends e (killed n) o v = tt
  react-Waiting ends (signal n) (running p) o v =
      if-elim Waiting (is_installed n p.signals) (running (next d j s h fuel (signal n) p))
        (if ends n then killed n else running p) (λ e. step-InRecv (signal n) p o v)
        (λ e. if-elim Waiting (ends n) (killed n) (running p) (λ f. tt) (λ f. v))
  react-Waiting ends e (running p) o v = step-InRecv e p o v

  run-Waiting :
      (ends : ℕ → Bool) (n : ℕ) (schedule : ℕ → Event) (x : Process d j s h fuel)
      → ((k : ℕ) → thread (schedule k) ≢ some client)
      → Waiting x
      → Waiting (run (react d j s h fuel ends) schedule n x)
  unfolding run
  run-Waiting ends zero schedule x o v = v
  run-Waiting ends (suc n) schedule x o v =
      run-Waiting ends n (λ k. schedule (suc k)) _ (λ k. o (suc k))
        (react-Waiting ends (schedule 0) x (o 0) v)

  not_over : (code : ℕ) (p : Q) → InRecv p → ¬ (p.main ≡ returned code)
  unfolding has_closed
  not_over code p v e =
      let closed = (over d j s h fuel code p e v.inv).4 in let a = v.at in ground arith

  -- A client of the metrics port that is accepted and then neither sends nor hangs up keeps main from
  -- returning: from a state of a run in which the metrics thread is in recv, no run without a move
  -- of the client comes to a state in which main has returned, whether SIGTERM comes or not.
  pub idle_client :
      (ends : ℕ → Bool) (pod_ip redis_url : Option Text) (millis draw : ℕ)
      (before schedule : ℕ → Event) (m n code : ℕ) (p q : Q)
      → run
          (react d j s h fuel ends)
          before
          m
          (running (boot d j s h fuel pod_ip redis_url millis draw))
        ≡ running p
      → p.metrics ≡ Listener.receiving
      → ((k : ℕ) → thread (schedule k) ≢ some client)
      → run (react d j s h fuel ends) schedule n (running p) ≡ running q
      → ¬ (q.main ≡ returned code)
  unfolding Alive Waiting
  idle_client ends pod_ip redis_url millis draw before schedule m n code p q r at idle e =
      let v =
        run-Alive d j s h fuel ends m before _
          (boot-Inv d j s h fuel pod_ip redis_url millis draw) in
      let inv : Inv d j s h fuel p = subst (Alive d j s h fuel) r v in
      not_over code q (
        subst Waiting e
          (run-Waiting ends n schedule (running p) idle (record { inv = inv; at = at })))
