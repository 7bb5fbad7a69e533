-- ===== src/Program/Safety.antt =====
-- Every run of src/server/main.cpp, from its start and under any schedule.
use pokemon_cpp_server.Common.{ℕ, zero, suc, ◌≡◌, refl, Option, Bool, true, false, arith, ◌⊎◌}
use pokemon_cpp_server.Text.{Text}
use pokemon_cpp_server.Exec.{Outcome, ok}
use pokemon_cpp_server.External.Json.{Json}
use pokemon_cpp_server.External.Simulator.{Simulator}
use pokemon_cpp_server.External.Hiredis.{Hiredis}
use pokemon_cpp_server.Metrics.{Double}
use pokemon_cpp_server.GameServer.{start, create, exit_code}
use pokemon_cpp_server.GameServer.Starting.{start-serving}
use pokemon_cpp_server.SignalHandler.{register_sig_term_handler}
use pokemon_cpp_server.Schedule.{run}
use pokemon_cpp_server.Program.{
  Server, Main, configured, returned, crashed, Sigterm, Event, main_moves, sigterm_moves,
  activity_moves, heartbeat_moves, metrics_moves, client_moves, rpc, signal, step, boot,
  after_start, move_main, is_over, has_closed,
}
use pokemon_cpp_server.Program.Shutdown.{P, next}
use pokemon_cpp_server.Program.Invariant.{
  Inv, has_started, has_spawned, has_waited, has_joined, is_unborn, has_finished, sigterm-Inv,
  activity-Inv, heartbeat-Inv, rpc-Inv, metrics-Inv, client-Inv, signal-Inv, main-Inv, is_at_rest,
}

module _ (d : Double) (j : Json) (s : Simulator j) (h : Hiredis) (fuel : ℕ) where
  abbrev Q : Type 0
  Q = P d j s h fuel

  after_start-Inv :
      (r : Outcome Bool × Server d j s h fuel) (p : Q)
      → p.main ≡ configured
      → ((b : Bool) → r.0 ≡ ok b → r.1.serving ≡ b)
      → Inv d j s h fuel p
      → Inv d j s h fuel (after_start d j s h fuel r p)
  unfolding after_start has_started has_spawned has_waited has_joined is_unborn has_finished
      exit_code is_at_rest
  after_start-Inv (ok true, g) p e f v = let serving = f true refl in ground arith
  after_start-Inv (ok false, g) p e f v = let serving = f false refl in ground arith
  after_start-Inv (other, g) p e f v = ground arith

  main_step-Inv :
      (built : Bool) (m : Main) (p : Q)
      → p.main ≡ m
      → Inv d j s h fuel p
      → Inv d j s h fuel (move_main d j s h fuel built m p)
  unfolding move_main has_started is_at_rest
  main_step-Inv built configured p e v =
      after_start-Inv (start j s h fuel built p.server) p e
        (λ b. start-serving j s h fuel built b p.server (v.idle (rw e refl))) v
  main_step-Inv built (returned code) p e v = v
  main_step-Inv built crashed p e v = v
  main_step-Inv built m p e v = main-Inv d j s h fuel built m p e refl v

  pub step-Inv : (e : Event) (p : Q) → Inv d j s h fuel p → Inv d j s h fuel (next d j s h fuel e p)
  unfolding step
  step-Inv (main_moves built) p v = main_step-Inv built p.main p refl v
  step-Inv sigterm_moves p v = sigterm-Inv d j s h fuel p.sigterm p refl v
  step-Inv activity_moves p v = activity-Inv d j s h fuel p.activity p refl v
  step-Inv heartbeat_moves p v = heartbeat-Inv d j s h fuel p.heartbeats p refl v
  step-Inv (metrics_moves socket) p v = metrics-Inv d j s h fuel socket p.metrics p refl v
  step-Inv (client_moves request) p v = client-Inv d j s h fuel request p.metrics p refl v
  step-Inv (rpc r) p v = rpc-Inv d j s h fuel r p v
  step-Inv (signal n) p v = signal-Inv d j s h fuel n p v

  pub run-Inv :
      (schedule : ℕ → Event) (n : ℕ) (p : Q)
      → Inv d j s h fuel p
      → Inv d j s h fuel (run (next d j s h fuel) schedule n p)
  unfolding run
  run-Inv schedule zero p v = v
  run-Inv schedule (suc n) p v = run-Inv (λ k. schedule (suc k)) n _ (step-Inv (schedule 0) p v)

  pub boot-Inv :
      (pod_ip redis_url : Option Text) (millis draw : ℕ)
      → Inv d j s h fuel (boot d j s h fuel pod_ip redis_url millis draw)
  unfolding boot has_started has_spawned has_waited has_joined is_unborn has_finished
      register_sig_term_handler create is_at_rest
  boot-Inv pod_ip redis_url millis draw = ground arith

  pub over :
      (code : ℕ) (p : Q)
      → p.main ≡ returned code
      → Inv d j s h fuel p
      → (p.server.serving ≡ false)
        × ((p.sigterm ≡ Sigterm.unborn) ⊎ (p.sigterm ≡ Sigterm.finished))
        × (is_over p.activity ≡ true)
        × (is_over p.heartbeats ≡ true)
        × (has_closed p.metrics ≡ true)
  unfolding has_started has_joined has_finished is_over has_closed is_at_rest
  over zero p e v = ground arith
  over (suc n) p e v = ground arith

  -- In every run, whatever the RPCs, requests and signals and however the threads are scheduled: when
  -- main has returned, with any code, server_ is null and none of the four threads is running, so
  -- that no joinable thread is destroyed.
  pub returned-over :
      (pod_ip redis_url : Option Text) (millis draw : ℕ) (schedule : ℕ → Event) (n code : ℕ)
      → (run (next d j s h fuel) schedule n (boot d j s h fuel pod_ip redis_url millis draw)).main
        ≡ returned code
      → let p =
          run (next d j s h fuel) schedule n (boot d j s h fuel pod_ip redis_url millis draw) in
        (p.server.serving ≡ false)
        × ((p.sigterm ≡ Sigterm.unborn) ⊎ (p.sigterm ≡ Sigterm.finished))
        × (is_over p.activity ≡ true)
        × (is_over p.heartbeats ≡ true)
        × (has_closed p.metrics ≡ true)
  returned-over pod_ip redis_url millis draw schedule n code e =
      over code _ e (run-Inv schedule n _ (boot-Inv pod_ip redis_url millis draw))
