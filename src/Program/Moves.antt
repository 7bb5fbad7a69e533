-- ===== src/Program/Moves.antt =====
-- What a move of one thread of src/server/main.cpp leaves to the other threads.
use pokemon_cpp_server.Program.{
  Thread, Main, move_main, Program, move_activity, main_thread, Worker, sigterm_thread,
  activity_thread, heartbeat_thread, metrics_thread,
}
use pokemon_cpp_server.Common.{
  ℕ, ◌≡◌, refl, ◌⊎◌, inl, inr, Option, none, some, Bool, true, false, arith,
}
use pokemon_cpp_server.Text.{Text}
use pokemon_cpp_server.Exec.{Outcome}
use pokemon_cpp_server.External.Json.{Json}
use pokemon_cpp_server.External.Simulator.{Simulator}
use pokemon_cpp_server.External.Hiredis.{Hiredis}
use pokemon_cpp_server.Metrics.{Double}
use pokemon_cpp_server.SignalHandler.{run_handler_if_received, signal_handler_function}
use pokemon_cpp_server.Program.{
  Program, Main, waiting, joining_sigterm, joining_activity, Sigterm, Worker, Listener, Socket, Rpc,
  Event, main_moves, sigterm_moves, activity_moves, heartbeat_moves, metrics_moves, rpc, signal,
  Thread, main_thread, sigterm_thread, activity_thread, heartbeat_thread, metrics_thread, thread,
  step, move_main, move_sigterm, move_activity, move_heartbeat, move_metrics, move_client,
  client_moves, client, answer, ran_step, poll, begin_shutdown, after_request, take_request,
}

-- main is past Start and has not returned.
unfoldable pub is_up : Main → Bool
is_up waiting = true
is_up joining_sigterm = true
is_up joining_activity = true
is_up _ = false

module _ (d : Double) (j : Json) (s : Simulator j) (h : Hiredis) (fuel : ℕ) where
  abbrev P : Type 0
  P = Program d j s h fuel

  -- The flags that the threads test.
  abbrev pub SameFlags : P → P → Type 0
  SameFlags p q =
      (q.server.serving ≡ p.server.serving)
      × (q.server.heartbeat_running ≡ p.server.heartbeat_running)
      × (q.server.metrics_running ≡ p.server.metrics_running)

  -- A move by `t` at most: where the other threads stand, and what they test, is as before.
  pub record Frame (t : Option Thread) (p q : P) : Type 0 where
    pub main : (t ≡ some main_thread) ⊎ (q.main ≡ p.main)
    pub sigterm : (t ≡ some sigterm_thread) ⊎ (q.sigterm ≡ p.sigterm)
    pub activity : (t ≡ some activity_thread) ⊎ (q.activity ≡ p.activity)
    pub heartbeats : (t ≡ some heartbeat_thread) ⊎ (q.heartbeats ≡ p.heartbeats)
    pub metrics : (t ≡ some metrics_thread) ⊎ (t ≡ some client) ⊎ (q.metrics ≡ p.metrics)
    pub flags : (t ≡ some sigterm_thread) ⊎ SameFlags p q
    pub installed : q.signals.installed ≡ p.signals.installed
    pub handler : q.signals.sigterm_handler ≡ p.signals.sigterm_handler
    pub pending :
        (t ≡ some sigterm_thread)
        ⊎ (p.signals.sig_term_received ≡ true → q.signals.sig_term_received ≡ true)

  abbrev SameWaits : P → P → Type 0
  SameWaits p q =
      (q.main ≡ p.main) × (q.sigterm ≡ p.sigterm) × (q.signals ≡ p.signals) × SameFlags p q

  main-Frame :
      (built : Bool) (m : Main) (p : P)
      → is_up m ≡ true
      → Frame (some main_thread) p (move_main d j s h fuel built m p)
  unfolding move_main is_up
  main-Frame built m p u = ground arith

  activity-Frame :
      (w : Worker) (p : P) → Frame (some activity_thread) p (move_activity d j s h fuel w p)
  unfolding move_activity
  activity-Frame w p = ground arith

  sigterm-Frame :
      (x : Sigterm) (p : P) → Frame (some sigterm_thread) p (move_sigterm d j s h fuel x p)
  unfolding move_sigterm poll ran_step run_handler_if_received begin_shutdown
  sigterm-Frame x p = ground arith

  heartbeat-Frame :
      (w : Worker) (p : P) → Frame (some heartbeat_thread) p (move_heartbeat d j s h fuel w p)
  unfolding move_heartbeat
  heartbeat-Frame w p = ground arith

  request-Frame :
      (r : Outcome Text) (p : P) → Frame (some client) p (after_request d j s h fuel r p)
  unfolding after_request
  request-Frame r p = ground arith

  metrics-Frame :
      (socket : Socket) (l : Listener) (p : P)
      → Frame (some metrics_thread) p (move_metrics d j s h fuel socket l p)
  unfolding move_metrics
  metrics-Frame socket l p = ground arith

  client-Frame :
      (request : Option Text) (l : Listener) (p : P)
      → Frame (some client) p (move_client d j s h fuel request l p)
  unfolding move_client take_request after_request
  client-Frame request l p = ground arith

  rpc-Frame : (r : Rpc) (p : P) → Frame none p (answer d j s h fuel r p)
  unfolding answer
  rpc-Frame r p = ground arith

  signal-Frame :
      (n : ℕ) (p : P) → Frame none p (record p { signals = signal_handler_function n p.signals })
  unfolding signal_handler_function
  signal-Frame n p = ground arith

  -- Any event but a move of main.
  pub other-Frame :
      (e : Event) (p : P)
      → (thread e ≡ some main_thread) ⊎ Frame (thread e) p (step d j s h fuel e p)
  unfolding step thread
  other-Frame (main_moves built) p = inl refl
  other-Frame sigterm_moves p = inr (sigterm-Frame p.sigterm p)
  other-Frame activity_moves p = inr (activity-Frame p.activity p)
  other-Frame heartbeat_moves p = inr (heartbeat-Frame p.heartbeats p)
  other-Frame (metrics_moves socket) p = inr (metrics-Frame socket p.metrics p)
  other-Frame (client_moves request) p = inr (client-Frame request p.metrics p)
  other-Frame (rpc r) p = inr (rpc-Frame r p)
  other-Frame (signal n) p = inr (signal-Frame n p)

  pub only_main :
      (e : Event) → thread e ≡ some main_thread → (built : Bool) × (e ≡ main_moves built)
  unfolding thread
  only_main (main_moves built) own = (built, refl)
  only_main e own = ground arith

  -- Any event, while main is past Start and has not returned.
  pub step-Frame :
      (e : Event) (p : P) → is_up p.main ≡ true → Frame (thread e) p (step d j s h fuel e p)
  unfolding step thread
  step-Frame (main_moves built) p u = main-Frame built p.main p u
  step-Frame e p u = elim (other-Frame e p) [ inl own ↦ absurd (ground arith) | inr f ↦ f ]
