-- ===== src/Program/Invariant.antt =====
-- Which threads of src/server/main.cpp run, and what they have done, where main stands.
use pokemon_cpp_server.Common.{
  [], ◌∷◌, ℕ, ◌≡◌, sym, ◌∙◌, ap, some, Bool, true, false, arith, if◌then◌else◌, subst, eqb, if-elim,
  Option,
}
use pokemon_cpp_server.Text.{Text}
use pokemon_cpp_server.Exec.{Outcome}
use pokemon_cpp_server.External.Json.{Json}
use pokemon_cpp_server.External.Simulator.{Simulator}
use pokemon_cpp_server.External.Hiredis.{Hiredis}
use pokemon_cpp_server.Metrics.{Double}
use pokemon_cpp_server.GameServer.{exit_code}
use pokemon_cpp_server.SignalHandler.{
  sigterm, SignalHandler, run_handler_if_received, call_handler, signal_handler_function,
  call_handler,
}
use pokemon_cpp_server.Program.{
  Server, ran_step, Main, configured, spawning, joining_sigterm, joining_activity, returned,
  crashed, Sigterm, polling, draining, joining_heartbeat, joining_metrics, Worker, Listener, Socket,
  Rpc, begin_shutdown, move_main, move_sigterm, move_activity, move_heartbeat, move_metrics,
  move_client, answer, is_over, has_closed, take_request, after_request, poll,
  run_handler_if_received,
}
use pokemon_cpp_server.Program.Shutdown.{P}

-- Start has returned true.
unfoldable pub has_started : Main → Bool
has_started configured = false
has_started crashed = false
has_started (returned code) = eqb code 0
has_started _ = true

-- main has created its two threads.
unfoldable pub has_spawned : Main → Bool
has_spawned configured = false
has_spawned crashed = false
has_spawned spawning = false
has_spawned (returned code) = eqb code 0
has_spawned _ = true

-- server.Wait() has returned.
unfoldable pub has_waited : Main → Bool
has_waited joining_sigterm = true
has_waited joining_activity = true
has_waited (returned code) = eqb code 0
has_waited _ = false

-- main has joined the polling thread.
unfoldable pub has_joined : Main → Bool
has_joined joining_activity = true
has_joined (returned code) = eqb code 0
has_joined _ = false

-- Before Start, and after main.
unfoldable pub is_at_rest : Main → Bool
is_at_rest configured = true
is_at_rest (returned code) = true
is_at_rest _ = false

unfoldable pub is_unborn : Sigterm → Bool
is_unborn Sigterm.unborn = true
is_unborn _ = false

unfoldable pub has_finished : Sigterm → Bool
has_finished Sigterm.finished = true
has_finished _ = false

module _ (d : Double) (j : Json) (s : Simulator j) (h : Hiredis) (fuel : ℕ) where
  abbrev Q : Type 0
  Q = P d j s h fuel

  pub record Inv (p : Q) : Type 0 where
    pub installed : p.signals.installed ≡ sigterm ∷ []
    pub handler : p.signals.sigterm_handler ≡ some (begin_shutdown d j s h fuel)
    pub idle : is_at_rest p.main ≡ true → p.server.serving ≡ false
    pub hushed : p.sigterm ≡ joining_heartbeat → p.server.heartbeat_running ≡ false
    pub muted : p.sigterm ≡ joining_metrics → p.server.metrics_running ≡ false
    pub threadless :
        has_started p.main ≡ false
        → (p.sigterm ≡ Sigterm.unborn)
          × (p.activity ≡ Worker.unborn)
          × (p.heartbeats ≡ Worker.unborn)
          × (p.metrics ≡ Listener.unborn)
    pub unspawned :
        p.main ≡ spawning
        → (p.sigterm ≡ Sigterm.unborn) × (p.activity ≡ Worker.unborn) × (p.server.serving ≡ true)
    pub spawned : has_spawned p.main ≡ true → is_unborn p.sigterm ≡ false
    pub serves :
        has_spawned p.main ≡ true → has_finished p.sigterm ≡ false → p.server.serving ≡ true
    pub stopped :
        has_finished p.sigterm ≡ true
        → (p.server.serving ≡ false) × (is_over p.heartbeats ≡ true) × (has_closed p.metrics ≡ true)
    pub halted : p.sigterm ≡ joining_metrics → is_over p.heartbeats ≡ true
    pub waited : has_waited p.main ≡ true → p.server.serving ≡ false
    pub joined : has_joined p.main ≡ true → has_finished p.sigterm ≡ true
    pub ended : p.main ≡ returned 0 → is_over p.activity ≡ true

  ran_lem :
      (h' : SignalHandler (Server d j s h fuel × Sigterm)) (g : Server d j s h fuel × Sigterm)
      → h'.sigterm_handler ≡ some (begin_shutdown d j s h fuel)
      → run_handler_if_received h' g ≡ (
          if h'.sig_term_received
          then ((true, record h' { sig_term_received = false }), begin_shutdown d j s h fuel g)
          else ((false, h'), g))
  unfolding run_handler_if_received call_handler
  ran_lem h' g e =
      ap
        (λ f.
          if h'.sig_term_received
          then ((true, record h' { sig_term_received = false }), call_handler f g)
          else ((false, h'), g))
        e

  -- The state in which the handler starts to wait.
  abbrev begun : Q → Q
  begun p = record p {
    server = (begin_shutdown d j s h fuel (p.server, Sigterm.finished)).0;
    signals = record p.signals { sig_term_received = false };
    sigterm = draining 5;
  }

  pub begun-poll :
      (p : Q)
      → p.signals.sigterm_handler ≡ some (begin_shutdown d j s h fuel)
      → poll d j s h fuel p ≡ (
          if p.server.serving
          then (if p.signals.sig_term_received then begun p else p)
          else record p { sigterm = Sigterm.finished })
  unfolding poll ran_step begin_shutdown
  begun-poll p k =
      let r = ran_lem p.signals (p.server, Sigterm.finished) k in
      ap
        (λ x.
          if p.server.serving
          then ran_step d j s h fuel x p
          else record p { sigterm = Sigterm.finished })
        r
      ∙ ground arith

  begun-Inv : (p : Q) → p.sigterm ≡ polling → p.server.serving ≡ true → Inv p → Inv (begun p)
  unfolding begin_shutdown is_unborn has_finished
  begun-Inv p e r v = ground arith

  finished-Inv :
      (p : Q)
      → p.sigterm ≡ polling
      → p.server.serving ≡ false
      → Inv p
      → Inv (record p { sigterm = Sigterm.finished })
  unfolding has_started has_spawned is_unborn has_finished
  finished-Inv p e r v = ground arith

  pub sigterm-Inv :
      (x : Sigterm) (p : Q) → p.sigterm ≡ x → Inv p → Inv (move_sigterm d j s h fuel x p)
  unfolding move_sigterm is_unborn has_finished
  sigterm-Inv polling p e v = subst Inv (sym (begun-poll p v.handler)) (
      if-elim Inv p.server.serving (if p.signals.sig_term_received then begun p else p)
        (record p { sigterm = Sigterm.finished })
        (λ a. if-elim Inv p.signals.sig_term_received (begun p) p (λ b. begun-Inv p e a v) (λ b. v))
        (λ a. finished-Inv p e a v))
  sigterm-Inv x p e v = ground arith

  pub activity-Inv :
      (w : Worker) (p : Q) → p.activity ≡ w → Inv p → Inv (move_activity d j s h fuel w p)
  unfolding move_activity is_over
  activity-Inv w p e v = ground arith

  pub heartbeat-Inv :
      (w : Worker) (p : Q) → p.heartbeats ≡ w → Inv p → Inv (move_heartbeat d j s h fuel w p)
  unfolding move_heartbeat is_over
  heartbeat-Inv w p e v = ground arith

  pub rpc-Inv : (r : Rpc) (p : Q) → Inv p → Inv (answer d j s h fuel r p)
  unfolding answer
  rpc-Inv r p v = ground arith

  request-Inv :
      (r : Outcome Text) (p : Q)
      → p.metrics ≡ Listener.receiving
      → Inv p
      → Inv (after_request d j s h fuel r p)
  unfolding after_request has_closed
  request-Inv r p e v = ground arith

  pub metrics-Inv :
      (socket : Socket) (l : Listener) (p : Q)
      → p.metrics ≡ l
      → Inv p
      → Inv (move_metrics d j s h fuel socket l p)
  unfolding move_metrics has_closed
  metrics-Inv socket l p e v = ground arith

  pub client-Inv :
      (request : Option Text) (l : Listener) (p : Q)
      → p.metrics ≡ l
      → Inv p
      → Inv (move_client d j s h fuel request l p)
  unfolding move_client take_request after_request has_closed
  client-Inv request l p e v = ground arith

  pub signal-Inv :
      (n : ℕ) (p : Q) → Inv p → Inv (record p { signals = signal_handler_function n p.signals })
  unfolding signal_handler_function
  signal-Inv n p v = ground arith

  pub main-Inv :
      (built : Bool) (m : Main) (p : Q)
      → p.main ≡ m
      → has_started m ≡ true
      → Inv p
      → Inv (move_main d j s h fuel built m p)
  unfolding move_main has_started has_spawned has_waited has_joined is_unborn has_finished exit_code
      is_at_rest
  main-Inv built m p e up v = ground arith
