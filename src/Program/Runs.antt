-- ===== src/Program/Runs.antt =====
-- What the runs of src/server/main.cpp keep, and when SIGTERM has come.
use pokemon_cpp_server.Common.{
  ℕ, zero, suc, ◌≡◌, refl, sym, ◌∙◌, ap, ◌⊎◌, inl, inr, Option, Bool, true, false, arith, subst,
}
use pokemon_cpp_server.Text.{Text}
use pokemon_cpp_server.External.Json.{Json}
use pokemon_cpp_server.External.Simulator.{Simulator}
use pokemon_cpp_server.External.Hiredis.{Hiredis}
use pokemon_cpp_server.Metrics.{Double}
use pokemon_cpp_server.GameServer.{exit_code}
use pokemon_cpp_server.SignalHandler.{sigterm, signal_handler_function}
use pokemon_cpp_server.Schedule.{run, after}
use pokemon_cpp_server.Program.{
  Main, Sigterm, polling, Event, main_moves, sigterm_moves, metrics_moves, client_moves, signal,
  thread, step, boot, move_main, after_start, move_sigterm, exit_code,
}
use pokemon_cpp_server.Program.Shutdown.{
  P, next, Answers, is_stuck, move_metrics-unstuck, move_client-unstuck,
}
use pokemon_cpp_server.Program.Moves.{other-Frame}
use pokemon_cpp_server.Program.Safety.{step-Inv, boot-Inv}
use pokemon_cpp_server.Program.Invariant.{Inv, has_started, begun-poll}

-- The polling thread has run the handler, or needs none.
unfoldable pub is_past : Sigterm → Bool
is_past Sigterm.unborn = false
is_past polling = false
is_past _ = true

module _ (d : Double) (j : Json) (s : Simulator j) (h : Hiredis) (fuel : ℕ) where
  abbrev Q : Type 0
  Q = P d j s h fuel

  module _ (a : Answers d j s h fuel) where
    -- What every run keeps.
    pub record Sound (p : Q) : Type 0 where
      pub inv : Inv d j s h fuel p
      pub unstuck : is_stuck p.metrics ≡ false

    abbrev pub Called : Q → Type 0
    Called p = (p.signals.sig_term_received ≡ true) ⊎ (is_past p.sigterm ≡ true)

    move_main-unstuck :
        (built : Bool) (m : Main) (p : Q)
        → is_stuck p.metrics ≡ false
        → is_stuck (move_main d j s h fuel built m p).metrics ≡ false
    unfolding move_main after_start is_stuck
    move_main-unstuck built m p u = ground arith

    step-unstuck :
        (e : Event) (p : Q)
        → is_stuck p.metrics ≡ false
        → is_stuck (next d j s h fuel e p).metrics ≡ false
    unfolding step thread
    step-unstuck (main_moves built) p u = move_main-unstuck built p.main p u
    step-unstuck (metrics_moves socket) p u =
        move_metrics-unstuck d j s h fuel socket p.metrics p refl u
    step-unstuck (client_moves request) p u =
        move_client-unstuck d j s h fuel a request p.metrics p refl u
    step-unstuck e p u = elim (other-Frame d j s h fuel e p) [
      | inl own ↦ absurd (ground arith)
      | inr f ↦ elim f.metrics [
        | inl own ↦ absurd (ground arith)
        | inr (inl own) ↦ absurd (ground arith)
        | inr (inr same) ↦ ap is_stuck same ∙ u
      ]
    ]

    pub step-Sound : (e : Event) (p : Q) → Sound p → Sound (next d j s h fuel e p)
    step-Sound e p v = record {
      inv = step-Inv d j s h fuel e p v.inv;
      unstuck = step-unstuck e p v.unstuck;
    }

    main-started :
        (built : Bool) (m : Main) (p : Q)
        → p.main ≡ m
        → has_started m ≡ true
        → has_started (move_main d j s h fuel built m p).main ≡ true
    unfolding has_started move_main exit_code
    main-started built m p e o = ground arith

    step-started :
        (e : Event) (p : Q)
        → has_started p.main ≡ true
        → has_started (next d j s h fuel e p).main ≡ true
    unfolding step thread
    step-started (main_moves built) p o = main-started built p.main p refl o
    step-started e p o = elim (other-Frame d j s h fuel e p) [
      | inl own ↦ absurd (ground arith)
      | inr f ↦ elim f.main [ inl own ↦ absurd (ground arith) | inr same ↦ ap has_started same ∙ o ]
    ]

    main-Called :
        (built : Bool) (m : Main) (p : Q)
        → p.main ≡ m
        → Inv d j s h fuel p
        → Called p
        → Called (move_main d j s h fuel built m p)
    unfolding move_main is_past after_start
    main-Called built m p e v c = ground arith

    sigterm-Called :
        (x : Sigterm) (p : Q)
        → p.sigterm ≡ x
        → Inv d j s h fuel p
        → Called p
        → Called (move_sigterm d j s h fuel x p)
    unfolding move_sigterm is_past
    sigterm-Called polling p e v c =
        inr (ap (λ q. is_past q.sigterm) (begun-poll d j s h fuel p v.handler) ∙ ground arith)
    sigterm-Called x p e v c = ground arith

    step-Called :
        (e : Event) (p : Q) → Inv d j s h fuel p → Called p → Called (next d j s h fuel e p)
    unfolding step thread
    step-Called (main_moves built) p v c = main-Called built p.main p refl v c
    step-Called sigterm_moves p v c = sigterm-Called p.sigterm p refl v c
    step-Called e p v c = elim (other-Frame d j s h fuel e p) [
      | inl own ↦ absurd (ground arith)
      | inr f ↦ ground (arith, f.sigterm, f.pending)
    ]

    signal-Called : (e : Event) (p : Q) → e ≡ signal sigterm → Called (next d j s h fuel e p)
    unfolding step signal_handler_function
    signal-Called e p i = subst (λ x. Called (next d j s h fuel x p)) (sym i) (inl refl)

    run-Called :
        (n : ℕ) (schedule : ℕ → Event) (p : Q)
        → Sound p
        → Called p
        → Called (run (next d j s h fuel) schedule n p)
    unfolding run
    run-Called zero schedule p v c = c
    run-Called (suc n) schedule p v c =
        run-Called n (λ k. schedule (suc k)) _ (step-Sound (schedule 0) p v)
          (step-Called (schedule 0) p v.inv c)

    pub run-Sound :
        (n : ℕ) (schedule : ℕ → Event) (p : Q)
        → Sound p
        → Sound (run (next d j s h fuel) schedule n p)
    unfolding run
    run-Sound zero schedule p v = v
    run-Sound (suc n) schedule p v =
        run-Sound n (λ k. schedule (suc k)) _ (step-Sound (schedule 0) p v)

    pub run-started :
        (n : ℕ) (schedule : ℕ → Event) (p : Q)
        → has_started p.main ≡ true
        → has_started (run (next d j s h fuel) schedule n p).main ≡ true
    unfolding run
    run-started zero schedule p o = o
    run-started (suc n) schedule p o =
        run-started n (λ k. schedule (suc k)) _ (step-started (schedule 0) p o)

    -- SIGTERM at the event `i` is among the first `m` events or after them.
    pub heard :
        (i m : ℕ) (schedule : ℕ → Event) (p : Q)
        → Sound p
        → schedule i ≡ signal sigterm
        → Called (run (next d j s h fuel) schedule m p)
          ⊎ ((k : ℕ) × (after m schedule k ≡ signal sigterm))
    unfolding run after
    heard i zero schedule p v e = inr (i, e)
    heard zero (suc m) schedule p v e = inl (
        run-Called m (λ k. schedule (suc k)) _ (step-Sound (schedule 0) p v)
          (signal-Called (schedule 0) p e))
    heard (suc i) (suc m) schedule p v e =
        heard i m (λ k. schedule (suc k)) _ (step-Sound (schedule 0) p v) e

    pub comes_later :
        (k : ℕ) (schedule : ℕ → Event) (p : Q)
        → Sound p
        → schedule k ≡ signal sigterm
        → Called (run (next d j s h fuel) schedule (suc k) p)
    unfolding run
    comes_later zero schedule p v e = signal-Called (schedule 0) p e
    comes_later (suc k) schedule p v e =
        comes_later k (λ i. schedule (suc i)) _ (step-Sound (schedule 0) p v) e

    pub boot-Sound :
        (pod_ip redis_url : Option Text) (millis draw : ℕ)
        → Sound (boot d j s h fuel pod_ip redis_url millis draw)
    unfolding boot is_stuck
    boot-Sound pod_ip redis_url millis draw = record {
      inv = boot-Inv d j s h fuel pod_ip redis_url millis draw;
      unstuck = refl;
    }
