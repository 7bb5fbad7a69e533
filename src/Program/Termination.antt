-- ===== src/Program/Termination.antt =====
-- SIGTERM ends src/server/main.cpp: from every state of a run, under a fair schedule.
use pokemon_cpp_server.Common.{ℕ, suc, ◌≡◌, refl, sym, ◌∙◌, ap, Bool, ◌⊎◌, inl, inr, Option, true}
use pokemon_cpp_server.Text.{Text}
use pokemon_cpp_server.External.Json.{Json}
use pokemon_cpp_server.External.Simulator.{Simulator}
use pokemon_cpp_server.External.Hiredis.{Hiredis}
use pokemon_cpp_server.Metrics.{Double}
use pokemon_cpp_server.SignalHandler.{sigterm}
use pokemon_cpp_server.Schedule.{
  run, IsFair, Eventually, eventually-run, after, after-IsFair, eventually_after,
}
use pokemon_cpp_server.Program.{returned, Event, signal, thread, boot}
use pokemon_cpp_server.Program.Shutdown.{P, next, Answers}
use pokemon_cpp_server.Program.Liveness.{Returned}
use pokemon_cpp_server.Program.Runs
use pokemon_cpp_server.Program.Runs.{
  is_past, step-Sound, run-Sound, run-started, heard, comes_later, boot-Sound,
}
use pokemon_cpp_server.Program.Invariant.{has_started}
use pokemon_cpp_server.Program.{running, react}
use pokemon_cpp_server.Program.Signals.{IsHarmless, run-react, running-eq}
use pokemon_cpp_server.Program.Safety.{boot-Inv}
use pokemon_cpp_server.Program.Waits.{started_on}

module _ (d : Double) (j : Json) (s : Simulator j) (h : Hiredis) (fuel : ℕ) where
  abbrev Q : Type 0
  Q = P d j s h fuel

  module _ (a : Answers d j s h fuel) where
    abbrev Sound : Q → Type 0
    Sound = Runs.Sound d j s h fuel a

    abbrev Called : Q → Type 0
    Called = Runs.Called d j s h fuel a

    abbrev Goal : (ℕ → Event) → Q → Type 0
    Goal = Eventually (next d j s h fuel) thread (Returned d j s h fuel)

    started-Goal :
        (schedule : ℕ → Event) (p : Q)
        → IsFair thread schedule
        → Sound p
        → has_started p.main ≡ true
        → Called p ⊎ ((k : ℕ) × (schedule k ≡ signal sigterm))
        → Goal schedule p
    started-Goal schedule p fair v o (inl c) =
        started_on d j s h fuel a p.main p v refl o c schedule fair
    started-Goal schedule p fair v o (inr (k, e)) =
        eventually_after (next d j s h fuel) thread (suc k) schedule p (
          started_on d j s h fuel a _ _ (run-Sound d j s h fuel a (suc k) schedule p v) refl
            (run-started d j s h fuel a (suc k) schedule p o)
            (comes_later d j s h fuel a k schedule p v e) (after (suc k) schedule)
            (after-IsFair thread (suc k) schedule fair))

    started_later :
        (i m : ℕ) (schedule : ℕ → Event) (p : Q)
        → IsFair thread schedule
        → Sound p
        → schedule i ≡ signal sigterm
        → has_started (run (next d j s h fuel) schedule m p).main ≡ true
        → Goal schedule p
    started_later i m schedule p fair v e o =
        eventually_after (next d j s h fuel) thread m schedule p (
          started-Goal (after m schedule) _ (after-IsFair thread m schedule fair)
            (run-Sound d j s h fuel a m schedule p v) o (heard d j s h fuel a i m schedule p v e))

  pub started-returns :
      (schedule : ℕ → Event) (i m : ℕ) (p : Q)
      → (a : Answers d j s h fuel) → IsFair thread schedule
      → Runs.Sound d j s h fuel a p
      → schedule i ≡ signal sigterm
      → has_started (run (next d j s h fuel) schedule m p).main ≡ true
      → (n : ℕ) × ((run (next d j s h fuel) schedule n p).main ≡ returned 0)
  started-returns schedule i m p a fair v e o =
      eventually-run (next d j s h fuel) thread (started_later a i m schedule p fair v e o)

  -- If every request of the metrics port is answered, then in every run under a schedule that is fair
  -- to the five threads and to the client of the metrics port (who sends or hangs up again and
  -- again), in which Start returns true, SIGTERM comes, before that or later, and no other signal
  -- comes whose default action ends the process, main returns 0 after finitely many events, whatever
  -- RPCs, requests and further SIGTERMs come.
  pub sigterm-returns :
      (ends : ℕ → Bool) (pod_ip redis_url : Option Text) (millis draw : ℕ) (schedule : ℕ → Event)
      (i m : ℕ) (p : Q)
      → Answers d j s h fuel
      → IsFair thread schedule
      → IsHarmless ends schedule
      → schedule i ≡ signal sigterm
      → run
          (react d j s h fuel ends)
          schedule
          m
          (running (boot d j s h fuel pod_ip redis_url millis draw))
        ≡ running p
      → has_started p.main ≡ true
      → (n : ℕ) × (q : Q) × (run
            (react d j s h fuel ends)
            schedule
            n
            (running (boot d j s h fuel pod_ip redis_url millis draw))
          ≡ running q)
        × (q.main ≡ returned 0)
  sigterm-returns ends pod_ip redis_url millis draw schedule i m p a fair mild e r o =
      let start = boot d j s h fuel pod_ip redis_url millis draw in
      let v = boot-Inv d j s h fuel pod_ip redis_url millis draw in
      let same =
        running-eq d j s h fuel (sym (run-react d j s h fuel ends m schedule start mild v) ∙ r) in
      let w =
        started-returns schedule i m start a fair
          (boot-Sound d j s h fuel a pod_ip redis_url millis draw) e
          (ap (λ x. has_started x.main) same ∙ o) in
      (
        w.0,
        run (next d j s h fuel) schedule w.0 start,
        run-react d j s h fuel ends w.0 schedule start mild v,
        w.1,
      )
