-- ===== src/Program/Signals.antt =====
-- Signals of src/server/main.cpp: which of them reach SignalHandlerFunction, and which end the process.
use pokemon_cpp_server.Common.{
  ℕ, zero, suc, ◌≡◌, refl, sym, ◌∙◌, ap, ◌⊎◌, inl, inr, Bool, false, arith, eqb, if◌then◌else◌,
  Bool-cases, if-elim,
}
use pokemon_cpp_server.External.Json.{Json}
use pokemon_cpp_server.External.Simulator.{Simulator}
use pokemon_cpp_server.External.Hiredis.{Hiredis}
use pokemon_cpp_server.Metrics.{Double}
use pokemon_cpp_server.SignalHandler.{sigterm, signal_handler_function, is_installed, any_eq}
use pokemon_cpp_server.Schedule.{run}
use pokemon_cpp_server.Program.{Event, signal, step, Process, running, killed, deliver, react}
use pokemon_cpp_server.Program.Shutdown.{P, next}
use pokemon_cpp_server.Program.Invariant.{Inv}
use pokemon_cpp_server.Program.Safety.{step-Inv}

-- No signal comes but SIGTERM and those whose default action does not end the process.
abbrev pub IsHarmless : (ℕ → Bool) → (ℕ → Event) → Type 0
IsHarmless ends schedule = (k n : ℕ) → schedule k ≡ signal n → (n ≡ sigterm) ⊎ (ends n ≡ false)

module _ (d : Double) (j : Json) (s : Simulator j) (h : Hiredis) (fuel : ℕ) where
  abbrev Q : Type 0
  Q = P d j s h fuel

  abbrev State : Type 0
  State = Process d j s h fuel

  program_or : Q → State → Q
  program_or q (running p) = p
  program_or q (killed n) = q

  pub running-eq : {p q : Q} → running p ≡ running q → p ≡ q
  unfolding program_or
  running-eq {p} e = ap (program_or p) e

  only_sigterm : (n : ℕ) (p : Q) → Inv d j s h fuel p → is_installed n p.signals ≡ eqb n sigterm
  unfolding is_installed any_eq
  only_sigterm n p v = rw (v.installed) (ground arith)

  -- SignalHandlerFunction does nothing for another signal.
  other_signal : (n : ℕ) (p : Q) → eqb n sigterm ≡ false → next d j s h fuel (signal n) p ≡ p
  unfolding step signal_handler_function
  other_signal n p e = rw e refl

  -- A signal that does not end the process acts as a call of SignalHandlerFunction.
  deliver-step :
      (ends : ℕ → Bool) (n : ℕ) (p : Q)
      → Inv d j s h fuel p
      → (n ≡ sigterm) ⊎ (ends n ≡ false)
      → deliver d j s h fuel ends n p ≡ running (next d j s h fuel (signal n) p)
  unfolding deliver
  deliver-step ends n p v m = elim (Bool-cases (eqb n sigterm)) [
    | inl e ↦ rw (only_sigterm n p v ∙ e) refl
    | inr e ↦
        (let mild : ends n ≡ false = ground arith in
          rw (only_sigterm n p v ∙ e, mild) (ap running (sym (other_signal n p e))))
  ]

  react-step :
      (ends : ℕ → Bool) (e : Event) (p : Q)
      → Inv d j s h fuel p
      → ((n : ℕ) → e ≡ signal n → (n ≡ sigterm) ⊎ (ends n ≡ false))
      → react d j s h fuel ends e (running p) ≡ running (next d j s h fuel e p)
  unfolding react
  react-step ends (signal n) p v m = deliver-step ends n p v (m n refl)
  react-step ends e p v m = refl

  -- Where no signal ends the process, its run is that of the program.
  pub run-react :
      (ends : ℕ → Bool) (n : ℕ) (schedule : ℕ → Event) (p : Q)
      → IsHarmless ends schedule
      → Inv d j s h fuel p
      → run (react d j s h fuel ends) schedule n (running p)
        ≡ running (run (next d j s h fuel) schedule n p)
  unfolding run
  run-react ends zero schedule p m v = refl
  run-react ends (suc n) schedule p m v =
      ap (run (react d j s h fuel ends) (λ k. schedule (suc k)) n)
        (react-step ends (schedule 0) p v (m 0))
      ∙ run-react ends n (λ k. schedule (suc k)) _ (λ k. m (suc k))
          (step-Inv d j s h fuel (schedule 0) p v)

  -- A process that has not been killed is in order.
  unfoldable pub Alive : State → Type 0
  Alive (running p) = Inv d j s h fuel p
  Alive (killed n) = Unit

  deliver-Alive :
      (ends : ℕ → Bool) (n : ℕ) (p : Q) → Inv d j s h fuel p → Alive (deliver d j s h fuel ends n p)
  unfolding deliver Alive
  deliver-Alive ends n p v =
      if-elim Alive (is_installed n p.signals) (running (next d j s h fuel (signal n) p))
        (if ends n then killed n else running p) (λ e. step-Inv d j s h fuel (signal n) p v)
        (λ e. if-elim Alive (ends n) (killed n) (running p) (λ f. tt) (λ f. v))

  react-Alive :
      (ends : ℕ → Bool) (e : Event) (x : State) → Alive x → Alive (react d j s h fuel ends e x)
  unfolding react Alive
  react-Alive ends e (killed n) v = tt
  react-Alive ends (signal n) (running p) v = deliver-Alive ends n p v
  react-Alive ends e (running p) v = step-Inv d j s h fuel e p v

  pub run-Alive :
      (ends : ℕ → Bool) (n : ℕ) (schedule : ℕ → Event) (x : State)
      → Alive x
      → Alive (run (react d j s h fuel ends) schedule n x)
  unfolding run
  run-Alive ends zero schedule x v = v
  run-Alive ends (suc n) schedule x v =
      run-Alive ends n (λ k. schedule (suc k)) _ (react-Alive ends (schedule 0) x v)
