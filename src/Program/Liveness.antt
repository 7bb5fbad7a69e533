-- ===== src/Program/Liveness.antt =====
-- The end of src/server/main.cpp, under a fair schedule.
use pokemon_cpp_server.Common.{
  ℕ, ◌≡◌, refl, sym, ◌∙◌, ap, ◌⊎◌, inl, inr, some, Bool, true, false, arith, subst,
}
use pokemon_cpp_server.External.Json.{Json}
use pokemon_cpp_server.External.Simulator.{Simulator}
use pokemon_cpp_server.External.Hiredis.{Hiredis}
use pokemon_cpp_server.Metrics.{Double}
use pokemon_cpp_server.GameServer.{exit_code}
use pokemon_cpp_server.Schedule.{Ensures, leads_by, leads_trans, leads_now}
use pokemon_cpp_server.Program.{
  Main, waiting, joining_sigterm, joining_activity, returned, Sigterm, Worker, Event, main_moves,
  activity_moves, main_thread, sigterm_thread, activity_thread, thread, step, move_main,
  move_sigterm, move_activity, is_over,
}
use pokemon_cpp_server.Program.Moves.{Frame, step-Frame, is_up}
use pokemon_cpp_server.Program.Shutdown.{P, next, Leads, only_sigterm}
use pokemon_cpp_server.Program.Joins.{Worker-cases}
use pokemon_cpp_server.Program.Mute.{Down}

only_main : (e : Event) → thread e ≡ some main_thread → (built : Bool) × (e ≡ main_moves built)
unfolding thread
only_main (main_moves built) h = (built, refl)
only_main e h = ground arith

only_activity : (e : Event) → thread e ≡ some activity_thread → e ≡ activity_moves
unfolding thread
only_activity e h = ground arith

module _ (d : Double) (j : Json) (s : Simulator j) (h : Hiredis) (fuel : ℕ) where
  abbrev Q : Type 0
  Q = P d j s h fuel

  abbrev Below : Main → Q → Type 0
  Below = Down d j s h fuel

  step-finished :
      (e : Event) (p : Q)
      → p.sigterm ≡ Sigterm.finished
      → thread e ≡ some sigterm_thread
      → next d j s h fuel e p ≡ p
  unfolding step move_sigterm
  step-finished e p f own = ap (λ i. next d j s h fuel i p) (only_sigterm e own) ∙ rw f refl

  -- A move of another thread than main, after Stop.
  Down-step :
      (m : Main) (e : Event) (p : Q)
      → is_up m ≡ true
      → Below m p
      → (thread e ≡ some main_thread) ⊎ Below m (next d j s h fuel e p)
  Down-step m e p up u = elim f.sigterm [
    | inl own ↦ inr (subst (Below m) (sym (step-finished e p u.sigterm own)) u)
    | inr same ↦ elim f.flags [
      | inl own ↦ inr (subst (Below m) (sym (step-finished e p u.sigterm own)) u)
      | inr flags ↦ ground (arith, f.main)
    ]
  ]
    where
      f : Frame d j s h fuel (thread e) p (next d j s h fuel e p)
      f = step-Frame d j s h fuel e p (rw (u.main) up)

  main_step :
      (e : Event) (p : Q)
      → thread e ≡ some main_thread
      → (built : Bool) × (next d j s h fuel e p ≡ move_main d j s h fuel built p.main p)
  unfolding step
  main_step e p own = let r = only_main e own in (r.0, ap (λ i. next d j s h fuel i p) r.1)

  -- A stage that main ends.
  main-Ensures :
      (m n : Main)
      → is_up m ≡ true
      → ((built : Bool) (p : Q) → Below m p → Below n (move_main d j s h fuel built m p))
      → Ensures (next d j s h fuel) thread main_thread (Below m) (Below n)
  main-Ensures m n up move = record {
    keeps =
        λ e p u. elim (Down-step m e p up u) [ inl own ↦ inr (bring e p own u) | inr k ↦ inl k ];
    brings = bring;
  }
    where
      bring :
          (e : Event) (p : Q)
          → thread e ≡ some main_thread
          → Below m p
          → Below n (next d j s h fuel e p)
      bring e p own u =
          let r = main_step e p own in
          subst (Below n) (sym (r.1 ∙ ap (λ y. move_main d j s h fuel r.0 y p) u.main))
            (move r.0 p u)

  returns_from_wait : Leads d j s h fuel (Below waiting) (Below joining_sigterm)
  unfolding move_main is_up
  returns_from_wait =
      leads_by (next d j s h fuel) thread
        (main-Ensures waiting joining_sigterm refl (λ b p u. ground arith))

  joins_sigterm : Leads d j s h fuel (Below joining_sigterm) (Below joining_activity)
  unfolding move_main is_up
  joins_sigterm =
      leads_by (next d j s h fuel) thread
        (main-Ensures joining_sigterm joining_activity refl (λ b p u. ground arith))

  abbrev Active : Worker → Q → Type 0
  Active w p = Below joining_activity p × (p.activity ≡ w)

  abbrev Ended : Q → Type 0
  Ended p = Below joining_activity p × (is_over p.activity ≡ true)

  abbrev pub Returned : Q → Type 0
  Returned p = p.main ≡ returned 0

  activity_step :
      (e : Event) (p : Q)
      → thread e ≡ some activity_thread
      → next d j s h fuel e p ≡ move_activity d j s h fuel p.activity p
  unfolding step
  activity_step e p own = ap (λ i. next d j s h fuel i p) (only_activity e own)

  -- main waits for the activity thread, which is not over.
  main_blocked :
      (e : Event) (p : Q)
      → Below joining_activity p
      → is_over p.activity ≡ false
      → thread e ≡ some main_thread
      → next d j s h fuel e p ≡ p
  unfolding move_main
  main_blocked e p u o own =
      let r = main_step e p own in r.1 ∙ ap (λ y. move_main d j s h fuel r.0 y p) u.main ∙ rw o refl

  -- A stage that the activity thread ends while main waits for it.
  activity-Ensures :
      (w : Worker) (R : Q → Type 0)
      → is_over w ≡ false
      → ((p : Q)
          → Below joining_activity p
          → p.activity ≡ w
          → Below joining_activity (move_activity d j s h fuel w p)
          → R (move_activity d j s h fuel w p))
      → Ensures (next d j s h fuel) thread activity_thread (Active w) R
  unfolding is_up
  activity-Ensures w R o move = record {
    keeps = λ e p u. elim (Down-step joining_activity e p refl u.0) [
      | inl own ↦ inl (subst (Active w) (sym (main_blocked e p u.0 (rw (u.1) o) own)) u)
      | inr k ↦ elim (step-Frame d j s h fuel e p (rw (u.0.main) refl)).activity [
        | inl own ↦ inr (bring e p own u)
        | inr same ↦ inl (k, same ∙ u.1)
      ]
    ];
    brings = bring;
  }
    where
      bring :
          (e : Event) (p : Q)
          → thread e ≡ some activity_thread
          → Active w p
          → R (next d j s h fuel e p)
      bring e p own u =
          let r = activity_step e p own ∙ ap (λ y. move_activity d j s h fuel y p) u.1 in
          subst R (sym r) (
            move p u.0 u.1 (elim (Down-step joining_activity e p refl u.0) [
              | inl main ↦
                  absurd (
                    let c : some main_thread ≡ some activity_thread = sym main ∙ own in
                    ground arith)
              | inr k ↦ subst (Below joining_activity) r k
            ]))

  dozes : Leads d j s h fuel (Active Worker.sleeping) (Active Worker.testing)
  unfolding move_activity is_over
  dozes =
      leads_by (next d j s h fuel) thread
        (activity-Ensures Worker.sleeping (Active Worker.testing) refl (λ p u e k. (k, refl)))

  leaves : Leads d j s h fuel (Active Worker.testing) Ended
  unfolding move_activity is_over
  leaves =
      leads_by (next d j s h fuel) thread
        (activity-Ensures Worker.testing Ended refl (λ p u e k. (k, ground (arith, u.serving))))

  activity_ends : Leads d j s h fuel (Below joining_activity) Ended
  activity_ends p u = elim (Worker-cases p.activity) [
    | inl e ↦ leads_trans (next d j s h fuel) thread dozes leaves p (u, e)
    | inr (inl e) ↦ leaves p (u, e)
    | inr (inr o) ↦ leads_now (next d j s h fuel) thread (λ q k. k) p (u, o)
  ]

  activity_over : (w : Worker) (p : Q) → is_over w ≡ true → move_activity d j s h fuel w p ≡ p
  unfolding is_over move_activity
  activity_over w p o = ground arith

  main_returns :
      (built : Bool) (p : Q)
      → is_over p.activity ≡ true
      → (move_main d j s h fuel built joining_activity p).main ≡ returned 0
  unfolding move_main exit_code
  main_returns built p o = rw o refl

  returns : Leads d j s h fuel Ended Returned
  unfolding is_up
  returns = leads_by (next d j s h fuel) thread {t = main_thread} (record {
    keeps = λ e p u. elim (Down-step joining_activity e p refl u.0) [
      | inl own ↦ inr (bring e p own u)
      | inr k ↦ elim (step-Frame d j s h fuel e p (rw (u.0.main) refl)).activity [
        | inl own ↦
            inl (subst Ended (sym (activity_step e p own ∙ activity_over p.activity p u.1)) u)
        | inr same ↦ inl (k, ap is_over same ∙ u.1)
      ]
    ];
    brings = bring;
  })
    where
      bring :
          (e : Event) (p : Q)
          → thread e ≡ some main_thread
          → Ended p
          → Returned (next d j s h fuel e p)
      bring e p own u =
          let r = main_step e p own in
          subst Returned (sym (r.1 ∙ ap (λ y. move_main d j s h fuel r.0 y p) u.0.main))
            (main_returns r.0 p u.1)

  -- main, from each of its waits on.
  pub after_activity : Leads d j s h fuel (Below joining_activity) Returned
  after_activity = leads_trans (next d j s h fuel) thread activity_ends returns

  pub after_sigterm : Leads d j s h fuel (Below joining_sigterm) Returned
  after_sigterm = leads_trans (next d j s h fuel) thread joins_sigterm after_activity

  pub after_wait : Leads d j s h fuel (Below waiting) Returned
  after_wait = leads_trans (next d j s h fuel) thread returns_from_wait after_sigterm
