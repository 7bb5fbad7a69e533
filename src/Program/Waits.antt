-- ===== src/Program/Waits.antt =====
-- The way of src/server/main.cpp to its end from each place where the threads stand.
use pokemon_cpp_server.Common.{
  ℕ, ◌≡◌, refl, sym, ◌∙◌, ap, ◌⊎◌, inl, inr, some, Bool, true, false, arith, subst, Bool-cases,
}
use pokemon_cpp_server.External.Json.{Json}
use pokemon_cpp_server.External.Simulator.{Simulator}
use pokemon_cpp_server.External.Hiredis.{Hiredis}
use pokemon_cpp_server.Metrics.{Double}
use pokemon_cpp_server.SignalHandler.{signal_handler_function}
use pokemon_cpp_server.Schedule.{leads_by, leads_trans, leads_now, IsFair, Eventually}
use pokemon_cpp_server.Program.{
  Main, configured, spawning, waiting, joining_sigterm, joining_activity, returned, crashed,
  Sigterm, polling, draining, closing, stopping, joining_heartbeat, joining_metrics, Event,
  sigterm_moves, main_thread, thread, step, Map, Room, move_main, move_sigterm, move_activity,
  move_heartbeat, move_metrics, take_request, after_request, answer,
}
use pokemon_cpp_server.Program.Shutdown.{
  P, next, Leads, Up, At, Any, Answers, Pending, polls, by_sigterm, all_drained, copies, all_closed,
}
use pokemon_cpp_server.Program.Joins.{halts, joins_heart, Halted, Muted}
use pokemon_cpp_server.Program.Mute.{Down, mutes}
use pokemon_cpp_server.Program.Liveness.{Returned, after_wait, after_sigterm, after_activity}
use pokemon_cpp_server.Program.Moves.{only_main}
use pokemon_cpp_server.Program.Runs
use pokemon_cpp_server.Program.Runs.{
  is_past, step-Sound, run-Sound, run-started, heard, comes_later, boot-Sound,
}
use pokemon_cpp_server.Program.Invariant.{
  Inv, has_started, has_finished, has_spawned, is_unborn, has_waited, has_joined,
}

module _ (d : Double) (j : Json) (s : Simulator j) (h : Hiredis) (fuel : ℕ) where
  abbrev Q : Type 0
  Q = P d j s h fuel

  abbrev Below : Main → Q → Type 0
  Below = Down d j s h fuel

  abbrev Here : Sigterm → (Q → Type 0) → Q → Type 0
  Here = At d j s h fuel

  abbrev To : (Q → Type 0) → (Q → Type 0) → Type 0
  To = Leads d j s h fuel

  abbrev Nothing : Q → Type 0
  Nothing = Any d j s h fuel

  module _ (a : Answers d j s h fuel) where
    abbrev follow : {A B C : Q → Type 0} → To A B → To B C → To A C
    follow = leads_trans (next d j s h fuel) thread

    from_metrics : To (Here joining_metrics (Muted d j s h fuel)) (Returned d j s h fuel)
    from_metrics = follow (mutes d j s h fuel a) (after_wait d j s h fuel)

    from_heartbeat : To (Here joining_heartbeat (Halted d j s h fuel)) (Returned d j s h fuel)
    from_heartbeat = follow (joins_heart d j s h fuel a) from_metrics

    from_stop : To (Here stopping Nothing) (Returned d j s h fuel)
    from_stop = follow (halts d j s h fuel a) from_metrics

    from_closing : (rooms : Map Room) → To (Here (closing rooms) Nothing) (Returned d j s h fuel)
    from_closing rooms = follow (all_closed d j s h fuel a rooms) from_stop

    from_draining : (n : ℕ) → To (Here (draining n) Nothing) (Returned d j s h fuel)
    from_draining n =
        follow (all_drained d j s h fuel a n)
          (follow (by_sigterm d j s h fuel a (copies d j s h fuel)) (λ p u. from_closing u.0 p u.1))

    from_polling : To (Here polling (Pending d j s h fuel)) (Returned d j s h fuel)
    from_polling = follow (by_sigterm d j s h fuel a (polls d j s h fuel)) (from_draining 5)

    abbrev Sound : Q → Type 0
    Sound = Runs.Sound d j s h fuel a

    abbrev Called : Q → Type 0
    Called = Runs.Called d j s h fuel a

    up :
        (x : Sigterm) (p : Q)
        → Sound p
        → p.main ≡ waiting
        → p.sigterm ≡ x
        → has_finished x ≡ false
        → Up d j s h fuel x p
    unfolding has_spawned
    up x p v m e n = record {
      main = m;
      sigterm = e;
      serving = v.inv.serves (rw m refl) (ap has_finished e ∙ n);
      handler = v.inv.handler;
      unstuck = v.unstuck;
    }

    waits_on :
        (x : Sigterm) (p : Q)
        → Sound p
        → p.main ≡ waiting
        → p.sigterm ≡ x
        → Called p
        → (schedule : ℕ → Event) → IsFair thread schedule
        → Eventually (next d j s h fuel) thread (Returned d j s h fuel) schedule p
    unfolding has_finished is_unborn has_spawned is_past
    waits_on Sigterm.unborn p v m e c = absurd (let w = v.inv.spawned (rw m refl) in ground arith)
    waits_on polling p v m e c = from_polling p (up polling p v m e refl, ground arith)
    waits_on (draining n) p v m e c = from_draining n p (up (draining n) p v m e refl, tt)
    waits_on (closing rooms) p v m e c = from_closing rooms p (up (closing rooms) p v m e refl, tt)
    waits_on stopping p v m e c = from_stop p (up stopping p v m e refl, tt)
    waits_on joining_heartbeat p v m e c =
        from_heartbeat p (up joining_heartbeat p v m e refl, v.inv.hushed e)
    waits_on joining_metrics p v m e c =
        from_metrics p (up joining_metrics p v m e refl, v.inv.muted e)
    waits_on Sigterm.finished p v m e c =
        after_wait d j s h fuel p
          (record { main = m; sigterm = e; serving = (v.inv.stopped (rw e refl)).0 })

    -- main between Start and its wait.
    abbrev Spawning : Q → Type 0
    Spawning p = Sound p × (p.main ≡ spawning) × (p.signals.sig_term_received ≡ true)

    spawning_move :
        (built : Bool) (p : Q)
        → Spawning p
        → Here polling (Pending d j s h fuel) (move_main d j s h fuel built spawning p)
    unfolding move_main is_unborn
    spawning_move built p u = (
      record {
        main = refl;
        sigterm = refl;
        serving = (u.0.inv.unspawned u.1).2;
        handler = u.0.inv.handler;
        unstuck = u.0.unstuck;
      },
      u.2,
    )

    spawning_keeps :
        (e : Event) (p : Q)
        → p.main ≡ spawning
        → p.sigterm ≡ Sigterm.unborn
        → p.signals.sig_term_received ≡ true
        → (thread e ≡ some main_thread)
          ⊎ (((next d j s h fuel e p).main ≡ spawning)
              × ((next d j s h fuel e p).signals.sig_term_received ≡ true))
    unfolding step thread move_sigterm move_activity move_heartbeat move_metrics take_request
        after_request answer signal_handler_function
    spawning_keeps sigterm_moves p m x r = inr (
      ap (λ y. (move_sigterm d j s h fuel y p).main) x ∙ m,
      ap (λ y. (move_sigterm d j s h fuel y p).signals.sig_term_received) x ∙ r,
    )
    spawning_keeps e p m x r = ground arith

    from_start : To Spawning (Returned d j s h fuel)
    unfolding step
    from_start =
        follow
          (leads_by (next d j s h fuel) thread {t = main_thread} (record {
            keeps = λ e p u. elim (spawning_keeps e p u.1 (u.0.inv.unspawned u.1).0 u.2) [
              | inl own ↦ inr (bring e p own u)
              | inr k ↦ inl (step-Sound d j s h fuel a e p u.0, k.0, k.1)
            ];
            brings = bring;
          }))
          from_polling
      where
        bring :
            (e : Event) (p : Q)
            → thread e ≡ some main_thread
            → Spawning p
            → Here polling (Pending d j s h fuel) (next d j s h fuel e p)
        bring e p own u =
            let r = only_main d j s h fuel e own in
            subst (Here polling (Pending d j s h fuel))
              (sym (
                ap (λ i. next d j s h fuel i p) r.1 ∙ ap (λ y. move_main d j s h fuel r.0 y p) u.1))
              (spawning_move r.0 p u)

    has_waited-finished :
        (p : Q)
        → Inv d j s h fuel p
        → has_waited p.main ≡ true
        → has_spawned p.main ≡ true
        → p.sigterm ≡ Sigterm.finished
    unfolding has_finished
    has_waited-finished p v w b =
        let off = v.waited w in
        elim (Bool-cases (has_finished p.sigterm)) [
          | inl f ↦ ground arith
          | inr n ↦ absurd (let on = v.serves b n in ground arith)
        ]

    -- Where Start has returned true and SIGTERM has come.
    pub started_on :
        (m : Main) (p : Q)
        → Sound p
        → p.main ≡ m
        → has_started m ≡ true
        → Called p
        → (schedule : ℕ → Event) → IsFair thread schedule
        → Eventually (next d j s h fuel) thread (Returned d j s h fuel) schedule p
    unfolding has_started is_past has_waited has_joined has_finished has_spawned
    started_on configured p v m o c = absurd (ground arith)
    started_on crashed p v m o c = absurd (ground arith)
    started_on spawning p v m o c =
        from_start p (v, m, (let x = (v.inv.unspawned m).0 in ground arith))
    started_on waiting p v m o c = waits_on p.sigterm p v m refl c
    started_on joining_sigterm p v m o c = after_sigterm d j s h fuel p (record {
      main = m;
      sigterm = has_waited-finished p v.inv (rw m refl) (rw m refl);
      serving = v.inv.waited (rw m refl);
    })
    started_on joining_activity p v m o c = after_activity d j s h fuel p (record {
      main = m;
      sigterm = has_waited-finished p v.inv (rw m refl) (rw m refl);
      serving = v.inv.waited (rw m refl);
    })
    started_on (returned code) p v m o c =
        leads_now (next d j s h fuel) thread {P = λ q. q.main ≡ returned code}
          (λ q k. k ∙ ap returned (ground arith)) p m
