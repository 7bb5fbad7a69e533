-- ===== src/Program/Joins.antt =====
-- Waits for another thread, and the join of the heartbeat thread in Stop, of src/server/main.cpp, under a fair schedule.
use pokemon_cpp_server.Common.{
  ℕ, ◌≡◌, ◌≢◌, refl, sym, ◌∙◌, ap, ◌⊎◌, inl, inr, some, true, false, arith, subst, some-eq,
}
use pokemon_cpp_server.External.Json.{Json}
use pokemon_cpp_server.External.Simulator.{Simulator}
use pokemon_cpp_server.External.Hiredis.{Hiredis}
use pokemon_cpp_server.Metrics.{Double}
use pokemon_cpp_server.Schedule.{Ensures, leads_by, leads_trans, leads_now}
use pokemon_cpp_server.Program.{
  Sigterm, stopping, joining_heartbeat, joining_metrics, Worker, Event, heartbeat_moves, Thread,
  sigterm_thread, heartbeat_thread, thread, step, move_sigterm, move_heartbeat, is_over,
}
use pokemon_cpp_server.Program.Moves.{Frame, step-Frame, is_up, SameFlags}
use pokemon_cpp_server.Program.Shutdown.{
  Leads, P, next, Up, At, Any, Leads, Stage, by_sigterm, Answers, Up-step, only_sigterm,
}

only_heartbeat : (e : Event) → thread e ≡ some heartbeat_thread → e ≡ heartbeat_moves
unfolding thread
only_heartbeat e h = ground arith

pub Worker-cases : (w : Worker) → (w ≡ Worker.sleeping) ⊎ (w ≡ Worker.testing) ⊎ (is_over w ≡ true)
unfolding is_over
Worker-cases w = ground arith

module _ (d : Double) (j : Json) (s : Simulator j) (h : Hiredis) (fuel : ℕ) where
  abbrev Q : Type 0
  Q = P d j s h fuel

  -- A stage in which the polling thread waits and the thread `t` moves on.
  pub record Wait (x : Sigterm) (t : Thread) (K : Q → Type 0) (R : Q → Type 0) : Type 0 where
    pub kept :
        (e : Event) (p : Q)
        → Up d j s h fuel x p
        → K p
        → Frame d j s h fuel (thread e) p (next d j s h fuel e p)
        → (thread e ≡ some t) ⊎ (thread e ≡ some sigterm_thread) ⊎ K (next d j s h fuel e p)
    pub blocked : (p : Q) → Up d j s h fuel x p → K p → move_sigterm d j s h fuel x p ≡ p
    pub apart : t ≢ sigterm_thread
    pub leads :
        (e : Event) (p : Q)
        → thread e ≡ some t
        → K p
        → At d j s h fuel x (λ q. SameFlags d j s h fuel p q) (next d j s h fuel e p)
        → R (next d j s h fuel e p)

  pub Wait-Ensures :
      {x : Sigterm} {t : Thread} {K R : Q → Type 0}
      → Answers d j s h fuel
      → Wait x t K R
      → Ensures (next d j s h fuel) thread t (At d j s h fuel x K) R
  unfolding is_up step
  Wait-Ensures {x} {t} {K} {R} a wait = record {
    keeps = λ e p u. elim (Up-step d j s h fuel a x e p u.0) [
      | inl own ↦ inl (stay e p own u)
      | inr other ↦
          elim (wait.kept e p u.0 u.1 (step-Frame d j s h fuel e p (rw (u.0.main) refl))) [
            | inl mine ↦ inr (wait.leads e p mine u.1 other)
            | inr (inl own) ↦ inl (stay e p own u)
            | inr (inr k) ↦ inl (other.0, k)
          ]
    ];
    brings = λ e p mine u. elim (Up-step d j s h fuel a x e p u.0) [
      | inl own ↦ absurd (wait.apart (some-eq (sym mine ∙ own)))
      | inr other ↦ wait.leads e p mine u.1 other
    ];
  }
    where
      stay :
          (e : Event) (p : Q)
          → thread e ≡ some sigterm_thread
          → At d j s h fuel x K p
          → At d j s h fuel x K (next d j s h fuel e p)
      stay e p own u =
          let e_moves = ap (λ i. next d j s h fuel i p) (only_sigterm e own) in
          let at_x = ap (λ y. move_sigterm d j s h fuel y p) u.0.sigterm in
          subst (At d j s h fuel x K) (sym (e_moves ∙ at_x ∙ wait.blocked p u.0 u.1)) u

  abbrev pub Halted : Q → Type 0
  Halted p = p.server.heartbeat_running ≡ false

  abbrev pub Muted : Q → Type 0
  Muted p = p.server.metrics_running ≡ false

  stops : Stage d j s h fuel stopping (Any d j s h fuel) (At d j s h fuel joining_heartbeat Halted)
  unfolding move_sigterm
  stops = record { kept = λ e p u k f. inr tt; leads = λ p u k. ground arith }

  abbrev Beating : Worker → Q → Type 0
  Beating w p = Halted p × (p.heartbeats ≡ w)

  abbrev Still : Q → Type 0
  Still p = Halted p × (is_over p.heartbeats ≡ true)

  heart_moves :
      (e : Event) (p : Q)
      → thread e ≡ some heartbeat_thread
      → next d j s h fuel e p ≡ move_heartbeat d j s h fuel p.heartbeats p
  unfolding step
  heart_moves e p own = ap (λ i. next d j s h fuel i p) (only_heartbeat e own)

  heart_over : (w : Worker) (p : Q) → is_over w ≡ true → move_heartbeat d j s h fuel w p ≡ p
  unfolding is_over move_heartbeat
  heart_over w p o = ground arith

  wakes :
      Wait joining_heartbeat heartbeat_thread
        (Beating Worker.sleeping)
        (At d j s h fuel joining_heartbeat (Beating Worker.testing))
  unfolding move_sigterm is_over move_heartbeat
  wakes = record {
    kept = λ e p u k f. ground arith;
    blocked = λ p u k. ground arith;
    apart = λ e. cc;
    leads = λ e p own k o.
        (o.0, (ground arith, ap (λ q. q.heartbeats) (heart_moves e p own) ∙ ground arith));
  }

  rests :
      Wait joining_heartbeat heartbeat_thread
        (Beating Worker.testing)
        (At d j s h fuel joining_heartbeat Still)
  unfolding move_sigterm is_over move_heartbeat
  rests = record {
    kept = λ e p u k f. ground arith;
    blocked = λ p u k. ground arith;
    apart = λ e. cc;
    leads = λ e p own k o.
        (o.0, (ground arith, ap (λ q. is_over q.heartbeats) (heart_moves e p own) ∙ ground arith));
  }

  joins_heartbeat :
      Stage d j s h fuel joining_heartbeat Still (At d j s h fuel joining_metrics Muted)
  unfolding move_sigterm is_over
  joins_heartbeat = record {
    kept = λ e p u k f. elim f.heartbeats [
      | inl own ↦ inr (subst Still (sym (heart_moves e p own ∙ heart_over p.heartbeats p k.1)) k)
      | inr same ↦ ground arith
    ];
    leads = λ p u k. ground arith;
  }

  -- The join of the heartbeat thread.
  pub joins_heart :
      Answers d j s h fuel
      → Leads d j s h fuel
          (At d j s h fuel joining_heartbeat Halted)
          (At d j s h fuel joining_metrics Muted)
  joins_heart a =
      leads_trans (next d j s h fuel) thread over (by_sigterm d j s h fuel a joins_heartbeat)
    where
      resting :
          Leads d j s h fuel
            (At d j s h fuel joining_heartbeat (Beating Worker.testing))
            (At d j s h fuel joining_heartbeat Still)
      resting = leads_by (next d j s h fuel) thread (Wait-Ensures a rests)

      over :
          Leads d j s h fuel
            (At d j s h fuel joining_heartbeat Halted)
            (At d j s h fuel joining_heartbeat Still)
      over p u = elim (Worker-cases p.heartbeats) [
        | inl e ↦
            leads_trans (next d j s h fuel) thread
              (leads_by (next d j s h fuel) thread (Wait-Ensures a wakes)) resting p (u.0, (u.1, e))
        | inr (inl e) ↦ resting p (u.0, (u.1, e))
        | inr (inr o) ↦ leads_now (next d j s h fuel) thread (λ q k. k) p (u.0, (u.1, o))
      ]

  -- Stop past the join of the heartbeat thread.
  pub halts :
      Answers d j s h fuel
      → Leads d j s h fuel
          (At d j s h fuel stopping (Any d j s h fuel))
          (At d j s h fuel joining_metrics Muted)
  halts a = leads_trans (next d j s h fuel) thread (by_sigterm d j s h fuel a stops) (joins_heart a)
