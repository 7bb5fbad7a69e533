-- ===== src/Program/Mute.antt =====
-- StopMetricsServer of src/server/game_server.cpp at the end of Stop, under a fair schedule.
use pokemon_cpp_server.Common.{
  ℕ, ◌≡◌, refl, sym, ◌∙◌, ap, ◌⊎◌, inl, inr, some, Option, Bool, true, false, arith, subst,
}
use pokemon_cpp_server.Text.{Text}
use pokemon_cpp_server.External.Json.{Json}
use pokemon_cpp_server.External.Simulator.{Simulator}
use pokemon_cpp_server.External.Hiredis.{Hiredis}
use pokemon_cpp_server.Metrics.{Double}
use pokemon_cpp_server.Schedule.{leads_by, leads_trans, leads_now}
use pokemon_cpp_server.Program.{
  Main, waiting, Sigterm, joining_metrics, Listener, Socket, Event, metrics_moves, metrics_thread,
  thread, step, move_sigterm, move_metrics, move_client, take_request, after_request, client,
  client_moves, has_closed,
}
use pokemon_cpp_server.Program.Shutdown.{
  Leads, P, next, At, Leads, Stage, by_sigterm, Answers, is_stuck,
}
use pokemon_cpp_server.Program.Joins.{Wait, Wait-Ensures, Muted}

only_metrics :
    (e : Event) → thread e ≡ some metrics_thread → (socket : Socket) × (e ≡ metrics_moves socket)
unfolding thread
only_metrics (metrics_moves socket) h = (socket, refl)
only_metrics e h = ground arith

only_client :
    (e : Event) → thread e ≡ some client → (request : Option Text) × (e ≡ client_moves request)
unfolding thread
only_client (client_moves request) h = (request, refl)
only_client e h = ground arith

Listener-cases :
    (l : Listener)
    → is_stuck l ≡ false
    → (l ≡ Listener.opening)
      ⊎ (l ≡ Listener.testing)
      ⊎ (l ≡ Listener.selecting)
      ⊎ (l ≡ Listener.receiving)
      ⊎ (has_closed l ≡ true)
unfolding has_closed is_stuck
Listener-cases l u = ground arith

module _ (d : Double) (j : Json) (s : Simulator j) (h : Hiredis) (fuel : ℕ) where
  abbrev Q : Type 0
  Q = P d j s h fuel

  abbrev Listening : Listener → Q → Type 0
  Listening l p = Muted d j s h fuel p × (p.metrics ≡ l)

  abbrev Quiet : Q → Type 0
  Quiet p = Muted d j s h fuel p × (has_closed p.metrics ≡ true)

  abbrev Late : Q → Type 0
  Late p = Muted d j s h fuel p × ((p.metrics ≡ Listener.testing) ⊎ (has_closed p.metrics ≡ true))

  listener_moves :
      (e : Event) (p : Q)
      → thread e ≡ some metrics_thread
      → (socket : Socket) × (next d j s h fuel e p ≡ move_metrics d j s h fuel socket p.metrics p)
  unfolding step
  listener_moves e p own = let r = only_metrics e own in (r.0, ap (λ i. next d j s h fuel i p) r.1)

  client_moves-next :
      (e : Event) (p : Q)
      → thread e ≡ some client
      → (request : Option Text) × (next d j s h fuel e p
          ≡ move_client d j s h fuel request p.metrics p)
  unfolding step
  client_moves-next e p own =
      let r = only_client e own in (r.0, ap (λ i. next d j s h fuel i p) r.1)

  unfoldable is_receiving : Listener → Bool
  is_receiving Listener.receiving = true
  is_receiving _ = false

  -- The client moves nothing while the thread is not in recv.
  client_waits :
      (e : Event) (p : Q)
      → thread e ≡ some client
      → is_receiving p.metrics ≡ false
      → next d j s h fuel e p ≡ p
  unfolding move_client is_receiving
  client_waits e p own n = let r = client_moves-next e p own in r.1 ∙ waits r.0 p.metrics n
    where
      waits :
          (request : Option Text) (l : Listener)
          → is_receiving l ≡ false
          → move_client d j s h fuel request l p ≡ p
      waits request l n = ground arith

  -- In recv the thread itself has no move.
  pub recv_blocks :
      (e : Event) (p : Q)
      → thread e ≡ some metrics_thread
      → p.metrics ≡ Listener.receiving
      → next d j s h fuel e p ≡ p
  unfolding move_metrics
  recv_blocks e p own l =
      let r = listener_moves e p own in
      r.1 ∙ ap (λ y. move_metrics d j s h fuel r.0 y p) l ∙ in_recv r.0
    where
      in_recv : (socket : Socket) → move_metrics d j s h fuel socket Listener.receiving p ≡ p
      in_recv socket = ground arith

  unstuck_answer :
      (request : Option Text) (p : Q)
      → is_stuck (take_request d j s h fuel request p).metrics ≡ false
      → (take_request d j s h fuel request p).metrics ≡ Listener.testing
  unfolding take_request after_request is_stuck
  unstuck_answer request p u = ground arith

  receives :
      Wait d j s h fuel joining_metrics client
        (Listening Listener.receiving)
        (At d j s h fuel joining_metrics (Listening Listener.testing))
  unfolding move_sigterm has_closed move_client
  receives = record {
    kept = λ e p u k f. elim f.metrics [
      | inl own ↦ inr (inr (subst (Listening Listener.receiving) (sym (recv_blocks e p own k.1)) k))
      | inr (inl own) ↦ inl own
      | inr (inr same) ↦ ground arith
    ];
    blocked = λ p u k. ground arith;
    apart = λ e. cc;
    leads = λ e p own k o.
        let r = client_moves-next e p own in
        let q = r.1 ∙ ap (λ l. move_client d j s h fuel r.0 l p) k.1 in
        (
          o.0,
          (
            ground arith,
            ap (λ x. x.metrics) q
                ∙ unstuck_answer r.0 p (sym (ap (λ x. is_stuck x.metrics) q) ∙ o.0.unstuck),
          ),
        );
  }

  listener_over :
      (socket : Socket) (l : Listener) (p : Q)
      → has_closed l ≡ true
      → move_metrics d j s h fuel socket l p ≡ p
  unfolding has_closed move_metrics
  listener_over socket l p o = ground arith

  opened :
      (socket : Socket) (p : Q)
      → ((move_metrics d j s h fuel socket Listener.opening p).metrics ≡ Listener.testing)
        ⊎ (has_closed (move_metrics d j s h fuel socket Listener.opening p).metrics ≡ true)
  unfolding move_metrics has_closed
  opened socket p = ground arith

  ended :
      (socket : Socket) (l : Listener) (p : Q)
      → Muted d j s h fuel p
      → (l ≡ Listener.testing) ⊎ (l ≡ Listener.selecting)
      → has_closed (move_metrics d j s h fuel socket l p).metrics ≡ true
  unfolding move_metrics has_closed
  ended socket l p m c = ground arith

  opens :
      Wait d j s h fuel joining_metrics metrics_thread
        (Listening Listener.opening)
        (At d j s h fuel joining_metrics Late)
  unfolding move_sigterm has_closed is_receiving
  opens = record {
    kept = λ e p u k f. elim f.metrics [
      | inl own ↦ inl own
      | inr (inl own) ↦
          inr (
            inr (subst (Listening Listener.opening) (sym (client_waits e p own (rw (k.1) refl))) k))
      | inr (inr same) ↦ ground arith
    ];
    blocked = λ p u k. ground arith;
    apart = λ e. cc;
    leads = λ e p own k o.
        let r = listener_moves e p own in
        let w = opened r.0 p in
        (
          o.0,
          (
            ground arith,
            subst (λ q. (q.metrics ≡ Listener.testing) ⊎ (has_closed q.metrics ≡ true))
                (sym (r.1 ∙ ap (λ l. move_metrics d j s h fuel r.0 l p) k.1)) w,
          ),
        );
  }

  ends :
      (l : Listener)
      → (l ≡ Listener.testing) ⊎ (l ≡ Listener.selecting)
      → Wait d j s h fuel joining_metrics metrics_thread
          (Listening l)
          (At d j s h fuel joining_metrics Quiet)
  unfolding move_sigterm has_closed is_receiving
  ends l c = record {
    kept = λ e p u k f. elim f.metrics [
      | inl own ↦ inl own
      | inr (inl own) ↦
          inr (inr (subst (Listening l) (sym (client_waits e p own (ground arith))) k))
      | inr (inr same) ↦ ground arith
    ];
    blocked = λ p u k. ground arith;
    apart = λ e. cc;
    leads = λ e p own k o.
        let r = listener_moves e p own in
        let w = ended r.0 l p k.0 c in
        (
          o.0,
          (
            ground arith,
            subst (λ q. has_closed q.metrics ≡ true)
                (sym (r.1 ∙ ap (λ y. move_metrics d j s h fuel r.0 y p) k.1)) w,
          ),
        );
  }

  -- main waits for the gRPC server, which is gone, and the polling thread has ended.
  pub record Down (m : Main) (p : Q) : Type 0 where
    pub main : p.main ≡ m
    pub sigterm : p.sigterm ≡ Sigterm.finished
    pub serving : p.server.serving ≡ false

  joins_metrics : Stage d j s h fuel joining_metrics Quiet (Down waiting)
  unfolding move_sigterm has_closed is_receiving
  joins_metrics = record {
    kept = λ e p u k f. elim f.metrics [
      | inl own ↦
          let r = listener_moves e p own in
          inr (subst Quiet (sym (r.1 ∙ listener_over r.0 p.metrics p k.1)) k)
      | inr (inl own) ↦ inr (subst Quiet (sym (client_waits e p own (ground arith))) k)
      | inr (inr same) ↦ ground arith
    ];
    leads = λ p u k. ground arith;
  }

  -- Stop from the join of the metrics thread to its end.
  pub mutes :
      Answers d j s h fuel
      → Leads d j s h fuel (At d j s h fuel joining_metrics (Muted d j s h fuel)) (Down waiting)
  mutes a = leads_trans (next d j s h fuel) thread over (by_sigterm d j s h fuel a joins_metrics)
    where
      ending :
          (l : Listener)
          → (l ≡ Listener.testing) ⊎ (l ≡ Listener.selecting)
          → Leads d j s h fuel
              (At d j s h fuel joining_metrics (Listening l))
              (At d j s h fuel joining_metrics Quiet)
      ending l c = leads_by (next d j s h fuel) thread (Wait-Ensures d j s h fuel a (ends l c))

      late :
          Leads d j s h fuel
            (At d j s h fuel joining_metrics Late)
            (At d j s h fuel joining_metrics Quiet)
      late p u = elim u.1.1 [
        | inl e ↦ ending Listener.testing (inl refl) p (u.0, (u.1.0, e))
        | inr o ↦ leads_now (next d j s h fuel) thread (λ q k. k) p (u.0, (u.1.0, o))
      ]

      over :
          Leads d j s h fuel
            (At d j s h fuel joining_metrics (Muted d j s h fuel))
            (At d j s h fuel joining_metrics Quiet)
      over p u = elim (Listener-cases p.metrics u.0.unstuck) [
        | inl e ↦
            leads_trans (next d j s h fuel) thread
              (leads_by (next d j s h fuel) thread (Wait-Ensures d j s h fuel a opens)) late p
              (u.0, (u.1, e))
        | inr (inl e) ↦ ending Listener.testing (inl refl) p (u.0, (u.1, e))
        | inr (inr (inl e)) ↦ ending Listener.selecting (inr refl) p (u.0, (u.1, e))
        | inr (inr (inr (inl e))) ↦
            leads_trans (next d j s h fuel) thread
              (leads_by (next d j s h fuel) thread (Wait-Ensures d j s h fuel a receives))
              (λ q v. ending Listener.testing (inl refl) q v) p (u.0, (u.1, e))
        | inr (inr (inr (inr o))) ↦
            leads_now (next d j s h fuel) thread (λ q k. k) p (u.0, (u.1, o))
      ]
