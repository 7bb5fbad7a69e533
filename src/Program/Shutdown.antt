-- ===== src/Program/Shutdown.antt =====
-- The way of src/server/main.cpp from SIGTERM to the end of Stop, under a fair schedule.
use pokemon_cpp_server.Common.{
  none, ℕ, zero, suc, ◌≡◌, refl, sym, ◌∙◌, ap, ◌⊎◌, inl, inr, some, Bool, true, false, [], ◌∷◌,
  arith, subst, Option,
}
use pokemon_cpp_server.Text.{Text}
use pokemon_cpp_server.Map.{Map}
use pokemon_cpp_server.Exec.{ok}
use pokemon_cpp_server.External.Json.{Json}
use pokemon_cpp_server.External.Simulator.{Simulator}
use pokemon_cpp_server.External.Hiredis.{Hiredis}
use pokemon_cpp_server.RoomManager.{Room, get_all_rooms}
use pokemon_cpp_server.GameService.{World}
use pokemon_cpp_server.SignalHandler.{call_handler, run_handler_if_received}
use pokemon_cpp_server.Metrics.{Double, serve_metrics}
use pokemon_cpp_server.Schedule.{Ensures, LeadsTo, leads_by, leads_trans, leads_now}
use pokemon_cpp_server.Program.{
  Program, waiting, Sigterm, polling, draining, closing, stopping, Listener, Socket, Event,
  main_moves, sigterm_moves, metrics_moves, sigterm_thread, thread, step, move_main, move_sigterm,
  move_metrics, ran_step, poll, begin_shutdown, after_request, take_request, move_client,
  client_moves,
}
use pokemon_cpp_server.Program.Moves.{Frame, step-Frame, is_up, SameFlags}

unfoldable pub is_stuck : Listener → Bool
is_stuck Listener.stuck = true
is_stuck _ = false

pub only_sigterm : (e : Event) → thread e ≡ some sigterm_thread → e ≡ sigterm_moves
unfolding thread
only_sigterm e h = ground arith

module _ (d : Double) (j : Json) (s : Simulator j) (h : Hiredis) (fuel : ℕ) where
  abbrev pub P : Type 0
  P = Program d j s h fuel

  abbrev pub next : Event → P → P
  next = step d j s h fuel

  -- Every request of the metrics port is answered: the keys of Redis come in at most `fuel` pages.
  abbrev pub Answers : Type 0
  Answers =
      (pod_ip text : Text) (w : World s.Session h.Conn)
      → (response : Text) × ((serve_metrics d j s h fuel pod_ip text w).0 ≡ ok response)

  -- main waits for the gRPC server, and the polling thread stands at `x`.
  pub record Up (x : Sigterm) (p : P) : Type 0 where
    pub main : p.main ≡ waiting
    pub sigterm : p.sigterm ≡ x
    pub serving : p.server.serving ≡ true
    pub handler : p.signals.sigterm_handler ≡ some (begin_shutdown d j s h fuel)
    pub unstuck : is_stuck p.metrics ≡ false

  take_request-unstuck :
      Answers
      → (request : Option Text) (p : P)
      → is_stuck (take_request d j s h fuel request p).metrics ≡ false
  unfolding take_request after_request is_stuck
  take_request-unstuck a (some text) p = rw ((a p.server.pod_ip text p.server.world).1) refl
  take_request-unstuck a none p = refl

  pub move_client-unstuck :
      Answers
      → (request : Option Text) (l : Listener) (p : P) → p.metrics ≡ l
      → is_stuck l ≡ false
      → is_stuck (move_client d j s h fuel request l p).metrics ≡ false
  unfolding move_client is_stuck
  move_client-unstuck a request l p e u = ground (arith, take_request-unstuck a request p)

  pub move_metrics-unstuck :
      (socket : Socket) (l : Listener) (p : P)
      → p.metrics ≡ l
      → is_stuck l ≡ false
      → is_stuck (move_metrics d j s h fuel socket l p).metrics ≡ false
  unfolding move_metrics is_stuck
  move_metrics-unstuck socket l p e u = ground arith

  step-unstuck :
      Answers
      → (e : Event) (p : P) → is_up p.main ≡ true
      → is_stuck p.metrics ≡ false
      → is_stuck (next e p).metrics ≡ false
  unfolding thread step
  step-unstuck a (metrics_moves socket) p u n = move_metrics-unstuck socket p.metrics p refl n
  step-unstuck a (client_moves request) p u n = move_client-unstuck a request p.metrics p refl n
  step-unstuck a e p u n = ground (arith, (step-Frame d j s h fuel e p u).metrics)

  step-waiting :
      (e : Event) (p : P) → p.main ≡ waiting → p.server.serving ≡ true → (next e p).main ≡ waiting
  unfolding step thread move_main is_up
  step-waiting (main_moves built) p m r = ground arith
  step-waiting e p m r = ground (arith, (step-Frame d j s h fuel e p (rw m refl)).main)

  -- Another thread's move, or the polling thread's.
  pub Up-step :
      Answers
      → (x : Sigterm) (e : Event) (p : P) → Up x p
      → (thread e ≡ some sigterm_thread) ⊎ (Up x (next e p) × SameFlags d j s h fuel p (next e p))
  unfolding is_up
  Up-step a x e p u =
      let up : is_up p.main ≡ true = rw (u.main) refl in
      let f = step-Frame d j s h fuel e p up in
      let m = step-waiting e p u.main u.serving in
      let n = step-unstuck a e p up u.unstuck in ground arith

  -- A stage that the polling thread ends: what it keeps beside, and where its move leads.
  pub record Stage (x : Sigterm) (K : P → Type 0) (Q : P → Type 0) : Type 0 where
    pub kept :
        (e : Event) (p : P)
        → Up x p
        → K p
        → Frame d j s h fuel (thread e) p (next e p)
        → (thread e ≡ some sigterm_thread) ⊎ K (next e p)
    pub leads : (p : P) → Up x p → K p → Q (move_sigterm d j s h fuel x p)

  Stage-Ensures :
      {x : Sigterm} {K Q : P → Type 0}
      → Answers
      → Stage x K Q
      → Ensures next thread sigterm_thread (λ p. Up x p × K p) Q
  unfolding is_up step
  Stage-Ensures {x} {K} {Q} a stage = record {
    keeps = λ e p u. elim (Up-step a x e p u.0) [
      | inl own ↦ inr (bring e p own u)
      | inr other ↦
          elim (stage.kept e p u.0 u.1 (step-Frame d j s h fuel e p (rw (u.0.main) refl))) [
            | inl own ↦ inr (bring e p own u)
            | inr k ↦ inl (other.0, k)
          ]
    ];
    brings = bring;
  }
    where
      bring : (e : Event) (p : P) → thread e ≡ some sigterm_thread → Up x p × K p → Q (next e p)
      bring e p own u =
          let e_moves = ap (λ i. next i p) (only_sigterm e own) in
          let at_x = ap (λ y. move_sigterm d j s h fuel y p) u.0.sigterm in
          subst Q (sym (e_moves ∙ at_x)) (stage.leads p u.0 u.1)

  -- The polling thread at `x`, and `K` beside.
  abbrev pub At : Sigterm → (P → Type 0) → P → Type 0
  At x K p = Up x p × K p

  abbrev pub Any : P → Type 0
  Any p = Unit {0}

  abbrev pub Pending : P → Type 0
  Pending p = p.signals.sig_term_received ≡ true

  abbrev pub Leads : (P → Type 0) → (P → Type 0) → Type 0
  Leads = LeadsTo next thread

  pub by_sigterm : {x : Sigterm} {K Q : P → Type 0} → Answers → Stage x K Q → Leads (At x K) Q
  by_sigterm a stage = leads_by next thread (Stage-Ensures a stage)

  pub polls : Stage polling Pending (At (draining 5) Any)
  unfolding move_sigterm poll ran_step run_handler_if_received begin_shutdown call_handler
  polls = record { kept = λ e p u k f. ground arith; leads = λ p u k. (ground (arith), tt) }

  drains : (n : ℕ) → Stage (draining (suc n)) Any (At (draining n) Any)
  unfolding move_sigterm
  drains n = record { kept = λ e p u k f. inr tt; leads = λ p u k. (ground arith, tt) }

  pub all_drained : Answers → (n : ℕ) → Leads (At (draining n) Any) (At (draining zero) Any)
  all_drained a zero = leads_now next thread (λ p u. u)
  all_drained a (suc n) = leads_trans next thread (by_sigterm a (drains n)) (all_drained a n)

  abbrev pub IsClosing : P → Type 0
  IsClosing p = (rooms : Map Room) × At (closing rooms) Any p

  pub copies : Stage (draining zero) Any IsClosing
  unfolding move_sigterm
  copies = record {
    kept = λ e p u k f. inr tt;
    leads = λ p u k. (get_all_rooms p.server.world.room_manager, (ground arith, tt));
  }

  closes :
      (k : Text) (room : Room) (rooms : Map Room)
      → Stage (closing ((k, room) ∷ rooms)) Any (At (closing rooms) Any)
  unfolding move_sigterm
  closes k room rooms = record { kept = λ e p u k f. inr tt; leads = λ p u k. (ground arith, tt) }

  unregisters : Stage (closing []) Any (At stopping Any)
  unfolding move_sigterm
  unregisters = record { kept = λ e p u k f. inr tt; leads = λ p u k. (ground arith, tt) }

  pub all_closed : Answers → (rooms : Map Room) → Leads (At (closing rooms) Any) (At stopping Any)
  all_closed a [] = by_sigterm a unregisters
  all_closed a ((k, room) ∷ rooms) =
      leads_trans next thread (by_sigterm a (closes k room rooms)) (all_closed a rooms)
