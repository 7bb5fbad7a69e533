-- ===== src/GameServer/Shutdown.antt =====
-- GameServer::GracefulShutdown of src/server/game_server.cpp among the calls of other threads.
use pokemon_cpp_server.Common.{
  ℕ, zero, suc, ◌+◌, ◌≡◌, refl, sym, ◌∙◌, ap, Bool, true, false, List, [], ◌∷◌, arith, length,
}
use mathlib.Core.Bool.{false≢true}
use pokemon_cpp_server.Text.{Text, codes, c_str, eq_refl}
use pokemon_cpp_server.Map.{Map, has, lookup}
use pokemon_cpp_server.Exec.{ok}
use pokemon_cpp_server.External.Json.{Json}
use pokemon_cpp_server.External.Simulator.{Simulator}
use pokemon_cpp_server.External.Hiredis.{Hiredis}
use pokemon_cpp_server.RoomManager.{
  Room, RoomManager, close_room, set_maintenance_mode, get_all_rooms, is_in_maintenance_mode,
  update_room_activity,
}
use pokemon_cpp_server.RoomManager.Outcome.{has-close_room, has-update_room_activity}
use pokemon_cpp_server.RoomManager.Invariant.{
  IsValid as RoomsValid, close_room-IsValid, set_maintenance_mode-IsValid,
  update_room_activity-IsValid,
}
use pokemon_cpp_server.GameService.{create_room, CreateRoomRequest}
use pokemon_cpp_server.GameService.Invariant.{has_room}
use pokemon_cpp_server.GameService.Session.{W}
use pokemon_cpp_server.GameService.Turns.{send_command_frame}
use pokemon_cpp_server.GameService.DestroyRoom.{destroy_room_rooms}
use pokemon_cpp_server.GameService.Trace.{
  Call, creates, sends, destroys, beats, ticks, maintains, step, run, get_heartbeat-SameCore,
}
use pokemon_cpp_server.GameService.{on_redis}
use pokemon_cpp_server.RedisClient.{
  RedisClient, unregister_node, is_count, nodes_set_key, heartbeat_key,
}
use pokemon_cpp_server.Common.{Option-cases, inl, inr}
use pokemon_cpp_server.GameServer.{
  GameServer, wait_rounds, close_rooms, drain, graceful_shutdown, on_redis,
}

-- A call of another thread; only GracefulShutdown sets the maintenance mode.
abbrev pub IsForeign : Call → Type 0
IsForeign (maintains on) = ⊥
IsForeign _ = Unit {0}

abbrev pub AllForeign : List Call → Type 0
AllForeign [] = Unit {0}
AllForeign (c ∷ cs) = IsForeign c × AllForeign cs

no_rooms : (m : Map Room) → ((i : Text) → has i m ≡ true → ⊥) → m ≡ []
unfolding has lookup
no_rooms [] f = refl
no_rooms ((k, room) ∷ m) f = absurd (f k (ground (arith, eq_refl k)))

maintenance_on : (m : RoomManager) → is_in_maintenance_mode (set_maintenance_mode true m) ≡ true
unfolding is_in_maintenance_mode set_maintenance_mode
maintenance_on m = refl

module _ (j : Json) (s : Simulator j) (h : Hiredis) where
  -- The rooms stay in order and only get fewer, and the maintenance mode stays on.
  record Shrinks (m m' : RoomManager) : Type 0 where
    valid : RoomsValid m'
    on : is_in_maintenance_mode m' ≡ true
    fewer : (i : Text) → has i m'.rooms ≡ true → has i m.rooms ≡ true

  abbrev Drained : W j s h → Type 0
  Drained w = RoomsValid w.room_manager × (is_in_maintenance_mode w.room_manager ≡ true)

  close_room-maintenance :
      (k : Text) (m : RoomManager)
      → is_in_maintenance_mode (close_room k m).1 ≡ is_in_maintenance_mode m
  unfolding close_room is_in_maintenance_mode
  close_room-maintenance k m = ground arith

  create_room-maintenance :
      (request : CreateRoomRequest) (now : ℕ) (w : W j s h)
      → is_in_maintenance_mode w.room_manager ≡ true
      → (create_room j s h request now w).1 ≡ w
  unfolding create_room
  create_room-maintenance request now w m = ground arith

  Shrinks-eq :
      (w : W j s h) (m' : RoomManager) → m' ≡ w.room_manager → Drained w → Shrinks w.room_manager m'
  Shrinks-eq w m' e d = record {
    valid = rw e d.0;
    on = ap is_in_maintenance_mode e ∙ d.1;
    fewer = λ i x. ap (λ n. has i n.rooms) (sym e) ∙ x;
  }

  Shrinks-trans : {l m n : RoomManager} → Shrinks l m → Shrinks m n → Shrinks l n
  Shrinks-trans a b = record { valid = b.valid; on = b.on; fewer = λ i x. a.fewer i (b.fewer i x) }

  Shrinks-close :
      (k : Text) (w : W j s h) → Drained w → Shrinks w.room_manager (close_room k w.room_manager).1
  Shrinks-close k w d = record {
    valid = close_room-IsValid k w.room_manager d.0;
    on = close_room-maintenance k w.room_manager ∙ d.1;
    fewer = λ i x. ground (arith, has-close_room k i w.room_manager d.0);
  }

  Shrinks-update :
      (w : W j s h) → Drained w → Shrinks w.room_manager (update_room_activity w.room_manager)
  unfolding is_in_maintenance_mode update_room_activity
  Shrinks-update w d = record {
    valid = update_room_activity-IsValid w.room_manager d.0;
    on = d.1;
    fewer = λ i x. sym (has-update_room_activity i w.room_manager) ∙ x;
  }

  step-Shrinks :
      (c : Call) (w : W j s h)
      → IsForeign c
      → Drained w
      → Shrinks w.room_manager (step j s h c w).room_manager
  unfolding step
  step-Shrinks (creates request now) w f d =
      Shrinks-eq w _ (ap (λ u. u.room_manager) (create_room-maintenance request now w d.1)) d
  step-Shrinks (sends c) w f d = Shrinks-eq w _ (send_command_frame j s h c w).0 d
  step-Shrinks (destroys k) w f d = rw (destroy_room_rooms j s h k w) (Shrinks-close k w d)
  step-Shrinks (beats server_id pod_ip) w f d =
      Shrinks-eq w _ (get_heartbeat-SameCore j s h server_id pod_ip w).0 d
  step-Shrinks ticks w f d = Shrinks-update w d
  step-Shrinks (maintains b) w f d = absurd f

  run-Shrinks :
      (cs : List Call) (w : W j s h)
      → AllForeign cs
      → Drained w
      → Shrinks w.room_manager (run j s h cs w).room_manager
  unfolding run
  run-Shrinks [] w f d = record { valid = d.0; on = d.1; fewer = λ i x. x }
  run-Shrinks (c ∷ cs) w f d =
      let first = step-Shrinks c w f.0 d in
      let rest = run-Shrinks cs (step j s h c w) f.1 (first.valid, first.on) in
      record { valid = rest.valid; on = rest.on; fewer = λ i x. first.fewer i (rest.fewer i x) }

  wait_rounds-Drained :
      (n i : ℕ) (during : ℕ → List Call) (w : W j s h)
      → ((k : ℕ) → AllForeign (during k))
      → Drained w
      → Drained (wait_rounds j s h n i during w)
  unfolding wait_rounds
  wait_rounds-Drained zero i during w f d = d
  wait_rounds-Drained (suc n) i during w f d =
      let r = run-Shrinks (during i) w (f i) d in
      wait_rounds-Drained n (i + 1) during (run j s h (during i) w) f (r.valid, r.on)

  -- What is left of the rooms `rooms` once they have been closed one by one.
  record Closed (rooms : Map Room) (w w' : W j s h) : Type 0 where
    drained : Drained w'
    gone : (i : Text) → has_room i w' ≡ true → (has_room i w ≡ true) × (has i rooms ≡ false)

  left_open :
      (k i : Text) (room : Room) (rooms : Map Room) (w w' : W j s h)
      → Shrinks w.room_manager w'.room_manager
      → (has i (close_room k w'.room_manager).1.rooms ≡ true) × (has i rooms ≡ false)
      → (has_room i w ≡ true) × (has i ((k, room) ∷ rooms) ≡ false)
  unfolding has lookup
  left_open k i room rooms w w' r x =
      ground (arith, has-close_room k i w'.room_manager r.valid, r.fewer i)

  close_rooms-Closed :
      (rooms : Map Room) (between : Text → List Call) (w : W j s h)
      → ((k : Text) → AllForeign (between k))
      → Drained w
      → Closed rooms w (close_rooms j s h rooms between w)
  unfolding close_rooms has lookup
  close_rooms-Closed [] between w f d = record { drained = d; gone = λ i x. (x, refl) }
  close_rooms-Closed ((k, room) ∷ rooms) between w f d =
      let w' = run j s h (between k) w in
      let r = run-Shrinks (between k) w (f k) d in
      let c = Shrinks-close k w' (r.valid, r.on) in
      let closed = record w' { room_manager = (close_room k w'.room_manager).1 } in
      let rest = close_rooms-Closed rooms between closed f (c.valid, c.on) in
      record {
        drained = rest.drained;
        gone = λ i x. left_open k i room rooms w w' r (rest.gone i x);
      }

  -- From a room manager in order, after the shutdown's draining, whatever calls the other threads
  -- make meanwhile as long as they do not set the maintenance mode, the server is in maintenance
  -- and has no room, and its counter is zero.
  pub drain-empties :
      (during : ℕ → List Call) (between : Text → List Call) (w : W j s h)
      → ((k : ℕ) → AllForeign (during k))
      → ((k : Text) → AllForeign (between k))
      → RoomsValid w.room_manager
      → ((drain j s h during between w).room_manager.rooms ≡ [])
        × ((drain j s h during between w).room_manager.room_count ≡ 0)
        × (is_in_maintenance_mode (drain j s h during between w).room_manager ≡ true)
  unfolding drain get_all_rooms
  drain-empties during between w f g v =
      let maintained = record w { room_manager = set_maintenance_mode true w.room_manager } in
      let d =
        wait_rounds-Drained 5 0 during maintained f
          (set_maintenance_mode-IsValid true w.room_manager v, maintenance_on w.room_manager) in
      let u = wait_rounds j s h 5 0 during maintained in
      let c = close_rooms-Closed u.room_manager.rooms between u g d in
      let none_left = no_rooms _ (λ i x. false≢true (sym (c.gone i x).1 ∙ (c.gone i x).0)) in
      (none_left, c.drained.0.counted ∙ ap length none_left, c.drained.1)

  -- UnregisterNode neither throws nor faults.
  unregister_node-ok :
      (pod_ip : Text) (c : RedisClient h.Conn)
      → (b : Bool) × ((unregister_node h pod_ip c).0 ≡ ok b)
  unfolding unregister_node
  unregister_node-ok pod_ip c = elim (Option-cases c.context) [
    | inl e ↦ (false, ground arith)
    | inr (conn, e) ↦ (
      is_count (h.command conn (codes "DEL" ∷ nodes_set_key ∷ c_str (heartbeat_key pod_ip) ∷ [])).0,
      rw e refl,
    )
  ]

  -- From a room manager in order, whatever calls the other threads make while GracefulShutdown
  -- waits and between its calls of CloseRoom, as long as they do not set the maintenance mode, it
  -- ends without a throw; then no room is left, the gRPC server is gone and the metrics and
  -- heartbeat threads are told to stop.
  pub graceful_shutdown_lem :
      (during : ℕ → List Call) (between : Text → List Call) (g : GameServer s.Session h.Conn)
      → ((k : ℕ) → AllForeign (during k))
      → ((k : Text) → AllForeign (between k))
      → RoomsValid g.world.room_manager
      → let r = graceful_shutdown j s h during between g in
        (r.0 ≡ ok tt)
        × (r.1.world.room_manager.rooms ≡ [])
        × (r.1.serving ≡ false)
        × (r.1.metrics_running ≡ false)
        × (r.1.heartbeat_running ≡ false)
  unfolding graceful_shutdown on_redis
  graceful_shutdown_lem during between g f k v =
      let w = drain j s h during between g.world in
      let e = unregister_node-ok g.pod_ip w.redis_client in
      let empty = drain-empties during between g.world f k v in
      rw (e.1, graceful_shutdown) (refl, empty.0, refl, refl, refl)
