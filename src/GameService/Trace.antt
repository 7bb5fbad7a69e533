-- ===== src/GameService/Trace.antt =====
-- Any sequence of calls and of the server's own ticks, one at a time.
use pokemon_cpp_server.Common.{
  if◌then◌else◌, ℕ, ◌≡◌, refl, Bool, arith, [], ◌∙◌, List, ◌∷◌, length, ◌≤◌, Option-cases, inl,
  false, inr,
}
use pokemon_cpp_server.Text.{Text, c_str}
use pokemon_cpp_server.Map.{has}
use pokemon_cpp_server.GameService.{Heartbeat, RedisClient, codes}
use pokemon_cpp_server.Text.Number.{decimal}
use pokemon_cpp_server.Int32.{lt_int}
use pokemon_cpp_server.Exec.{ok}
use pokemon_cpp_server.External.Json.{Json}
use pokemon_cpp_server.External.Simulator.{Simulator}
use pokemon_cpp_server.External.Hiredis.{Hiredis}
use pokemon_cpp_server.RoomManager.{
  RoomManager, get_room_count, update_room_activity, get_max_rooms, set_maintenance_mode,
}
use pokemon_cpp_server.RoomManager.Invariant.{IsValid as RoomsValid}
use pokemon_cpp_server.RoomManager.Outcome.{has-update_room_activity, has-set_maintenance_mode}
use pokemon_cpp_server.RedisClient.{touch_node_heartbeat, is_ok, heartbeat_key}
use pokemon_cpp_server.GameService.{
  CreateRoomRequest, GameCommand, create_room, send_command, destroy_room, get_heartbeat,
}
use pokemon_cpp_server.GameService.Invariant.{
  has_room, IsValid, SameCore, SameCore-IsValid, continue-pure,
}
use pokemon_cpp_server.GameService.Session.{W}
use pokemon_cpp_server.GameService.CreateRoom.{create_room-IsValid}
use pokemon_cpp_server.GameService.Turns.{send_command-IsValid}
use pokemon_cpp_server.GameService.DestroyRoom.{destroy_room-IsValid}
use pokemon_cpp_server.RoomManager.Invariant.{
  update_room_activity-IsValid, set_maintenance_mode-IsValid,
}

-- An RPC, a round of the activity thread, or a change of the maintenance mode.
pub data Call : Type 0 where
  creates : CreateRoomRequest → ℕ → Call
  sends : GameCommand → Call
  destroys : Text → Call
  beats : Text → Text → Call
  ticks : Call
  maintains : Bool → Call

module _ (j : Json) (s : Simulator j) (h : Hiredis) where
  -- The shared objects after a call; a handler that throws keeps what it has done.
  unfoldable pub step : Call → W j s h → W j s h
  step (creates request now) w = (create_room j s h request now w).1
  step (sends c) w = (send_command j s h c w).1
  step (destroys k) w = (destroy_room j s h k w).1
  step (beats server_id pod_ip) w = (get_heartbeat j s h server_id pod_ip w).1
  step ticks w = record w { room_manager = update_room_activity w.room_manager }
  step (maintains on) w = record w { room_manager = set_maintenance_mode on w.room_manager }

  unfoldable pub run : List Call → W j s h → W j s h
  run [] w = w
  run (c ∷ cs) w = run cs (step c w)

  abbrev report : Text → RoomManager → Heartbeat
  report server_id m = record {
    code = 0;
    active_rooms = get_room_count m;
    cpu_usage = 0;
    memory_used = 0;
    max_capacity = get_max_rooms m;
    server_id = server_id;
  }

  pub get_heartbeat-SameCore :
      (server_id pod_ip : Text) (w : W j s h)
      → SameCore w (get_heartbeat j s h server_id pod_ip w).1
  unfolding get_heartbeat
  get_heartbeat-SameCore server_id pod_ip w =
      rw
        (continue-pure (touch_node_heartbeat h pod_ip 30 w.redis_client).0
          (report server_id w.room_manager))
        (refl, refl)

  tick-IsValid :
      (w : W j s h) (m : RoomManager)
      → RoomsValid m
      → ((i : Text) → has i m.rooms ≡ has_room i w)
      → IsValid w
      → IsValid (record w { room_manager = m })
  tick-IsValid w m r same v = record {
    rooms_valid = r;
    engine_valid = v.engine_valid;
    housed = λ e p i x. same i ∙ v.housed e p i x;
  }

  pub step-IsValid : (c : Call) (w : W j s h) → IsValid w → IsValid (step c w)
  unfolding step
  step-IsValid (creates request now) w v = create_room-IsValid j s h request now w v
  step-IsValid (sends c) w v = send_command-IsValid j s h c w v
  step-IsValid (destroys k) w v = destroy_room-IsValid j s h k w v
  step-IsValid (beats server_id pod_ip) w v =
      SameCore-IsValid w _ (get_heartbeat-SameCore server_id pod_ip w) v
  step-IsValid ticks w v =
      tick-IsValid w _ (update_room_activity-IsValid w.room_manager v.rooms_valid)
        (λ i. has-update_room_activity i w.room_manager) v
  step-IsValid (maintains on) w v =
      tick-IsValid w _ (set_maintenance_mode-IsValid on w.room_manager v.rooms_valid)
        (λ i. has-set_maintenance_mode i on w.room_manager) v

  -- From objects in order, where every session has a room, any calls, each running alone, lead to
  -- objects in order where every session has a room; a call that throws keeps what it has done.
  pub run-IsValid : (cs : List Call) (w : W j s h) → IsValid w → IsValid (run cs w)
  unfolding run
  run-IsValid [] w v = v
  run-IsValid (c ∷ cs) w v = run-IsValid cs (step c w) (step-IsValid c w v)

  touch_node_heartbeat-ok :
      (pod_ip : Text) (ttl : ℕ) (c : RedisClient h.Conn)
      → (b : Bool) × ((touch_node_heartbeat h pod_ip ttl c).0 ≡ ok b)
  unfolding touch_node_heartbeat
  touch_node_heartbeat-ok pod_ip ttl c = elim (Option-cases c.context) [
    | inl e ↦ (false, ground arith)
    | inr (conn, e) ↦ (
      is_ok
          (h.command conn (
            codes "SET"
            ∷ c_str (heartbeat_key pod_ip)
            ∷ codes "1"
            ∷ codes "EX"
            ∷ decimal (if lt_int ttl 300 then 300 else ttl)
            ∷ [])).0,
      rw e refl,
    )
  ]

  answers_report :
      (server_id pod_ip : Text) (w : W j s h)
      → (get_heartbeat j s h server_id pod_ip w).0 ≡ ok (report server_id w.room_manager)
  unfolding get_heartbeat
  answers_report server_id pod_ip w =
      rw ((touch_node_heartbeat-ok pod_ip 30 w.redis_client).1, get_heartbeat) refl

  -- From objects in order, after any calls, each running alone, GetHeartbeat answers with code 0,
  -- the exact number of rooms, which is at most the capacity that it reports, and the server's id.
  pub get_heartbeat-run :
      (cs : List Call) (server_id pod_ip : Text) (w : W j s h)
      → IsValid w
      → let rooms = (run cs w).room_manager in
        ((get_heartbeat j s h server_id pod_ip (run cs w)).0
          ≡ ok (record {
            code = 0;
            active_rooms = length rooms.rooms;
            cpu_usage = 0;
            memory_used = 0;
            max_capacity = rooms.max_rooms;
            server_id = server_id;
          }))
        × (length rooms.rooms ≤ rooms.max_rooms)
  unfolding get_room_count get_max_rooms
  get_heartbeat-run cs server_id pod_ip w v =
      let q = (run-IsValid cs w v).rooms_valid in
      (rw (answers_report server_id pod_ip (run cs w), q.counted) refl, q.bounded)
