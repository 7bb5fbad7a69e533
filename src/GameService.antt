-- ===== src/GameService.antt =====
-- GameServiceImpl of src/server/game_server.h and game_server.cpp: the RPC handlers. They work on
-- the objects that the server shares between its threads. A handler that throws returns no answer
-- and keeps what it has done; messages to the console are left out.
pub mod Invariant
pub mod Session
pub mod CreateRoom
pub mod Rollback
pub mod Turns
pub mod DestroyRoom
pub mod Trace
pub mod Race
use pokemon_cpp_server.Common.{
  ℕ, Option, none, some, Bool, true, false, List, [], ◌∷◌, ◌++◌, not, if◌then◌else◌,
}
use pokemon_cpp_server.Text.{Text, codes, is_empty}
use pokemon_cpp_server.Exec.{
  Attempt, done, threw, attempt_bind, of_attempt, Exec, Outcome, ok, pure, lift, crash, ◌>>=◌, ◌>>◌,
  gets,
}
use pokemon_cpp_server.External.Json.{Json}
use pokemon_cpp_server.External.Simulator.{Simulator}
use pokemon_cpp_server.External.Hiredis.{Hiredis}
use pokemon_cpp_server.RoomManager
use pokemon_cpp_server.RoomManager.{Room, RoomManager}
use pokemon_cpp_server.BattleEngine
use pokemon_cpp_server.BattleEngine.{BattleEngine, TurnResult}
use pokemon_cpp_server.RedisClient
use pokemon_cpp_server.RedisClient.{RedisClient}

-- The objects behind the shared pointers of the service; `battle_engine` is none for a null one.
pub record World (Session Conn : Type 0) : Type 0 where
  pub room_manager : RoomManager
  pub battle_engine : Option (BattleEngine Session)
  pub redis_client : RedisClient Conn

-- grpc::StatusCode, as far as the service uses it
pub data StatusCode : Type 0 where
  ok_status unavailable resource_exhausted invalid_argument internal not_found failed_precondition :
      StatusCode

-- The fields set in the response, and the returned grpc::Status.
pub record Answer : Type 0 where
  pub code : ℕ
  pub message : Text
  pub status : StatusCode
  pub details : Text

abbrev pub answer : ℕ → Text → StatusCode → Text → Answer
answer code message status details = record {
  code = code;
  message = message;
  status = status;
  details = details;
}

pub record CreateRoomRequest : Type 0 where
  pub room_id : Text
  pub init_json : Text

pub record GameCommand : Type 0 where
  pub room_id : Text
  pub player_id : Text
  pub action : Text

-- HeartbeatResponse; the usage fields are the patterns of the constants 0.0f and 0.
pub record Heartbeat : Type 0 where
  pub code : ℕ
  pub active_rooms : ℕ
  pub cpu_usage : ℕ
  pub memory_used : ℕ
  pub max_capacity : ℕ
  pub server_id : Text

-- What a pointer given to the engine points to afterwards.
abbrev pub pointee {ℓ} : {A : Type ℓ} → A → Option A → A
pointee d none = d
pointee d (some v) = v

module _ {S C : Type 0} where
  unfoldable pub on_rooms : {A : Type 0} → (RoomManager → A × RoomManager) → Exec (World S C) A
  on_rooms f w = let r = f w.room_manager in (ok r.0, record w { room_manager = r.1 })

  unfoldable pub on_redis : {A : Type 0} → Exec (RedisClient C) A → Exec (World S C) A
  on_redis m w = let r = m w.redis_client in (r.0, record w { redis_client = r.1 })

  -- A call through battle_engine_, and what happens if that is null.
  unfoldable pub on_engine :
      {A : Type 0}
      → Exec (World S C) A
      → (BattleEngine S → Attempt A × BattleEngine S)
      → Exec (World S C) A
  on_engine null f w = elim w.battle_engine [
    | none ↦ null w
    | some e ↦ let r = f e in (of_attempt r.0, record w { battle_engine = some r.1 })
  ]

module _ (j : Json) (s : Simulator j) (h : Hiredis) where
  abbrev pub Handler : Type 0 → Type 0
  Handler A = Exec (World s.Session h.Conn) A

  -- The end of CreateRoom: the first state goes to Redis.
  unfoldable pub store_state : Text → TurnResult j.Value → Handler (Unit {0})
  unfolding on_redis
  store_state room_id r =
      if r.succeeded
      then (do
        text ← lift (j.dump (pointee j.null r.response))
        on_redis (RedisClient.set_room_data h room_id text)
        pure tt)
      else pure tt

  unfoldable pub publish_state : Text → Handler Answer
  unfolding on_engine
  publish_state room_id = do
    r ← on_engine crash (λ e. (BattleEngine.get_state j s room_id (some j.null) (some []) e, e))
    store_state room_id r
    pure (answer 0 (codes "Room created successfully") ok_status [])

  -- CreateRoom with its room: a session, or the room is closed again.
  unfoldable pub start_battle : j.Value → Text → Handler Answer
  unfolding on_engine on_rooms
  start_battle init_data room_id = do
    created ←
        on_engine (pure (false, some []))
          (BattleEngine.create_session j s room_id init_data (some []))
    if created.0 then publish_state room_id else (do
      on_rooms (RoomManager.close_room room_id)
      pure (
          answer 6 (codes "Failed to initialize battle session: " ++ pointee [] created.1) internal
            (codes "Failed to initialize battle session")))

  -- CreateRoom with the parsed init_json, or with what the parser threw.
  unfoldable pub create_parsed : Text → ℕ → Attempt j.Value → Handler Answer
  unfolding on_rooms
  create_parsed room_id now (threw what) = pure (
      answer 5 (codes "Failed to parse init_json: " ++ what) invalid_argument
        (codes "Invalid init_json format"))
  create_parsed room_id now (done init_data) = do
    actual_room_id ← on_rooms (RoomManager.create_room_with_id room_id (codes "Battle Room") 2 now)
    if is_empty actual_room_id
        then pure
            (answer 4 (codes "Failed to create room") internal (codes "Failed to create room"))
        else start_battle init_data actual_room_id

  -- CreateRoom
  unfoldable pub create_room : CreateRoomRequest → ℕ → Handler Answer
  create_room request now w =
      if RoomManager.is_in_maintenance_mode w.room_manager
      then (
        ok (
            answer 1 (codes "Server is in maintenance mode") unavailable
              (codes "Server is in maintenance mode")),
        w,
      )
      else if not (RoomManager.can_create_room w.room_manager)
      then (
        ok (
            answer 2 (codes "Cannot create more rooms, limit reached") resource_exhausted
              (codes "Room limit reached")),
        w,
      )
      else if is_empty request.room_id
      then (
        ok (
            answer 3 (codes "Room ID cannot be empty") invalid_argument
              (codes "Room ID cannot be empty")),
        w,
      )
      else create_parsed request.room_id now (j.parse request.init_json) w

  -- The result of a turn that never ran, since battle_engine_ is null.
  abbrev no_turn : TurnResult j.Value
  no_turn = record { succeeded = false; response = some j.null; error = some [] }

  abbrev and_then : {A B : Type 0} → Attempt A → (A → Attempt B) → Attempt B
  and_then = attempt_bind

  -- j[key] = from[key], if `from` contains the key
  unfoldable pub copy_member : j.Value → Text → j.Value → Attempt j.Value
  copy_member from key to =
      if j.contains from key then and_then (j.member from key) (λ v. j.put to key v) else done to

  -- The message of a failed turn, before the fallback.
  unfoldable pub error_details : j.Value → Text → Attempt Text
  unfolding copy_member
  error_details battle_response battle_error =
      and_then (j.put j.null (codes "ok") (j.boolean false)) λ a.
        and_then (j.put a (codes "error") (j.string battle_error))
          λ b. and_then (copy_member battle_response (codes "errors") b) j.dump

  -- try { set_message(m) } catch { set_message(fallback(e.what())) }
  unfoldable pub message_or : (Text → Text) → Attempt Text → Text
  message_or fallback (done text) = text
  message_or fallback (threw what) = fallback what

  unfoldable pub failed_turn : j.Value → Text → Answer
  unfolding error_details message_or
  failed_turn battle_response battle_error =
      answer 4
        (message_or (λ what. codes "Failed to process battle turn: " ++ battle_error)
          (error_details battle_response battle_error))
        invalid_argument (codes "Battle action validation failed: " ++ battle_error)

  -- The answer while the opponent has not moved.
  unfoldable pub minimal_response : Text → j.Value → Attempt Text
  unfolding copy_member
  minimal_response player_id r = and_then (j.value_bool r (codes "ok") true) λ good.
      and_then
        (copy_member r (codes "pending_side") (
          j.object (
            (codes "ok", j.boolean good)
            ∷ (codes "waiting", j.boolean true)
            ∷ (codes "status", j.string (codes "waiting_for_opponent"))
            ∷ (codes "submitted_player_id", j.string player_id)
            ∷ [])))
        λ m. and_then (copy_member r (codes "turn") m) j.dump

  unfoldable pub turn_message : Text → j.Value → Attempt Text
  unfolding minimal_response
  turn_message player_id r =
      and_then (j.value_bool r (codes "waiting") false)
        λ waiting. if waiting then minimal_response player_id r else j.dump r

  -- The end of SendCommand, after a turn that was processed.
  unfoldable pub finish_turn : GameCommand → j.Value → Handler Answer
  unfolding on_redis
  finish_turn request battle_response = do
    text ← lift (j.dump battle_response)
    on_redis (RedisClient.set_room_data h request.room_id text)
    pure (
        answer 0
          (message_or
            (λ what.
              codes "Battle turn processed successfully (failed to serialize response): " ++ what)
            (turn_message request.player_id battle_response))
          ok_status [])

  unfoldable pub after_turn : GameCommand → TurnResult j.Value → Handler Answer
  after_turn request r =
      if r.succeeded
      then finish_turn request (pointee j.null r.response)
      else pure (failed_turn (pointee j.null r.response) (pointee [] r.error))

  -- SendCommand with the parsed action, or with what the parser threw.
  unfoldable pub send_parsed : GameCommand → Attempt j.Value → Handler Answer
  unfolding on_engine
  send_parsed request (threw what) = pure (
      answer 3 (codes "Failed to parse action json: " ++ what) invalid_argument
        (codes "Invalid action json format"))
  send_parsed request (done turn_request) = do
    r ←
        on_engine (pure no_turn)
          (BattleEngine.process_turn j s request.room_id turn_request (some j.null) (some []))
    after_turn request r

  unfoldable pub send_to_room : GameCommand → Option Room → Handler Answer
  send_to_room request none =
      pure (answer 1 (codes "Room not found") not_found (codes "Room not found"))
  send_to_room request (some room) =
      if room.is_active
      then send_parsed request (j.parse request.action)
      else pure
          (answer 2 (codes "Room is not active") failed_precondition (codes "Room is not active"))

  -- SendCommand
  unfoldable pub send_command : GameCommand → Handler Answer
  send_command request w =
      send_to_room request (RoomManager.get_room_status request.room_id w.room_manager) w

  -- DestroyRoom
  unfoldable pub destroy_room : Text → Handler Answer
  unfolding on_rooms on_engine on_redis
  destroy_room room_id = do
    closed ← on_rooms (RoomManager.close_room room_id)
    if closed
        then (do
          on_engine (pure true)
              (λ e. let r = BattleEngine.destroy_session room_id e in (done r.0, r.1))
          on_redis (RedisClient.delete_room_data h room_id)
          pure (answer 0 (codes "Room destroyed successfully") ok_status []))
        else pure (answer 1 (codes "Room not found") not_found (codes "Room not found"))

  -- GetHeartbeat
  unfoldable pub get_heartbeat : Text → Text → Handler Heartbeat
  unfolding on_redis
  get_heartbeat server_id pod_ip = do
    active_rooms ← gets (λ w. RoomManager.get_room_count w.room_manager)
    max_rooms ← gets (λ w. RoomManager.get_max_rooms w.room_manager)
    on_redis (RedisClient.touch_node_heartbeat h pod_ip 30)
    pure (record {
      code = 0;
      active_rooms = active_rooms;
      cpu_usage = 0;
      memory_used = 0;
      max_capacity = max_rooms;
      server_id = server_id;
    })
