-- ===== src/Examples/Service.antt =====
-- Examples for the RPC handlers.
use pokemon_cpp_server.Common.{
  ℕ, ◌≤◌, ◌≡◌, refl, none, some, true, List, [], ◌∷◌, arith, length, if◌then◌else◌, subst, ap,
  some-eq, ◌∙◌,
}
use mathlib.Core.Bool.{false≢true}
use pokemon_cpp_server.Text.{Text, codes, ◌==◌, is_empty}
use pokemon_cpp_server.Map.{lookup, has, insert}
use pokemon_cpp_server.BattleEngine.Laws.{IsValid as EngineValid}
use pokemon_cpp_server.RoomManager
use pokemon_cpp_server.GameService
use pokemon_cpp_server.BattleEngine
use pokemon_cpp_server.Exec.{ok}
use pokemon_cpp_server.RoomManager.{create, new_room, add_room, can_create_room}
use pokemon_cpp_server.RoomManager.Invariant.{create-IsValid}
use pokemon_cpp_server.RoomManager.Outcome.{view}
use pokemon_cpp_server.BattleEngine.{BattleEngine, store_session, find_session, has_session}
use pokemon_cpp_server.GameService.{
  World, start_battle, CreateRoomRequest, GameCommand, create_room, send_command, destroy_room,
  get_heartbeat, Heartbeat, answer, internal,
}
use pokemon_cpp_server.GameService.Invariant.{IsValid, has_room}
use pokemon_cpp_server.GameService.CreateRoom.{create_room-IsGood, IsGood}
use pokemon_cpp_server.GameService.Race.{open_room, IsLeaked, open_room-IsLeaked}
use pokemon_cpp_server.GameService.Rollback.{create_room_rollback}
use pokemon_cpp_server.GameService.Turns.{send_command_frame, OthersKept}
use pokemon_cpp_server.GameService.DestroyRoom.{destroy_room_present}
use pokemon_cpp_server.GameService.Trace.{
  Call, creates, sends, destroys, beats, ticks, maintains, run, run-IsValid, get_heartbeat-run,
  step,
}
use pokemon_cpp_server.Examples.{json, simulator, redis, Store, read, new_session, flat, bare}

abbrev arena : Text
arena = codes "arena"

abbrev fresh : World ℕ Store
fresh = record {
  room_manager = create 10;
  battle_engine = some (record { sessions = [] });
  redis_client = record { context = some (λ i. none) };
}

fresh-IsValid : IsValid fresh
unfolding has_session has lookup
fresh-IsValid = record {
  rooms_valid = create-IsValid 10 (omega arith);
  engine_valid = λ e p. subst EngineValid (some-eq p) (record { distinct = tt; held = tt });
  housed = λ e p k h. absurd (false≢true (ap (λ b. has_session k b) (some-eq p) ∙ h));
}

abbrev good_request : CreateRoomRequest
good_request = record { room_id = arena; init_json = codes "team" }

-- The simulator refuses this one.
abbrev bad_request : CreateRoomRequest
bad_request = record { room_id = arena; init_json = codes "1" }

abbrev turn : GameCommand
turn = record { room_id = arena; player_id = codes "p1"; action = codes "move" }

abbrev calls : List Call
calls =
    creates good_request 7
    ∷ creates bad_request 8
    ∷ sends turn
    ∷ ticks
    ∷ beats (codes "server-1") (codes "10.0.0.1")
    ∷ maintains true
    ∷ destroys arena
    ∷ []

run-IsValid_example : IsValid (run json simulator redis calls fresh)
run-IsValid_example = run-IsValid json simulator redis calls fresh fresh-IsValid

abbrev started : World ℕ Store
started = run json simulator redis (creates good_request 7 ∷ []) fresh

started-IsValid : IsValid started
started-IsValid = run-IsValid json simulator redis (creates good_request 7 ∷ []) fresh fresh-IsValid

good : IsGood json simulator redis good_request 0 fresh
unfolding can_create_room create has lookup is_empty codes read new_session
good = record {
  accepted = refl;
  named = refl;
  init = flat (bare (codes "team"));
  parsed = refl;
  created = refl;
}

create_room-IsGood_example :
    ((create_room json simulator redis good_request 7 fresh).1.room_manager
      ≡ add_room arena (new_room arena (codes "Battle Room") 2 7) (create 10))
    × ((create_room json simulator redis good_request 7 fresh).1.battle_engine
        ≡ some (store_session arena 0 (record { sessions = [] })))
create_room-IsGood_example =
    create_room-IsGood json simulator redis good_request 0 7 fresh (record { sessions = [] })
      fresh-IsValid refl good

send_command_frame_example :
    ((send_command json simulator redis turn started).1.room_manager ≡ started.room_manager)
    × OthersKept json simulator redis arena started
        (send_command json simulator redis turn started).1
send_command_frame_example = send_command_frame json simulator redis turn started

create_room_rollback_example : (create_room json simulator redis bad_request 8 fresh).1 ≡ fresh
unfolding create_room RoomManager.is_in_maintenance_mode create can_create_room is_empty codes
    GameService.create_parsed read RoomManager.create_room_with_id GameService.start_battle
    BattleEngine.create_session new_session
create_room_rollback_example =
    create_room_rollback json simulator redis bad_request 8 fresh
      (answer 6 (codes "Failed to initialize battle session: no team") internal
        (codes "Failed to initialize battle session"))
      fresh-IsValid refl (λ e. omega arith)

one_battle : started.battle_engine ≡ some (store_session arena 0 (record { sessions = [] }))
unfolding run step
one_battle = create_room-IsGood_example.1

one_room : has_room arena started ≡ true
unfolding run step add_room create has lookup insert ◌==◌ codes
one_room = ap (λ m. has arena m.rooms) create_room-IsGood_example.0

destroy_room_present_example :
    (e' : BattleEngine ℕ) × ((destroy_room json simulator redis arena started).1.battle_engine
      ≡ some e')
    × ((i : Text)
        → (view (destroy_room json simulator redis arena started).1.room_manager i
            ≡ (if arena == i then none else view started.room_manager i))
          × (find_session i e' ≡ (
              if arena == i
              then none
              else find_session i (store_session arena 0 (record { sessions = [] })))))
destroy_room_present_example =
    destroy_room_present json simulator redis arena started
      (store_session arena 0 (record { sessions = [] })) started-IsValid one_battle one_room

get_heartbeat-run_example :
    let rooms = (run json simulator redis calls fresh).room_manager in
    ((get_heartbeat json simulator redis
        (codes "server-1")
        (codes "10.0.0.1")
        (run json simulator redis calls fresh)).0
      ≡ ok (record {
        code = 0;
        active_rooms = length rooms.rooms;
        cpu_usage = 0;
        memory_used = 0;
        max_capacity = rooms.max_rooms;
        server_id = codes "server-1";
      }))
    × (length rooms.rooms ≤ rooms.max_rooms)
get_heartbeat-run_example =
    get_heartbeat-run json simulator redis calls (codes "server-1") (codes "10.0.0.1") fresh
      fresh-IsValid

open_room-IsLeaked_example :
    IsLeaked json simulator redis arena 0
      (start_battle json simulator redis
        (flat (bare (codes "team")))
        arena
        (destroy_room json simulator redis arena
          (open_room json simulator redis good_request 7 fresh)).1).1
unfolding good
open_room-IsLeaked_example =
    open_room-IsLeaked json simulator redis good_request 0 7 fresh (record { sessions = [] })
      fresh-IsValid refl good
