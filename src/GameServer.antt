-- ===== src/GameServer.antt =====
-- GameServer of src/server/game_server.h and game_server.cpp, and main.cpp: starting, stopping and
-- shutting down the server. The clock, the random numbers and gRPC's BuildAndStart are arguments;
-- a thread is the flag that its loop tests.
pub mod Url
pub mod Shutdown
pub mod Starting
use pokemon_cpp_server.Common.{
  ℕ, zero, suc, ◌+◌, Option, none, some, Bool, true, false, List, [], ◌∷◌, ◌++◌, if◌then◌else◌, eqb,
}
use pokemon_cpp_server.Text.{Text, codes}
use pokemon_cpp_server.Text.Number.{decimal, stoi}
use pokemon_cpp_server.Map.{Map}
use pokemon_cpp_server.Exec.{Exec, Outcome, ok, pure, gets, continue, ◌>>=◌, ◌>>◌}
use pokemon_cpp_server.External.Json.{Json}
use pokemon_cpp_server.External.Simulator.{Simulator}
use pokemon_cpp_server.External.Hiredis.{Hiredis}
use pokemon_cpp_server.RoomManager
use pokemon_cpp_server.RoomManager.{Room}
use pokemon_cpp_server.RedisClient
use pokemon_cpp_server.RedisClient.Scan
use pokemon_cpp_server.GameService.{World, on_redis}
use pokemon_cpp_server.GameService.Session.{W}
use pokemon_cpp_server.GameService.Trace.{Call, run}

-- `world` holds the room manager, the engine and the Redis client; `serving` says that server_ is
-- not null, and `has_service` that service_ is not.
pub record GameServer (Session Conn : Type 0) : Type 0 where
  pub pod_ip : Text
  pub redis_url : Text
  pub server_id : Text
  pub world : World Session Conn
  pub has_service : Bool
  pub serving : Bool
  pub server_address : Text
  pub grpc_port : ℕ
  pub metrics_port : ℕ
  pub metrics_running : Bool
  pub heartbeat_running : Bool

-- GenerateServerId, from the milliseconds of the clock and a number drawn from 1000 to 9999
unfoldable pub generate_server_id : ℕ → ℕ → Text
generate_server_id millis draw = codes "server-" ++ decimal millis ++ codes "-" ++ decimal draw

-- redis_url_.find(':') and the two substr: the texts before and after the first colon
unfoldable pub split_colon : Text → Option (Text × Text)
split_colon [] = none
split_colon (c ∷ s) = elim (split_colon s) [
  | none ↦ if eqb c b':' then some ([], s) else none
  | some (host, port) ↦ if eqb c b':' then some ([], s) else some (c ∷ host, port)
]

unfoldable pub with_port : Text → Option ℕ → Option (Text × ℕ)
with_port host none = none
with_port host (some port) = some (host, port)

-- The host and port that Start takes from the Redis URL; none where the port is no number.
unfoldable pub parse_redis_url : Text → Option (Text × ℕ)
unfolding split_colon with_port
parse_redis_url url = elim (split_colon url) [
  | none ↦ some (url, 6379)
  | some (host, port) ↦ with_port host (stoi port)
]

-- The values that main takes where an environment variable is not set.
unfoldable pub configuration : Option Text → Option Text → Text × Text
configuration (some pod_ip) (some redis_url) = (pod_ip, redis_url)
configuration (some pod_ip) none = (pod_ip, codes "127.0.0.1:6379")
configuration none (some redis_url) = (codes "127.0.0.1", redis_url)
configuration none none = (codes "127.0.0.1", codes "127.0.0.1:6379")

-- main's exit code
unfoldable pub exit_code : Bool → ℕ
exit_code started = if started then 0 else 1

module _ {S C : Type 0} where
  -- GameServer::GameServer
  unfoldable pub create : Text → Text → ℕ → ℕ → GameServer S C
  create pod_ip redis_url millis draw = record {
    pod_ip = pod_ip;
    redis_url = redis_url;
    server_id = generate_server_id millis draw;
    world = record {
      room_manager = RoomManager.create 10;
      battle_engine = some (record { sessions = [] });
      redis_client = RedisClient.create;
    };
    has_service = false;
    serving = false;
    server_address = pod_ip ++ codes ":50051";
    grpc_port = 50051;
    metrics_port = 9102;
    metrics_running = false;
    heartbeat_running = false;
  }

  -- Stop, with StopMetricsServer; the destructor calls it too.
  unfoldable pub stop : GameServer S C → GameServer S C
  stop g = record g { heartbeat_running = false; metrics_running = false; serving = false }

  unfoldable pub is_running : GameServer S C → Bool
  is_running g = g.serving

  unfoldable pub on_world : {A : Type 0} → Exec (World S C) A → Exec (GameServer S C) A
  on_world m g = let r = m g.world in (r.0, record g { world = r.1 })

  -- Start from BuildAndStart on; `built` says that it returned a server.
  unfoldable pub launch : Bool → GameServer S C → Outcome Bool × GameServer S C
  launch built g =
      if built
      then (
        ok true,
        record g {
          has_service = true;
          serving = true;
          metrics_running = true;
          heartbeat_running = true;
        },
      )
      else (ok false, record g { has_service = true; serving = false })

module _ (j : Json) (s : Simulator j) (h : Hiredis) where
  abbrev pub G : Type 0
  G = GameServer s.Session h.Conn

  unfoldable pub connect_redis : Text → ℕ → G → Bool × G
  connect_redis host port g =
      let r = RedisClient.connect h host port 5000 g.world.redis_client in
      (r.0, record g { world = record g.world { redis_client = r.1 } })

  -- Start after the connection: leftover rooms, the registration, the gRPC server.
  unfoldable pub enter : ℕ → Bool → Exec G Bool
  unfolding on_world launch
  enter fuel built g =
      (do
        on_world (on_redis (Scan.delete_rooms_for_server j h fuel g.pod_ip))
        registered ← on_world (on_redis (RedisClient.register_node h g.pod_ip))
        if registered then launch built else pure false)
        g

  unfoldable pub start_at : ℕ → Bool → Option (Text × ℕ) → Exec G Bool
  unfolding connect_redis
  start_at fuel built none g = (ok false, g)
  start_at fuel built (some (host, port)) g =
      let r = connect_redis host port g in if r.0 then enter fuel built r.1 else (ok false, r.1)

  -- Start
  unfoldable pub start : ℕ → Bool → Exec G Bool
  unfolding start_at
  start fuel built g = start_at fuel built (parse_redis_url g.redis_url) g

  -- The rounds of waiting in GracefulShutdown, from round i; `during i` is what other threads do in
  -- the second that round i sleeps.
  unfoldable pub wait_rounds : ℕ → ℕ → (ℕ → List Call) → W j s h → W j s h
  wait_rounds zero i during w = w
  wait_rounds (suc n) i during w = wait_rounds n (i + 1) during (run j s h (during i) w)

  -- The loop that closes the rooms of the copied map; `between k` is what other threads do before
  -- the room k is closed.
  unfoldable pub close_rooms : Map Room → (Text → List Call) → W j s h → W j s h
  close_rooms [] between w = w
  close_rooms ((k, room) ∷ rooms) between w =
      let w' = run j s h (between k) w in
      close_rooms rooms between
        (record w' { room_manager = (RoomManager.close_room k w'.room_manager).1 })

  unfoldable pub drain : (ℕ → List Call) → (Text → List Call) → W j s h → W j s h
  unfolding wait_rounds close_rooms
  drain during between w =
      let maintained = record w {
        room_manager = RoomManager.set_maintenance_mode true w.room_manager;
      } in
      let waited = wait_rounds 5 0 during maintained in
      close_rooms (RoomManager.get_all_rooms waited.room_manager) between waited

  -- GracefulShutdown
  unfoldable pub graceful_shutdown : (ℕ → List Call) → (Text → List Call) → Exec G (Unit {0})
  unfolding stop on_world
  graceful_shutdown during between g =
      (do on_world (on_redis (RedisClient.unregister_node h g.pod_ip)); λ u. (ok tt, stop u))
        (record g { world = drain during between g.world })
