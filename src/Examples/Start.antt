-- ===== src/Examples/Start.antt =====
-- Examples for starting and shutting down the server.
use pokemon_cpp_server.Common.{ℕ, ◌≡◌, some, false, List, [], ◌∷◌, ◌++◌, arith}
use pokemon_cpp_server.Text.{Text, codes}
use pokemon_cpp_server.Text.Number.{decimal}
use pokemon_cpp_server.Exec.{ok}
use pokemon_cpp_server.RoomManager.Invariant.{create-IsValid}
use pokemon_cpp_server.GameService.Trace.{Call, destroys, ticks}
use pokemon_cpp_server.GameServer.{GameServer, parse_redis_url, graceful_shutdown, create}
use pokemon_cpp_server.GameServer.Url.{parse_redis_url_lem, NoColon}
use pokemon_cpp_server.GameServer.Shutdown.{graceful_shutdown_lem, AllForeign}
use pokemon_cpp_server.Examples.{json, simulator, redis, Store}

abbrev host : Text
host = codes "redis"

host-NoColon : NoColon host
unfolding codes
host-NoColon = ground arith

parse_redis_url_lem_example :
    (parse_redis_url (host ++ b':' ∷ decimal 6380) ≡ some (host, 6380))
    × (parse_redis_url host ≡ some (host, 6379))
parse_redis_url_lem_example = parse_redis_url_lem host 6380 host-NoColon (omega arith)

abbrev game_server : GameServer ℕ Store
game_server = create (codes "10.0.0.1") (codes "redis:6379") 5 1234

-- What the other threads do during the shutdown.
abbrev during : ℕ → List Call
during i = ticks ∷ destroys (codes "arena") ∷ []

abbrev between : Text → List Call
between k = ticks ∷ []

during-AllForeign : (i : ℕ) → AllForeign (during i)
during-AllForeign i = (tt, (tt, tt))

between-AllForeign : (k : Text) → AllForeign (between k)
between-AllForeign k = (tt, tt)

graceful_shutdown_lem_example :
    let r = graceful_shutdown json simulator redis during between game_server in
    (r.0 ≡ ok tt)
    × (r.1.world.room_manager.rooms ≡ [])
    × (r.1.serving ≡ false)
    × (r.1.metrics_running ≡ false)
    × (r.1.heartbeat_running ≡ false)
unfolding create
graceful_shutdown_lem_example =
    graceful_shutdown_lem json simulator redis during between game_server during-AllForeign
      between-AllForeign (create-IsValid 10 (omega arith))
