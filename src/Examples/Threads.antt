-- ===== src/Examples/Threads.antt =====
-- Examples for the program as a whole.
use pokemon_cpp_server.Common.{
  ℕ, zero, suc, ◌+◌, ◌*◌, ◌%◌, ◌≡◌, ◌<◌, refl, ◌∙◌, ap, ◌⊎◌, Option, none, some, Bool, true, false,
  arith, inl, ◌≢◌, if◌then◌else◌, eqb,
}
use pokemon_cpp_server.Text.{Text, codes}
use pokemon_cpp_server.Exec.{ok}
use pokemon_cpp_server.External.Hiredis.{Hiredis, integer}
use pokemon_cpp_server.SignalHandler.{sigterm}
use pokemon_cpp_server.Metrics.{serve_metrics, collect_metrics_snapshot}
use pokemon_cpp_server.GameService.{on_redis}
use pokemon_cpp_server.RoomManager.{RoomManager}
use pokemon_cpp_server.BattleEngine.{BattleEngine}
use pokemon_cpp_server.Metrics.{MetricsSnapshot}
use pokemon_cpp_server.Metrics.Serving.{serve_metrics-collects}
use pokemon_cpp_server.RedisClient.{
  is_connected, touch_node_heartbeat, send, connect, keep_context, register_node, touch, is_count,
}
use pokemon_cpp_server.RedisClient.Scan.{
  get_all_nodes, get_all_room_snapshots, scan_loop, scan_step, scan_page, nodes_reply,
  delete_rooms_for_server,
}
use pokemon_cpp_server.GameServer.{
  GameServer, configuration, create, start, start_at, parse_redis_url, split_colon, connect_redis,
  enter, launch,
}
use pokemon_cpp_server.GameServer.Starting.{start-serving}
use pokemon_cpp_server.Program.{after_start}
use pokemon_cpp_server.Schedule.{run, IsFair}
use pokemon_cpp_server.Program.{
  returned, Sigterm, Event, main_moves, sigterm_moves, activity_moves, heartbeat_moves,
  metrics_moves, signal, Thread, main_thread, sigterm_thread, activity_thread, heartbeat_thread,
  metrics_thread, client_moves, client, accepted, thread, running, react, boot, step, is_over,
  has_closed,
}
use pokemon_cpp_server.Program.Shutdown.{Answers, next, P}
use pokemon_cpp_server.Program.Invariant.{has_started}
use pokemon_cpp_server.Program.Termination.{sigterm-returns, started-returns}
use pokemon_cpp_server.Program.Idle.{idle_client}
use pokemon_cpp_server.Program.Runs.{boot-Sound}
use pokemon_cpp_server.Program.Signals.{IsHarmless, run-react}
use pokemon_cpp_server.Program.{Listener}
use pokemon_cpp_server.Program.Safety.{returned-over, boot-Inv, run-Inv}
use pokemon_cpp_server.Examples.{json, simulator, replying, double}

-- Every command is answered by the number 1.
abbrev counter : Hiredis
counter = replying (integer 1)

-- A round of the five threads and of a client of the metrics port, and then SIGTERM.
unfoldable round : ℕ → Event
round zero = main_moves true
round (suc zero) = sigterm_moves
round (suc (suc zero)) = activity_moves
round (suc (suc (suc zero))) = heartbeat_moves
round (suc (suc (suc (suc zero)))) = metrics_moves accepted
round (suc (suc (suc (suc (suc zero))))) = client_moves (some (codes "GET /metrics"))
round n = signal sigterm

abbrev rounds : ℕ → Event
rounds n = round (n % 7)

turn : Thread → ℕ
turn main_thread = 0
turn sigterm_thread = 1
turn activity_thread = 2
turn heartbeat_thread = 3
turn metrics_thread = 4
turn client = 5

turn-round : (t : Thread) → thread (round (turn t)) ≡ some t
unfolding turn round thread
turn-round t = ground arith

turn-lt : (t : Thread) → turn t < 7
unfolding turn
turn-lt t = ground arith

rounds-IsFair : IsFair thread rounds
rounds-IsFair t n =
    let b = turn-lt t in
    let e : (n + (6 * n + turn t)) % 7 ≡ turn t = omega arith in
    (6 * n + turn t, ap (λ k. thread (round k)) e ∙ turn-round t)

collects :
    (pod_ip : Text) (m : RoomManager) (b : Option (BattleEngine ℕ)) (o : Option (Unit {0}))
    → (x : MetricsSnapshot double) × ((collect_metrics_snapshot double json simulator counter 3
          pod_ip
          (record { room_manager = m; battle_engine = b; redis_client = record { context = o } })).0
        ≡ ok x)
unfolding collect_metrics_snapshot is_connected touch_node_heartbeat get_all_nodes
    get_all_room_snapshots scan_loop scan_step scan_page nodes_reply send
collects pod_ip m b none = (_, refl)
collects pod_ip m b (some tt) = (_, refl)

counter-Answers : Answers double json simulator counter 3
unfolding serve_metrics
counter-Answers pod_ip text w =
    let c = collects pod_ip w.room_manager w.battle_engine w.redis_client.context in
    serve_metrics-collects double json simulator counter 3 pod_ip text w c

abbrev booted : P double json simulator counter 3
booted =
    boot double json simulator counter 3 (some (codes "10.0.0.1")) (some (codes "redis")) 5 1234

started : has_started (run (next double json simulator counter 3) rounds 1 booted).main ≡ true
unfolding has_started run step boot round configuration create start after_start parse_redis_url
    split_colon codes start_at connect_redis connect keep_context is_connected enter
    delete_rooms_for_server scan_loop scan_step scan_page register_node touch send is_count launch
    on_redis
started = refl

abbrev game : (ℕ → Event) → ℕ → P double json simulator counter 3
game schedule n = run (next double json simulator counter 3) schedule n booted

-- Every signal but SIGTERM ends the process, and none comes.
abbrev ends_all : ℕ → Bool
ends_all n = true

rounds-IsHarmless : IsHarmless ends_all rounds
unfolding round
rounds-IsHarmless k n e = inl (only (k % 7) n e)
  where
    only : (k n : ℕ) → round k ≡ signal n → n ≡ sigterm
    only k n e = ground arith

after_one :
    run (react double json simulator counter 3 ends_all) rounds 1 (running booted)
    ≡ running (game rounds 1)
after_one = run-react double json simulator counter 3 ends_all 1 rounds booted rounds-IsHarmless (
    boot-Inv double json simulator counter 3 (some (codes "10.0.0.1")) (some (codes "redis")) 5
      1234)

sigterm-returns_example :
    (n : ℕ) × (q : P double json simulator counter 3) × (run
        (react double json simulator counter 3 ends_all)
        rounds
        n
        (running booted)
      ≡ running q)
    × (q.main ≡ returned 0)
unfolding round
sigterm-returns_example =
    sigterm-returns double json simulator counter 3 ends_all (some (codes "10.0.0.1"))
      (some (codes "redis")) 5 1234 rounds 6 1 (game rounds 1) counter-Answers rounds-IsFair
      rounds-IsHarmless refl after_one started

ends : (n : ℕ) × ((game rounds n).main ≡ returned 0)
unfolding round
ends =
    started-returns double json simulator counter 3 rounds 6 1 booted counter-Answers rounds-IsFair
      (boot-Sound double json simulator counter 3 counter-Answers (some (codes "10.0.0.1"))
        (some (codes "redis")) 5 1234)
      refl started

returned-over_example :
    ((game rounds ends.0).server.serving ≡ false)
    × (((game rounds ends.0).sigterm ≡ Sigterm.unborn)
        ⊎ ((game rounds ends.0).sigterm ≡ Sigterm.finished))
    × (is_over (game rounds ends.0).activity ≡ true)
    × (is_over (game rounds ends.0).heartbeats ≡ true)
    × (has_closed (game rounds ends.0).metrics ≡ true)
returned-over_example =
    returned-over double json simulator counter 3 (some (codes "10.0.0.1")) (some (codes "redis")) 5
      1234 rounds ends.0 0 ends.1

abbrev fresh : GameServer ℕ (Unit {0})
fresh = create (codes "10.0.0.1") (codes "redis") 5 1234

fresh_starts : (start json simulator counter 3 true fresh).0 ≡ ok true
unfolding create start parse_redis_url split_colon codes start_at connect_redis connect keep_context
    is_connected enter delete_rooms_for_server scan_loop scan_step scan_page register_node touch
    send is_count launch on_redis
fresh_starts = refl

start-serving_example : (start json simulator counter 3 true fresh).1.serving ≡ true
unfolding create
start-serving_example = start-serving json simulator counter 3 true true fresh refl fresh_starts

-- main starts, and a client of the metrics port is accepted.
unfoldable connecting : ℕ → Event
connecting zero = main_moves true
connecting n = metrics_moves accepted

connecting-IsHarmless : IsHarmless ends_all connecting
unfolding connecting
connecting-IsHarmless zero n e = absurd (ground arith)
connecting-IsHarmless (suc k) n e = absurd (ground arith)

connected :
    run (react double json simulator counter 3 ends_all) connecting 4 (running booted)
    ≡ running (game connecting 4)
connected =
    run-react double json simulator counter 3 ends_all 4 connecting booted connecting-IsHarmless (
      boot-Inv double json simulator counter 3 (some (codes "10.0.0.1")) (some (codes "redis")) 5
        1234)

in_recv : (game connecting 4).metrics ≡ Listener.receiving
unfolding has_started run step boot connecting configuration create start after_start
    parse_redis_url split_colon codes start_at connect_redis connect keep_context is_connected enter
    delete_rooms_for_server scan_loop scan_step scan_page register_node touch send is_count launch
    on_redis
in_recv = refl

-- Ten rounds of main, with SIGTERM, and no move of the client.
abbrev idle : ℕ → Event
idle n = if eqb n 0 then signal sigterm else main_moves true

idle-apart : (k : ℕ) → thread (idle k) ≢ some client
unfolding thread
idle-apart k e = ground arith

idle-IsHarmless : IsHarmless ends_all idle
idle-IsHarmless k n e = inl (ground arith)

idle_client_example :
    ¬ ((run (next double json simulator counter 3) idle 10 (game connecting 4)).main ≡ returned 0)
idle_client_example =
    idle_client double json simulator counter 3 ends_all (some (codes "10.0.0.1"))
      (some (codes "redis")) 5 1234 connecting idle 4 10 0 (game connecting 4)
      (run (next double json simulator counter 3) idle 10 (game connecting 4)) connected in_recv
      idle-apart
      (run-react double json simulator counter 3 ends_all 10 idle (game connecting 4)
        idle-IsHarmless
        (run-Inv double json simulator counter 3 connecting 4 booted (
          boot-Inv double json simulator counter 3 (some (codes "10.0.0.1")) (some (codes "redis"))
            5 1234)))
