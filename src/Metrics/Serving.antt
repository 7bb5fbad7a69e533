-- ===== src/Metrics/Serving.antt =====
-- What the metrics thread of src/server/game_server.cpp answers to a request.
use pokemon_cpp_server.Common.{
  ℕ, ◌≤◌, ◌<◌, ◌*◌, ◌%◌, ◌≡◌, refl, ap, some, true, List, [], ◌∷◌, length, if-elim,
}
use pokemon_cpp_server.Text.{Text, codes}
use pokemon_cpp_server.Int32.{word, half}
use pokemon_cpp_server.Exec.{Exec, ok}
use pokemon_cpp_server.Exec.{continue, pure, ◌>>=◌}
use pokemon_cpp_server.RedisClient.{touch, touch_node_heartbeat, is_connected, when_connected, send}
use pokemon_cpp_server.RedisClient.Scan.{get_all_nodes, get_all_room_snapshots}
use pokemon_cpp_server.RedisClient.Scan.Pages.{
  ReadsOnly, Pages, all_snapshots, get_all_room_snapshots-Pages,
}
use pokemon_cpp_server.RedisClient.Heartbeat.{AllNamed, heartbeats, get_all_nodes-heartbeats}
use pokemon_cpp_server.Metrics.Response.{Counted, count_active-Counted}
use pokemon_cpp_server.Metrics.{utilization}
use pokemon_cpp_server.RoomManager.{get_room_count, get_max_rooms}
use pokemon_cpp_server.GameService.{on_redis}
use pokemon_cpp_server.External.Json.{Json}
use pokemon_cpp_server.External.Simulator.{Simulator}
use pokemon_cpp_server.External.Hiredis.{Hiredis, Replies, array}
use pokemon_cpp_server.GameService.{World}
use pokemon_cpp_server.Metrics.{
  Double, MetricsSnapshot, serve_metrics, collect_metrics_snapshot, is_metrics_request,
  http_response, build_metrics_body, not_found_response, global_snapshot, local_snapshot,
  count_active, utilization,
}

module _ (d : Double) (j : Json) (s : Simulator j) (h : Hiredis) where
  abbrev W : Type 0
  W = World s.Session h.Conn

  abbrev pub ok_response : MetricsSnapshot d → Text
  ok_response m =
      http_response (codes "HTTP/1.1 200 OK") (codes "text/plain; version=0.0.4")
        (build_metrics_body d m)

  -- A request is answered if the numbers can be collected.
  pub serve_metrics-collects :
      (fuel : ℕ) (pod_ip text : Text) (w : W)
      → (m : MetricsSnapshot d) × ((collect_metrics_snapshot d j s h fuel pod_ip w).0 ≡ ok m)
      → (response : Text) × ((serve_metrics d j s h fuel pod_ip text w).0 ≡ ok response)
  unfolding serve_metrics
  serve_metrics-collects fuel pod_ip text w c =
      let collect = collect_metrics_snapshot d j s h fuel pod_ip in
      let good : Exec W Text = collect >>= λ m. pure (ok_response m) in
      if-elim (λ (x : Exec W Text). (response : Text) × ((x w).0 ≡ ok response))
        (is_metrics_request text) good (pure not_found_response)
        (λ e.
          (ok_response c.0, ap (λ o. (continue o (λ m. pure (ok_response m)) (collect w).1).0) c.1))
        (λ e. (not_found_response, refl))

  -- The numbers of a server with room for `max` rooms and `local` of them in use, where the heartbeats
  -- of `nodes` servers are known and Redis holds `active` rooms that have started.
  abbrev pub numbers : ℕ → ℕ → ℕ → ℕ → MetricsSnapshot d
  numbers local max nodes active =
      let capacity = nodes % word * max % word in
      record {
        local_active_rooms = local;
        local_max_rooms = max;
        global_active_rooms = active;
        global_capacity = capacity;
        local_utilization = utilization d local max;
        global_utilization = utilization d active capacity;
        min_utilization = utilization d active capacity;
      }

  -- The world with an open connection.
  abbrev pub online : W → h.Conn → W
  online w c = record w { redis_client = record { context = some c } }

  collects :
      (fuel : ℕ) (pod_ip : Text) (w : W) (c c1 : h.Conn) (ips : List Text) (ps : List Replies)
      → (touch h pod_ip 30 c).1 ≡ c1
      → get_all_nodes h (record { context = some c1 }) ≡ (ok ips, record { context = some c1 })
      → get_all_room_snapshots h fuel (record { context = some c1 })
        ≡ (ok (all_snapshots h c1 ps), record { context = some c1 })
      → (collect_metrics_snapshot d j s h fuel pod_ip (online w c)).0
        ≡ ok (
            numbers
              (get_room_count w.room_manager)
              (get_max_rooms w.room_manager)
              (length ips)
              (count_active j 0 (all_snapshots h c1 ps)))
  unfolding collect_metrics_snapshot is_connected touch_node_heartbeat when_connected touch send
      on_redis local_snapshot global_snapshot
  collects fuel pod_ip w c c1 ips ps t n r = rw (t, n, r) refl

  -- On an open connection whose server answers KEYS with the heartbeat keys of the nodes `ips`,
  -- none of which has an empty name, answers SCAN with the pages `ps`, at most `fuel` of them, and is
  -- left as it was by both and by GET, the metrics port answers GET /metrics with status 200 and the
  -- metrics of this server's rooms, of as many nodes as `ips` has, and of the number of rooms on the
  -- pages whose text is JSON with a "status" that reads as the int 1. The pages hold fewer than
  -- 2 ^ 31 rooms with a state in all, active or not.
  pub serve_metrics_lem :
      (fuel : ℕ) (pod_ip text : Text) (w : W) (c : h.Conn) (ips : List Text) (ps : List Replies)
      → is_metrics_request text ≡ true
      → AllNamed ips
      → h.command (touch h pod_ip 30 c).1 (codes "KEYS" ∷ codes "pokemon:server:heartbeat:*" ∷ [])
        ≡ (some (array (heartbeats ips)), (touch h pod_ip 30 c).1)
      → ReadsOnly h (touch h pod_ip 30 c).1
      → Pages h (touch h pod_ip 30 c).1 0 ps
      → length ps ≤ fuel
      → length (all_snapshots h (touch h pod_ip 30 c).1 ps) < half
      → (n : ℕ) × Counted j (all_snapshots h (touch h pod_ip 30 c).1 ps) n
        × ((serve_metrics d j s h fuel pod_ip text (online w c)).0
            ≡ ok (
                ok_response (
                  numbers
                    (get_room_count w.room_manager)
                    (get_max_rooms w.room_manager)
                    (length ips)
                    n)))
  unfolding serve_metrics
  serve_metrics_lem fuel pod_ip text w c ips ps m named keys reads pages b small =
      let c1 = (touch h pod_ip 30 c).1 in
      let collect = collect_metrics_snapshot d j s h fuel pod_ip in
      let r =
        collects fuel pod_ip w c c1 ips ps refl (get_all_nodes-heartbeats h c1 c1 ips named keys)
          (get_all_room_snapshots-Pages h fuel ps c1 reads pages b) in
      (
        count_active j 0 (all_snapshots h c1 ps),
        count_active-Counted j (all_snapshots h c1 ps) small,
        rw m (ap (λ o. (continue o (λ m. pure (ok_response m)) (collect (online w c)).1).0) r),
      )
