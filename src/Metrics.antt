-- ===== src/Metrics.antt =====
-- The metrics of src/server/game_server.cpp: MetricsSnapshot, CollectMetricsSnapshot,
-- BuildMetricsBody and what the metrics thread answers to a request. Sockets are left out.
pub mod Response
pub mod Serving
use pokemon_cpp_server.Common.{
  ℕ, ◌-◌, ◌*◌, ◌%◌, Option, none, some, Bool, true, false, List, [], ◌∷◌, ◌++◌, ltb, eqb, take,
  length, if◌then◌else◌,
}
use pokemon_cpp_server.Text.{Text, codes, c_str, starts_with}
use pokemon_cpp_server.Text.Number.{decimal}
use pokemon_cpp_server.Int32.{half, word, inc, lt_int}
use pokemon_cpp_server.Exec.{
  Attempt, done, threw, attempt_bind, Exec, Outcome, ok, pure, gets, ◌>>=◌, ◌>>◌,
}
use pokemon_cpp_server.External.Json.{Json}
use pokemon_cpp_server.External.Simulator.{Simulator}
use pokemon_cpp_server.External.Hiredis.{Hiredis}
use pokemon_cpp_server.RoomManager
use pokemon_cpp_server.RedisClient
use pokemon_cpp_server.RedisClient.Scan
use pokemon_cpp_server.GameService.{World, on_redis}
use pokemon_cpp_server.GameService.Session.{W}

-- double: the quotient of two converted ints, and what `<<` prints
pub record Double : Type 1 where
  pub Number : Type 0
  pub zero : Number
  pub quotient : ℕ → ℕ → Number
  pub print : Number → Text

pub record MetricsSnapshot (d : Double) : Type 0 where
  pub local_active_rooms : ℕ
  pub local_max_rooms : ℕ
  pub global_active_rooms : ℕ
  pub global_capacity : ℕ
  pub local_utilization : d.Number
  pub global_utilization : d.Number
  pub min_utilization : d.Number

-- `<<` of an int
unfoldable pub print_int : ℕ → Text
print_int i = if ltb i half then decimal i else b'-' ∷ decimal (word - i)

-- The utilization: 0.0 where the capacity is not positive.
unfoldable pub utilization : (d : Double) → ℕ → ℕ → d.Number
utilization d active capacity = if lt_int 0 capacity then d.quotient active capacity else d.zero

-- The fields that depend on this server alone; the others are zero.
unfoldable pub local_snapshot : (d : Double) → ℕ → ℕ → MetricsSnapshot d
unfolding utilization
local_snapshot d active max = record {
  local_active_rooms = active;
  local_max_rooms = max;
  global_active_rooms = 0;
  global_capacity = 0;
  local_utilization = utilization d active max;
  global_utilization = d.zero;
  min_utilization = d.zero;
}

-- The fields that Redis gives, from the number of nodes and of active rooms.
unfoldable pub global_snapshot : (d : Double) → MetricsSnapshot d → ℕ → ℕ → MetricsSnapshot d
unfolding utilization
global_snapshot d m nodes active =
    let capacity = nodes * m.local_max_rooms % word in
    record m {
      global_active_rooms = active;
      global_capacity = capacity;
      global_utilization = utilization d active capacity;
      min_utilization = utilization d active capacity;
    }

module _ (j : Json) where
  -- The try block of the counting loop: whether the room counts as active.
  unfoldable pub status_is_active : j.Value → Attempt Bool
  status_is_active room_json =
      if j.contains room_json (codes "status")
      then attempt_bind (j.member room_json (codes "status"))
          (λ v. attempt_bind (j.get_int v) (λ n. done (eqb n 1)))
      else done false

  -- A throw counts as not active.
  unfoldable pub counts : Attempt Bool → Bool
  counts (done b) = b
  counts (threw what) = false

  unfoldable pub is_active_snapshot : Text → Bool
  unfolding status_is_active counts
  is_active_snapshot value = counts (attempt_bind (j.parse value) status_is_active)

  unfoldable pub count_active : ℕ → List (Text × Text) → ℕ
  unfolding is_active_snapshot
  count_active n [] = n
  count_active n ((key, value) ∷ rest) =
      count_active (if is_active_snapshot value then inc n else n) rest

module _ (d : Double) (j : Json) (s : Simulator j) (h : Hiredis) where
  -- CollectMetricsSnapshot
  unfoldable pub collect_metrics_snapshot : ℕ → Text → Exec (W j s h) (MetricsSnapshot d)
  unfolding local_snapshot global_snapshot count_active on_redis
  collect_metrics_snapshot fuel pod_ip w =
      let m =
        local_snapshot d (RoomManager.get_room_count w.room_manager)
          (RoomManager.get_max_rooms w.room_manager) in
      if RedisClient.is_connected w.redis_client
      then ((do
        on_redis (RedisClient.touch_node_heartbeat h pod_ip 30)
        nodes ← on_redis (Scan.get_all_nodes h)
        snapshots ← on_redis (Scan.get_all_room_snapshots h fuel)
        pure (global_snapshot d m (length nodes % word) (count_active j 0 snapshots)))
          w)
      else (ok m, w)

-- A metric of the body: its help line, its type line and its value.
unfoldable pub metric : Text → Text → Text → Text
metric name help value =
    codes "# HELP "
    ++ name
    ++ codes " "
    ++ help
    ++ codes "\n"
    ++ codes "# TYPE "
    ++ name
    ++ codes " gauge\n"
    ++ name
    ++ codes " "
    ++ value
    ++ codes "\n"

-- BuildMetricsBody
unfoldable pub build_metrics_body : (d : Double) → MetricsSnapshot d → Text
unfolding metric print_int
build_metrics_body d m =
    metric (codes "pokemon_active_rooms") (codes "Current number of active rooms")
      (print_int m.local_active_rooms)
    ++ metric (codes "pokemon_max_capacity") (codes "Maximum room capacity")
        (print_int m.local_max_rooms)
    ++ metric (codes "pokemon_room_utilization") (codes "Local room utilization")
        (d.print m.local_utilization)
    ++ metric (codes "pokemon_room_utilization_global")
        (codes "Global room utilization across all registered pods") (d.print m.global_utilization)
    ++ metric (codes "pokemon_room_utilization_min")
        (codes "Minimum room utilization across active pods") (d.print m.min_utilization)

abbrev pub crlf : Text
crlf = 13 ∷ 10 ∷ []

-- The response with a body: status line, content type, length of the body, body.
unfoldable pub http_response : Text → Text → Text → Text
http_response status_line content_type body =
    status_line
    ++ crlf
    ++ codes "Content-Type: "
    ++ content_type
    ++ crlf
    ++ codes "Content-Length: "
    ++ decimal (length body)
    ++ crlf
    ++ crlf
    ++ body

unfoldable pub not_found_response : Text
unfolding http_response
not_found_response =
    http_response (codes "HTTP/1.1 404 Not Found") (codes "text/plain") (codes "Not Found\n")

-- The first 1023 bytes of the request as a C string: request_line.rfind("GET /metrics", 0) == 0
unfoldable pub is_metrics_request : Text → Bool
is_metrics_request received = starts_with (c_str (take 1023 received)) (codes "GET /metrics")

module _ (d : Double) (j : Json) (s : Simulator j) (h : Hiredis) where
  -- What the metrics thread sends for the bytes it received.
  unfoldable pub serve_metrics : ℕ → Text → Text → Exec (W j s h) Text
  unfolding collect_metrics_snapshot build_metrics_body http_response is_metrics_request
  serve_metrics fuel pod_ip received =
      if is_metrics_request received
      then (do
        m ← collect_metrics_snapshot d j s h fuel pod_ip
        pure (
            http_response (codes "HTTP/1.1 200 OK") (codes "text/plain; version=0.0.4")
              (build_metrics_body d m)))
      else pure not_found_response
