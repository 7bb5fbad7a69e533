-- ===== src/Examples/Scans.antt =====
-- Examples for the loops over the keys of Redis and for the metrics port.
use pokemon_cpp_server.Common.{
  ℕ, ◌≡◌, refl, Option, none, some, ◌||◌, List, [], ◌∷◌, arith, if◌then◌else◌, false, Bool, ◌⊎◌,
}
use pokemon_cpp_server.Text.{Text, codes, ◌==◌, c_str, is_empty, starts_with}
use pokemon_cpp_server.Text.Number.{strtoull}
use pokemon_cpp_server.Map.{lookup}
use pokemon_cpp_server.Exec.{ok}
use pokemon_cpp_server.External.Hiredis.{Hiredis, Reply, string, array, nil, integer, opened}
use pokemon_cpp_server.External.Server.{Entry, text, here}
use pokemon_cpp_server.RedisClient.{RedisClient}
use pokemon_cpp_server.RedisClient.Scan.{
  delete_rooms_for_server, scan_loop, scan_step, scan_page, page_keys, page_cursor, each_key,
  use_key, use_value, is_command_key, delete_if_owned, belongs_to, reply_str,
}
use pokemon_cpp_server.RedisClient.{when_connected, send}
use pokemon_cpp_server.RedisClient.Scan.Owned.{Owned, Removable}
use pokemon_cpp_server.RedisClient.Scan.Frame.{IsRoomKey, delete_rooms_for_server_frame}
use pokemon_cpp_server.RedisClient.Scan.Walk.{Walk}
use pokemon_cpp_server.RedisClient.Scan.Sweep.{ListedIn, first, delete_rooms_for_server_sweeps}
use pokemon_cpp_server.Metrics.Serving.{serve_metrics_lem, online, ok_response, numbers}
use pokemon_cpp_server.Metrics.{serve_metrics, is_metrics_request}
use pokemon_cpp_server.GameService.{World}
use pokemon_cpp_server.RoomManager
use pokemon_cpp_server.RedisClient.Scan.Pages.{page, all_snapshots, Pages, last}
use pokemon_cpp_server.RedisClient.Heartbeat.{heartbeats}
use pokemon_cpp_server.Metrics.Response.{Counted}
use pokemon_cpp_server.Examples.{
  read, find, is_some, member_of, json, redis, server, Store, execute, is_text, as_text, read_entry,
  reads, simulator, double, members_of, listed, bare, flat,
}
use pokemon_cpp_server.Examples.Redis.{client, ips, room_and_command}

abbrev pod : Text
pod = codes "10.0.0.1"

-- A room of this pod and one of another, each with a command.
abbrev rooms_stored : Store
rooms_stored i =
    if i == codes "pokemon:room:1" || i == codes "pokemon:room:1:command"
    then some (text (codes "@10.0.0.1"))
    else if i == codes "pokemon:room:2" || i == codes "pokemon:room:2:command"
    then some (text (codes "@10.0.0.2"))
    else none

delete_rooms_for_server_frame_example :
    (c : Store) × ((delete_rooms_for_server json redis 1 pod (client rooms_stored)).1 ≡ client c)
    × ((i : Text)
        → (server.entry c i ≡ server.entry rooms_stored i)
          ⊎ ((server.entry c i ≡ none) × Removable json redis server pod IsRoomKey rooms_stored i))
delete_rooms_for_server_frame_example =
    delete_rooms_for_server_frame json redis server pod rooms_stored 1 reads

unfoldable entry_in : RedisClient Store → Text → Option Entry
entry_in c i = elim c.context [ none ↦ none | some store ↦ store i ]

-- What DeleteRoomsForServer leaves of them.
abbrev left_of : Text → Option Entry
left_of i = entry_in (delete_rooms_for_server json redis 1 pod (client rooms_stored)).1 i

left_over :
    (left_of (codes "pokemon:room:1") ≡ none)
    × (left_of (codes "pokemon:room:1:command") ≡ none)
    × (left_of (codes "pokemon:room:2") ≡ some (text (codes "@10.0.0.2")))
    × (left_of (codes "pokemon:room:2:command") ≡ some (text (codes "@10.0.0.2")))
unfolding entry_in delete_rooms_for_server when_connected scan_loop scan_step scan_page page_keys
    page_cursor each_key use_key use_value is_command_key delete_if_owned belongs_to send execute
    codes ◌==◌ read lookup find is_some member_of is_text as_text c_str read_entry reply_str
    strtoull
left_over = (refl, refl, refl, refl)

-- A server with one room, which has started, and the heartbeats of two nodes.
unfoldable exports : List Text → Reply
exports [] = nil
exports (name ∷ rest) =
    if name == codes "KEYS"
    then array (heartbeats ips)
    else if name == codes "SCAN"
    then page (codes "0") room_and_command
    else if name == codes "GET"
    then string (codes "1")
    else integer 1

abbrev exporter : Hiredis
exporter = record {
  Conn = Unit {0};
  connect = λ host port s u. opened tt;
  command = λ c args. (some (exports args), c);
}

abbrev world : World ℕ (Unit {0})
world = record {
  room_manager = RoomManager.create 10;
  battle_engine = none;
  redis_client = record { context = none };
}

exporter-Pages : Pages exporter tt 0 (room_and_command ∷ [])
unfolding strtoull codes exports ◌==◌
exporter-Pages = last 0 (codes "0") room_and_command refl refl

serve_metrics_lem_example :
    (n : ℕ) × Counted json (all_snapshots exporter tt (room_and_command ∷ [])) n
    × ((serve_metrics double json simulator exporter 1 pod
          (codes "GET /metrics HTTP/1.1")
          (online double json simulator exporter world tt)).0
        ≡ ok (
            ok_response double json simulator exporter
              (numbers double json simulator exporter 0 10 2 n)))
unfolding is_empty codes exports ◌==◌ is_metrics_request starts_with c_str is_command_key
    RoomManager.create RoomManager.get_room_count RoomManager.get_max_rooms
serve_metrics_lem_example =
    serve_metrics_lem double json simulator exporter 1 pod (codes "GET /metrics HTTP/1.1") world tt
      ips (room_and_command ∷ []) refl (refl, (refl, tt)) refl (λ key. refl) exporter-Pages
      (omega arith) (omega arith)

abbrev own_key : Text
own_key = codes "pokemon:room:1"

is_room : is_command_key own_key ≡ false
unfolding is_command_key codes
is_room = refl

own_Owned : Owned json pod (codes "@10.0.0.1")
unfolding codes ◌==◌ read belongs_to find lookup is_some member_of is_text as_text
own_Owned = record {
  state = members_of ((codes "server_id", bare (codes "10.0.0.1")) ∷ []);
  parsed = refl;
  has_id = refl;
  id = flat (bare (codes "10.0.0.1"));
  id_member = refl;
  is_text = refl;
  id_text = refl;
}

listed-Walk : Walk json redis pod 0 false rooms_stored (listed ∷ [])
unfolding execute codes ◌==◌ strtoull
listed-Walk = Walk.last 0 false rooms_stored (codes "0") listed refl refl

own_listed : ListedIn own_key (listed ∷ [])
own_listed = first listed [] (here _)

delete_rooms_for_server_sweeps_example :
    (b : Bool) × (c : Store) × (delete_rooms_for_server json redis 1 pod (client rooms_stored)
      ≡ (ok b, client c))
    × (server.entry c (c_str own_key) ≡ none)
unfolding codes ◌==◌ c_str server
delete_rooms_for_server_sweeps_example =
    delete_rooms_for_server_sweeps json redis pod server reads rooms_stored own_key
      (codes "@10.0.0.1") is_room own_Owned 1 (listed ∷ []) listed-Walk (omega arith) own_listed
      refl
