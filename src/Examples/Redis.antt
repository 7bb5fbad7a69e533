-- ===== src/Examples/Redis.antt =====
-- Examples for the Redis client and the metrics.
use pokemon_cpp_server.Common.{
  ℕ, ◌≤◌, ◌≡◌, refl, none, some, true, ◌||◌, List, [], ◌∷◌, ◌++◌, arith, length, if◌then◌else◌,
}
use pokemon_cpp_server.Text.{Text, codes, ◌==◌, c_str, NoNul, is_empty}
use pokemon_cpp_server.Text.Number.{decimal, strtoull}
use pokemon_cpp_server.Exec.{ok}
use pokemon_cpp_server.External.Hiredis.{Hiredis, Replies, string, array, element, end}
use pokemon_cpp_server.External.Server.{text}
use pokemon_cpp_server.RedisClient.{
  RedisClient, nodes_set_key, room_key, command_key, command_suffix, heartbeat_key, set_room_data,
  delete_room_data, unregister_node, touch, is_ok,
}
use pokemon_cpp_server.RedisClient.Scan.{node_of_key, get_all_nodes, get_all_room_snapshots}
use pokemon_cpp_server.RedisClient.Scan.Pages.{
  page, all_snapshots, Pages, last, get_all_room_snapshots-Pages,
}
use pokemon_cpp_server.RedisClient.Heartbeat.{
  node_of_key-heartbeat_key, node_of_key_sound, touch_ttl, get_all_nodes-heartbeats, heartbeats,
}
use pokemon_cpp_server.RedisClient.Store.{
  set_room_data-delete_room_data, delete_room_data_lem, delete_room_data_collision,
  delete_room_data_nul, unregister_node_clears,
}
use pokemon_cpp_server.Metrics.{http_response}
use pokemon_cpp_server.Metrics.Response.{http_response-length, header}
use pokemon_cpp_server.Examples.{redis, server, replying, Store}

abbrev pub room : Text
room = codes "r1"

-- The nodes of two servers, a room and its command.
abbrev stored : Store
stored i =
    if i == nodes_set_key
    then some (text (codes "10.0.0.1"))
    else if i == room_key room || i == command_key (room_key room)
    then some (text (codes "{}"))
    else none

abbrev pub client : Store → RedisClient Store
client c = record { context = some c }

room-NoNul : NoNul room
unfolding codes
room-NoNul = omega arith

set_room_data-delete_room_data_example :
    (c1 : Store) × (c2 : Store) × (set_room_data redis room (codes "{}") (client stored)
      ≡ (ok true, client c1))
    × (delete_room_data redis room (client c1) ≡ (ok true, client c2))
    × ((i : Text)
        → server.entry c2 i ≡ (
            if room_key room == i || command_key (room_key room) == i
            then none
            else server.entry stored i))
set_room_data-delete_room_data_example =
    set_room_data-delete_room_data redis server room (codes "{}") stored room-NoNul

delete_room_data_lem_example :
    (c' : Store) × (delete_room_data redis room (client stored) ≡ (ok true, client c'))
    × ((i : Text)
        → server.entry c' i ≡ (
            if room_key room == i || command_key (room_key room) == i
            then none
            else server.entry stored i))
delete_room_data_lem_example = delete_room_data_lem redis server room stored room-NoNul

delete_room_data_collision_example :
    (c' : Store) × (delete_room_data redis room (client stored) ≡ (ok true, client c'))
    × (server.entry c' (room_key (room ++ command_suffix)) ≡ none)
delete_room_data_collision_example = delete_room_data_collision redis server room stored room-NoNul

delete_room_data_nul_example :
    (c' : Store) × (delete_room_data redis (room ++ 0 ∷ codes "x") (client stored)
      ≡ (ok true, client c'))
    × ((i : Text)
        → server.entry c' i ≡ (if room_key room == i then none else server.entry stored i))
delete_room_data_nul_example = delete_room_data_nul redis server room (codes "x") stored room-NoNul

unregister_node_clears_example :
    (c' : Store) × (unregister_node redis (codes "10.0.0.2") (client stored) ≡ (ok true, client c'))
    × (server.entry c' nodes_set_key ≡ none)
unregister_node_clears_example = unregister_node_clears redis server (codes "10.0.0.2") stored

touch_ttl_example :
    (t : ℕ) × (300 ≤ t)
    × (strtoull (decimal t) ≡ t)
    × (touch redis room 30 stored ≡ (
        let r =
          redis.command stored
            (codes "SET" ∷ c_str (heartbeat_key room) ∷ codes "1" ∷ codes "EX" ∷ decimal t ∷ []) in
        (ok (is_ok r.0), r.1)))
touch_ttl_example = touch_ttl redis room 30 stored (omega arith)

abbrev pub ips : List Text
ips = codes "10.0.0.1" ∷ codes "10.0.0.2" ∷ []

abbrev lister : Hiredis
lister = replying (array (heartbeats ips))

get_all_nodes-heartbeats_example :
    get_all_nodes lister (record { context = some tt }) ≡ (ok ips, record { context = some tt })
unfolding is_empty codes
get_all_nodes-heartbeats_example = get_all_nodes-heartbeats lister tt tt ips (refl, (refl, tt)) refl

room_read_back : node_of_key (heartbeat_key room) ≡ some room
unfolding is_empty codes
room_read_back = node_of_key-heartbeat_key room refl

node_of_key_sound_example : heartbeat_key room ≡ heartbeat_key room
node_of_key_sound_example = node_of_key_sound (heartbeat_key room) room room_read_back

-- One page with a room and its command.
abbrev pub room_and_command : Replies
room_and_command =
    element (string (room_key room)) (element (string (command_key (room_key room))) end)

abbrev pager : Hiredis
pager = replying (page (codes "0") room_and_command)

one_page : Pages pager tt 0 (room_and_command ∷ [])
unfolding strtoull codes
one_page = last 0 (codes "0") room_and_command refl refl

get_all_room_snapshots-Pages_example :
    get_all_room_snapshots pager 3 (record { context = some tt })
    ≡ (ok (all_snapshots pager tt (room_and_command ∷ [])), record { context = some tt })
get_all_room_snapshots-Pages_example =
    get_all_room_snapshots-Pages pager 3 (room_and_command ∷ []) tt (λ key. refl) one_page
      (omega arith)

http_response-length_example :
    (size : Text) × (http_response (codes "HTTP/1.1 200 OK") (codes "text/plain") room
      ≡ header (codes "HTTP/1.1 200 OK") (codes "text/plain") size ++ room)
    × (strtoull size ≡ length room)
unfolding codes
http_response-length_example =
    http_response-length (codes "HTTP/1.1 200 OK") (codes "text/plain") room (omega arith)
