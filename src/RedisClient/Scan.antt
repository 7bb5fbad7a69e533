-- ===== src/RedisClient/Scan.antt =====
-- The methods of RedisClient that walk the keys: GetAllNodes, GetAllRoomSnapshots and
-- DeleteRoomsForServer.
pub mod Pages
pub mod Owned
pub mod Frame
pub mod Returns
pub mod Walk
pub mod Sweep
use pokemon_cpp_server.Common.{
  ℕ, zero, suc, Option, none, some, Bool, true, false, List, [], ◌∷◌, ◌++◌, ltb, ◌&&◌, ◌||◌, not,
  if◌then◌else◌, eqb, length,
}
use pokemon_cpp_server.Text.{Text, codes, ◌==◌, c_str, drop, starts_with, ends_with, is_empty}
use pokemon_cpp_server.Text.Number.{decimal, strtoull}
use pokemon_cpp_server.Exec.{
  Exec, Outcome, ok, thrown, fault, unfinished, pure, lift, crash, try_catch, ◌>>=◌, ◌>>◌, Attempt,
}
use pokemon_cpp_server.External.Json.{Json}
use pokemon_cpp_server.External.Hiredis.{
  Hiredis, Reply, Replies, status, error, integer, string, nil, array, end, missing, element,
}
use pokemon_cpp_server.RedisClient.{
  RedisClient, send, when_connected, node_heartbeat_prefix, command_suffix, command_key,
}

-- The node that a heartbeat key names, if it is one.
unfoldable pub node_of_key : Text → Option Text
unfolding starts_with drop is_empty
node_of_key key =
    if ltb (length node_heartbeat_prefix) (length key) && starts_with key node_heartbeat_prefix
    then (let pod_ip = drop (length node_heartbeat_prefix) key in
        if is_empty pod_ip then none else some pod_ip)
    else none

abbrev pub cons_some {ℓ} : {A : Type ℓ} → Option A → List A → List A
cons_some none xs = xs
cons_some (some x) xs = x ∷ xs

-- The loop of GetAllNodes; a null element is read through.
unfoldable pub collect_nodes : Replies → Outcome (List Text)
unfolding node_of_key
collect_nodes end = ok []
collect_nodes (missing rest) = fault
collect_nodes (element (string key) rest) = elim (collect_nodes rest) [
  | ok nodes ↦ ok (cons_some (node_of_key key) nodes)
  | thrown w ↦ thrown w
  | fault ↦ fault
  | unfinished ↦ unfinished
]
collect_nodes (element other rest) = collect_nodes rest

unfoldable pub nodes_reply : Option Reply → Outcome (List Text)
unfolding collect_nodes
nodes_reply (some (array elements)) = collect_nodes elements
nodes_reply _ = ok []

-- A page of SCAN: the first two elements of the array. None where the loop breaks off.
unfoldable pub scan_page : Option Reply → Option (Option Reply × Option Reply)
scan_page (some (array (element c (element k rest)))) = some (some c, some k)
scan_page (some (array (element c (missing rest)))) = some (some c, none)
scan_page (some (array (missing (element k rest)))) = some (none, some k)
scan_page (some (array (missing (missing rest)))) = some (none, none)
scan_page _ = none

-- The `str` that strtoull reads; none where the read is undefined.
unfoldable pub reply_str : Option Reply → Option Text
reply_str (some (string text)) = some text
reply_str (some (status text)) = text
reply_str (some (error text)) = text
reply_str _ = none

-- A key that both loops skip.
unfoldable pub is_command_key : Text → Bool
unfolding ends_with
is_command_key key = ends_with key command_suffix

unfoldable pub page_cursor : {Conn : Type 0} → Option Reply → Exec Conn ℕ
unfolding reply_str
page_cursor c = elim (reply_str c) [ none ↦ crash | some text ↦ pure (strtoull text) ]

-- The arguments of SCAN.
abbrev pub scan_args : ℕ → List Text
scan_args cursor =
    codes "SCAN"
    ∷ decimal cursor
    ∷ codes "MATCH"
    ∷ codes "pokemon:room:*"
    ∷ codes "COUNT"
    ∷ codes "128"
    ∷ []

module _ (h : Hiredis) where
  -- GetAllNodes
  unfoldable pub get_all_nodes : Exec (RedisClient h.Conn) (List Text)
  unfolding send when_connected nodes_reply
  get_all_nodes = when_connected [] (do
    reply ← send h (codes "KEYS" ∷ codes "pokemon:server:heartbeat:*" ∷ [])
    λ conn. (nodes_reply reply, conn))

  module _ {A : Type 0} (body : A → Text → Text → Exec h.Conn A) where
    -- What the loops do with a value reply: only a string reaches the body.
    unfoldable pub use_value : A → Text → Option Reply → Exec h.Conn A
    use_value acc key (some (string value)) = body acc key value
    use_value acc key _ = pure acc

    unfoldable pub use_key : A → Text → Exec h.Conn A
    unfolding use_value is_command_key send
    use_key acc key =
        if is_command_key key
        then pure acc
        else do reply ← send h (codes "GET" ∷ c_str key ∷ []); use_value acc key reply

    -- The loop over the keys of a page.
    unfoldable pub each_key : Replies → A → Exec h.Conn A
    unfolding use_key
    each_key end acc = pure acc
    each_key (missing rest) acc = each_key rest acc
    each_key (element (string key) rest) acc = do next ← use_key acc key; each_key rest next
    each_key (element other rest) acc = each_key rest acc

    -- keys_reply->type == REDIS_REPLY_ARRAY, where keys_reply is read through
    unfoldable pub page_keys : Option Reply → A → Exec h.Conn A
    unfolding each_key
    page_keys none acc = crash
    page_keys (some (array keys)) acc = each_key keys acc
    page_keys (some other) acc = pure acc

    -- One page, given what goes on from its cursor.
    unfoldable pub scan_step :
        (ℕ → A → Exec h.Conn A) → A → Option (Option Reply × Option Reply) → Exec h.Conn A
    unfolding page_keys page_cursor
    scan_step continue acc none = pure acc
    scan_step continue acc (some (c, k)) = do
      cursor ← page_cursor c
      next ← page_keys k acc
      if eqb cursor 0 then pure next else continue cursor next

    -- The do-while loop over the pages, from a cursor; `fuel` bounds the pages.
    unfoldable pub scan_loop : ℕ → ℕ → A → Exec h.Conn A
    unfolding scan_step scan_page send
    scan_loop zero cursor acc conn = (unfinished, conn)
    scan_loop (suc fuel) cursor acc conn =
        let reply = h.command conn (scan_args cursor) in
        scan_step (scan_loop fuel) acc (scan_page reply.0) reply.1

  unfoldable pub keep_snapshot : List (Text × Text) → Text → Text → Exec h.Conn (List (Text × Text))
  keep_snapshot snapshots key value = pure (snapshots ++ (key, value) ∷ [])

  -- GetAllRoomSnapshots
  unfoldable pub get_all_room_snapshots : ℕ → Exec (RedisClient h.Conn) (List (Text × Text))
  unfolding scan_loop keep_snapshot when_connected
  get_all_room_snapshots fuel = when_connected [] (scan_loop keep_snapshot fuel 0 [])

module _ (j : Json) (h : Hiredis) where
  -- j.contains("server_id") && j["server_id"].is_string() && j["server_id"] == pod_ip
  unfoldable pub belongs_to : Text → j.Value → Exec h.Conn Bool
  belongs_to pod_ip v =
      if j.contains v (codes "server_id")
      then (do
        id ← lift (j.member v (codes "server_id"))
        if j.is_string id
            then (do server_id ← lift (j.get_string id); pure (server_id == pod_ip))
            else pure false)
      else pure false

  -- The try block of DeleteRoomsForServer.
  unfoldable pub delete_if_owned : Text → Bool → Text → Text → Exec h.Conn Bool
  unfolding belongs_to send
  delete_if_owned pod_ip any_deleted key value =
      try_catch
        (do
          v ← lift (j.parse value)
          owned ← belongs_to pod_ip v
          if owned
              then (do send h (codes "DEL" ∷ c_str key ∷ c_str (command_key key) ∷ []); pure true)
              else pure any_deleted)
        (λ what. pure any_deleted)

  -- DeleteRoomsForServer
  unfoldable pub delete_rooms_for_server : ℕ → Text → Exec (RedisClient h.Conn) Bool
  unfolding scan_loop delete_if_owned when_connected
  delete_rooms_for_server fuel pod_ip =
      when_connected false (scan_loop h (delete_if_owned pod_ip) fuel 0 false)
