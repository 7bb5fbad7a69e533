-- ===== src/RedisClient.antt =====
-- src/server/redis_client.h and redis_client.cpp: what the server keeps in Redis. A context is none
-- for a null pointer; an open context carries the server behind it. A text that is formatted by %s
-- ends at its first NUL (`c_str`); messages to the console are left out.
pub mod Scan
pub mod Store
pub mod Heartbeat
use pokemon_cpp_server.Common.{
  ℕ, ◌/◌, ◌%◌, ◌*◌, Option, none, some, Bool, true, false, List, [], ◌∷◌, ◌++◌, ltb, if◌then◌else◌,
  ◌^◌,
}
use pokemon_cpp_server.Text.{Text, codes, ◌==◌, c_str}
use pokemon_cpp_server.Text.Number.{decimal}
use pokemon_cpp_server.Int32.{lt_int}
use pokemon_cpp_server.Exec.{Exec, Outcome, ok, fault, pure, crash, ◌>>=◌, ◌>>◌}
use pokemon_cpp_server.External.Hiredis.{
  Hiredis, Reply, Replies, status, error, integer, string, nil, array, Connection, null, failed,
  opened,
}

pub record RedisClient (Conn : Type 0) : Type 0 where
  pub context : Option Conn

abbrev pub nodes_set_key : Text
nodes_set_key = codes "pokemon:server:nodes"

abbrev pub node_heartbeat_prefix : Text
node_heartbeat_prefix = codes "pokemon:server:heartbeat:"

abbrev pub room_prefix : Text
room_prefix = codes "pokemon:room:"

abbrev pub command_suffix : Text
command_suffix = codes ":command"

-- The keys of a node's heartbeat, of a room and of a room's command.
abbrev pub heartbeat_key : Text → Text
heartbeat_key pod_ip = node_heartbeat_prefix ++ pod_ip

abbrev pub room_key : Text → Text
room_key room_id = room_prefix ++ room_id

abbrev pub command_key : Text → Text
command_key key = key ++ command_suffix

-- reply->type == REDIS_REPLY_INTEGER && reply->integer >= 0
unfoldable pub is_count : Option Reply → Bool
is_count (some (integer n)) = ltb n (2 ^ 63)
is_count _ = false

-- reply->type == REDIS_REPLY_INTEGER
unfoldable pub is_integer : Option Reply → Bool
is_integer (some (integer n)) = true
is_integer _ = false

-- reply->type == REDIS_REPLY_STATUS && reply->str != nullptr && std::string(reply->str) == "OK"
unfoldable pub is_ok : Option Reply → Bool
is_ok (some (status (some text))) = text == codes "OK"
is_ok _ = false

module _ {Conn : Type 0} where
  -- RedisClient::RedisClient
  unfoldable pub create : RedisClient Conn
  create = record { context = none }

  unfoldable pub is_connected : RedisClient Conn → Bool
  is_connected c = elim c.context [ none ↦ false | some conn ↦ true ]

  -- Disconnect, which the destructor calls
  unfoldable pub disconnect : RedisClient Conn → RedisClient Conn
  disconnect c = record { context = none }

  unfoldable pub keep_context : Connection Conn → Option Conn
  keep_context null = none
  keep_context (failed message) = none
  keep_context (opened conn) = some conn

  -- A method's code behind its test of IsConnected, whose result is `refused` otherwise.
  unfoldable pub when_connected : {A : Type 0} → A → Exec Conn A → Exec (RedisClient Conn) A
  when_connected refused body c = elim c.context [
    | none ↦ (ok refused, c)
    | some conn ↦ let r = body conn in (r.0, record { context = some r.1 })
  ]

  -- SetRoomData makes a std::string of the status text without a test for null.
  unfoldable pub set_reply : Option Reply → Exec Conn Bool
  set_reply (some (status (some text))) = pure (text == codes "OK")
  set_reply (some (status none)) = crash
  set_reply _ = pure false

module _ (h : Hiredis) where
  unfoldable pub send : List Text → Exec h.Conn (Option Reply)
  send args conn = let r = h.command conn args in (ok r.0, r.1)

  -- Connect
  unfoldable pub connect : Text → ℕ → ℕ → RedisClient h.Conn → Bool × RedisClient h.Conn
  unfolding keep_context is_connected
  connect host port timeout_ms c =
      let opened_client : RedisClient h.Conn = record {
        context =
            keep_context
              (h.connect (c_str host) port (timeout_ms / 1000) (timeout_ms % 1000 * 1000));
      } in
      (is_connected opened_client, opened_client)

  -- TouchNodeHeartbeat: the time to live is at least 300 seconds.
  unfoldable pub touch : Text → ℕ → Exec h.Conn Bool
  unfolding send is_ok
  touch pod_ip ttl_seconds = do
    let ttl = if lt_int ttl_seconds 300 then 300 else ttl_seconds
    reply ←
        send
          (codes "SET" ∷ c_str (heartbeat_key pod_ip) ∷ codes "1" ∷ codes "EX" ∷ decimal ttl ∷ [])
    pure (is_ok reply)

  unfoldable pub touch_node_heartbeat : Text → ℕ → Exec (RedisClient h.Conn) Bool
  unfolding touch when_connected
  touch_node_heartbeat pod_ip ttl_seconds = when_connected false (touch pod_ip ttl_seconds)

  -- RegisterNode
  unfoldable pub register_node : Text → Exec (RedisClient h.Conn) Bool
  unfolding touch send when_connected is_count
  register_node pod_ip = when_connected false (do
    reply ← send (codes "SADD" ∷ nodes_set_key ∷ c_str pod_ip ∷ [])
    if is_count reply then (do touch pod_ip 30; pure true) else pure false)

  -- UnregisterNode
  unfoldable pub unregister_node : Text → Exec (RedisClient h.Conn) Bool
  unfolding send when_connected is_count
  unregister_node pod_ip = when_connected false (do
    reply ← send (codes "DEL" ∷ nodes_set_key ∷ c_str (heartbeat_key pod_ip) ∷ [])
    pure (is_count reply))

  -- SetRoomData: the arguments go with their lengths, NULs included.
  unfoldable pub set_room_data : Text → Text → Exec (RedisClient h.Conn) Bool
  unfolding send when_connected set_reply
  set_room_data room_id content = when_connected false (do
    reply ← send (codes "SET" ∷ room_key room_id ∷ content ∷ codes "EX" ∷ codes "3600" ∷ [])
    set_reply reply)

  -- DeleteRoomData
  unfoldable pub delete_room_data : Text → Exec (RedisClient h.Conn) Bool
  unfolding send when_connected is_integer
  delete_room_data room_id = when_connected false (do
    let key = room_key room_id
    reply ← send (codes "DEL" ∷ c_str key ∷ c_str (command_key key) ∷ [])
    pure (is_integer reply))
