-- ===== src/RedisClient/Heartbeat.antt =====
-- Heartbeat keys: writing them, and reading the nodes back from them.
use pokemon_cpp_server.Common.{
  ℕ, ◌≤◌, ◌<◌, ◌^◌, ◌≡◌, refl, true, false, some, List, [], ◌∷◌, ◌++◌, arith, ltb, length,
  length-append, if◌then◌else◌,
}
use pokemon_cpp_server.Text.{
  Text, codes, is_empty, drop-append, starts_with-append, starts_with-eq, c_str,
}
use pokemon_cpp_server.Text.Number.{decimal, strtoull, strtoull-decimal}
use pokemon_cpp_server.Int32.{word, lt_int}
use pokemon_cpp_server.Exec.{ok}
use pokemon_cpp_server.External.Hiredis.{Hiredis, Replies, string, array, end, element}
use pokemon_cpp_server.RedisClient.{node_heartbeat_prefix, heartbeat_key, touch, is_ok}
use pokemon_cpp_server.RedisClient.Scan.{node_of_key, collect_nodes, get_all_nodes, nodes_reply}

longer : (p s : Text) → is_empty s ≡ false → length p < length (p ++ s)
unfolding is_empty
longer p [] h = ground arith
longer p (c ∷ s) h = omega (arith, length-append p (c ∷ s))

lt→ltb : (a b : ℕ) → a < b → ltb a b ≡ true
lt→ltb a b h = ground arith

-- The node of the key that TouchNodeHeartbeat writes is the node itself.
pub node_of_key-heartbeat_key :
    (pod_ip : Text) → is_empty pod_ip ≡ false → node_of_key (heartbeat_key pod_ip) ≡ some pod_ip
unfolding node_of_key
node_of_key-heartbeat_key ip h = rw (
  lt→ltb _ _ (longer node_heartbeat_prefix ip h),
  starts_with-append node_heartbeat_prefix ip,
  drop-append node_heartbeat_prefix ip,
  h,
)

-- A key names a node only if it is that node's heartbeat key.
pub node_of_key_sound :
    (key pod_ip : Text) → node_of_key key ≡ some pod_ip → key ≡ heartbeat_key pod_ip
unfolding node_of_key
node_of_key_sound key ip h = ground (arith, starts_with-eq key node_heartbeat_prefix)

-- The reply to KEYS that lists the heartbeat keys of some nodes.
abbrev pub heartbeats : List Text → Replies
heartbeats [] = end
heartbeats (ip ∷ ips) = element (string (heartbeat_key ip)) (heartbeats ips)

abbrev pub AllNamed : List Text → Type 0
AllNamed [] = Unit
AllNamed (ip ∷ ips) = (is_empty ip ≡ false) × AllNamed ips

collect_nodes-heartbeats :
    (ips : List Text) → AllNamed ips → collect_nodes (heartbeats ips) ≡ ok ips
unfolding collect_nodes
collect_nodes-heartbeats [] h = refl
collect_nodes-heartbeats (ip ∷ ips) h =
    rw (collect_nodes-heartbeats ips h.1, node_of_key-heartbeat_key ip h.0)

module _ (h : Hiredis) where
  -- On a connection, the time to live that TouchNodeHeartbeat sends is at least 300 seconds,
  -- whatever int it is asked for, and the text of the command reads back as that number.
  pub touch_ttl :
      (pod_ip : Text) (ttl_seconds : ℕ) (c : h.Conn)
      → ttl_seconds < word
      → (t : ℕ) × (300 ≤ t)
        × (strtoull (decimal t) ≡ t)
        × (touch h pod_ip ttl_seconds c ≡ (
            let r = h.command c (
              codes "SET"
              ∷ c_str (heartbeat_key pod_ip)
              ∷ codes "1"
              ∷ codes "EX"
              ∷ decimal t
              ∷ []) in
            (ok (is_ok r.0), r.1)))
  unfolding touch
  touch_ttl ip ttl c b =
      let t = if lt_int ttl 300 then 300 else ttl in
      let big : 300 ≤ t = ground arith in
      let small : t < 2 ^ 64 = ground arith in (t, big, strtoull-decimal t small, refl)

  -- On an open connection whose server answers KEYS with the heartbeat keys of some nodes, none of
  -- which has an empty name, GetAllNodes returns these nodes in their order.
  pub get_all_nodes-heartbeats :
      (c c' : h.Conn) (ips : List Text)
      → AllNamed ips
      → h.command c (codes "KEYS" ∷ codes "pokemon:server:heartbeat:*" ∷ [])
        ≡ (some (array (heartbeats ips)), c')
      → get_all_nodes h (record { context = some c }) ≡ (ok ips, record { context = some c' })
  unfolding get_all_nodes nodes_reply
  get_all_nodes-heartbeats c c' ips named e = rw (e, collect_nodes-heartbeats ips named)
