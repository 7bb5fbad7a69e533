-- ===== src/RedisClient/Store.antt =====
-- What the methods of RedisClient do to the entries of a server that follows the documentation.
use pokemon_cpp_server.Common.{
  ℕ, ◌<◌, ◌^◌, ◌≡◌, sym, ◌∙◌, ap, true, ◌||◌, Option, none, some, [], ◌∷◌, ◌++◌, arith,
  if◌then◌else◌, refl, Bool, false,
}
use pokemon_cpp_server.Text.{
  Text, codes, ◌==◌, c_str, c_str-NoNul, c_str-cut, NoNul, NoNul-append, eq_iff, eq_refl,
}
use mathlib.Core.List.{append_assoc}
use pokemon_cpp_server.Text.Number.{decimal}
use pokemon_cpp_server.Exec.{ok}
use pokemon_cpp_server.External.Hiredis.{Hiredis, Reply, integer}
use pokemon_cpp_server.External.Server.{Server, Entry, text}
use pokemon_cpp_server.RedisClient.{
  RedisClient, nodes_set_key, room_key, command_key, room_prefix, command_suffix, heartbeat_key,
  set_room_data, delete_room_data, unregister_node, is_count, is_integer,
}

room_prefix-NoNul : NoNul room_prefix
unfolding codes
room_prefix-NoNul = omega arith

command_suffix-NoNul : NoNul command_suffix
unfolding codes
command_suffix-NoNul = omega arith

room_key-NoNul : (room_id : Text) → NoNul room_id → NoNul (room_key room_id)
room_key-NoNul room_id clean = NoNul-append room_prefix room_id room_prefix-NoNul clean

command_key-NoNul : (room_id : Text) → NoNul room_id → NoNul (command_key (room_key room_id))
command_key-NoNul room_id clean =
    NoNul-append (room_key room_id) command_suffix (room_key-NoNul room_id clean)
      command_suffix-NoNul

cut_room :
    (before after : Text) → NoNul before → c_str (room_key (before ++ 0 ∷ after)) ≡ room_key before
cut_room before after clean =
    ap c_str (sym (append_assoc room_prefix before (0 ∷ after)))
    ∙ c_str-cut (room_key before) after (room_key-NoNul before clean)

cut_command :
    (before after : Text)
    → NoNul before
    → c_str (command_key (room_key (before ++ 0 ∷ after))) ≡ room_key before
cut_command before after clean =
    ap c_str (
      ap (λ t. t ++ command_suffix) (sym (append_assoc room_prefix before (0 ∷ after)))
      ∙ append_assoc (room_key before) (0 ∷ after) command_suffix)
    ∙ c_str-cut (room_key before) (after ++ command_suffix) (room_key-NoNul before clean)

is_integer-del : (r : Option Reply) (n : ℕ) → r ≡ some (integer n) → is_integer r ≡ true
unfolding is_integer
is_integer-del r n e = rw e

is_count-del : (r : Option Reply) (n : ℕ) → r ≡ some (integer n) → n < 2 ^ 63 → is_count r ≡ true
unfolding is_count
is_count-del r n e h = rw e (ground arith)

hour : codes "3600" ≡ decimal 3600
unfolding codes decimal
hour = refl

-- An entry that is removed may have had any value before.
removed_over :
    {A : Type 0} (a b : Bool) (x y : Option A) (z w : Option A)
    → z ≡ (if a || b then none else w)
    → w ≡ (if a then x else y)
    → z ≡ (if a || b then none else y)
removed_over true b x y z w e f = e
removed_over false true x y z w e f = e
removed_over false false x y z w e f = e ∙ f

module _ (h : Hiredis) (d : Server h) where
  abbrev on : h.Conn → RedisClient h.Conn
  on c = record { context = some c }

  abbrev Entries : h.Conn → (Text → Option Entry) → Type 0
  Entries c f = (i : Text) → d.entry c i ≡ f i

  set_room_data_lem :
      (room_id content : Text) (c : h.Conn)
      → (c' : h.Conn) × (set_room_data h room_id content (on c) ≡ (ok true, on c'))
        × Entries c' (λ i. if room_key room_id == i then some (text content) else d.entry c i)
  unfolding set_room_data
  set_room_data_lem room_id content c =
      let k = room_key room_id in
      let reply = d.set_reply c k content 3600 (omega arith) (omega arith) in
      (
        (h.command c (codes "SET" ∷ k ∷ content ∷ codes "EX" ∷ decimal 3600 ∷ [])).1,
        rw (hour, reply, eq_refl (codes "OK")) refl,
        d.set_entry c k content 3600 (omega arith) (omega arith),
      )

  -- On a connected client of a server that follows the documentation, DeleteRoomData of an id
  -- without a NUL returns true, and the entries that it removes are exactly those of the room and
  -- of the room's command.
  pub delete_room_data_lem :
      (room_id : Text) (c : h.Conn)
      → NoNul room_id
      → (c' : h.Conn) × (delete_room_data h room_id (on c) ≡ (ok true, on c'))
        × ((i : Text)
            → d.entry c' i ≡ (
                if room_key room_id == i || command_key (room_key room_id) == i
                then none
                else d.entry c i))
  unfolding delete_room_data
  delete_room_data_lem room_id c clean =
      let del = d.del_reply c (room_key room_id) (command_key (room_key room_id)) in
      (
        _,
        rw (
          c_str-NoNul (room_key room_id) (room_key-NoNul room_id clean),
          c_str-NoNul (command_key (room_key room_id)) (command_key-NoNul room_id clean),
          is_integer-del _ del.0 del.1,
        ),
        λ i. d.del_entry c (room_key room_id) (command_key (room_key room_id)) i,
      )

  -- On a connected client of a server that follows the documentation, publishing the state of a room
  -- whose id has no NUL and then deleting the room's data both return true, and afterwards the
  -- entries of the room and of its command are gone and every other entry is as before.
  pub set_room_data-delete_room_data :
      (room_id content : Text) (c : h.Conn)
      → NoNul room_id
      → (c1 : h.Conn) × (c2 : h.Conn) × (set_room_data h room_id content (on c) ≡ (ok true, on c1))
        × (delete_room_data h room_id (on c1) ≡ (ok true, on c2))
        × Entries c2 (λ i.
          if room_key room_id == i || command_key (room_key room_id) == i
          then none
          else d.entry c i)
  set_room_data-delete_room_data room_id content c clean =
      let r = set_room_data_lem room_id content c in
      let s = delete_room_data_lem room_id r.0 clean in
      (
        r.0,
        s.0,
        r.1,
        s.1,
        λ i.
            removed_over (room_key room_id == i) (command_key (room_key room_id) == i)
              (some (text content)) (d.entry c i) (d.entry s.0 i) (d.entry r.0 i) (s.2 i) (r.2 i),
      )

  -- On a connected client of a server that follows the documentation, deleting the data of a room
  -- whose id has no NUL also deletes the data of the room whose id is that id with ":command" at
  -- its end.
  pub delete_room_data_collision :
      (room_id : Text) (c : h.Conn)
      → NoNul room_id
      → (c' : h.Conn) × (delete_room_data h room_id (on c) ≡ (ok true, on c'))
        × (d.entry c' (room_key (room_id ++ command_suffix)) ≡ none)
  delete_room_data_collision room_id c clean =
      let r = delete_room_data_lem room_id c clean in
      let other = room_key (room_id ++ command_suffix) in
      let same : command_key (room_key room_id) ≡ other =
        append_assoc room_prefix room_id command_suffix in
      (r.0, r.1, ground (arith, r.2 other, eq_iff (command_key (room_key room_id)) other, same))

  -- On a connected client of a server that follows the documentation, DeleteRoomData of an id with
  -- a NUL removes the entry of the room whose id is the part before the first NUL, and no other
  -- entry.
  pub delete_room_data_nul :
      (before after : Text) (c : h.Conn)
      → NoNul before
      → (c' : h.Conn) × (delete_room_data h (before ++ 0 ∷ after) (on c) ≡ (ok true, on c'))
        × ((i : Text) → d.entry c' i ≡ (if room_key before == i then none else d.entry c i))
  unfolding delete_room_data
  delete_room_data_nul before after c clean =
      let del = d.del_reply c (room_key before) (room_key before) in
      (
        (h.command c (codes "DEL" ∷ room_key before ∷ room_key before ∷ [])).1,
        rw (
          cut_room before after clean,
          cut_command before after clean,
          is_integer-del _ del.0 del.1,
        ),
        λ i. ground (arith, d.del_entry c (room_key before) (room_key before) i),
      )

  -- On a connected client of a server that follows the documentation, UnregisterNode returns true
  -- and removes the whole set of nodes, those of the other servers included.
  pub unregister_node_clears :
      (pod_ip : Text) (c : h.Conn)
      → (c' : h.Conn) × (unregister_node h pod_ip (on c) ≡ (ok true, on c'))
        × (d.entry c' nodes_set_key ≡ none)
  unfolding unregister_node
  unregister_node_clears pod_ip c =
      let del = d.del_reply c nodes_set_key (c_str (heartbeat_key pod_ip)) in
      (
        (h.command c (codes "DEL" ∷ nodes_set_key ∷ c_str (heartbeat_key pod_ip) ∷ [])).1,
        rw (is_count-del _ del.0 del.1 del.2),
        ground (
          arith,
          d.del_entry c nodes_set_key (c_str (heartbeat_key pod_ip)) nodes_set_key,
          eq_refl nodes_set_key,
        ),
      )
