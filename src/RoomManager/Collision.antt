-- ===== src/RoomManager/Collision.antt =====
-- CreateRoom with an id that is in use, which it does not test.
use pokemon_cpp_server.Common.{refl, ◌∙◌, ℕ, ◌+◌, ◌≡◌, some, true, arith, length}
use pokemon_cpp_server.Text.{Text, eq_refl}
use pokemon_cpp_server.Map.{lookup, insert}
use pokemon_cpp_server.Map.Laws.{lookup-insert, length-insert_old}
use pokemon_cpp_server.Int32.{inc}
use pokemon_cpp_server.RoomManager.{
  Room, RoomManager, create_room, generate_room_id, can_create_room, new_room, add_room,
}
use pokemon_cpp_server.RoomManager.Invariant.{IsValid}

create_room-accepted :
    (name : Text) (max_players : ℕ) (dis : ℕ → ℕ) (now : ℕ) (m : RoomManager)
    → can_create_room m ≡ true
    → create_room name max_players dis now m ≡ (
      generate_room_id dis,
      add_room (generate_room_id dis) (new_room (generate_room_id dis) name max_players now) m,
    )
unfolding create_room can_create_room
create_room-accepted name max_players dis now m a = ground arith

counted_twice :
    (k : Text) (r old : Room) (m : RoomManager)
    → IsValid m
    → lookup k m.rooms ≡ some old
    → inc m.room_count ≡ length (insert k r m.rooms) + 1
counted_twice k r old m v e =
    omega (arith, length-insert_old k r old m.rooms e, v.counted, v.bounded, v.max_rooms_int)

-- In a manager in order that accepts rooms (it is not full and not in maintenance), when the
-- generated id is in use, CreateRoom replaces that room and still counts a new one: right after the
-- call the counter is one more than the number of rooms.
pub create_room-collision :
    (name : Text) (max_players : ℕ) (dis : ℕ → ℕ) (now : ℕ) (m : RoomManager) (old : Room)
    → IsValid m
    → can_create_room m ≡ true
    → lookup (generate_room_id dis) m.rooms ≡ some old
    → let m' = (create_room name max_players dis now m).1 in
      (m'.room_count ≡ length m'.rooms + 1)
      × (lookup (generate_room_id dis) m'.rooms
          ≡ some (new_room (generate_room_id dis) name max_players now))
unfolding add_room
create_room-collision name max_players dis now m old v a e =
    let k = generate_room_id dis in
    let r = new_room k name max_players now in
    rw (create_room-accepted name max_players dis now m a)
      (counted_twice k r old m v e, lookup-insert k k r m.rooms ∙ rw (eq_refl k) refl)
