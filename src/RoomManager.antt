-- ===== src/RoomManager.antt =====
-- src/server/room_manager.h and room_manager.cpp: the rooms of one server. Each method is
-- one function of the state: it holds the mutex, or reads or writes a single field. The clock and
-- the random numbers are arguments; messages to the console are left out.
pub mod Collision
pub mod Ids
pub mod Invariant
pub mod Outcome
use pokemon_cpp_server.Common.{
  ℕ, zero, suc, ◌+◌, ◌-◌, ◌≡◌, List, [], ◌∷◌, Option, none, some, Bool, true, false, ltb, leb, eqb,
  length, ◌&&◌, ◌||◌, not, if◌then◌else◌,
}
use pokemon_cpp_server.Text.{Text, ◌==◌}
use pokemon_cpp_server.Map.{Map, lookup, insert, erase, map_values, has}
use pokemon_cpp_server.Int32.{inc, dec, to_size, lt_int, divides_int}

-- struct Room; a time point is a number of ticks.
pub record Room : Type 0 where
  pub id : Text
  pub name : Text
  pub player_count : ℕ
  pub max_players : ℕ
  pub is_active : Bool
  pub created_time : ℕ
  pub counter : ℕ

pub record RoomManager : Type 0 where
  pub rooms : Map Room
  pub room_count : ℕ
  pub max_rooms : ℕ
  pub room_counter : ℕ
  pub is_maintaining : Bool

-- RoomManager::RoomManager
unfoldable pub create : ℕ → RoomManager
create max_rooms = record {
  rooms = [];
  room_count = 0;
  max_rooms = max_rooms;
  room_counter = 0;
  is_maintaining = false;
}

-- `ss << std::hex << val` for a value below 16
unfoldable pub hex_digit : ℕ → ℕ
hex_digit v = if ltb v 10 then b'0' + v else b'a' + v - 10

unfoldable pub has_dash : ℕ → Bool
has_dash i = eqb i 8 || eqb i 12 || eqb i 16 || eqb i 20

-- The loop of GenerateRoomId: `n` rounds from round `i`; `dis i` is the number drawn in round `i`.
unfoldable pub generate_loop : ℕ → ℕ → (ℕ → ℕ) → Text
unfolding hex_digit has_dash
generate_loop zero i dis = []
generate_loop (suc n) i dis =
    let rest = hex_digit (dis i) ∷ generate_loop n (i + 1) dis in
    if has_dash i then b'-' ∷ rest else rest

unfoldable pub generate_room_id : (ℕ → ℕ) → Text
unfolding generate_loop
generate_room_id dis = generate_loop 32 0 dis

-- The fields that both methods give a new room.
unfoldable pub new_room : Text → Text → ℕ → ℕ → Room
new_room room_id room_name max_players now = record {
  id = room_id;
  name = room_name;
  player_count = 0;
  max_players = max_players;
  is_active = true;
  created_time = now;
  counter = 0;
}

-- rooms_[room_id] = room; room_count_.fetch_add(1)
unfoldable pub add_room : Text → Room → RoomManager → RoomManager
add_room room_id room m = record m {
  rooms = insert room_id room m.rooms;
  room_count = inc m.room_count;
}

-- CreateRoom: the new id, or the empty text when refused.
unfoldable pub create_room : Text → ℕ → (ℕ → ℕ) → ℕ → RoomManager → Text × RoomManager
unfolding generate_room_id new_room add_room
create_room room_name max_players dis now m =
    if m.is_maintaining
    then ([], m)
    else if leb (to_size m.max_rooms) (length m.rooms)
    then ([], m)
    else (let room_id = generate_room_id dis in
        (room_id, add_room room_id (new_room room_id room_name max_players now) m))

-- CreateRoomWithId
unfoldable pub create_room_with_id : Text → Text → ℕ → ℕ → RoomManager → Text × RoomManager
unfolding new_room add_room has
create_room_with_id room_id room_name max_players now m =
    if m.is_maintaining
    then ([], m)
    else if leb (to_size m.max_rooms) (length m.rooms)
    then ([], m)
    else if has room_id m.rooms
    then ([], m)
    else (room_id, add_room room_id (new_room room_id room_name max_players now) m)

-- GetRoomStatus: `some room` for true with the room in `out_room`.
unfoldable pub get_room_status : Text → RoomManager → Option Room
get_room_status room_id m = lookup room_id m.rooms

-- CloseRoom
unfoldable pub close_room : Text → RoomManager → Bool × RoomManager
close_room room_id m = elim (lookup room_id m.rooms) [
  | none ↦ (false, m)
  | some room ↦ (true, record m { rooms = erase room_id m.rooms; room_count = dec m.room_count })
]

unfoldable pub get_all_rooms : RoomManager → Map Room
get_all_rooms m = m.rooms

unfoldable pub get_room_count : RoomManager → ℕ
get_room_count m = m.room_count

unfoldable pub get_max_rooms : RoomManager → ℕ
get_max_rooms m = m.max_rooms

unfoldable pub can_create_room : RoomManager → Bool
can_create_room m = not m.is_maintaining && ltb (length m.rooms) (to_size m.max_rooms)

-- The loop body of UpdateRoomActivity.
unfoldable pub update_room : Room → Room
update_room r =
    let counter = inc r.counter in
    if divides_int 3 counter && lt_int r.player_count r.max_players
    then record r { counter = counter; player_count = inc r.player_count }
    else if divides_int 5 counter && lt_int 0 r.player_count
    then record r { counter = counter; player_count = dec r.player_count }
    else record r { counter = counter }

unfoldable pub update_room_activity : RoomManager → RoomManager
update_room_activity m = record m { rooms = map_values update_room m.rooms }

unfoldable pub set_maintenance_mode : Bool → RoomManager → RoomManager
set_maintenance_mode is_maintaining m = record m { is_maintaining = is_maintaining }

unfoldable pub is_in_maintenance_mode : RoomManager → Bool
is_in_maintenance_mode m = m.is_maintaining
