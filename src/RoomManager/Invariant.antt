-- ===== src/RoomManager/Invariant.antt =====
-- The invariant of the room manager, through any sequence of its operations.
use pokemon_cpp_server.Common.{
  ℕ, ◌≤◌, ◌<◌, ◌≡◌, refl, none, true, arith, length, Bool, Option-cases, inl, inr,
}
use pokemon_cpp_server.Text.{Text}
use pokemon_cpp_server.Map.{lookup, Distinct}
use pokemon_cpp_server.Map.Laws.{
  AllEntries, Distinct-insert, length-insert_new, insert-AllEntries, Distinct-map_values,
  length-map_values, map_values-AllEntries, length-erase, Distinct-erase, erase-AllEntries,
}
use pokemon_cpp_server.Int32.{IsNonneg}
use pokemon_cpp_server.RoomManager.{
  Room, RoomManager, create, create_room_with_id, new_room, add_room, create_room, close_room,
  update_room, generate_room_id, update_room_activity, set_maintenance_mode,
}

-- A room under its key: its id is the key, it is active, and it holds 0 to `max_players` players.
pub record IsRoom (key : Text) (r : Room) : Type 0 where
  pub named : r.id ≡ key
  pub active : r.is_active ≡ true
  pub players : r.player_count ≤ r.max_players
  pub capacity : IsNonneg r.max_players

pub record IsValid (m : RoomManager) : Type 0 where
  pub distinct : Distinct m.rooms
  pub counted : m.room_count ≡ length m.rooms
  pub bounded : length m.rooms ≤ m.max_rooms
  pub max_rooms_int : IsNonneg m.max_rooms
  pub entries : AllEntries IsRoom m.rooms

pub create-IsValid : (max_rooms : ℕ) → IsNonneg max_rooms → IsValid (create max_rooms)
unfolding create
create-IsValid max_rooms h = ground arith

pub add_room-IsValid :
    (k name : Text) (max_players now : ℕ) (m : RoomManager)
    → lookup k m.rooms ≡ none
    → length m.rooms < m.max_rooms
    → IsNonneg max_players
    → IsValid m
    → IsValid (add_room k (new_room k name max_players now) m)
unfolding add_room new_room
add_room-IsValid k name max_players now m fresh room_left int v =
    let r = new_room k name max_players now in
    let longer = length-insert_new k r m.rooms fresh in
    record {
      distinct = Distinct-insert k r m.rooms v.distinct;
      counted = ground (arith, longer);
      bounded = ground (arith, longer);
      max_rooms_int = v.max_rooms_int;
      entries =
          insert-AllEntries IsRoom k r m.rooms
            (record { named = refl; active = refl; players = omega arith; capacity = int })
            v.entries;
    }

pub create_room_with_id-IsValid :
    (k name : Text) (max_players now : ℕ) (m : RoomManager)
    → IsNonneg max_players
    → IsValid m
    → IsValid (create_room_with_id k name max_players now m).1
unfolding create_room_with_id
create_room_with_id-IsValid k name max_players now m int v =
    ground (arith, add_room-IsValid k name max_players now m)

pub close_room-IsValid : (k : Text) (m : RoomManager) → IsValid m → IsValid (close_room k m).1
unfolding close_room
close_room-IsValid k m v = elim (Option-cases (lookup k m.rooms)) [
  | inl e ↦ rw (e, close_room) v
  | inr (r, e) ↦
      let shorter = length-erase k r m.rooms e in
      rw (e, close_room)
        (record {
          distinct = Distinct-erase k m.rooms v.distinct;
          counted = ground arith;
          bounded = ground arith;
          max_rooms_int = v.max_rooms_int;
          entries = erase-AllEntries IsRoom k m.rooms v.entries;
        })
]

update_room-IsRoom : (k : Text) (r : Room) → IsRoom k r → IsRoom k (update_room r)
unfolding update_room
update_room-IsRoom k r v = ground arith

pub update_room_activity-IsValid : (m : RoomManager) → IsValid m → IsValid (update_room_activity m)
unfolding update_room_activity
update_room_activity-IsValid m v = record {
  distinct = Distinct-map_values update_room m.rooms v.distinct;
  counted = rw length-map_values v.counted;
  bounded = rw length-map_values v.bounded;
  max_rooms_int = v.max_rooms_int;
  entries = map_values-AllEntries IsRoom update_room update_room-IsRoom m.rooms v.entries;
}

pub set_maintenance_mode-IsValid :
    (on : Bool) (m : RoomManager) → IsValid m → IsValid (set_maintenance_mode on m)
unfolding set_maintenance_mode
set_maintenance_mode-IsValid on m v = record {
  distinct = v.distinct;
  counted = v.counted;
  bounded = v.bounded;
  max_rooms_int = v.max_rooms_int;
  entries = v.entries;
}

-- One call of a method by some thread. A generated id must not be in use.
pub data Step : RoomManager → RoomManager → Type 0 where
  creates_with_id :
      (m : RoomManager) (k name : Text) (max_players now : ℕ)
      → IsNonneg max_players
      → Step m (create_room_with_id k name max_players now m).1
  creates :
      (m : RoomManager) (name : Text) (max_players : ℕ) (dis : ℕ → ℕ) (now : ℕ)
      → IsNonneg max_players
      → lookup (generate_room_id dis) m.rooms ≡ none
      → Step m (create_room name max_players dis now m).1
  closes : (m : RoomManager) (k : Text) → Step m (close_room k m).1
  updates : (m : RoomManager) → Step m (update_room_activity m)
  maintains : (m : RoomManager) (on : Bool) → Step m (set_maintenance_mode on m)

pub data Reach (m : RoomManager) : RoomManager → Type 0 where
  here : Reach m m
  next : {n o : RoomManager} → Reach m n → Step n o → Reach m o

Step-IsValid : {m n : RoomManager} → Step m n → IsValid m → IsValid n
unfolding create_room
Step-IsValid (creates_with_id m k name max_players now h) v =
    create_room_with_id-IsValid k name max_players now m h v
Step-IsValid (creates m name max_players dis now h fresh) v =
    ground (arith, add_room-IsValid (generate_room_id dis) name max_players now m)
Step-IsValid (closes m k) v = close_room-IsValid k m v
Step-IsValid (updates m) v = update_room_activity-IsValid m v
Step-IsValid (maintains m on) v = set_maintenance_mode-IsValid on m v

-- A manager in order stays in order under any calls of its methods, when the capacities of new
-- rooms are not negative and a generated id is not in use: ids are distinct, the counter is the
-- number of rooms, which is at most the limit, and each room is active and holds 0 to its capacity
-- of players.
pub Reach-IsValid : {m n : RoomManager} → IsValid m → Reach m n → IsValid n
Reach-IsValid v here = v
Reach-IsValid v (next r s) = Step-IsValid s (Reach-IsValid v r)
