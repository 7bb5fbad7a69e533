-- ===== src/RoomManager/Outcome.antt =====
-- What the methods of the room manager return and leave behind, on every branch.
use pokemon_cpp_server.Common.{
  ap, sym, ℕ, ◌≡◌, refl, [], Option, none, some, Bool, ◌&&◌, not, true, false, arith, if◌then◌else◌,
  Option-cases, inl, inr, ◌∙◌, ◌⊎◌,
}
use mathlib.Core.Option
use pokemon_cpp_server.Text.{Text, ◌==◌, eq_iff, eq_refl}
use pokemon_cpp_server.Map.{lookup, has}
use pokemon_cpp_server.Map.Laws.{lookup-insert, lookup-erase, lookup-map_values, erase-insert_new}
use pokemon_cpp_server.RoomManager.{
  Room, RoomManager, create_room_with_id, get_room_status, close_room, update_room,
  update_room_activity, new_room, add_room, can_create_room, set_maintenance_mode,
}
use pokemon_cpp_server.RoomManager.Invariant.{IsValid}

-- The room manager as its clients see it: a partial function from ids to rooms.
abbrev pub view : RoomManager → Text → Option Room
view m k = get_room_status k m

-- What CreateRoomWithId should do: add the room under its id if the server takes rooms and the id
-- is free, and otherwise nothing.
abbrev pub accepts : RoomManager → Text → Bool
accepts m k = can_create_room m && not (has k m.rooms)

-- CreateRoomWithId returns its id and adds one fresh room when it accepts; otherwise it returns the
-- empty text and changes nothing.
pub create_room_with_id_lem :
    (k name : Text) (max_players now : ℕ) (m : RoomManager)
    → create_room_with_id k name max_players now m
      ≡ (if accepts m k then (k, add_room k (new_room k name max_players now) m) else ([], m))
unfolding create_room_with_id can_create_room
create_room_with_id_lem k name max_players now m = ground arith

pub view-add_room :
    (k j : Text) (r : Room) (m : RoomManager)
    → view (add_room k r m) j ≡ (if k == j then some r else view m j)
unfolding add_room get_room_status
view-add_room k j r m = lookup-insert k j r m.rooms

-- CreateRoomWithId returns its id when it accepts and the empty text otherwise; afterwards an
-- accepted id has a fresh room, and every other id is as before.
pub create_room_with_id-view :
    (k name : Text) (max_players now : ℕ) (m : RoomManager)
    → let r = create_room_with_id k name max_players now m in
      (r.0 ≡ (if accepts m k then k else []))
      × ((i : Text)
          → view r.1 i ≡ (
              if accepts m k && (k == i) then some (new_room k name max_players now) else view m i))
unfolding create_room_with_id can_create_room
create_room_with_id-view k name max_players now m = (
  ap (λ r. r.0) (create_room_with_id_lem k name max_players now m) ∙ ground arith,
  λ i. ground (arith, view-add_room k i (new_room k name max_players now) m),
)

-- In a manager in order, after CloseRoom the id is gone and every other room is as before, and the
-- result says whether the room was there.
pub close_room_lem :
    (k : Text) (m : RoomManager)
    → IsValid m
    → ((close_room k m).0 ≡ has k m.rooms)
      × ((j : Text) → view (close_room k m).1 j ≡ (if k == j then none else view m j))
unfolding close_room get_room_status has
close_room_lem k m v = elim (Option-cases (lookup k m.rooms)) [
  | inl e ↦ (ground arith, λ j. ground (arith, eq_iff k j))
  | inr (r, e) ↦ (ground arith, λ j. ground (arith, lookup-erase k j m.rooms v.distinct))
]

-- In a manager in order, closing a room that CreateRoomWithId has just accepted succeeds and
-- restores the manager.
pub close_room-create_room_with_id :
    (k name : Text) (max_players now : ℕ) (m : RoomManager)
    → IsValid m
    → accepts m k ≡ true
    → close_room k (create_room_with_id k name max_players now m).1 ≡ (true, m)
unfolding close_room can_create_room has add_room
close_room-create_room_with_id k name max_players now m v h =
    let r = new_room k name max_players now in
    rw (create_room_with_id_lem k name max_players now m, h)
      (ground (arith, lookup-insert k k r m.rooms, eq_refl k, erase-insert_new k r m.rooms))

-- A round of the activity simulation updates each room, and adds and removes none.
pub view-update_room_activity :
    (m : RoomManager) (k : Text)
    → view (update_room_activity m) k ≡ Option.map update_room (view m k)
unfolding update_room_activity get_room_status
view-update_room_activity m k = lookup-map_values update_room k m.rooms

pub has-add_room :
    (k i : Text) (r : Room) (m : RoomManager)
    → has i (add_room k r m).rooms ≡ (if k == i then true else has i m.rooms)
unfolding add_room has
has-add_room k i r m = ground (arith, lookup-insert k i r m.rooms)

pub has-close_room :
    (k i : Text) (m : RoomManager)
    → IsValid m
    → has i (close_room k m).1.rooms ≡ (if k == i then false else has i m.rooms)
unfolding has get_room_status
has-close_room k i m v = ground (arith, (close_room_lem k m v).1 i)

pub create_room_with_id-accepted :
    (k name : Text) (max_players now : ℕ) (m : RoomManager)
    → accepts m k ≡ true
    → create_room_with_id k name max_players now m
      ≡ (k, add_room k (new_room k name max_players now) m)
create_room_with_id-accepted k name max_players now m a =
    create_room_with_id_lem k name max_players now m ∙ rw a

pub close_room-add_room :
    (k name : Text) (max_players now : ℕ) (m : RoomManager)
    → IsValid m
    → accepts m k ≡ true
    → (close_room k (add_room k (new_room k name max_players now) m)).1 ≡ m
close_room-add_room k name max_players now m v a =
    ap (λ r. (close_room k r.1).1) (sym (create_room_with_id-accepted k name max_players now m a))
    ∙ ap (λ r. r.1) (close_room-create_room_with_id k name max_players now m v a)

-- CloseRoom returns false and changes nothing, or returns true.
pub close_room_cases :
    (k : Text) (m : RoomManager)
    → ((has k m.rooms ≡ false) × (close_room k m ≡ (false, m)))
      ⊎ ((has k m.rooms ≡ true) × (close_room k m ≡ (true, (close_room k m).1)))
unfolding close_room has
close_room_cases k m = elim (Option-cases (lookup k m.rooms)) [
  | inl e ↦ inl (ground arith, ground arith)
  | inr (r, e) ↦ inr (ground arith, ground arith)
]

pub has-update_room_activity :
    (i : Text) (m : RoomManager) → has i (update_room_activity m).rooms ≡ has i m.rooms
unfolding update_room_activity has
has-update_room_activity i m = ground (arith, lookup-map_values update_room i m.rooms)

pub has-set_maintenance_mode :
    (i : Text) (on : Bool) (m : RoomManager)
    → has i (set_maintenance_mode on m).rooms ≡ has i m.rooms
unfolding set_maintenance_mode
has-set_maintenance_mode i on m = refl
