-- ===== src/Examples/Rooms.antt =====
-- Examples for the room manager and for the signal handler.
use pokemon_cpp_server.Common.{
  ℕ, ◌<◌, ◌≡◌, refl, none, some, true, false, List, [], ◌∷◌, arith, length, if◌then◌else◌, ◌+◌, ◌≤◌,
  ◌&&◌, ltb,
}
use pokemon_cpp_server.Map.{has, lookup, insert}
use pokemon_cpp_server.Text.{Text, codes, ◌==◌}
use pokemon_cpp_server.RoomManager.{
  RoomManager, create, create_room_with_id, close_room, update_room_activity, generate_room_id,
  can_create_room, new_room, create_room,
}
use pokemon_cpp_server.RoomManager.Invariant.{
  IsValid, create-IsValid, create_room_with_id-IsValid, Reach-IsValid, here, next, creates_with_id,
  closes, updates,
}
use pokemon_cpp_server.RoomManager.Collision.{create_room-collision}
use pokemon_cpp_server.RoomManager.Outcome.{
  accepts, view, close_room_lem, close_room-create_room_with_id, create_room_with_id-view,
}
use pokemon_cpp_server.RoomManager.Ids.{generate_room_id-injective}
use pokemon_cpp_server.SignalHandler.{
  handle_events-runs, handle_events-le-sigterms, signalled, polled, handle_events, counting, Event,
  runs, sigterms,
}

abbrev arena : Text
arena = codes "arena"

abbrev empty : RoomManager
empty = create 10

abbrev one_room_result : Text × RoomManager
one_room_result = create_room_with_id arena (codes "Battle Room") 2 7 empty

abbrev one_room : RoomManager
one_room = one_room_result.1

empty-IsValid : IsValid empty
empty-IsValid = create-IsValid 10 (omega arith)

one_room-IsValid : IsValid one_room
one_room-IsValid =
    create_room_with_id-IsValid arena (codes "Battle Room") 2 7 empty (omega arith) empty-IsValid

Reach-IsValid_example : IsValid (close_room arena (update_room_activity one_room)).1
Reach-IsValid_example = Reach-IsValid empty-IsValid (
    next
      (next (next here (creates_with_id empty arena (codes "Battle Room") 2 7 (omega arith)))
        (updates one_room))
      (closes (update_room_activity one_room) arena))

close_room_lem_example :
    ((close_room arena one_room).0 ≡ has arena one_room.rooms)
    × ((j : Text)
        → view (close_room arena one_room).1 j ≡ (if arena == j then none else view one_room j))
close_room_lem_example = close_room_lem arena one_room one_room-IsValid

accepts-arena : accepts empty arena ≡ true
unfolding can_create_room create has lookup
accepts-arena = refl

close_room-create_room_with_id_example : close_room arena one_room ≡ (true, empty)
close_room-create_room_with_id_example =
    close_room-create_room_with_id arena (codes "Battle Room") 2 7 empty empty-IsValid accepts-arena

create_room_with_id-view_example :
    (one_room_result.0 ≡ (if accepts empty arena then arena else []))
    × ((i : Text)
        → view one_room i ≡ (
            if accepts empty arena && (arena == i)
            then some (new_room arena (codes "Battle Room") 2 7)
            else view empty i))
create_room_with_id-view_example = create_room_with_id-view arena (codes "Battle Room") 2 7 empty

-- Draws that differ from the constant ones only past the last digit.
abbrev draws : ℕ → ℕ
draws k = if ltb k 32 then 11 else 12

draws-small : (k : ℕ) → draws k < 16
draws-small k = ground arith

same_id : generate_room_id (λ k. 11) ≡ generate_room_id draws
unfolding generate_room_id
same_id = refl

generate_room_id-injective_example : 11 ≡ draws 31
generate_room_id-injective_example =
    generate_room_id-injective (λ k. 11) draws (λ k. omega arith) draws-small same_id 31
      (omega arith)

-- Two signals before a poll, another signal, and a SIGTERM after the last poll.
abbrev events : List Event
events = signalled 15 ∷ signalled 15 ∷ polled ∷ polled ∷ signalled 2 ∷ polled ∷ signalled 15 ∷ []

handle_events-runs_example : (handle_events events (counting false, 0)).1 ≡ 0 + runs false events
handle_events-runs_example = handle_events-runs events false 0

handle_events-le-sigterms_example :
    (handle_events events (counting false, 0)).1 ≤ 0 + sigterms events
handle_events-le-sigterms_example = handle_events-le-sigterms events 0

-- The room of a generated id, made again.
abbrev drawn : RoomManager
drawn = (create_room_with_id (generate_room_id draws) arena 2 7 empty).1

drawn-IsValid : IsValid drawn
drawn-IsValid =
    create_room_with_id-IsValid (generate_room_id draws) arena 2 7 empty (omega arith) empty-IsValid

drawn_accepts : can_create_room drawn ≡ true
unfolding can_create_room create_room_with_id create insert
drawn_accepts = refl

in_use :
    lookup (generate_room_id draws) drawn.rooms ≡ some (new_room (generate_room_id draws) arena 2 7)
unfolding create_room_with_id create lookup generate_room_id insert ◌==◌
in_use = refl

create_room-collision_example :
    let m' = (create_room arena 2 draws 8 drawn).1 in
    (m'.room_count ≡ length m'.rooms + 1)
    × (lookup (generate_room_id draws) m'.rooms
        ≡ some (new_room (generate_room_id draws) arena 2 8))
create_room-collision_example =
    create_room-collision arena 2 draws 8 drawn (new_room (generate_room_id draws) arena 2 7)
      drawn-IsValid drawn_accepts in_use
