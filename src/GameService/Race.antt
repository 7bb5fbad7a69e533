-- ===== src/GameService/Race.antt =====
-- CreateRoom takes the locks of the room manager and of the engine one after the other: what a
-- DestroyRoom between the two leaves.
use pokemon_cpp_server.Common.{◌≡◌, refl, ◌∙◌, ap, some, true, false, arith, ℕ, []}
use pokemon_cpp_server.Map.{has}
use pokemon_cpp_server.GameService.{publish_state}
use pokemon_cpp_server.Text.{Text, codes, eq_refl}
use pokemon_cpp_server.External.Json.{Json}
use pokemon_cpp_server.External.Simulator.{Simulator}
use pokemon_cpp_server.External.Hiredis.{Hiredis}
use pokemon_cpp_server.RoomManager.{create_room_with_id}
use pokemon_cpp_server.RoomManager.Outcome.{
  create_room_with_id-accepted, has-add_room, has-close_room,
}
use pokemon_cpp_server.BattleEngine.{BattleEngine, find_session, has_session, store_session}
use pokemon_cpp_server.BattleEngine.Laws.{create_session-Starts, find_session-store_session}
use pokemon_cpp_server.GameService.{CreateRoomRequest, start_battle, destroy_room, publish_state}
use pokemon_cpp_server.GameService.Invariant.{IsValid, has_room}
use pokemon_cpp_server.GameService.Session.{W, start_battle_started, publish_state-SameCore}
use pokemon_cpp_server.GameService.CreateRoom.{IsGood, with_room, with_room-IsValid, battle_room}
use pokemon_cpp_server.GameService.DestroyRoom.{
  destroy_room-IsValid, destroy_room_present, destroy_room_rooms,
}

module _ (j : Json) (s : Simulator j) (h : Hiredis) where
  -- The objects after the first half of CreateRoom, up to CreateRoomWithId.
  unfoldable pub open_room : CreateRoomRequest → ℕ → W j s h → W j s h
  open_room request now w = record w {
    room_manager =
        (create_room_with_id request.room_id (codes "Battle Room") 2 now w.room_manager).1;
  }

  -- A session is held for an id that no room has.
  pub record IsLeaked (k : Text) (session : s.Session) (w : W j s h) : Type 0 where
    pub engine : BattleEngine s.Session
    pub holds : w.battle_engine ≡ some engine
    pub session_of : find_session k engine ≡ some session
    pub no_room : has_room k w ≡ false

  restart-IsLeaked :
      (k : Text) (init : j.Value) (session : s.Session) (w : W j s h) (e : BattleEngine s.Session)
      → w.battle_engine ≡ some e
      → has_room k w ≡ false
      → start_battle j s h init k w
        ≡ publish_state j s h k (record w { battle_engine = some (store_session k session e) })
      → IsLeaked k session (start_battle j s h init k w).1
  restart-IsLeaked k init session w e p closed q =
      let stored = record w { battle_engine = some (store_session k session e) } in
      let same = publish_state-SameCore j s h k stored in
      record {
        engine = store_session k session e;
        holds = ap (λ r. r.1.battle_engine) q ∙ same.1;
        session_of = find_session-store_session k k session e ∙ rw (eq_refl k) refl;
        no_room = ap (λ r. has_room k r.1) q ∙ ap (λ m. has k m.rooms) same.0 ∙ closed;
      }

  -- From objects in order with an engine, when DestroyRoom of the id runs after CreateRoomWithId
  -- and before CreateSession of the same CreateRoom, a good request leaves a session without a
  -- room.
  pub open_room-IsLeaked :
      (request : CreateRoomRequest) (session : s.Session) (now : ℕ) (w : W j s h)
      (e : BattleEngine s.Session)
      → IsValid w
      → w.battle_engine ≡ some e
      → (g : IsGood j s h request session w)
      → IsLeaked request.room_id session
          (start_battle j s h g.init request.room_id
            (destroy_room j s h request.room_id (open_room request now w)).1).1
  unfolding open_room
  open_room-IsLeaked request session now w e v p g =
      let k = request.room_id in
      let opened = with_room j s h k now w in
      let valid = with_room-IsValid j s h k now w g.accepted v in
      let there : has_room k opened ≡ true =
        ground (arith, has-add_room k k (battle_room j s h k now) w.room_manager, eq_refl k) in
      let d = destroy_room_present j s h k opened e valid p there in
      let u = (destroy_room j s h k opened).1 in
      let gone : has_room k u ≡ false =
        ap (λ m. has k m.rooms) (destroy_room_rooms j s h k opened)
        ∙ has-close_room k k opened.room_manager valid.rooms_valid
        ∙ rw (eq_refl k) refl in
      let after = destroy_room-IsValid j s h k opened valid in
      let free : has_session k d.0 ≡ false = ground (arith, after.housed d.0 d.1 k) in
      rw (create_room_with_id-accepted k (codes "Battle Room") 2 now w.room_manager g.accepted) (
        restart-IsLeaked k g.init session u d.0 d.1 gone (
          start_battle_started j s h g.init k u d.0 d.1 session
            (create_session-Starts j s k g.init (some []) d.0 session (g.named, g.created, free))))
