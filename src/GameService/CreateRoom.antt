-- ===== src/GameService/CreateRoom.antt =====
-- GameServiceImpl::CreateRoom of src/server/game_server.cpp: its invariant, and good requests.
use pokemon_cpp_server.Common.{
  ℕ, ◌≡◌, sym, inl, inr, some, true, false, arith, Bool-cases, ap, [], ◌∙◌, subst,
}
use pokemon_cpp_server.Text.{Text, codes, is_empty, eq_refl}
use pokemon_cpp_server.Exec.{Attempt, done, threw}
use pokemon_cpp_server.External.Json.{Json}
use pokemon_cpp_server.External.Simulator.{Simulator}
use pokemon_cpp_server.External.Hiredis.{Hiredis}
use pokemon_cpp_server.RoomManager.{new_room, add_room, can_create_room, is_in_maintenance_mode}
use pokemon_cpp_server.RoomManager.Invariant.{IsValid as RoomsValid, create_room_with_id-IsValid}
use pokemon_cpp_server.RoomManager.Outcome.{
  accepts, create_room_with_id_lem, has-add_room, create_room_with_id-accepted,
}
use pokemon_cpp_server.BattleEngine.{BattleEngine, has_session, store_session}
use pokemon_cpp_server.BattleEngine.Laws.{create_session-Starts}
use pokemon_cpp_server.GameService.{
  CreateRoomRequest, start_battle, create_parsed, create_room, Room,
}
use pokemon_cpp_server.GameService.Invariant.{IsValid, SameCore}
use pokemon_cpp_server.GameService.Session.{
  W, start_battle-IsValid, start_battle_started, publish_state-SameCore,
}

module _ (j : Json) (s : Simulator j) (h : Hiredis) where
  abbrev pub battle_room : Text → ℕ → Room
  battle_room k now = new_room k (codes "Battle Room") 2 now

  abbrev pub with_room : Text → ℕ → W j s h → W j s h
  with_room k now w = record w { room_manager = add_room k (battle_room k now) w.room_manager }

  -- CreateRoomWithId adds a room where it accepts.
  pub with_room-IsValid :
      (k : Text) (now : ℕ) (w : W j s h)
      → accepts w.room_manager k ≡ true
      → IsValid w
      → IsValid (with_room k now w)
  with_room-IsValid k now w a v = record {
    rooms_valid =
        subst (λ r. RoomsValid (r.1))
          (create_room_with_id-accepted k (codes "Battle Room") 2 now w.room_manager a)
          (create_room_with_id-IsValid k (codes "Battle Room") 2 now w.room_manager (omega arith)
            v.rooms_valid);
    engine_valid = v.engine_valid;
    housed = λ e p i x.
        ground (arith, has-add_room k i (battle_room k now) w.room_manager, v.housed e p i);
  }

  pub no_session :
      (k : Text) (w : W j s h)
      → accepts w.room_manager k ≡ true
      → IsValid w
      → (e : BattleEngine s.Session) → w.battle_engine ≡ some e
      → has_session k e ≡ false
  no_session k w a v e p = ground (arith, v.housed e p k)

  -- The two ways of CreateRoomWithId.
  create_parsed-IsValid :
      (k : Text) (now : ℕ) (init : j.Value) (w : W j s h)
      → is_empty k ≡ false
      → IsValid w
      → IsValid (create_parsed j s h k now (done init) w).1
  unfolding create_parsed is_empty
  create_parsed-IsValid k now init w ne v = elim (Bool-cases (accepts w.room_manager k)) [
    | inl a ↦
        rw (create_room_with_id_lem, a, ne, create_parsed)
          (start_battle-IsValid j s h init k (with_room k now w)
            (ground (arith, has-add_room k k (battle_room k now) w.room_manager, eq_refl k))
            (no_session k w a v) (with_room-IsValid k now w a v))
    | inr a ↦ rw (create_room_with_id_lem, a, create_parsed) v
  ]

  with_parsed-IsValid :
      (k : Text) (now : ℕ) (parsed : Attempt j.Value) (w : W j s h)
      → IsValid w
      → is_empty k ≡ false
      → IsValid (create_parsed j s h k now parsed w).1
  unfolding create_parsed
  with_parsed-IsValid k now (threw what) w v ne = v
  with_parsed-IsValid k now (done init) w v ne = create_parsed-IsValid k now init w ne v

  -- Whatever CreateRoom answers or throws, it keeps the invariant.
  pub create_room-IsValid :
      (request : CreateRoomRequest) (now : ℕ) (w : W j s h)
      → IsValid w
      → IsValid (create_room j s h request now w).1
  unfolding create_room
  create_room-IsValid request now w v =
      ground (arith, with_parsed-IsValid request.room_id now (j.parse request.init_json) w v)

  -- The request is good: the server takes rooms, the id is free and not empty, the text parses and
  -- the simulator accepts it.
  pub record IsGood (request : CreateRoomRequest) (session : s.Session) (w : W j s h) : Type 0 where
    pub accepted : accepts w.room_manager request.room_id ≡ true
    pub named : is_empty request.room_id ≡ false
    pub init : j.Value
    pub parsed : j.parse request.init_json ≡ done init
    pub created : s.create_from_json init ≡ done (inr session)

  pub create_room-accepted :
      (request : CreateRoomRequest) (now : ℕ) (w : W j s h)
      → accepts w.room_manager request.room_id ≡ true
      → is_empty request.room_id ≡ false
      → create_room j s h request now w
        ≡ create_parsed j s h request.room_id now (j.parse request.init_json) w
  unfolding create_room can_create_room is_in_maintenance_mode
  create_room-accepted request now w a ne = ground arith

  pub create_parsed-accepted :
      (k : Text) (now : ℕ) (init : j.Value) (w : W j s h)
      → accepts w.room_manager k ≡ true
      → is_empty k ≡ false
      → create_parsed j s h k now (done init) w ≡ start_battle j s h init k (with_room k now w)
  unfolding create_parsed
  create_parsed-accepted k now init w a ne = rw (create_room_with_id_lem, a, ne, create_parsed)

  -- From objects in order with an engine, CreateRoom of a good request adds the fresh room and its
  -- session, whatever becomes of the state that it sends to Redis.
  pub create_room-IsGood :
      (request : CreateRoomRequest) (session : s.Session) (now : ℕ) (w : W j s h)
      (e : BattleEngine s.Session)
      → IsValid w
      → w.battle_engine ≡ some e
      → IsGood request session w
      → ((create_room j s h request now w).1.room_manager
          ≡ add_room request.room_id
              (new_room request.room_id (codes "Battle Room") 2 now)
              w.room_manager)
        × ((create_room j s h request now w).1.battle_engine
            ≡ some (store_session request.room_id session e))
  create_room-IsGood request session now w e v p g =
      let k = request.room_id in
      let new = no_session k w g.accepted v e p in
      let stored = record (with_room k now w) {
        battle_engine = some (store_session k session e);
      } in
      let whole =
        create_room-accepted request now w g.accepted g.named
        ∙ ap (λ r. create_parsed j s h k now r w) g.parsed
        ∙ create_parsed-accepted k now g.init w g.accepted g.named
        ∙ start_battle_started j s h g.init k (with_room k now w) e p session
            (create_session-Starts j s k g.init (some []) e session (g.named, g.created, new)) in
      subst (λ r. SameCore stored r.1) (sym whole) (publish_state-SameCore j s h k stored)
