-- ===== src/GameService/Rollback.antt =====
-- GameServiceImpl::CreateRoom of src/server/game_server.cpp where it answers with an error.
use pokemon_cpp_server.Common.{
  ℕ, ◌≡◌, refl, inl, inr, Option, none, some, true, false, arith, Option-cases, Bool-cases, ap, [],
  ◌∙◌, subst, ◌≢◌,
}
use pokemon_cpp_server.Text.{Text, codes, is_empty}
use pokemon_cpp_server.Exec.{Attempt, done, threw, ok, fault, ◌>>=◌, lift, pure}
use pokemon_cpp_server.External.Json.{Json}
use pokemon_cpp_server.External.Simulator.{Simulator}
use pokemon_cpp_server.External.Hiredis.{Hiredis}
use pokemon_cpp_server.RoomManager.{close_room}
use pokemon_cpp_server.RoomManager.Outcome.{accepts, create_room_with_id_lem, close_room-add_room}
use pokemon_cpp_server.BattleEngine.{BattleEngine, store_session, get_state, TurnResult}
use pokemon_cpp_server.BattleEngine.Laws.{
  Creation, create_session-Creation, starts, refuses, throws,
}
use pokemon_cpp_server.GameService.{
  Answer, CreateRoomRequest, store_state, publish_state, start_battle, create_parsed, create_room,
  answer, ok_status,
}
use pokemon_cpp_server.GameService.Invariant.{continue_answer, IsValid}
use pokemon_cpp_server.GameService.Session.{
  W, start_battle_started, start_battle_refused, start_battle_null, start_battle_thrown,
}
use pokemon_cpp_server.GameService.CreateRoom.{with_room, create_parsed-accepted}

module _ (j : Json) (s : Simulator j) (h : Hiredis) where
  store_answer :
      (k : Text) (a c : Answer) (r : Attempt (TurnResult j.Value)) (w : W j s h)
      → ((lift r >>= λ t. store_state j s h k t >>= λ _. pure a) w).0 ≡ ok c
      → c ≡ a
  store_answer k a c (threw what) w p = cc
  store_answer k a c (done t) w p =
      continue_answer (store_state j s h k t w).0 a c (store_state j s h k t w).1 p

  publish_state_null :
      (k : Text) (w : W j s h) → w.battle_engine ≡ none → (publish_state j s h k w).0 ≡ fault
  unfolding publish_state
  publish_state_null k w q = rw (q, publish_state)

  abbrev created : Answer
  created = answer 0 (codes "Room created successfully") ok_status []

  publish_state-some :
      (k : Text) (w : W j s h) (e : BattleEngine s.Session)
      → w.battle_engine ≡ some e
      → publish_state j s h k w
        ≡ (lift (get_state j s k (some j.null) (some []) e) >>= λ t.
              store_state j s h k t >>= λ _. pure created)
            (record w { battle_engine = some e })
  unfolding publish_state
  publish_state-some k w e q = rw (q, publish_state)

  publish_state_code :
      (k : Text) (w : W j s h) (c : Answer) → (publish_state j s h k w).0 ≡ ok c → c.code ≡ 0
  publish_state_code k w c p = elim (Option-cases w.battle_engine) [
    | inl q ↦ cc (publish_state_null k w q)
    | inr (e, q) ↦
        ap (λ (x : Answer). x.code)
          (store_answer k created c (get_state j s k (some j.null) (some []) e)
            (record w { battle_engine = some e })
            (subst (λ r. r.0 ≡ ok c) (publish_state-some k w e q) p))
  ]

  -- What a failed start leaves, where it does not throw.
  closed_again :
      (k : Text) (now : ℕ) (w : W j s h) (o : Option (BattleEngine s.Session))
      → IsValid w
      → accepts w.room_manager k ≡ true
      → w.battle_engine ≡ o
      → record (with_room j s h k now w) {
        room_manager = (close_room k (with_room j s h k now w).room_manager).1;
        battle_engine = o;
      }
        ≡ w
  closed_again k now w o v free q =
      cc (q, close_room-add_room k (codes "Battle Room") 2 now w.room_manager v.rooms_valid free)

  start_battle_rollback :
      (init : j.Value) (k : Text) (now : ℕ) (w : W j s h) (a : Answer) (e : BattleEngine s.Session)
      → IsValid w
      → accepts w.room_manager k ≡ true
      → w.battle_engine ≡ some e
      → (start_battle j s h init k (with_room j s h k now w)).0 ≡ ok a
      → a.code ≢ 0
      → Creation j s k init (some []) e
      → (start_battle j s h init k (with_room j s h k now w)).1 ≡ w
  start_battle_rollback init k now w a e v free q p ne (starts session x c) =
      let stored = record (with_room j s h k now w) {
        battle_engine = some (store_session k session e);
      } in
      absurd (
        ne (
          publish_state_code k stored a (
            subst (λ r. r.0 ≡ ok a)
              (start_battle_started j s h init k (with_room j s h k now w) e q session c) p)))
  start_battle_rollback init k now w a e v free q p ne (refuses out c) =
      start_battle_refused j s h init k (with_room j s h k now w) e q out c
      ∙ closed_again k now w (some e) v free q
  start_battle_rollback init k now w a e v free q p ne (throws what c) =
      cc (start_battle_thrown j s h init k (with_room j s h k now w) e q what c)

  created_rollback :
      (init : j.Value) (k : Text) (now : ℕ) (w : W j s h) (a : Answer)
      → IsValid w
      → accepts w.room_manager k ≡ true
      → (start_battle j s h init k (with_room j s h k now w)).0 ≡ ok a
      → a.code ≢ 0
      → (start_battle j s h init k (with_room j s h k now w)).1 ≡ w
  created_rollback init k now w a v free p ne = elim (Option-cases w.battle_engine) [
    | inl q ↦
        start_battle_null j s h init k (with_room j s h k now w) q
        ∙ closed_again k now w none v free q
    | inr (e, q) ↦
        start_battle_rollback init k now w a e v free q p ne
          (create_session-Creation j s k init (some []) e)
  ]

  create_parsed-refused :
      (k : Text) (now : ℕ) (init : j.Value) (w : W j s h)
      → accepts w.room_manager k ≡ false
      → (create_parsed j s h k now (done init) w).1 ≡ w
  unfolding create_parsed is_empty
  create_parsed-refused k now init w a = rw (create_room_with_id_lem, a, create_parsed)

  parsed_rollback :
      (k : Text) (now : ℕ) (parsed : Attempt j.Value) (w : W j s h) (a : Answer)
      → IsValid w
      → a.code ≢ 0
      → is_empty k ≡ false
      → (create_parsed j s h k now parsed w).0 ≡ ok a
      → (create_parsed j s h k now parsed w).1 ≡ w
  unfolding create_parsed
  parsed_rollback k now (threw what) w a v ne named p = refl
  parsed_rollback k now (done init) w a v ne named p =
      elim (Bool-cases (accepts w.room_manager k)) [
        | inl free ↦
            let e = create_parsed-accepted j s h k now init w free named in
            ap (λ r. r.1) e
            ∙ created_rollback init k now w a v free (subst (λ r. r.0 ≡ ok a) e p) ne
        | inr full ↦ create_parsed-refused k now init w full
      ]

  -- From objects in order, when CreateRoom answers with a code other than 0, the rooms, the
  -- sessions and the connection to Redis are exactly as they were.
  pub create_room_rollback :
      (request : CreateRoomRequest) (now : ℕ) (w : W j s h) (a : Answer)
      → IsValid w
      → (create_room j s h request now w).0 ≡ ok a
      → a.code ≢ 0
      → (create_room j s h request now w).1 ≡ w
  unfolding create_room
  create_room_rollback request now w a v p ne =
      ground (arith, parsed_rollback request.room_id now (j.parse request.init_json) w a v ne)
