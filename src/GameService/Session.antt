-- ===== src/GameService/Session.antt =====
-- The half of CreateRoom that starts the battle: what it does, and what becomes of its room.
use pokemon_cpp_server.Common.{
  ◌≡◌, refl, sym, inl, inr, Option, none, some, Bool, true, false, arith, Option-cases, Bool-cases,
  [], subst, some-eq,
}
use pokemon_cpp_server.Text.{Text, codes, eq_iff}
use pokemon_cpp_server.Exec.{Attempt, done, threw, thrown, ◌>>=◌, lift, pure}
use pokemon_cpp_server.External.Json.{Json}
use pokemon_cpp_server.External.Simulator.{Simulator}
use pokemon_cpp_server.External.Hiredis.{Hiredis}
use pokemon_cpp_server.RoomManager.{close_room}
use pokemon_cpp_server.BattleEngine.{
  BattleEngine, has_session, store_session, create_session, get_state, TurnResult,
}
use pokemon_cpp_server.BattleEngine.Laws.{
  IsValid as EngineValid, Creation, create_session-Creation, store_session-IsValid,
  has_session-store_session, starts, refuses, throws,
}
use pokemon_cpp_server.RedisClient.{set_room_data}
use pokemon_cpp_server.GameService.{
  World, Answer, on_redis, store_state, publish_state, start_battle, answer, pointee, ok_status,
}
use pokemon_cpp_server.GameService.Invariant.{
  has_room, IsValid, SameCore, SameCore-IsValid, continue-pure, close_unhoused,
}

module _ (j : Json) (s : Simulator j) (h : Hiredis) where
  abbrev pub W : Type 0
  W = World s.Session h.Conn

  send_text-SameCore :
      (k : Text) (r : Attempt Text) (w : W)
      → SameCore w ((lift r >>= λ text. on_redis (set_room_data h k text) >>= λ _. pure tt) w).1
  unfolding on_redis
  send_text-SameCore k (threw what) w = (refl, refl)
  send_text-SameCore k (done text) w = ground arith

  store_state-SameCore :
      (k : Text) (r : TurnResult j.Value) (w : W) → SameCore w (store_state j s h k r w).1
  unfolding store_state
  store_state-SameCore k r w = elim (Bool-cases r.succeeded) [
    | inl e ↦ rw (e, store_state) (send_text-SameCore k (j.dump (pointee j.null r.response)) w)
    | inr e ↦ rw (e, store_state) (refl, refl)
  ]

  pub store_answer-SameCore :
      (k : Text) (a : Answer) (r : Attempt (TurnResult j.Value)) (w : W)
      → SameCore w ((lift r >>= λ t. store_state j s h k t >>= λ _. pure a) w).1
  store_answer-SameCore k a (threw what) w = (refl, refl)
  store_answer-SameCore k a (done t) w =
      rw (continue-pure (store_state j s h k t w).0 a (store_state j s h k t w).1)
        (store_state-SameCore k t w)

  pub publish_state-SameCore : (k : Text) (w : W) → SameCore w (publish_state j s h k w).1
  unfolding publish_state
  publish_state-SameCore k w = elim (Option-cases w.battle_engine) [
    | inl p ↦ rw (p, publish_state) (refl, refl)
    | inr (e, p) ↦
        rw (p, publish_state)
          (store_answer-SameCore k (answer 0 (codes "Room created successfully") ok_status [])
            (get_state j s k (some j.null) (some []) e) (record w { battle_engine = some e }))
  ]

  -- The state after a session was started in a room.
  stored_IsValid :
      (k : Text) (session : s.Session) (e : BattleEngine s.Session) (w : W)
      → w.battle_engine ≡ some e
      → has_room k w ≡ true
      → IsValid w
      → IsValid (record w { battle_engine = some (store_session k session e) })
  stored_IsValid k session e w p room v = record {
    rooms_valid = v.rooms_valid;
    engine_valid = λ e' q.
        subst EngineValid (some-eq q) (store_session-IsValid k session e (v.engine_valid e p));
    housed = λ e' q i x.
        ground
          (arith, some-eq q, has_session-store_session k i session e, eq_iff k i, v.housed e p i);
  }

  module _ (init : j.Value) (k : Text) (w : W) (e : BattleEngine s.Session)
      (p : w.battle_engine ≡ some e) where
    abbrev pub attempted : Attempt (Bool × Option Text) × BattleEngine s.Session
    attempted = create_session j s k init (some []) e

    pub start_battle_started :
        (session : s.Session)
        → attempted ≡ (done (true, some []), store_session k session e)
        → start_battle j s h init k w
          ≡ publish_state j s h k (record w { battle_engine = some (store_session k session e) })
    unfolding start_battle
    start_battle_started session c = rw (p, start_battle) (rw c)

    pub start_battle_refused :
        (out : Option Text)
        → attempted ≡ (done (false, out), e)
        → (start_battle j s h init k w).1
          ≡ record w { room_manager = (close_room k w.room_manager).1; battle_engine = some e }
    unfolding start_battle
    start_battle_refused out c = rw (p, start_battle) (rw c)

    pub start_battle_threw :
        (what : Text)
        → attempted ≡ (threw what, e)
        → (start_battle j s h init k w).1 ≡ record w { battle_engine = some e }
    unfolding start_battle
    start_battle_threw what c = rw (p, start_battle) (rw c)

    pub start_battle_thrown :
        (what : Text) → attempted ≡ (threw what, e) → (start_battle j s h init k w).0 ≡ thrown what
    unfolding start_battle
    start_battle_thrown what c = rw (p, start_battle) (rw c)

  -- A world whose engine is written as the value that it has.
  restated_IsValid :
      (w : W) (e : BattleEngine s.Session)
      → w.battle_engine ≡ some e
      → IsValid w
      → IsValid (record w { battle_engine = some e })
  restated_IsValid w e p = SameCore-IsValid w (record w { battle_engine = some e }) (refl, sym p)

  pub start_battle_with :
      (init : j.Value) (k : Text) (w : W) (e : BattleEngine s.Session)
      (p : w.battle_engine ≡ some e)
      → has_room k w ≡ true
      → has_session k e ≡ false
      → IsValid w
      → Creation j s k init (some []) e
      → IsValid (start_battle j s h init k w).1
  start_battle_with init k w e p room fresh v (starts session h' c) =
      let stored = record w { battle_engine = some (store_session k session e) } in
      rw (start_battle_started init k w e p session c) (
        SameCore-IsValid stored (publish_state j s h k stored).1 (publish_state-SameCore k stored)
          (stored_IsValid k session e w p room v))
  start_battle_with init k w e p room fresh v (refuses out c) =
      rw (start_battle_refused init k w e p out c) (
        close_unhoused k (record w { battle_engine = some e }) (restated_IsValid w e p v)
          (λ e' q. subst (λ x. has_session k x ≡ false) (some-eq q) fresh))
  start_battle_with init k w e p room fresh v (throws what c) =
      rw (start_battle_threw init k w e p what c) (restated_IsValid w e p v)

  pub start_battle_null :
      (init : j.Value) (k : Text) (w : W)
      → w.battle_engine ≡ none
      → (start_battle j s h init k w).1
        ≡ record w { room_manager = (close_room k w.room_manager).1; battle_engine = none }
  unfolding start_battle
  start_battle_null init k w p = rw (p, start_battle) refl

  pub start_battle-IsValid :
      (init : j.Value) (k : Text) (w : W)
      → has_room k w ≡ true
      → ((e : BattleEngine s.Session) → w.battle_engine ≡ some e → has_session k e ≡ false)
      → IsValid w
      → IsValid (start_battle j s h init k w).1
  start_battle-IsValid init k w room fresh v = elim (Option-cases w.battle_engine) [
    | inl p ↦ rw (start_battle_null init k w p) (
        SameCore-IsValid (record w { room_manager = (close_room k w.room_manager).1 }) _
          (refl, sym p) (close_unhoused k w v fresh))
    | inr (e, p) ↦
        start_battle_with init k w e p room (fresh e p) v
          (create_session-Creation j s k init (some []) e)
  ]
