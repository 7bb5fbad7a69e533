-- ===== src/GameService/DestroyRoom.antt =====
-- GameServiceImpl::DestroyRoom of src/server/game_server.cpp: what it changes and what it answers.
use pokemon_cpp_server.Common.{
  ◌≡◌, refl, sym, inl, inr, Option, none, some, true, false, arith, if◌then◌else◌, Option-cases, ap,
  ◌∙◌, subst, some-eq,
}
use pokemon_cpp_server.Text.{Text, ◌==◌, codes}
use pokemon_cpp_server.Map.Laws.{lookup-erase}
use pokemon_cpp_server.GameService.{not_found}
use pokemon_cpp_server.Exec.{ok, ◌>>=◌, pure}
use pokemon_cpp_server.External.Json.{Json}
use pokemon_cpp_server.External.Simulator.{Simulator}
use pokemon_cpp_server.External.Hiredis.{Hiredis}
use pokemon_cpp_server.RoomManager.{RoomManager, close_room}
use pokemon_cpp_server.RoomManager.Invariant.{close_room-IsValid}
use mathlib.Core.Bool.{false≢true}
use pokemon_cpp_server.RoomManager.Outcome.{close_room_cases, close_room_lem, view, has-close_room}
use pokemon_cpp_server.BattleEngine.{BattleEngine, has_session, destroy_session, find_session}
use pokemon_cpp_server.BattleEngine.Laws.{
  destroy_session_lem, IsValid as EngineValid, destroy_session-IsValid,
}
use pokemon_cpp_server.RedisClient.{delete_room_data}
use pokemon_cpp_server.GameService.{Answer, on_redis, destroy_room, answer}
use pokemon_cpp_server.GameService.Invariant.{
  has_room, IsValid, SameCore, SameCore-IsValid, continue-pure,
}
use pokemon_cpp_server.GameService.Session.{W}

module _ (j : Json) (s : Simulator j) (h : Hiredis) where
  abbrev destroyed : Text → Option (BattleEngine s.Session) → Option (BattleEngine s.Session)
  destroyed k none = none
  destroyed k (some e) = some (destroy_session k e).1

  -- The rooms and sessions once both have gone.
  abbrev emptied : Text → W j s h → W j s h
  emptied k w = record w {
    room_manager = (close_room k w.room_manager).1;
    battle_engine = destroyed k w.battle_engine;
  }

  destroy_room_missing :
      (k : Text) (w : W j s h)
      → close_room k w.room_manager ≡ (false, w.room_manager)
      → destroy_room j s h k w
        ≡ (ok (answer 1 (codes "Room not found") not_found (codes "Room not found")), w)
  unfolding destroy_room
  destroy_room_missing k w c = rw (c, destroy_room)

  delete_data-SameCore :
      (k : Text) (a : Answer) (w : W j s h)
      → SameCore w ((on_redis (delete_room_data h k) >>= λ _. pure a) w).1
  unfolding on_redis
  delete_data-SameCore k a w =
      rw (continue-pure (delete_room_data h k w.redis_client).0 a) (refl, refl)

  destroy_room_found :
      (k : Text) (w : W j s h) (m : RoomManager)
      → close_room k w.room_manager ≡ (true, m)
      → SameCore
          (record w { room_manager = m; battle_engine = destroyed k w.battle_engine })
          (destroy_room j s h k w).1
  unfolding destroy_room
  destroy_room_found k w m c = elim (Option-cases w.battle_engine) [
    | inl p ↦
        rw (c, p, destroy_room)
          (delete_data-SameCore k _ (record w { room_manager = m; battle_engine = none }))
    | inr (e, p) ↦
        rw (c, p, destroy_room)
          (delete_data-SameCore k _
            (record w { room_manager = m; battle_engine = some (destroy_session k e).1 }))
  ]

  has_session-destroy_session :
      (k i : Text) (e : BattleEngine s.Session)
      → EngineValid e
      → has_session i (destroy_session k e).1 ≡ (if k == i then false else has_session i e)
  unfolding has_session destroy_session
  has_session-destroy_session k i e v = ground (arith, lookup-erase k i e.sessions v.distinct)

  emptied-IsValid : (k : Text) (w : W j s h) → IsValid w → IsValid (emptied k w)
  emptied-IsValid k w v = elim (Option-cases w.battle_engine) [
    | inl p ↦ record {
      rooms_valid = close_room-IsValid k w.room_manager v.rooms_valid;
      engine_valid = λ e q. ground arith;
      housed = λ e q i x. ground arith;
    }
    | inr (d, p) ↦
        let same = λ (e : BattleEngine s.Session) (q : destroyed k w.battle_engine ≡ some e).
          some-eq {a = (destroy_session k d).1} {b = e} (rw p at q) in
        record {
          rooms_valid = close_room-IsValid k w.room_manager v.rooms_valid;
          engine_valid = λ e q.
              subst EngineValid (same e q) (destroy_session-IsValid k d (v.engine_valid d p));
          housed = λ e q i x. ground (
            arith,
            same e q,
            has-close_room k i w.room_manager v.rooms_valid,
            has_session-destroy_session k i d (v.engine_valid d p),
            v.housed d p i,
          );
        }
  ]

  -- DestroyRoom keeps the invariant.
  pub destroy_room-IsValid :
      (k : Text) (w : W j s h) → IsValid w → IsValid (destroy_room j s h k w).1
  destroy_room-IsValid k w v = elim (close_room_cases k w.room_manager) [
    | inl (absent, c) ↦ rw (destroy_room_missing k w c) v
    | inr (present, c) ↦
        SameCore-IsValid (emptied k w) _ (destroy_room_found k w (close_room k w.room_manager).1 c)
          (emptied-IsValid k w v)
  ]

  -- DestroyRoom of an id without a room answers that it was not found and changes nothing.
  pub destroy_room_absent :
      (k : Text) (w : W j s h)
      → has_room k w ≡ false
      → destroy_room j s h k w
        ≡ (ok (answer 1 (codes "Room not found") not_found (codes "Room not found")), w)
  destroy_room_absent k w absent = elim (close_room_cases k w.room_manager) [
    | inl (_, c) ↦ destroy_room_missing k w c
    | inr (present, c) ↦ cc
  ]

  -- From objects in order with an engine, DestroyRoom of an id with a room takes the room and its
  -- session away, and every other room and session is as before.
  pub destroy_room_present :
      (k : Text) (w : W j s h) (e : BattleEngine s.Session)
      → IsValid w
      → w.battle_engine ≡ some e
      → has_room k w ≡ true
      → (e' : BattleEngine s.Session) × ((destroy_room j s h k w).1.battle_engine ≡ some e')
        × ((i : Text)
            → (view (destroy_room j s h k w).1.room_manager i
                ≡ (if k == i then none else view w.room_manager i))
              × (find_session i e' ≡ (if k == i then none else find_session i e)))
  destroy_room_present k w e v p present = elim (close_room_cases k w.room_manager) [
    | inl (absent, c) ↦ absurd (false≢true (sym absent ∙ present))
    | inr (_, c) ↦
        let same = destroy_room_found k w (close_room k w.room_manager).1 c in
        (
          (destroy_session k e).1,
          same.1 ∙ ap (destroyed k) p,
          λ i. (
            ap (λ m. view m i) same.0 ∙ (close_room_lem k w.room_manager v.rooms_valid).1 i,
            (destroy_session_lem k e (v.engine_valid e p)).1 i,
          ),
        )
  ]

  -- The room manager after DestroyRoom is that after CloseRoom.
  pub destroy_room_rooms :
      (k : Text) (w : W j s h)
      → (destroy_room j s h k w).1.room_manager ≡ (close_room k w.room_manager).1
  destroy_room_rooms k w = elim (close_room_cases k w.room_manager) [
    | inl (absent, c) ↦
        ap (λ r. r.1.room_manager) (destroy_room_missing k w c) ∙ sym (ap (λ r. r.1) c)
    | inr (present, c) ↦ (destroy_room_found k w (close_room k w.room_manager).1 c).0
  ]
