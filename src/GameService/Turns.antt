-- ===== src/GameService/Turns.antt =====
-- GameServiceImpl::SendCommand of src/server/game_server.cpp: what it changes and what it keeps.
use pokemon_cpp_server.Common.{
  ◌≡◌, refl, sym, inl, inr, Option, none, some, false, arith, Option-cases, Bool-cases, [], subst,
  some-eq,
}
use pokemon_cpp_server.Text.{Text, ◌==◌}
use pokemon_cpp_server.Exec.{Attempt, done, threw, continue, ◌>>=◌, lift, pure, of_attempt}
use pokemon_cpp_server.External.Json.{Json}
use pokemon_cpp_server.External.Simulator.{Simulator}
use pokemon_cpp_server.External.Hiredis.{Hiredis}
use pokemon_cpp_server.RoomManager.{get_room_status}
use pokemon_cpp_server.BattleEngine.{BattleEngine, process_turn, TurnResult, find_session}
use pokemon_cpp_server.BattleEngine.Turns.{process_turn-IsValid, process_turn_frame}
use pokemon_cpp_server.BattleEngine.Laws.{IsValid as EngineValid}
use pokemon_cpp_server.RedisClient.{set_room_data}
use pokemon_cpp_server.GameService.{
  Answer, GameCommand, on_redis, send_command, pointee, Room, send_to_room, after_turn, send_parsed,
  finish_turn,
}
use pokemon_cpp_server.GameService.Invariant.{IsValid, SameCore, SameCore-IsValid}
use pokemon_cpp_server.GameService.Session.{W}

module _ (j : Json) (s : Simulator j) (h : Hiredis) where
  finish_text-SameCore :
      (k : Text) (r : Attempt Text) (a : Answer) (w : W j s h)
      → SameCore w ((lift r >>= λ text. on_redis (set_room_data h k text) >>= λ _. pure a) w).1
  unfolding on_redis
  finish_text-SameCore k (threw what) a w = (refl, refl)
  finish_text-SameCore k (done text) a w = ground arith

  after_turn-SameCore :
      (c : GameCommand) (r : TurnResult j.Value) (w : W j s h)
      → SameCore w (after_turn j s h c r w).1
  unfolding after_turn finish_turn
  after_turn-SameCore c r w = elim (Bool-cases r.succeeded) [
    | inl e ↦
        rw (e, after_turn) (finish_text-SameCore c.room_id (j.dump (pointee j.null r.response)) _ w)
    | inr e ↦ rw (e, after_turn) (refl, refl)
  ]

  continue-after_turn-SameCore :
      (c : GameCommand) (r : Attempt (TurnResult j.Value)) (w : W j s h)
      → SameCore w (continue (of_attempt r) (after_turn j s h c) w).1
  continue-after_turn-SameCore c (threw what) w = (refl, refl)
  continue-after_turn-SameCore c (done t) w = after_turn-SameCore c t w

  -- The engine after the turn of a command.
  abbrev turned : GameCommand → j.Value → BattleEngine s.Session → BattleEngine s.Session
  turned c turn e = (process_turn j s c.room_id turn (some j.null) (some []) e).1

  send_parsed-some :
      (c : GameCommand) (turn : j.Value) (w : W j s h) (e : BattleEngine s.Session)
      → w.battle_engine ≡ some e
      → SameCore
          (record w { battle_engine = some (turned c turn e) })
          (send_parsed j s h c (done turn) w).1
  unfolding send_parsed
  send_parsed-some c turn w e p =
      rw (p, send_parsed)
        (continue-after_turn-SameCore c _ (record w { battle_engine = some (turned c turn e) }))

  send_parsed_null :
      (c : GameCommand) (turn : j.Value) (w : W j s h)
      → w.battle_engine ≡ none
      → SameCore (record w { battle_engine = none }) (send_parsed j s h c (done turn) w).1
  unfolding send_parsed
  send_parsed_null c turn w p =
      rw (p, send_parsed)
        (after_turn-SameCore c
          (record { succeeded = false; response = some j.null; error = some [] })
          (record w { battle_engine = none }))

  -- The engine of a valid world after a turn.
  turned-IsValid :
      (c : GameCommand) (turn : j.Value) (w : W j s h) (e : BattleEngine s.Session)
      → w.battle_engine ≡ some e
      → IsValid w
      → IsValid (record w { battle_engine = some (turned c turn e) })
  turned-IsValid c turn w e p v = record {
    rooms_valid = v.rooms_valid;
    engine_valid = λ e' q.
        subst EngineValid (some-eq q)
          (process_turn-IsValid j s c.room_id turn (some j.null) (some []) e (v.engine_valid e p));
    housed = λ e' q i x. ground (
      arith,
      some-eq q,
      (process_turn_frame j s c.room_id i turn (some j.null) (some []) e).0,
      v.housed e p i,
    );
  }

  send_parsed-IsValid :
      (c : GameCommand) (r : Attempt j.Value) (w : W j s h)
      → IsValid w
      → IsValid (send_parsed j s h c r w).1
  unfolding send_parsed
  send_parsed-IsValid c (threw what) w v = v
  send_parsed-IsValid c (done turn) w v = elim (Option-cases w.battle_engine) [
    | inl p ↦
        SameCore-IsValid (record w { battle_engine = none }) _ (send_parsed_null c turn w p)
          (SameCore-IsValid w _ (refl, sym p) v)
    | inr (e, p) ↦
        SameCore-IsValid (record w { battle_engine = some (turned c turn e) }) _
          (send_parsed-some c turn w e p) (turned-IsValid c turn w e p v)
  ]

  send_to_room-IsValid :
      (c : GameCommand) (o : Option Room) (w : W j s h)
      → IsValid w
      → IsValid (send_to_room j s h c o w).1
  unfolding send_to_room
  send_to_room-IsValid c none w v = v
  send_to_room-IsValid c (some room) w v = elim (Bool-cases room.is_active) [
    | inl e ↦ rw (e, send_to_room) (send_parsed-IsValid c (j.parse c.action) w v)
    | inr e ↦ rw (e, send_to_room) v
  ]

  -- SendCommand keeps the invariant.
  pub send_command-IsValid :
      (c : GameCommand) (w : W j s h) → IsValid w → IsValid (send_command j s h c w).1
  unfolding send_command
  send_command-IsValid c w v = send_to_room-IsValid c (get_room_status c.room_id w.room_manager) w v

  send_parsed_rooms :
      (c : GameCommand) (r : Attempt j.Value) (w : W j s h)
      → (send_parsed j s h c r w).1.room_manager ≡ w.room_manager
  unfolding send_parsed
  send_parsed_rooms c (threw what) w = refl
  send_parsed_rooms c (done turn) w = elim (Option-cases w.battle_engine) [
    | inl p ↦ (send_parsed_null c turn w p).0
    | inr (e, p) ↦ (send_parsed-some c turn w e p).0
  ]

  -- What SendCommand leaves of the engine's other sessions.
  abbrev pub OthersKept : Text → W j s h → W j s h → Type 0
  OthersKept k w w' =
      (e : BattleEngine s.Session)
      → w.battle_engine ≡ some e
      → (e' : BattleEngine s.Session) × (w'.battle_engine ≡ some e')
        × ((i : Text) → (k == i) ≡ false → find_session i e' ≡ find_session i e)

  send_parsed_others :
      (c : GameCommand) (r : Attempt j.Value) (w : W j s h)
      → OthersKept c.room_id w (send_parsed j s h c r w).1
  unfolding send_parsed
  send_parsed_others c (threw what) w e p = (e, p, λ i x. refl)
  send_parsed_others c (done turn) w e p = (
    turned c turn e,
    (send_parsed-some c turn w e p).1,
    λ i. (process_turn_frame j s c.room_id i turn (some j.null) (some []) e).1,
  )

  send_to_room_frame :
      (c : GameCommand) (o : Option Room) (w : W j s h)
      → ((send_to_room j s h c o w).1.room_manager ≡ w.room_manager)
        × OthersKept c.room_id w (send_to_room j s h c o w).1
  unfolding send_to_room
  send_to_room_frame c none w = (refl, λ e p. (e, p, λ i x. refl))
  send_to_room_frame c (some room) w = elim (Bool-cases room.is_active) [
    | inl q ↦
        rw (q, send_to_room)
          (send_parsed_rooms c (j.parse c.action) w, send_parsed_others c (j.parse c.action) w)
    | inr q ↦ rw (q, send_to_room) (refl, λ e p. (e, p, λ i x. refl))
  ]

  -- SendCommand changes no room, and if there is an engine it changes no session but that of its
  -- room.
  pub send_command_frame :
      (c : GameCommand) (w : W j s h)
      → ((send_command j s h c w).1.room_manager ≡ w.room_manager)
        × OthersKept c.room_id w (send_command j s h c w).1
  unfolding send_command
  send_command_frame c w = send_to_room_frame c (get_room_status c.room_id w.room_manager) w
