-- ===== src/GameService/Invariant.antt =====
-- The invariant of the objects that the handlers share, when one handler runs at a time.
use pokemon_cpp_server.Common.{◌≡◌, refl, sym, some, Bool, true, false, arith, ◌∙◌}
use pokemon_cpp_server.Text.{Text, eq_iff}
use pokemon_cpp_server.Map.{has}
use pokemon_cpp_server.Exec.{Outcome, ok, thrown, fault, unfinished, Exec, continue, ◌>>=◌, pure}
use pokemon_cpp_server.RoomManager.{close_room}
use pokemon_cpp_server.RoomManager.Invariant.{IsValid as RoomsValid, close_room-IsValid}
use pokemon_cpp_server.RoomManager.Outcome.{has-close_room}
use pokemon_cpp_server.BattleEngine.{BattleEngine, has_session}
use pokemon_cpp_server.BattleEngine.Laws.{IsValid as EngineValid}
use pokemon_cpp_server.RedisClient.{RedisClient}
use pokemon_cpp_server.GameService.{World, on_redis}

module _ {S C : Type 0} where
  abbrev pub has_room : Text → World S C → Bool
  has_room k w = has k w.room_manager.rooms

  -- The room manager and the engine are in order, and every session has a room.
  pub record IsValid (w : World S C) : Type 0 where
    pub rooms_valid : RoomsValid w.room_manager
    pub engine_valid : (e : BattleEngine S) → w.battle_engine ≡ some e → EngineValid e
    pub housed :
        (e : BattleEngine S)
        → w.battle_engine ≡ some e
        → (k : Text) → has_session k e ≡ true
        → has_room k w ≡ true

  -- The rooms and the sessions of both worlds are the same.
  abbrev pub SameCore : World S C → World S C → Type 0
  SameCore w w' = (w'.room_manager ≡ w.room_manager) × (w'.battle_engine ≡ w.battle_engine)

  pub SameCore-IsValid : (w w' : World S C) → SameCore w w' → IsValid w → IsValid w'
  SameCore-IsValid w w' same v = record {
    rooms_valid = rw same.0 v.rooms_valid;
    engine_valid = λ e p. v.engine_valid e (sym same.1 ∙ p);
    housed = λ e p k h. rw same.0 (v.housed e (sym same.1 ∙ p) k h);
  }

  -- What every step and every continuation keep, the whole keeps.
  pub bind_keeps :
      {A B : Type 0} (P : World S C → Type 0) (m : Exec (World S C) A) (f : A → Exec (World S C) B)
      (w : World S C)
      → P (m w).1
      → ((a : A) (u : World S C) → P u → P (f a u).1)
      → P ((m >>= f) w).1
  bind_keeps {A = A} {B = B} P m f w p keep = go (m w).0 (m w).1 p
    where
      go : (r : Outcome A) (u : World S C) → P u → P (continue r f u).1
      go (ok a) u p = keep a u p
      go (thrown what) u p = p
      go fault u p = p
      go unfinished u p = p

  pub continue-pure :
      {A B : Type 0} (r : Outcome A) (b : B) (u : World S C) → (continue r (λ _. pure b) u).1 ≡ u
  continue-pure (ok a) b u = refl
  continue-pure (thrown what) b u = refl
  continue-pure fault b u = refl
  continue-pure unfinished b u = refl

  pub on_redis-SameCore :
      {A : Type 0} (m : Exec (RedisClient C) A) (w : World S C) → SameCore w (on_redis m w).1
  unfolding on_redis
  on_redis-SameCore m w = (refl, refl)

  -- Closing a room that has no session.
  pub close_unhoused :
      (k : Text) (w : World S C)
      → IsValid w
      → ((e : BattleEngine S) → w.battle_engine ≡ some e → has_session k e ≡ false)
      → IsValid (record w { room_manager = (close_room k w.room_manager).1 })
  close_unhoused k w v fresh = record {
    rooms_valid = close_room-IsValid k w.room_manager v.rooms_valid;
    engine_valid = v.engine_valid;
    housed = λ e p i h. ground (
      arith,
      has-close_room k i w.room_manager v.rooms_valid,
      eq_iff k i,
      v.housed e p i h,
      fresh e p,
    );
  }

module _ {S A B : Type 0} where
  pub continue_answer :
      (r : Outcome A) (b c : B) (u : S) → (continue r (λ _. pure b) u).0 ≡ ok c → c ≡ b
  continue_answer (ok a) b c u p = cc
  continue_answer (thrown what) b c u p = cc
  continue_answer fault b c u p = cc
  continue_answer unfinished b c u p = cc
