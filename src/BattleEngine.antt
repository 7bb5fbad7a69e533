-- ===== src/BattleEngine.antt =====
-- src/server/battle_engine.h and battle_engine.cpp: the battle sessions of one server. Every method
-- holds the engine's mutex. An out-parameter is an `Option`: none for a null pointer, and otherwise
-- what it points to.
pub mod Laws
pub mod Turns
use pokemon_cpp_server.Common.{
  ◌≡◌, ◌⊎◌, inl, inr, Option, none, some, Bool, true, false, not, ◌&&◌, ◌++◌, if◌then◌else◌, [],
  ◌∷◌,
}
use pokemon_cpp_server.Text.{Text, codes, is_empty}
use pokemon_cpp_server.Map.{Map, lookup, insert, erase, has}
use pokemon_cpp_server.Exec.{Attempt, done, threw, attempt_bind}
use pokemon_cpp_server.External.Json.{Json}
use pokemon_cpp_server.External.Simulator.{Simulator}

-- A session is held by a std::unique_ptr, which could be null.
pub record BattleEngine (Session : Type 0) : Type 0 where
  pub sessions : Map (Option Session)

-- if (p) *p = v
abbrev pub assign {ℓ} : {A : Type ℓ} → Option A → A → Option A
assign none v = none
assign (some old) v = some v

pub record TurnResult (Value : Type 0) : Type 0 where
  pub succeeded : Bool
  pub response : Option Value
  pub error : Option Text

infixl 5 ◌>>=◌
abbrev ◌>>=◌ {ℓ κ} : {A : Type ℓ} {B : Type κ} → Attempt A → (A → Attempt B) → Attempt B
◌>>=◌ = attempt_bind

unfoldable pub not_found : Text → Text
not_found session_id = codes "session not found: " ++ session_id

module _ {S : Type 0} where
  unfoldable pub null_as_none : Option (Option S) → Option S
  null_as_none none = none
  null_as_none (some p) = p

  -- it == sessions_.end() || !it->second gives none, and otherwise the session.
  unfoldable pub find_session : Text → BattleEngine S → Option S
  unfolding null_as_none
  find_session session_id e = null_as_none (lookup session_id e.sessions)

  unfoldable pub store_session : Text → S → BattleEngine S → BattleEngine S
  store_session session_id session e = record {
    sessions = insert session_id (some session) e.sessions;
  }

  -- DestroySession
  unfoldable pub destroy_session : Text → BattleEngine S → Bool × BattleEngine S
  unfolding has
  destroy_session session_id e =
      (has session_id e.sessions, record { sessions = erase session_id e.sessions })

  -- HasSession
  unfoldable pub has_session : Text → BattleEngine S → Bool
  unfolding has
  has_session session_id e = has session_id e.sessions

  -- The second half of CreateSession, under the lock.
  unfoldable pub add_session :
      Text → Option Text → Text ⊎ S → BattleEngine S → (Bool × Option Text) × BattleEngine S
  unfolding has store_session
  add_session session_id error (inl local_error) e = ((false, assign error local_error), e)
  add_session session_id error (inr session) e =
      if has session_id e.sessions
      then ((false, assign error (codes "session already exists: " ++ session_id)), e)
      else ((true, error), store_session session_id session e)

  unfoldable pub after_creation :
      Text
      → Option Text
      → Attempt (Text ⊎ S)
      → BattleEngine S
      → Attempt (Bool × Option Text) × BattleEngine S
  unfolding add_session
  after_creation session_id error (threw w) e = (threw w, e)
  after_creation session_id error (done created) e =
      let r = add_session session_id error created e in (done r.0, r.1)

module _ (j : Json) (s : Simulator j) where
  -- CreateSession
  unfoldable pub create_session :
      Text
      → j.Value
      → Option Text
      → BattleEngine s.Session
      → Attempt (Bool × Option Text) × BattleEngine s.Session
  unfolding after_creation is_empty
  create_session session_id init_request error e =
      if is_empty session_id
      then (done (false, assign error (codes "session_id cannot be empty")), e)
      else after_creation session_id error (s.create_from_json init_request) e

  -- The message that ProcessTurn takes from the "errors" of a response.
  unfoldable pub first_error : j.Value → Attempt Text
  first_error errors =
      if j.is_array errors && not (j.is_empty errors)
      then (j.first errors >>= j.get_string)
      else done []

  unfoldable pub error_message : j.Value → Attempt Text
  unfolding first_error is_empty
  error_message response = do
    errors ← j.member response (codes "errors")
    message ← first_error errors
    done (if is_empty message then codes "battle validation failed" else message)

  -- if (error) *error = ...: nothing is read when the pointer is null.
  unfoldable pub report_error : j.Value → Option Text → Attempt (Option Text)
  unfolding error_message
  report_error response none = done none
  report_error response (some old) = do message ← error_message response; done (some message)

  -- response->contains("errors") && response->value("ok", true) == false
  unfoldable pub has_errors : j.Value → Attempt Bool
  has_errors response =
      if j.contains response (codes "errors")
      then (do good ← j.value_bool response (codes "ok") true; done (not good))
      else done false

  -- ProcessTurn from the assignment of *response on.
  unfoldable pub judge : Option Text → j.Value → Attempt (TurnResult j.Value)
  unfolding report_error has_errors
  judge error response = do
    bad ← has_errors response
    if bad
        then (do
          message ← report_error response error
          done (record { succeeded = false; response = some response; error = message }))
        else (do
          good ← j.value_bool response (codes "ok") true
          done (record { succeeded = good; response = some response; error = error }))

  -- ProcessTurn on the session that was found
  unfoldable pub process_found :
      Text
      → s.Session
      → j.Value
      → Option j.Value
      → Option Text
      → BattleEngine s.Session
      → Attempt (TurnResult j.Value) × BattleEngine s.Session
  unfolding judge store_session
  process_found session_id session turn_request none error e = (
    done (record {
      succeeded = false;
      response = none;
      error = assign error (codes "response output cannot be null");
    }),
    e,
  )
  process_found session_id session turn_request (some old) error e =
      let r = s.process_turn session turn_request in
      (r.0 >>= judge error, store_session session_id r.1 e)

  -- ProcessTurn
  unfoldable pub process_turn :
      Text
      → j.Value
      → Option j.Value
      → Option Text
      → BattleEngine s.Session
      → Attempt (TurnResult j.Value) × BattleEngine s.Session
  unfolding process_found find_session not_found
  process_turn session_id turn_request response error e = elim (find_session session_id e) [
    | none ↦ (
      done (record {
        succeeded = false;
        response = response;
        error = assign error (not_found session_id);
      }),
      e,
    )
    | some session ↦ process_found session_id session turn_request response error e
  ]

  unfoldable pub read_battle :
      Text → Option s.Battle → Option j.Value → Option Text → Attempt (TurnResult j.Value)
  read_battle session_id battle none error = done (record {
    succeeded = false;
    response = none;
    error = assign error (codes "state output cannot be null");
  })
  read_battle session_id none (some old) error = done (record {
    succeeded = false;
    response = some old;
    error = assign error (codes "battle not initialized for session: " ++ session_id);
  })
  read_battle session_id (some battle) (some old) error = do
    state ← s.battle_all_info_to_json battle
    done (record { succeeded = true; response = some state; error = error })

  -- GetState, which changes nothing.
  unfoldable pub get_state :
      Text → Option j.Value → Option Text → BattleEngine s.Session → Attempt (TurnResult j.Value)
  unfolding find_session read_battle not_found
  get_state session_id state error e = elim (find_session session_id e) [
    | none ↦ done (record {
      succeeded = false;
      response = state;
      error = assign error (not_found session_id);
    })
    | some session ↦ read_battle session_id (s.get_battle session) state error
  ]
