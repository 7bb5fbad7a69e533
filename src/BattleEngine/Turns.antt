-- ===== src/BattleEngine/Turns.antt =====
-- BattleEngine::ProcessTurn: what it answers and what it changes.
use pokemon_cpp_server.Common.{
  ◌≡◌, refl, inl, inr, Option, none, some, true, false, arith, Option-cases,
}
use pokemon_cpp_server.Text.{Text, ◌==◌, codes, eq_iff}
use pokemon_cpp_server.Exec.{done}
use pokemon_cpp_server.External.Json.{Json}
use pokemon_cpp_server.External.Simulator.{Simulator}
use pokemon_cpp_server.BattleEngine.{
  BattleEngine, assign, find_session, store_session, has_session, process_turn, process_found,
  judge, has_errors, not_found,
}
use pokemon_cpp_server.BattleEngine.Laws.{
  IsValid, store_session-IsValid, has_session-store_session, find_session-store_session,
}

module _ (j : Json) (s : Simulator j) where
  process_found-IsValid :
      (k : Text) (session : s.Session) (request : j.Value) (response : Option j.Value)
      (error : Option Text) (e : BattleEngine s.Session)
      → IsValid e
      → IsValid (process_found j s k session request response error e).1
  unfolding process_found
  process_found-IsValid k session request none error e v = v
  process_found-IsValid k session request (some old) error e v =
      store_session-IsValid k (s.process_turn session request).1 e v

  pub process_turn-IsValid :
      (k : Text) (request : j.Value) (response : Option j.Value) (error : Option Text)
      (e : BattleEngine s.Session)
      → IsValid e
      → IsValid (process_turn j s k request response error e).1
  unfolding process_turn
  process_turn-IsValid k request response error e v = elim (Option-cases (find_session k e)) [
    | inl p ↦ rw (p, process_turn) v
    | inr (x, p) ↦ rw (p, process_turn) (process_found-IsValid k x request response error e v)
  ]

  abbrev Frame : Text → Text → BattleEngine s.Session → BattleEngine s.Session → Type 0
  Frame k i e e' =
      (has_session i e' ≡ has_session i e)
      × ((k == i) ≡ false → find_session i e' ≡ find_session i e)

  process_found-Frame :
      (k i : Text) (session : s.Session) (request : j.Value) (response : Option j.Value)
      (error : Option Text) (e : BattleEngine s.Session)
      → has_session k e ≡ true
      → Frame k i e (process_found j s k session request response error e).1
  unfolding process_found
  process_found-Frame k i session request none error e h = (refl, λ q. refl)
  process_found-Frame k i session request (some old) error e h =
      let x = (s.process_turn session request).1 in
      (
        ground (arith, has_session-store_session k i x e, eq_iff k i),
        λ q. ground (arith, find_session-store_session k i x e),
      )

  has_session-find_session :
      (k : Text) (x : s.Session) (e : BattleEngine s.Session)
      → find_session k e ≡ some x
      → has_session k e ≡ true
  unfolding find_session has_session
  has_session-find_session k x e h = ground arith

  -- ProcessTurn adds and removes no session, and it changes no session but that of its id.
  pub process_turn_frame :
      (k i : Text) (request : j.Value) (response : Option j.Value) (error : Option Text)
      (e : BattleEngine s.Session)
      → (has_session i (process_turn j s k request response error e).1 ≡ has_session i e)
        × ((k == i) ≡ false
            → find_session i (process_turn j s k request response error e).1 ≡ find_session i e)
  unfolding process_turn
  process_turn_frame k i request response error e = elim (Option-cases (find_session k e)) [
    | inl p ↦ rw (p, process_turn) (refl, λ q. refl)
    | inr (x, p) ↦
        rw (p, process_turn)
          (process_found-Frame k i x request response error e (has_session-find_session k x e p))
  ]

  -- When the session is there, the caller takes a response, the simulator answers and "ok" of the
  -- answer is true or absent, ProcessTurn returns true, the caller has the answer, and the session
  -- is as the simulator left it.
  pub process_turn_succeeds :
      (k : Text) (request old answer : j.Value) (error : Option Text) (e : BattleEngine s.Session)
      (session : s.Session)
      → find_session k e ≡ some session
      → (s.process_turn session request).0 ≡ done answer
      → j.value_bool answer (codes "ok") true ≡ done true
      → process_turn j s k request (some old) error e ≡ (
        done (record { succeeded = true; response = some answer; error = error }),
        store_session k (s.process_turn session request).1 e,
      )
  unfolding process_turn process_found judge has_errors
  process_turn_succeeds k request old answer error e session f a good = ground arith

  -- What ProcessTurn answers for an id without a session.
  pub process_turn_unknown :
      (k : Text) (request : j.Value) (response : Option j.Value) (error : Option Text)
      (e : BattleEngine s.Session)
      → find_session k e ≡ none
      → process_turn j s k request response error e ≡ (
        done
            (record { succeeded = false; response = response; error = assign error (not_found k) }),
        e,
      )
  unfolding process_turn
  process_turn_unknown k request response error e h = rw (h, process_turn)
