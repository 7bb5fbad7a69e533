-- ===== src/BattleEngine/Laws.antt =====
-- What the methods of the battle engine leave behind.
use pokemon_cpp_server.Common.{
  ◌≡◌, ◌≢◌, refl, ◌⊎◌, inl, inr, Option, none, some, true, false, arith, if◌then◌else◌, Bool-cases,
  ◌++◌,
}
use pokemon_cpp_server.Text.{Text, ◌==◌, codes, is_empty}
use pokemon_cpp_server.Map.{has, Distinct}
use pokemon_cpp_server.Map.Laws.{
  lookup-insert, lookup-erase, Distinct-insert, Distinct-erase, AllEntries, insert-AllEntries,
  erase-AllEntries,
}
use pokemon_cpp_server.Exec.{Attempt, done, threw}
use pokemon_cpp_server.External.Json.{Json}
use pokemon_cpp_server.External.Simulator.{Simulator}
use pokemon_cpp_server.BattleEngine.{
  BattleEngine, assign, find_session, store_session, destroy_session, has_session, create_session,
  after_creation, add_session,
}

-- A session pointer that is not null.
abbrev pub IsHeld : {S : Type 0} → Text → Option S → Type 0
IsHeld k p = p ≢ none

pub record IsValid {S : Type 0} (e : BattleEngine S) : Type 0 where
  pub distinct : Distinct e.sessions
  pub held : AllEntries IsHeld e.sessions

module _ {S : Type 0} where
  pub store_session-IsValid :
      (k : Text) (session : S) (e : BattleEngine S)
      → IsValid e
      → IsValid (store_session k session e)
  unfolding store_session
  store_session-IsValid k session e v = record {
    distinct = Distinct-insert k (some session) e.sessions v.distinct;
    held = insert-AllEntries IsHeld k (some session) e.sessions (λ p. cc) v.held;
  }

  pub destroy_session-IsValid :
      (k : Text) (e : BattleEngine S) → IsValid e → IsValid (destroy_session k e).1
  unfolding destroy_session
  destroy_session-IsValid k e v = record {
    distinct = Distinct-erase k e.sessions v.distinct;
    held = erase-AllEntries IsHeld k e.sessions v.held;
  }

  -- In an engine in order, DestroySession removes exactly the session with the id, and says whether
  -- it was there.
  pub destroy_session_lem :
      (k : Text) (e : BattleEngine S)
      → IsValid e
      → ((destroy_session k e).0 ≡ has_session k e)
        × ((j : Text)
            → find_session j (destroy_session k e).1 ≡ (if k == j then none else find_session j e))
  unfolding destroy_session has_session find_session
  destroy_session_lem k e v = (refl, λ j. ground (arith, lookup-erase k j e.sessions v.distinct))

  pub find_session-store_session :
      (k j : Text) (session : S) (e : BattleEngine S)
      → find_session j (store_session k session e)
        ≡ (if k == j then some session else find_session j e)
  unfolding find_session store_session
  find_session-store_session k j session e =
      ground (arith, lookup-insert k j (some session) e.sessions)

  pub has_session-store_session :
      (k j : Text) (session : S) (e : BattleEngine S)
      → has_session j (store_session k session e) ≡ (if k == j then true else has_session j e)
  unfolding has_session store_session
  has_session-store_session k j session e =
      ground (arith, lookup-insert k j (some session) e.sessions)

module _ (j : Json) (s : Simulator j) where
  -- The session that CreateSession starts, if it starts one: the id is not empty, the simulator
  -- accepts the request and no session has the id.
  abbrev pub Starts : Text → j.Value → BattleEngine s.Session → s.Session → Type 0
  Starts k request e session =
      (is_empty k ≡ false)
      × (s.create_from_json request ≡ done (inr session))
      × (has_session k e ≡ false)

  -- When CreateSession starts a session it returns true and stores the session under its id.
  pub create_session-Starts :
      (k : Text) (request : j.Value) (error : Option Text) (e : BattleEngine s.Session)
      (session : s.Session)
      → Starts k request e session
      → create_session j s k request error e ≡ (done (true, error), store_session k session e)
  unfolding create_session has_session
  create_session-Starts k request error e session h = ground arith

  -- What a call of CreateSession did: it started a session, or it returned false or threw and left
  -- the engine as it was.
  pub data Creation (k : Text) (request : j.Value) (error : Option Text)
      (e : BattleEngine s.Session) : Type 0 where
    starts :
        (session : s.Session)
        → Starts k request e session
        → create_session j s k request error e ≡ (done (true, error), store_session k session e)
        → Creation k request error e
    refuses :
        (out : Option Text)
        → create_session j s k request error e ≡ (done (false, out), e)
        → Creation k request error e
    throws :
        (what : Text)
        → create_session j s k request error e ≡ (threw what, e)
        → Creation k request error e

  with_request :
      (k : Text) (request : j.Value) (error : Option Text) (e : BattleEngine s.Session)
      (c : Attempt (Text ⊎ s.Session))
      → is_empty k ≡ false
      → s.create_from_json request ≡ c
      → Creation k request error e
  unfolding create_session has_session
  with_request k request error e (threw w) p c = throws w (ground arith)
  with_request k request error e (done (inl m)) p c = refuses (assign error m) (ground arith)
  with_request k request error e (done (inr x)) p c = elim (Bool-cases (has k e.sessions)) [
    | inl q ↦ refuses (assign error (codes "session already exists: " ++ k)) (ground arith)
    | inr q ↦ starts x (p, c, q) (ground arith)
  ]

  -- CreateSession, whatever it is given, starts a new session under its id and returns true, or
  -- leaves the engine as it was and returns false or throws.
  pub create_session-Creation :
      (k : Text) (request : j.Value) (error : Option Text) (e : BattleEngine s.Session)
      → Creation k request error e
  unfolding create_session
  create_session-Creation k request error e = elim (Bool-cases (is_empty k)) [
    | inl p ↦ refuses (assign error (codes "session_id cannot be empty")) (ground arith)
    | inr p ↦ with_request k request error e (s.create_from_json request) p refl
  ]

  add_session-IsValid :
      (k : Text) (error : Option Text) (c : Text ⊎ s.Session) (e : BattleEngine s.Session)
      → IsValid e
      → IsValid (add_session k error c e).1
  unfolding add_session
  add_session-IsValid k error (inl m) e v = v
  add_session-IsValid k error (inr x) e v = ground (arith, store_session-IsValid k x e v)

  pub create_session-IsValid :
      (k : Text) (request : j.Value) (error : Option Text) (e : BattleEngine s.Session)
      → IsValid e
      → IsValid (create_session j s k request error e).1
  unfolding create_session
  create_session-IsValid k request error e v = elim (Bool-cases (is_empty k)) [
    | inl p ↦ rw (p, create_session) v
    | inr p ↦ rw (p, create_session) (at (s.create_from_json request))
  ]
    where
      at : (c : Attempt (Text ⊎ s.Session)) → IsValid (after_creation k error c e).1
      at (threw w) = v
      at (done c) = add_session-IsValid k error c e v
