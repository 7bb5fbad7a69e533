-- ===== src/Examples/Battles.antt =====
-- Examples for the battle engine.
use pokemon_cpp_server.Common.{ℕ, ◌≡◌, refl, none, some, true, false, [], ◌∷◌}
use pokemon_cpp_server.Text.{Text, codes, ◌==◌}
use pokemon_cpp_server.Map.{lookup, insert}
use pokemon_cpp_server.Exec.{done}
use pokemon_cpp_server.BattleEngine.{
  BattleEngine, store_session, has_session, find_session, process_turn, null_as_none,
}
use pokemon_cpp_server.BattleEngine.Turns.{process_turn_frame, process_turn_succeeds}
use pokemon_cpp_server.BattleEngine.Laws.{IsValid, create_session-Creation, Creation}
use pokemon_cpp_server.Examples.{
  json, simulator, Value, flat, bare, members_of, insert, flag, find, truth,
}

abbrev arena : Text
arena = codes "arena"

abbrev no_battles : BattleEngine ℕ
no_battles = record { sessions = [] }

abbrev one_battle : BattleEngine ℕ
one_battle = store_session arena 0 no_battles

no_battles-IsValid : IsValid no_battles
no_battles-IsValid = record { distinct = tt; held = tt }

abbrev team : Value
team = flat (bare (codes "team"))

create_session-Creation_example : Creation json simulator arena team none no_battles
create_session-Creation_example = create_session-Creation json simulator arena team none no_battles

process_turn_frame_example :
    (has_session (codes "b") (process_turn json simulator arena team none none one_battle).1
      ≡ has_session (codes "b") one_battle)
    × ((arena == codes "b") ≡ false
        → find_session (codes "b") (process_turn json simulator arena team none none one_battle).1
          ≡ find_session (codes "b") one_battle)
process_turn_frame_example =
    process_turn_frame json simulator arena (codes "b") team none none one_battle

process_turn_succeeds_example :
    process_turn json simulator arena team (some team) none one_battle ≡ (
      done (record {
        succeeded = true;
        response = some (members_of ((codes "ok", truth true) ∷ []));
        error = none;
      }),
      store_session arena 1 one_battle,
    )
unfolding find_session store_session insert lookup null_as_none flag find codes ◌==◌
process_turn_succeeds_example =
    process_turn_succeeds json simulator arena team team
      (members_of ((codes "ok", truth true) ∷ [])) none one_battle 0 refl refl refl
