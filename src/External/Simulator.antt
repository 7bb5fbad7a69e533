-- ===== src/External/Simulator.antt =====
-- The battle simulator (the git submodule under pokemonSimulator): IO/BattleSession.h and
-- IO/BattleToJson.h.
use pokemon_cpp_server.Common.{◌⊎◌, Option}
use pokemon_cpp_server.Text.{Text}
use pokemon_cpp_server.Exec.{Attempt}
use pokemon_cpp_server.External.Json.{Json}

pub record Simulator (j : Json) : Type 1 where
  pub Session : Type 0
  pub Battle : Type 0
  -- BattleSession::createFromJson: an error message, or a session
  pub create_from_json : j.Value → Attempt (Text ⊎ Session)
  -- processTurn: the answer, and the session that it leaves
  pub process_turn : Session → j.Value → Attempt j.Value × Session
  -- getBattle (a pointer) and BattleToJson::battleAllInfoToJson
  pub get_battle : Session → Option Battle
  pub battle_all_info_to_json : Battle → Attempt j.Value
