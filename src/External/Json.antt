-- ===== src/External/Json.antt =====
-- nlohmann::json: the operations that the program calls. A member that can throw returns an
-- `Attempt`.
use pokemon_cpp_server.Common.{ℕ, Bool, List}
use pokemon_cpp_server.Text.{Text}
use pokemon_cpp_server.Exec.{Attempt}

pub record Json : Type 1 where
  pub Value : Type 0
  -- json::parse and dump
  pub parse : Text → Attempt Value
  pub dump : Value → Attempt Text
  -- j.contains(key), j[key], j.value(key, default) at bool
  pub contains : Value → Text → Bool
  pub member : Value → Text → Attempt Value
  pub value_bool : Value → Text → Bool → Attempt Bool
  -- j.is_array(), j.empty(), j[0], j.is_string()
  pub is_array : Value → Bool
  pub is_empty : Value → Bool
  pub first : Value → Attempt Value
  pub is_string : Value → Bool
  -- j.get<std::string>(), j.get<int>() as a 32-bit pattern
  pub get_string : Value → Attempt Text
  pub get_int : Value → Attempt ℕ
  -- json(), j[key] = v on a null or an object, and the values built from literals
  pub null : Value
  pub put : Value → Text → Value → Attempt Value
  pub boolean : Bool → Value
  pub string : Text → Value
  pub number : ℕ → Value
  pub array : List Value → Value
  pub object : List (Text × Value) → Value
