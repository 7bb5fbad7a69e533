-- ===== src/Map.antt =====
-- std::map<std::string, V> and std::unordered_map<std::string, V>: an association list whose keys
-- do not repeat. No result of the program depends on the order in which a map is walked.
pub mod Laws
use pokemon_cpp_server.Common.{
  ℕ, ◌≡◌, List, [], ◌∷◌, Option, none, some, Bool, true, false, if◌then◌else◌,
}
use pokemon_cpp_server.Text.{Text, ◌==◌}

abbrev pub Map {ℓ} : Type ℓ → Type ℓ
Map V = List (Text × V)

module _ {ℓ} {V : Type ℓ} where
  -- m.find(k): the value, or none for m.end()
  unfoldable pub lookup : Text → Map V → Option V
  lookup wanted [] = none
  lookup wanted ((key, held) ∷ rest) = if key == wanted then some held else lookup wanted rest

  -- m[k] = v
  unfoldable pub insert : Text → V → Map V → Map V
  insert new fresh [] = (new, fresh) ∷ []
  insert new fresh ((key, held) ∷ rest) =
      if key == new then (key, fresh) ∷ rest else (key, held) ∷ insert new fresh rest

  -- m.erase(m.find(k))
  unfoldable pub erase : Text → Map V → Map V
  erase k [] = []
  erase k ((j, v) ∷ m) = if j == k then m else (j, v) ∷ erase k m

  -- for (auto &pair : m) pair.second = f(pair.second)
  unfoldable pub map_values : (V → V) → Map V → Map V
  map_values f [] = []
  map_values f ((j, v) ∷ m) = (j, f v) ∷ map_values f m

  unfoldable pub has : Text → Map V → Bool
  unfolding lookup
  has k m = elim (lookup k m) [ none ↦ false | some v ↦ true ]

  -- No key stands twice.
  abbrev pub Distinct : Map V → Type ℓ
  Distinct [] = Unit
  Distinct ((j, v) ∷ m) = (lookup j m ≡ none) × Distinct m
