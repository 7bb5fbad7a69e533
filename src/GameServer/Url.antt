-- ===== src/GameServer/Url.antt =====
-- The Redis URL that GameServer::Start of src/server/game_server.cpp reads.
use pokemon_cpp_server.Common.{ℕ, ◌<◌, ◌^◌, ◌≡◌, ◌≢◌, refl, none, some, [], ◌∷◌, ◌++◌, arith, All}
use pokemon_cpp_server.Text.{Text}
use pokemon_cpp_server.Text.Number.{decimal, stoi-decimal}
use pokemon_cpp_server.GameServer.{split_colon, with_port, parse_redis_url}

-- A text without a colon.
abbrev pub NoColon : Text → Type 0
NoColon s = All (λ c. c ≢ b':') s

split_colon-append :
    (host rest : Text) → NoColon host → split_colon (host ++ b':' ∷ rest) ≡ some (host, rest)
unfolding split_colon
split_colon-append [] rest h = ground arith
split_colon-append (c ∷ host) rest h = ground (arith, split_colon-append host rest h.1)

split_colon-NoColon : (s : Text) → NoColon s → split_colon s ≡ none
unfolding split_colon
split_colon-NoColon [] h = refl
split_colon-NoColon (c ∷ s) h = ground (arith, split_colon-NoColon s h.1)

-- Start reads back the host and the port of "host:port", for a host without a colon and a port that
-- an int holds; for a URL without a colon the port is 6379.
pub parse_redis_url_lem :
    (host : Text) (port : ℕ)
    → NoColon host
    → port < 2 ^ 31
    → (parse_redis_url (host ++ b':' ∷ decimal port) ≡ some (host, port))
      × (parse_redis_url host ≡ some (host, 6379))
unfolding parse_redis_url with_port
parse_redis_url_lem host port h b = (
  rw (split_colon-append host (decimal port) h, parse_redis_url) (rw (stoi-decimal port b)),
  rw (split_colon-NoColon host h, parse_redis_url),
)
