-- ===== src/External/Server.antt =====
-- What the program relies on of a Redis server: the documented effect of the commands it sends. An
-- entry that expires is one that another client deletes; it does not happen inside a call.
use pokemon_cpp_server.Common.{
  ℕ, ◌<◌, ◌^◌, ◌≡◌, Option, none, some, true, ◌||◌, List, [], ◌∷◌, if◌then◌else◌,
}
use pokemon_cpp_server.Text.{Text, codes, ◌==◌, starts_with}
use pokemon_cpp_server.Text.Number.{decimal}
use pokemon_cpp_server.External.Hiredis.{
  Hiredis, Reply, Replies, status, integer, string, array, element, missing,
}

pub data Entry : Type 0 where
  text : Text → Entry
  members : List Text → Entry

pub record Server (h : Hiredis) : Type 0 where
  pub entry : h.Conn → Text → Option Entry
  -- SET key value EX seconds, for a positive number of seconds
  pub set_reply :
      (c : h.Conn) (k v : Text) (seconds : ℕ)
      → 0 < seconds
      → seconds < 2 ^ 31
      → (h.command c (codes "SET" ∷ k ∷ v ∷ codes "EX" ∷ decimal seconds ∷ [])).0
        ≡ some (status (some (codes "OK")))
  pub set_entry :
      (c : h.Conn) (k v : Text) (seconds : ℕ)
      → 0 < seconds
      → seconds < 2 ^ 31
      → (i : Text)
      → entry (h.command c (codes "SET" ∷ k ∷ v ∷ codes "EX" ∷ decimal seconds ∷ [])).1 i
        ≡ (if k == i then some (text v) else entry c i)
  -- DEL key key: the number of keys that were removed
  pub del_reply :
      (c : h.Conn) (k l : Text)
      → (n : ℕ) × ((h.command c (codes "DEL" ∷ k ∷ l ∷ [])).0 ≡ some (integer n)) × (n < 2 ^ 63)
  pub del_entry :
      (c : h.Conn) (k l i : Text)
      → entry (h.command c (codes "DEL" ∷ k ∷ l ∷ [])).1 i
        ≡ (if k == i || l == i then none else entry c i)

-- The reply lists the key.
pub data Listed (key : Text) : Replies → Type 0 where
  here : (rest : Replies) → Listed key (element (string key) rest)
  there : (e : Reply) (rest : Replies) → Listed key rest → Listed key (element e rest)
  past : (rest : Replies) → Listed key rest → Listed key (missing rest)

-- The command that asks for a page of the keys pokemon:room:*
abbrev pub scan_rooms : Text → List Text
scan_rooms cursor =
    codes "SCAN"
    ∷ cursor
    ∷ codes "MATCH"
    ∷ codes "pokemon:room:*"
    ∷ codes "COUNT"
    ∷ codes "128"
    ∷ []

-- GET and SCAN change no entry, GET gives a text just if that is the entry, and SCAN with a pattern
-- lists only keys that match it.
pub record Reads {h : Hiredis} (server : Server h) : Type 0 where
  pub get_entry :
      (c : h.Conn) (k i : Text)
      → server.entry (h.command c (codes "GET" ∷ k ∷ [])).1 i ≡ server.entry c i
  pub get_reply :
      (c : h.Conn) (k v : Text)
      → (h.command c (codes "GET" ∷ k ∷ [])).0 ≡ some (string v)
      → server.entry c k ≡ some (text v)
  pub get_text :
      (c : h.Conn) (k v : Text)
      → server.entry c k ≡ some (text v)
      → (h.command c (codes "GET" ∷ k ∷ [])).0 ≡ some (string v)
  pub scan_entry :
      (c : h.Conn) (cursor i : Text)
      → server.entry (h.command c (scan_rooms cursor)).1 i ≡ server.entry c i
  pub scan_match :
      (c : h.Conn) (cursor key : Text) (next : Reply) (keys rest : Replies)
      → (h.command c (scan_rooms cursor)).0
        ≡ some (array (element next (element (array keys) rest)))
      → Listed key keys
      → starts_with key (codes "pokemon:room:") ≡ true
