-- ===== src/Examples.antt =====
-- A small format, simulator and Redis server for the examples: concrete functions for the parameters
-- of the other modules.
pub mod Rooms
pub mod Battles
pub mod Service
pub mod Redis
pub mod Scans
pub mod Start
pub mod Threads
use pokemon_cpp_server.Common.{
  ℕ, suc, ◌+◌, ◌/◌, ◌<◌, ◌^◌, ◌≡◌, refl, Option, none, some, Bool, true, false, ◌&&◌, ◌||◌, List,
  [], ◌∷◌, if◌then◌else◌, arith, inl, inr, ltb, ◌-◌, ◌⊎◌, eqb, ap, subst, sym,
}
use pokemon_cpp_server.Text.{Text, codes, ◌==◌, starts_with}
use pokemon_cpp_server.Exec.{Attempt, done, threw}
use pokemon_cpp_server.External.Json.{Json}
use pokemon_cpp_server.External.Simulator.{Simulator}
use pokemon_cpp_server.External.Hiredis.{
  Hiredis, Reply, Replies, status, integer, string, nil, array, end, element, Connection, opened,
}
use pokemon_cpp_server.External.Server.{Server, Reads, Entry, text, Listed, here, there}
use pokemon_cpp_server.RedisClient.Scan.Pages.{page}
use pokemon_cpp_server.Map.{Map, lookup, insert}
use pokemon_cpp_server.Metrics.{Double}
use pokemon_cpp_server.Text.Number.{decimal}

-- A flat value: a text, a number, a truth value or the members of an object.
pub data Flat : Type 0 where
  bare : Text → Flat
  count : ℕ → Flat
  truth : Bool → Flat

pub data Value : Type 0 where
  flat : Flat → Value
  members_of : Map Flat → Value

unfoldable pub member_of : Option Flat → Attempt Value
member_of none = threw (codes "key not found")
member_of (some v) = done (flat v)

unfoldable pub find : Value → Text → Option Flat
unfolding lookup
find (flat v) key = none
find (members_of m) key = lookup key m

unfoldable pub is_some {ℓ} : {A : Type ℓ} → Option A → Bool
is_some none = false
is_some (some a) = true

unfoldable pub flag : Bool → Option Flat → Attempt Bool
flag default none = done default
flag default (some (truth b)) = done b
flag default (some other) = threw (codes "type must be boolean")

unfoldable pub put_flat : Value → Text → Value → Attempt Value
unfolding insert
put_flat (members_of m) key (flat v) = done (members_of (insert key v m))
put_flat (flat w) key (flat v) = done (members_of ((key, v) ∷ []))
put_flat other key v = threw (codes "not flat")

unfoldable pub flatten : List (Text × Value) → Map Flat
flatten [] = []
flatten ((key, flat v) ∷ rest) = (key, v) ∷ flatten rest
flatten ((key, other) ∷ rest) = flatten rest

unfoldable pub as_text : Value → Attempt Text
as_text (flat (bare t)) = done t
as_text other = threw (codes "type must be string")

unfoldable pub as_number : Value → Attempt ℕ
as_number (flat (count n)) = done n
as_number other = threw (codes "type must be number")

unfoldable pub is_text : Value → Bool
is_text (flat (bare t)) = true
is_text other = false

-- A text that starts with a digit is an object whose "status" is that digit, and one that starts with
-- @ an object whose "server_id" is the rest.
unfoldable pub read : Text → Attempt Value
read [] = threw (codes "unexpected end of input")
read (c ∷ s) =
    if ltb c 58
    then done (members_of ((codes "status", count (c - 48)) ∷ []))
    else if eqb c 64
    then done (members_of ((codes "server_id", bare s) ∷ []))
    else done (flat (bare (c ∷ s)))

abbrev pub json : Json
json = record {
  Value = Value;
  parse = read;
  dump = λ v. done (codes "{}");
  contains = λ v key. is_some (find v key);
  member = λ v key. member_of (find v key);
  value_bool = λ v key default. flag default (find v key);
  is_array = λ v. false;
  is_empty = λ v. false;
  first = λ v. threw (codes "no array");
  is_string = is_text;
  get_string = as_text;
  get_int = as_number;
  null = members_of [];
  put = put_flat;
  boolean = λ b. flat (truth b);
  string = λ t. flat (bare t);
  number = λ n. flat (count n);
  array = λ l. members_of [];
  object = λ l. members_of (flatten l);
}

unfoldable pub new_session : Value → Attempt (Text ⊎ ℕ)
new_session (flat v) = done (inr 0)
new_session (members_of m) = done (inl (codes "no team"))

-- A session counts its turns.
abbrev pub simulator : Simulator json
simulator = record {
  Session = ℕ;
  Battle = ℕ;
  create_from_json = new_session;
  process_turn = λ n v. (done (members_of ((codes "ok", truth true) ∷ [])), suc n);
  get_battle = some;
  battle_all_info_to_json = λ n. done (flat (count n));
}

-- The entries of the example server.
abbrev pub Store : Type 0
Store = Text → Option Entry

unfoldable pub present : Option Entry → ℕ
present none = 0
present (some e) = 1

unfoldable pub read_entry : Option Entry → Option Reply
read_entry (some (text v)) = some (string v)
read_entry other = some nil

-- The keys that SCAN lists.
abbrev pub listed : Replies
listed = element (string (codes "pokemon:room:1")) (element (string (codes "pokemon:room:2")) end)

unfoldable pub execute : Store → List Text → Option Reply × Store
unfolding present read_entry
execute c (name ∷ k ∷ v ∷ option ∷ t ∷ []) =
    if name == codes "SET"
    then (some (status (some (codes "OK"))), λ i. if k == i then some (text v) else c i)
    else (some nil, c)
execute c (name ∷ k ∷ l ∷ []) =
    if name == codes "DEL"
    then (
      some (integer (present (c k) + present (c l))),
      λ i. if k == i || l == i then none else c i,
    )
    else (some (integer 1), c)
execute c (name ∷ k ∷ []) = (if name == codes "GET" then read_entry (c k) else some (integer 1), c)
execute c (name ∷ cursor ∷ match ∷ pattern ∷ size ∷ n ∷ []) =
    (if name == codes "SCAN" then some (page (codes "0") listed) else some nil, c)
execute c other = (some nil, c)

abbrev pub redis : Hiredis
redis = record { Conn = Store; connect = λ host port s u. opened (λ i. none); command = execute }

present-small : (e : Option Entry) → present e < 2
unfolding present
present-small none = omega arith
present-small (some e) = omega arith

pub server : Server redis
unfolding execute codes ◌==◌
server = record {
  entry = λ c i. c i;
  set_reply = λ c k v n low high. refl;
  set_entry = λ c k v n low high i. refl;
  del_reply = λ c k l. (
    present (c k) + present (c l),
    refl,
    omega (arith, present-small (c k), present-small (c l)),
  );
  del_entry = λ c k l i. refl;
}

read_entry-text : (e : Option Entry) (v : Text) → read_entry e ≡ some (string v) → e ≡ some (text v)
unfolding read_entry
read_entry-text e v r = ground arith

-- The page of keys in a reply of SCAN.
keys_of : Option Reply → Replies
keys_of (some (array (element c (element (array keys) rest)))) = keys
keys_of r = end

same_keys :
    (n : Reply) (keys rest : Replies)
    → some (page (codes "0") listed) ≡ some (array (element n (element (array keys) rest)))
    → listed ≡ keys
unfolding keys_of
same_keys n keys rest e = ap keys_of e

listed-match :
    (key : Text) (keys : Replies)
    → listed ≡ keys
    → Listed key keys
    → starts_with key (codes "pokemon:room:") ≡ true
unfolding starts_with codes
listed-match key keys e l = match key (subst (Listed key) (sym e) l)
  where
    match : (key : Text) → Listed key listed → starts_with key (codes "pokemon:room:") ≡ true
    match _ (here _) = refl
    match _ (there _ _ (here _)) = refl
    match key (there _ _ (there _ _ l)) = elim l [ ]

pub reads : Reads server
unfolding execute codes ◌==◌ server
reads = record {
  get_entry = λ c k i. refl;
  get_reply = λ c k v e. read_entry-text (c k) v e;
  get_text = λ c k v e. ap read_entry e;
  scan_entry = λ c cursor i. refl;
  scan_match = λ c cursor key n keys rest e l. listed-match key keys (same_keys n keys rest e) l;
}

-- A server that always gives one reply.
abbrev pub replying : Reply → Hiredis
replying r = record {
  Conn = Unit {0};
  connect = λ host port s u. opened tt;
  command = λ c args. (some r, c);
}

abbrev pub double : Double
double = record { Number = ℕ; zero = 0; quotient = λ a b. a / b; print = decimal }
