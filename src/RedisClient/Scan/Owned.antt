-- ===== src/RedisClient/Scan/Owned.antt =====
-- What the try block of DeleteRoomsForServer of src/server/redis_client.cpp deletes.
use pokemon_cpp_server.Common.{
  ◌≡◌, refl, sym, ◌∙◌, ap, ◌⊎◌, inl, inr, none, some, Bool, true, false, ◌||◌, [], ◌∷◌,
  if◌then◌else◌, if-elim, Bool-cases, arith,
}
use pokemon_cpp_server.Text.{Text, codes, c_str, ◌==◌, eq→≡, eq_refl}
use pokemon_cpp_server.Exec.{
  Exec, Outcome, ok, thrown, fault, unfinished, Attempt, done, threw, continue, pure, lift,
  try_catch, catch_with, ◌>>=◌, ◌>>◌,
}
use pokemon_cpp_server.External.Json.{Json}
use pokemon_cpp_server.External.Hiredis.{Hiredis}
use pokemon_cpp_server.External.Server.{Server, text}
use pokemon_cpp_server.RedisClient.{send, command_key}
use pokemon_cpp_server.RedisClient.Scan.{is_command_key, belongs_to, delete_if_owned}

-- The text is JSON whose member "server_id" is the text `pod_ip`.
pub record Owned (j : Json) (pod_ip value : Text) : Type 0 where
  pub state : j.Value
  pub parsed : j.parse value ≡ done state
  pub has_id : j.contains state (codes "server_id") ≡ true
  pub id : j.Value
  pub id_member : j.member state (codes "server_id") ≡ done id
  pub is_text : j.is_string id ≡ true
  pub id_text : j.get_string id ≡ done pod_ip

ok-eq : {A : Type 0} {a b : A} → ok a ≡ ok b → a ≡ b
ok-eq e = cc

-- `IsListed` is what is known of the keys that SCAN lists.
module _ (j : Json) (h : Hiredis) (server : Server h) (pod_ip : Text) (IsListed : Text → Type 0)
    (before : h.Conn) where
  -- The entry of a listed key that is no command key and whose text names this pod, or the entry of the
  -- command key that belongs to such a key.
  pub record Removable (i : Text) : Type 0 where
    pub key : Text
    pub value : Text
    pub listed : IsListed key
    pub no_command : is_command_key key ≡ false
    pub stored : server.entry before (c_str key) ≡ some (text value)
    pub owned : Owned j pod_ip value
    pub named : (c_str key == i || c_str (command_key key) == i) ≡ true

  -- Every entry is as before, or it was removable and is gone.
  abbrev pub Shrunk : h.Conn → Type 0
  Shrunk c =
      (i : Text)
      → (server.entry c i ≡ server.entry before i) ⊎ ((server.entry c i ≡ none) × Removable i)

  abbrev pub Keeps : {A : Type 0} → Exec h.Conn A → Type 0
  Keeps m = (c : h.Conn) → Shrunk c → Shrunk (m c).1

  pub bind-Keeps :
      {A B : Type 0} (m : Exec h.Conn A) (f : A → Exec h.Conn B)
      → Keeps m
      → ((a : A) → Keeps (f a))
      → Keeps (m >>= f)
  bind-Keeps {A} {B} m f k l c v = go (m c).0 (m c).1 (k c v)
    where
      go : (r : Outcome A) (t : h.Conn) → Shrunk t → Shrunk (continue r f t).1
      go (ok a) t v = l a t v
      go (thrown w) t v = v
      go fault t v = v
      go unfinished t v = v

  -- Code that leaves the connection alone and does not read it.
  abbrev Still : {A : Type 0} → Exec h.Conn A → Type 0
  Still m = (c : h.Conn) → m c ≡ ((m before).0, c)

  lift-Still :
      {A B : Type 0} (r : Attempt A) (f : A → Exec h.Conn B)
      → ((a : A) → Still (f a))
      → Still (lift r >>= f)
  lift-Still (done a) f k c = k a c
  lift-Still (threw w) f k c = refl

  pub belongs_to-pure :
      (x : j.Value) (c : h.Conn)
      → belongs_to j h pod_ip x c ≡ ((belongs_to j h pod_ip x before).0, c)
  unfolding belongs_to
  belongs_to-pure x =
      if-elim Still (j.contains x (codes "server_id"))
        (lift (j.member x (codes "server_id")) >>= λ id.
          if j.is_string id
          then (lift (j.get_string id) >>= λ server_id. pure (server_id == pod_ip))
          else pure false)
        (pure false)
        (λ e. lift-Still (j.member x (codes "server_id")) _ (λ id.
          if-elim Still (j.is_string id)
            (lift (j.get_string id) >>= λ server_id. pure (server_id == pod_ip)) (pure false)
            (λ e. lift-Still (j.get_string id) _ (λ server_id. λ c. refl)) (λ e. λ c. refl)))
        (λ e. λ c. refl)

  -- The test of the id that is a member of the state.
  abbrev named : Attempt j.Value → Exec h.Conn Bool
  named r = lift r >>= λ id.
      if j.is_string id
      then (lift (j.get_string id) >>= λ server_id. pure (server_id == pod_ip))
      else pure false

  abbrev compared : Attempt Text → Exec h.Conn Bool
  compared r = lift r >>= λ server_id. pure (server_id == pod_ip)

  compared-true : (r : Attempt Text) → (compared r before).0 ≡ ok true → r ≡ done pod_ip
  compared-true (done server_id) t = ap done (eq→≡ server_id pod_ip (ok-eq t))
  compared-true (threw w) t = absurd (ground arith)

  named-true :
      (x : j.Value) (value : Text) (r : Attempt j.Value)
      → j.parse value ≡ done x
      → j.contains x (codes "server_id") ≡ true
      → j.member x (codes "server_id") ≡ r
      → (named r before).0 ≡ ok true
      → Owned j pod_ip value
  named-true x value (threw w) p has e t = absurd (ground arith)
  named-true x value (done id) p has e t = by_test (Bool-cases (j.is_string id))
    where
      by_test : (j.is_string id ≡ true) ⊎ (j.is_string id ≡ false) → Owned j pod_ip value
      by_test (inl s) = record {
        state = x;
        parsed = p;
        has_id = has;
        id = id;
        id_member = e;
        is_text = s;
        id_text = compared-true (j.get_string id) (
            sym (ap (λ b. ((if b then compared (j.get_string id) else pure false) before).0) s)
            ∙ t);
      }
      by_test (inr s) = absurd (
          let u =
            sym (ap (λ b. ((if b then compared (j.get_string id) else pure false) before).0) s)
            ∙ t in
          ground arith)

  abbrev tested : j.Value → Bool → Exec h.Conn Bool
  tested x b = if b then named (j.member x (codes "server_id")) else pure false

  -- The pod is named just if the test is true.
  Owned-true :
      (x : j.Value) (value : Text)
      → j.parse value ≡ done x
      → (belongs_to j h pod_ip x before).0 ≡ ok true
      → Owned j pod_ip value
  unfolding belongs_to
  Owned-true x value p t = elim (Bool-cases (j.contains x (codes "server_id"))) [
    | inl has ↦
        named-true x value (j.member x (codes "server_id")) p has refl
          (sym (ap (λ b. (tested x b before).0) has) ∙ t)
    | inr lacks ↦ absurd (let u = sym (ap (λ b. (tested x b before).0) lacks) ∙ t in ground arith)
  ]

  pub true-Owned :
      (value : Text) (o : Owned j pod_ip value)
      → (c : h.Conn) → belongs_to j h pod_ip o.state c ≡ (ok true, c)
  unfolding belongs_to
  true-Owned value o c = rw (o.has_id, o.id_member, o.is_text, o.id_text, eq_refl pod_ip) refl

  deletes :
      (key value : Text)
      → IsListed key
      → server.entry before (c_str key) ≡ some (text value)
      → is_command_key key ≡ false
      → Owned j pod_ip value
      → Keeps (send h (codes "DEL" ∷ c_str key ∷ c_str (command_key key) ∷ []))
  unfolding send
  deletes key value l e room o c v i =
      elim (Bool-cases (c_str key == i || c_str (command_key key) == i)) [
        | inl n ↦ inr (
          server.del_entry c (c_str key) (c_str (command_key key)) i ∙ rw n refl,
          record {
            key = key;
            value = value;
            listed = l;
            no_command = room;
            stored = e;
            owned = o;
            named = n;
          },
        )
        | inr n ↦
            (let same = server.del_entry c (c_str key) (c_str (command_key key)) i ∙ rw n refl in
              elim (v i) [ inl k ↦ inl (same ∙ k) | inr k ↦ inr (same ∙ k.0, k.1) ])
      ]

  deletes_owned :
      (any owned : Bool) (key value : Text)
      → (owned ≡ true → Keeps (send h (codes "DEL" ∷ c_str key ∷ c_str (command_key key) ∷ [])))
      → Keeps (
          if owned
          then (send h (codes "DEL" ∷ c_str key ∷ c_str (command_key key) ∷ []) >> pure true)
          else pure any)
  deletes_owned any true key value f c v =
      bind-Keeps (send h _) (λ r. pure true) (f refl) (λ r. λ t. λ w. w) c v
  deletes_owned any false key value f c v = v

  -- The code of the try block, from the parsed value.
  abbrev judge : Bool → Text → Outcome Bool → Exec h.Conn Bool
  judge any key o = continue o (λ owned.
      if owned
      then (send h (codes "DEL" ∷ c_str key ∷ c_str (command_key key) ∷ []) >> pure true)
      else pure any)

  judge-Keeps :
      (any : Bool) (key value : Text) (x : j.Value) (o : Outcome Bool)
      → IsListed key
      → server.entry before (c_str key) ≡ some (text value)
      → is_command_key key ≡ false
      → j.parse value ≡ done x
      → (belongs_to j h pod_ip x before).0 ≡ o
      → Keeps (judge any key o)
  judge-Keeps any key value x (ok b) l e room p q c v =
      deletes_owned any b key value
        (λ t. deletes key value l e room (Owned-true x value p (q ∙ ap ok t))) c v
  judge-Keeps any key value x (thrown w) l e room p q c v = v
  judge-Keeps any key value x fault l e room p q c v = v
  judge-Keeps any key value x unfinished l e room p q c v = v

  catch-Keeps :
      {A : Type 0} (m : Exec h.Conn A) (a : A) → Keeps m → Keeps (try_catch m (λ what. pure a))
  catch-Keeps {A} m a k c v = go (m c).0 (m c).1 (k c v)
    where
      go : (r : Outcome A) (t : h.Conn) → Shrunk t → Shrunk (catch_with (λ what. pure a) r t).1
      go (ok b) t v = v
      go (thrown w) t v = v
      go fault t v = v
      go unfinished t v = v

  parsed-Keeps :
      (any : Bool) (key value : Text) (r : Attempt j.Value)
      → IsListed key
      → server.entry before (c_str key) ≡ some (text value)
      → is_command_key key ≡ false
      → j.parse value ≡ r
      → Keeps (
          lift r >>= λ x. belongs_to j h pod_ip x >>= λ owned.
          if owned
          then (send h (codes "DEL" ∷ c_str key ∷ c_str (command_key key) ∷ []) >> pure true)
          else pure any)
  parsed-Keeps any key value (done x) l e room p c v =
      rw (belongs_to-pure x c) (judge-Keeps any key value x _ l e room p refl c v)
  parsed-Keeps any key value (threw w) l e room p c v = v

  pub delete_if_owned-Keeps :
      (any : Bool) (key value : Text)
      → IsListed key
      → server.entry before (c_str key) ≡ some (text value)
      → is_command_key key ≡ false
      → Keeps (delete_if_owned j h pod_ip any key value)
  unfolding delete_if_owned
  delete_if_owned-Keeps any key value l e room =
      catch-Keeps _ any (parsed-Keeps any key value (j.parse value) l e room refl)
