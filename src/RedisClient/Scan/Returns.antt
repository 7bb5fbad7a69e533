-- ===== src/RedisClient/Scan/Returns.antt =====
-- The loop over a page in DeleteRoomsForServer of src/server/redis_client.cpp.
use pokemon_cpp_server.Common.{
  ◌≡◌, refl, ◌∙◌, ap, Option, none, some, Bool, true, false, [], ◌∷◌, arith, if◌then◌else◌, if-elim,
}
use pokemon_cpp_server.Text.{Text, codes, c_str, ◌==◌}
use pokemon_cpp_server.Exec.{
  Exec, Outcome, ok, thrown, fault, unfinished, Attempt, done, threw, continue, pure, lift,
  try_catch, catch_with, ◌>>=◌, ◌>>◌,
}
use pokemon_cpp_server.External.Json.{Json}
use pokemon_cpp_server.External.Hiredis.{Hiredis, Reply, Replies, string, end, missing, element}
use pokemon_cpp_server.RedisClient.{send, command_key}
use pokemon_cpp_server.RedisClient.Scan.{
  is_command_key, each_key, use_key, use_value, belongs_to, delete_if_owned,
}

module _ (j : Json) (h : Hiredis) (pod_ip : Text) where
  abbrev pub body : Bool → Text → Text → Exec h.Conn Bool
  body = delete_if_owned j h pod_ip

  -- The code returns, or throws.
  unfoldable settles : {A : Type 0} → Outcome A → Bool
  settles (ok a) = true
  settles (thrown w) = true
  settles _ = false

  abbrev Settles : {A : Type 0} → Exec h.Conn A → Type 0
  Settles m = (c : h.Conn) → settles (m c).0 ≡ true

  abbrev pub Returns : {A : Type 0} → Exec h.Conn A → Type 0
  Returns {A} m = (c : h.Conn) → (a : A) × ((m c).0 ≡ ok a)

  lift-Settles : {A : Type 0} (r : Attempt A) → Settles (lift {S = h.Conn} r)
  unfolding settles
  lift-Settles (done a) c = refl
  lift-Settles (threw w) c = refl

  pure-Settles : {A : Type 0} (a : A) → Settles (pure {S = h.Conn} a)
  unfolding settles
  pure-Settles a c = refl

  bind-Settles :
      {A B : Type 0} (m : Exec h.Conn A) (f : A → Exec h.Conn B)
      → Settles m
      → ((a : A) → Settles (f a))
      → Settles (m >>= f)
  unfolding settles
  bind-Settles {A} {B} m f k l c = go (m c).0 (m c).1 (k c)
    where
      go : (r : Outcome A) (t : h.Conn) → settles r ≡ true → settles (continue r f t).0 ≡ true
      go (ok a) t e = l a t
      go (thrown w) t e = refl
      go fault t e = e
      go unfinished t e = e

  bind-Returns :
      {A B : Type 0} (m : Exec h.Conn A) (f : A → Exec h.Conn B)
      → Returns m
      → ((a : A) → Returns (f a))
      → Returns (m >>= f)
  bind-Returns m f k l c =
      let r = k c in let s = l r.0 (m c).1 in (s.0, ap (λ o. (continue o f (m c).1).0) r.1 ∙ s.1)

  catch-Returns :
      {A : Type 0} (m : Exec h.Conn A) (a : A) → Settles m → Returns (try_catch m (λ what. pure a))
  unfolding settles
  catch-Returns {A} m a k c = go (m c).0 (m c).1 (k c)
    where
      go :
          (r : Outcome A) (t : h.Conn)
          → settles r ≡ true
          → (b : A) × ((catch_with (λ what. pure a) r t).0 ≡ ok b)
      go (ok b) t e = (b, refl)
      go (thrown w) t e = (a, refl)
      go fault t e = absurd (ground arith)
      go unfinished t e = absurd (ground arith)

  belongs_to-Settles : (x : j.Value) → Settles (belongs_to j h pod_ip x)
  unfolding belongs_to
  belongs_to-Settles x =
      if-elim Settles (j.contains x (codes "server_id"))
        (lift (j.member x (codes "server_id")) >>= λ id.
          if j.is_string id
          then (lift (j.get_string id) >>= λ server_id. pure (server_id == pod_ip))
          else pure false)
        (pure false)
        (λ e.
          bind-Settles (lift (j.member x (codes "server_id"))) _
            (lift-Settles (j.member x (codes "server_id")))
            (λ id.
              if-elim Settles (j.is_string id)
                (lift (j.get_string id) >>= λ server_id. pure (server_id == pod_ip)) (pure false)
                (λ e.
                  bind-Settles (lift (j.get_string id)) _ (lift-Settles (j.get_string id))
                    (λ server_id. pure-Settles (server_id == pod_ip)))
                (λ e. pure-Settles false)))
        (λ e. pure-Settles false)

  deletes-Settles :
      (any owned : Bool) (key : Text)
      → Settles (
          if owned
          then (send h (codes "DEL" ∷ c_str key ∷ c_str (command_key key) ∷ []) >> pure true)
          else pure any)
  unfolding send settles
  deletes-Settles any true key c = refl
  deletes-Settles any false key c = refl

  -- What DeleteRoomsForServer does with a value never leaves its try block.
  pub body-Returns : (any : Bool) (key value : Text) → Returns (body any key value)
  unfolding delete_if_owned
  body-Returns any key value =
      catch-Returns
        (lift (j.parse value) >>= λ x. belongs_to j h pod_ip x >>= λ owned.
          if owned
          then (send h (codes "DEL" ∷ c_str key ∷ c_str (command_key key) ∷ []) >> pure true)
          else pure any)
        any
        (bind-Settles (lift (j.parse value)) _ (lift-Settles (j.parse value)) (λ x.
          bind-Settles (belongs_to j h pod_ip x) _ (belongs_to-Settles x)
            (λ owned. deletes-Settles any owned key)))

  use_value-Returns :
      (any : Bool) (key : Text) (r : Option Reply) → Returns (use_value h body any key r)
  unfolding use_value
  use_value-Returns any key (some (string v)) c = body-Returns any key v c
  use_value-Returns any key none c = (any, refl)
  use_value-Returns any key (some r) c = (any, refl)

  pub use_key-Returns : (any : Bool) (key : Text) → Returns (use_key h body any key)
  unfolding use_key send
  use_key-Returns any key =
      if-elim Returns (is_command_key key) (pure any)
        (send h (codes "GET" ∷ c_str key ∷ []) >>= λ reply. use_value h body any key reply)
        (λ e. λ c. (any, refl)) (λ e. λ c. use_value-Returns any key _ _)

  pub each_key-Returns : (keys : Replies) (any : Bool) → Returns (each_key h body keys any)
  unfolding each_key
  each_key-Returns end any c = (any, refl)
  each_key-Returns (missing rest) any c = each_key-Returns rest any c
  each_key-Returns (element (string key) rest) any c =
      bind-Returns (use_key h body any key) (λ next. each_key h body rest next)
        (use_key-Returns any key) (λ next. each_key-Returns rest next) c
  each_key-Returns (element other rest) any c = each_key-Returns rest any c
