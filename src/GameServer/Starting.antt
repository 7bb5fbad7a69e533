-- ===== src/GameServer/Starting.antt =====
-- GameServer::Start of src/server/game_server.cpp: what it leaves when it returns.
use pokemon_cpp_server.Common.{
  ℕ, ◌≡◌, refl, sym, ◌∙◌, ap, Option, none, some, Bool, true, false, arith, if◌then◌else◌, if-elim,
}
use pokemon_cpp_server.Text.{Text}
use pokemon_cpp_server.Exec.{Exec, Outcome, ok, thrown, fault, unfinished, continue, ◌>>=◌, pure}
use pokemon_cpp_server.External.Json.{Json}
use pokemon_cpp_server.External.Simulator.{Simulator}
use pokemon_cpp_server.External.Hiredis.{Hiredis}
use pokemon_cpp_server.RedisClient
use pokemon_cpp_server.RedisClient.Scan
use pokemon_cpp_server.GameService.{on_redis}
use pokemon_cpp_server.GameServer.{
  GameServer, on_world, launch, enter, start_at, start, connect_redis, parse_redis_url,
}

module _ {S A B : Type 0} where
  -- What a step and its continuation return together, the continuation returns.
  bind_ok :
      (m : Exec S A) (f : A → Exec S B) (s : S) (b : B)
      → ((m >>= f) s).0 ≡ ok b
      → (a : A) × ((m >>= f) s ≡ f a (m s).1)
  bind_ok m f s b e = go (m s).0 (m s).1 e
    where
      go : (r : Outcome A) (t : S) → (continue r f t).0 ≡ ok b → (a : A) × (continue r f t ≡ f a t)
      go (ok a) t e = (a, refl)
      go (thrown w) t e = absurd (ground arith)
      go fault t e = absurd (ground arith)
      go unfinished t e = absurd (ground arith)

module _ (j : Json) (s : Simulator j) (h : Hiredis) where
  abbrev Server : Type 0
  Server = GameServer s.Session h.Conn

  launch-serving :
      (built b : Bool) (g : Server) → (launch built g).0 ≡ ok b → (launch built g).1.serving ≡ b
  unfolding launch
  launch-serving built b g e = ground arith

  registered-serving :
      (registered built b : Bool) (g : Server)
      → g.serving ≡ false
      → ((if registered then launch built else pure false) g).0 ≡ ok b
      → ((if registered then launch built else pure false) g).1.serving ≡ b
  registered-serving true built b g n e = launch-serving built b g e
  registered-serving false built b g n e = ground arith

  entered-serving :
      (fuel : ℕ) (built b : Bool) (g : Server)
      → g.serving ≡ false
      → (enter j s h fuel built g).0 ≡ ok b
      → (enter j s h fuel built g).1.serving ≡ b
  unfolding enter on_world
  entered-serving fuel built b g n e =
      let rest : Exec Server Bool =
        on_world (on_redis (RedisClient.register_node h g.pod_ip)) >>= λ registered.
        if registered then launch built else pure false in
      let r =
        bind_ok (on_world (on_redis (Scan.delete_rooms_for_server j h fuel g.pod_ip))) (λ u. rest) g
          b e in
      let t = (on_world (on_redis (Scan.delete_rooms_for_server j h fuel g.pod_ip)) g).1 in
      let q =
        bind_ok (on_world (on_redis (RedisClient.register_node h g.pod_ip)))
          (λ registered. if registered then launch built else pure false) t b
          (sym (ap (λ x. x.0) r.1) ∙ e) in
      let all = r.1 ∙ q.1 in
      ap (λ x. x.1.serving) all
      ∙ registered-serving q.0 built b
          (on_world (on_redis (RedisClient.register_node h g.pod_ip)) t).1 n
          (sym (ap (λ x. x.0) all) ∙ e)

  at-serving :
      (fuel : ℕ) (built b : Bool) (a : Option (Text × ℕ)) (g : Server)
      → g.serving ≡ false
      → (start_at j s h fuel built a g).0 ≡ ok b
      → (start_at j s h fuel built a g).1.serving ≡ b
  unfolding start_at connect_redis
  at-serving fuel built b none g n e = ground arith
  at-serving fuel built b (some (host, port)) g n e =
      let r = connect_redis j s h host port g in
      if-elim (λ (x : Outcome Bool × Server). x.0 ≡ ok b → x.1.serving ≡ b) r.0
        (enter j s h fuel built r.1) (ok false, r.1) (λ c. entered-serving fuel built b r.1 n)
        (λ c. λ f. ground arith) e

  -- On a server that does not serve yet, Start leaves it serving if it returns true, and not serving if
  -- it returns false, whichever of its steps decided that.
  pub start-serving :
      (fuel : ℕ) (built b : Bool) (g : Server)
      → g.serving ≡ false
      → (start j s h fuel built g).0 ≡ ok b
      → (start j s h fuel built g).1.serving ≡ b
  unfolding start
  start-serving fuel built b g n e = at-serving fuel built b (parse_redis_url g.redis_url) g n e
