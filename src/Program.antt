-- ===== src/Program.antt =====
-- src/server/main.cpp with the threads that it and GameServer start (src/server/game_server.cpp):
-- the program as a state that one thread at a time moves. A thread that waits for another does not
-- move; a sleep is a state of its own, so other threads may move meanwhile. An RPC handler is one
-- step.
pub mod Moves
pub mod Shutdown
pub mod Joins
pub mod Mute
pub mod Liveness
pub mod Invariant
pub mod Safety
pub mod Signals
pub mod Runs
pub mod Waits
pub mod Termination
pub mod Idle
use pokemon_cpp_server.Common.{
  ℕ, zero, suc, Option, none, some, Bool, true, false, List, [], ◌∷◌, if◌then◌else◌,
}
use pokemon_cpp_server.Text.{Text}
use pokemon_cpp_server.Map.{Map}
use pokemon_cpp_server.Exec.{Outcome, ok, thrown, fault, unfinished}
use pokemon_cpp_server.External.Json.{Json}
use pokemon_cpp_server.External.Simulator.{Simulator}
use pokemon_cpp_server.External.Hiredis.{Hiredis}
use pokemon_cpp_server.RoomManager
use pokemon_cpp_server.RoomManager.{Room}
use pokemon_cpp_server.RedisClient
use pokemon_cpp_server.SignalHandler.{
  SignalHandler, register_sig_term_handler, signal_handler_function, run_handler_if_received,
  is_installed,
}
use pokemon_cpp_server.GameService.{CreateRoomRequest, GameCommand}
use pokemon_cpp_server.GameService.Trace.{Call, creates, sends, destroys, beats}
use pokemon_cpp_server.GameService.Trace
use pokemon_cpp_server.GameServer
use pokemon_cpp_server.GameServer.{GameServer, start, exit_code, configuration}
use pokemon_cpp_server.Metrics.{Double, serve_metrics}

-- Where main stands.
pub data Main : Type 0 where
  configured : Main  -- before server.Start()
  spawning : Main  -- Start has returned true
  waiting : Main  -- in server.Wait()
  joining_sigterm : Main
  joining_activity : Main
  returned : ℕ → Main
  crashed : Main  -- Start threw or never returned

-- Where the thread stands that polls for SIGTERM and runs GracefulShutdown.
pub data Sigterm : Type 0 where
  unborn : Sigterm
  polling : Sigterm
  draining : ℕ → Sigterm  -- rounds left to wait for
  closing : Map Room → Sigterm  -- rooms left to close
  stopping : Sigterm  -- in Stop
  joining_heartbeat : Sigterm
  joining_metrics : Sigterm
  finished : Sigterm

-- Where the activity thread or the heartbeat thread stands: at the test of its loop or asleep.
pub data Worker : Type 0 where
  unborn : Worker
  testing : Worker
  sleeping : Worker
  finished : Worker

-- Where the metrics thread stands. A request that is never answered leaves it stuck.
pub data Listener : Type 0 where
  unborn : Listener
  opening : Listener
  testing : Listener
  selecting : Listener
  receiving : Listener  -- in recv, which waits for the client without a limit
  finished : Listener
  stuck : Listener

-- What the socket calls of a move before recv give: the setup failed, or select timed out or accept
-- failed, or a client is accepted.
pub data Socket : Type 0 where
  refused : Socket
  silent : Socket
  accepted : Socket

pub data Rpc : Type 0 where
  create : CreateRoomRequest → ℕ → Rpc
  send : GameCommand → Rpc
  destroy : Text → Rpc
  heartbeat : Rpc

-- A move of one thread with what it takes from outside, a move of the client of the metrics port, an
-- RPC, or a signal. `built` is what gRPC's BuildAndStart returns.
pub data Event : Type 0 where
  main_moves : (built : Bool) → Event
  sigterm_moves : Event
  activity_moves : Event
  heartbeat_moves : Event
  metrics_moves : Socket → Event
  client_moves : Option Text → Event  -- the accepted client sends these bytes, or hangs up
  rpc : Rpc → Event
  signal : ℕ → Event

pub data Thread : Type 0 where
  main_thread : Thread
  sigterm_thread : Thread
  activity_thread : Thread
  heartbeat_thread : Thread
  metrics_thread : Thread
  client : Thread  -- of the metrics port, outside the program

-- The thread that makes the move, or the client.
unfoldable pub thread : Event → Option Thread
thread (main_moves built) = some main_thread
thread sigterm_moves = some sigterm_thread
thread activity_moves = some activity_thread
thread heartbeat_moves = some heartbeat_thread
thread (metrics_moves socket) = some metrics_thread
thread (client_moves request) = some client
thread _ = none

-- A thread that join does not wait for.
unfoldable pub is_over : Worker → Bool
is_over unborn = true
is_over finished = true
is_over _ = false

unfoldable pub has_closed : Listener → Bool
has_closed unborn = true
has_closed finished = true
has_closed _ = false

-- The RPC as a call of the service.
unfoldable pub as_call : Text → Text → Rpc → Call
as_call server_id pod_ip (create request now) = creates request now
as_call server_id pod_ip (send c) = sends c
as_call server_id pod_ip (destroy k) = destroys k
as_call server_id pod_ip heartbeat = beats server_id pod_ip

module _ (d : Double) (j : Json) (s : Simulator j) (h : Hiredis) (fuel : ℕ) where
  abbrev pub Server : Type 0
  Server = GameServer s.Session h.Conn

  pub record Program : Type 0 where
    pub server : Server
    pub signals : SignalHandler (Server × Sigterm)
    pub main : Main
    pub sigterm : Sigterm
    pub activity : Worker
    pub heartbeats : Worker
    pub metrics : Listener
    pub responses : List Text

  -- The registered handler up to its first wait: GracefulShutdown sets the maintenance mode.
  unfoldable pub begin_shutdown : Server × Sigterm → Server × Sigterm
  begin_shutdown (g, after) = (
    record g {
      world = record g.world {
        room_manager = RoomManager.set_maintenance_mode true g.world.room_manager;
      };
    },
    draining 5,
  )

  -- main up to server.Start(), from the environment, the clock and a random number.
  unfoldable pub boot : Option Text → Option Text → ℕ → ℕ → Program
  unfolding begin_shutdown
  boot pod_ip redis_url millis draw =
      let c = configuration pod_ip redis_url in
      record {
        server = GameServer.create c.0 c.1 millis draw;
        signals =
            register_sig_term_handler begin_shutdown
              (record { sigterm_handler = none; sig_term_received = false; installed = [] });
        main = configured;
        sigterm = unborn;
        activity = unborn;
        heartbeats = unborn;
        metrics = unborn;
        responses = [];
      }

  -- What main does with the result of server.Start(), which has started two threads if it is true.
  unfoldable pub after_start : Outcome Bool × Server → Program → Program
  after_start (ok true, g) p = record p {
    server = g;
    main = spawning;
    heartbeats = testing;
    metrics = opening;
  }
  after_start (ok false, g) p = record p { server = g; main = returned (exit_code false) }
  after_start (other, g) p = record p { server = g; main = crashed }

  unfoldable pub move_main : Bool → Main → Program → Program
  unfolding after_start
  move_main built configured p = after_start (start j s h fuel built p.server) p
  move_main built spawning p = record p { main = waiting; sigterm = polling; activity = testing }
  move_main built waiting p = if p.server.serving then p else record p { main = joining_sigterm }
  move_main built joining_sigterm p = elim p.sigterm [
    | finished ↦ record p { main = joining_activity }
    | other ↦ p
  ]
  move_main built joining_activity p =
      if is_over p.activity then record p { main = returned (exit_code true) } else p
  move_main built (returned code) p = p
  move_main built crashed p = p

  -- What the polling loop does with the result of RunHandlerIfReceived: after the handler the thread
  -- ends.
  unfoldable pub ran_step :
      (Bool × SignalHandler (Server × Sigterm)) × (Server × Sigterm) → Program → Program
  ran_step ((true, signals), (g, x)) p = record p { signals = signals; server = g; sigterm = x }
  ran_step ((false, signals), (g, x)) p = record p { signals = signals }

  -- A round of the polling loop.
  unfoldable pub poll : Program → Program
  unfolding ran_step run_handler_if_received
  poll p =
      if p.server.serving
      then ran_step (run_handler_if_received p.signals (p.server, Sigterm.finished)) p
      else record p { sigterm = finished }

  abbrev with_rooms : RoomManager.RoomManager → Program → Program
  with_rooms m p = record p {
    server = record p.server { world = record p.server.world { room_manager = m } };
  }

  abbrev with_redis : RedisClient.RedisClient h.Conn → Program → Program
  with_redis c p = record p {
    server = record p.server { world = record p.server.world { redis_client = c } };
  }

  -- GracefulShutdown and Stop, between their waits.
  unfoldable pub move_sigterm : Sigterm → Program → Program
  unfolding poll has_closed is_over
  move_sigterm unborn p = p
  move_sigterm polling p = poll p
  move_sigterm (draining (suc n)) p = record p { sigterm = draining n }
  move_sigterm (draining zero) p = record p {
    sigterm = closing (RoomManager.get_all_rooms p.server.world.room_manager);
  }
  move_sigterm (closing ((k, room) ∷ rest)) p =
      record (with_rooms (RoomManager.close_room k p.server.world.room_manager).1 p) {
        sigterm = closing rest;
      }
  move_sigterm (closing []) p =
      record (with_redis
        (RedisClient.unregister_node h p.server.pod_ip p.server.world.redis_client).1 p) {
          sigterm = stopping;
        }
  move_sigterm stopping p = record p {
    server = record p.server { heartbeat_running = false };
    sigterm = joining_heartbeat;
  }
  move_sigterm joining_heartbeat p =
      if is_over p.heartbeats
      then record p {
        server = record p.server { metrics_running = false };
        sigterm = joining_metrics;
      }
      else p
  move_sigterm joining_metrics p =
      if has_closed p.metrics
      then record p { server = record p.server { serving = false }; sigterm = finished }
      else p
  move_sigterm finished p = p

  unfoldable pub move_activity : Worker → Program → Program
  move_activity testing p =
      if p.server.serving
      then record (with_rooms (RoomManager.update_room_activity p.server.world.room_manager) p) {
        activity = sleeping;
      }
      else record p { activity = finished }
  move_activity sleeping p = record p { activity = testing }
  move_activity other p = p

  unfoldable pub move_heartbeat : Worker → Program → Program
  move_heartbeat testing p = record p {
    heartbeats = if p.server.heartbeat_running then sleeping else finished;
  }
  move_heartbeat sleeping p =
      record (with_redis
        (RedisClient.touch_node_heartbeat h p.server.pod_ip 300 p.server.world.redis_client).1 p) {
          heartbeats = testing;
        }
  move_heartbeat other p = p

  -- The thread after it has served a request.
  unfoldable pub after_request : Outcome Text → Program → Program
  after_request (ok response) p = record p { metrics = testing; responses = response ∷ p.responses }
  after_request other p = record p { metrics = stuck }

  -- recv returns the bytes of a request, or none where the client has hung up.
  unfoldable pub take_request : Option Text → Program → Program
  unfolding after_request
  take_request (some text) p =
      let r = serve_metrics d j s h fuel p.server.pod_ip text p.server.world in
      after_request r.0 (record p { server = record p.server { world = r.1 } })
  take_request none p = record p { metrics = testing }

  -- The thread's own moves; in recv it has none.
  unfoldable pub move_metrics : Socket → Listener → Program → Program
  move_metrics refused opening p = record p { metrics = finished }
  move_metrics other opening p = record p { metrics = testing }
  move_metrics socket testing p = record p {
    metrics = if p.server.metrics_running then selecting else finished;
  }
  move_metrics accepted selecting p = record p {
    metrics = if p.server.metrics_running then receiving else finished;
  }
  move_metrics other selecting p = record p {
    metrics = if p.server.metrics_running then testing else finished;
  }
  move_metrics socket other p = p

  -- The client makes recv return, if the thread is in it.
  unfoldable pub move_client : Option Text → Listener → Program → Program
  unfolding take_request
  move_client request receiving p = take_request request p
  move_client request other p = p

  -- An RPC reaches the service while the gRPC server is there.
  unfoldable pub answer : Rpc → Program → Program
  unfolding as_call
  answer r p =
      if p.server.serving
      then record p {
        server = record p.server {
          world = Trace.step j s h (as_call p.server.server_id p.server.pod_ip r) p.server.world;
        };
      }
      else p

  -- The event, if the process takes it; a signal is one that reaches SignalHandlerFunction.
  unfoldable pub step : Event → Program → Program
  unfolding move_main move_sigterm move_activity move_heartbeat move_metrics move_client answer
  step (main_moves built) p = move_main built p.main p
  step sigterm_moves p = move_sigterm p.sigterm p
  step activity_moves p = move_activity p.activity p
  step heartbeat_moves p = move_heartbeat p.heartbeats p
  step (metrics_moves socket) p = move_metrics socket p.metrics p
  step (client_moves request) p = move_client request p.metrics p
  step (rpc r) p = answer r p
  step (signal n) p = record p { signals = signal_handler_function n p.signals }

  -- The process: it runs, or the default action of a signal has ended it.
  pub data Process : Type 0 where
    running : Program → Process
    killed : ℕ → Process

  -- A signal arrives; `ends` says of a signal whether its default action ends the process.
  unfoldable pub deliver : (ℕ → Bool) → ℕ → Program → Process
  unfolding step is_installed
  deliver ends n p =
      if is_installed n p.signals
      then running (step (signal n) p)
      else if ends n
      then killed n
      else running p

  unfoldable pub react : (ℕ → Bool) → Event → Process → Process
  unfolding step deliver
  react ends e (killed n) = killed n
  react ends (signal n) (running p) = deliver ends n p
  react ends e (running p) = running (step e p)
