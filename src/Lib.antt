-- ===== src/Lib.antt =====
-- The Pokemon game server (src/server): a gRPC server that keeps battle rooms, plays their turns with
-- an embedded simulator and publishes their state in Redis.
--
-- The parts and their files. A method keeps its name in snake case; a class is a record, a method is a
-- function of the record, and a method that holds a mutex is one step.
--   RoomManager     src/server/room_manager.h, room_manager.cpp: rooms, their counter and limit, the
--                   maintenance mode. RoomManager/Invariant has the state's invariant and the steps,
--                   /Outcome the abstract map of rooms, /Ids the generated ids, /Collision an id twice.
--   BattleEngine    src/server/battle_engine.h, battle_engine.cpp: the sessions by id
--                   (BattleEngine/Laws) and their turns (BattleEngine/Turns).
--   RedisClient     src/server/redis_client.h, redis_client.cpp. The loops over keys are in
--                   RedisClient/Scan; /Heartbeat and /Store are about single commands, /Scan/Pages
--                   about GetAllRoomSnapshots, /Scan/Owned, Frame, Returns, Walk and Sweep about
--                   DeleteRoomsForServer.
--   GameService     GameServiceImpl of src/server/game_server.cpp: the RPC handlers, which call the
--                   three parts above through shared pointers (the record World). Session and
--                   CreateRoom, Turns and DestroyRoom are about one handler each, Rollback about a
--                   failed CreateRoom, Trace about sequences of calls, Race about two at once.
--   SignalHandler   src/server/signal_handler.h, signal_handler.cpp: the flag that SIGTERM sets.
--   GameServer      GameServer of src/server/game_server.cpp: Start (GameServer/Starting), Stop,
--                   GracefulShutdown (GameServer/Shutdown) and the Redis URL (GameServer/Url).
--   Metrics         the metrics of src/server/game_server.cpp: collecting, printing and serving them.
--                   Metrics/Response is about the text, Metrics/Serving about the whole answer.
--   Program         src/server/main.cpp and the threads: main, the polling thread, the activity thread,
--                   the heartbeat thread and the metrics thread, each with the place where it stands.
--                   An event is a move of one thread or of the client of the metrics port, an RPC or a
--                   signal; a schedule is any sequence of events. Moves says what a move leaves alone,
--                   Invariant and Safety what every run keeps; Signals is about signals that end the
--                   process; Shutdown, Joins, Mute, Liveness, Waits, Runs and Termination follow a run
--                   from SIGTERM to the end of main, Idle one with a client that stays idle.
--   Schedule        runs under a schedule that is fair to the threads, for any step function.
--   Common, Text, Map, Int32, Exec
--                   shared: lists and tests, std::string, maps, 32-bit ints as patterns below 2 ^ 32
--                   that wrap round, and code that may throw (Exec keeps the state of a throw).
--   Examples        concrete parameters and runs.
--
-- Code outside src/server is a parameter (External): nlohmann::json as the record Json, the
-- simulator submodule as Simulator, hiredis as Hiredis. The records Server and Reads state what the
-- documentation of Redis says of SET with a positive expiry and DEL, and of GET and SCAN, which
-- lists only keys that match its pattern; only the theorems of RedisClient/Store and of
-- DeleteRoomsForServer use them. The clock, the random numbers, gRPC's BuildAndStart and the
-- floating-point numbers are arguments.
--
-- Null pointers, null replies and null strings are followed as the source reads them; a read through a
-- null pointer is the outcome `fault`, and an exception that leaves a handler is `thrown`. The SCAN
-- loops run on fuel, one unit a page, and the outcome `unfinished` says that it ran out; a server that
-- ends after n pages needs n units (RedisClient/Scan/Pages). The number printed by `decimal` has at most
-- 20 digits, enough for 64 bits.
--
-- In Program a handler, a round of a loop and a call of Redis are one move each; a sleep and a wait
-- for another thread are places where the other threads may move any number of times. What select
-- and accept give is an argument of the metrics thread's move; in recv, which has no timeout, that
-- thread waits for a move of the client. A request that is never answered leaves the thread stuck,
-- and so does an exception; Answers says that neither happens. A signal reaches
-- SignalHandlerFunction only if std::signal has installed it for that signal; any other has its
-- default action, and `ends` says whether that ends the process (SIGINT and SIGKILL do). The
-- SIGPIPE that send raises when a client has hung up is such a signal of the schedule. A run begins
-- at `boot`, just after main has registered the handler. A start that throws or never ends leaves
-- main at `crashed`. The server_ pointer is a flag: Shutdown and reset are one move.
--
-- Not modelled: a SIGTERM before the handler is registered, a send() that blocks (the responses are
-- short), console messages, how long a sleep lasts, the destructors beyond Stop and Disconnect,
-- BuildRoomSnapshotJson, which nothing calls, and the generated protobuf code. In GameService/Trace the
-- activity thread is the call `ticks`, and in SignalHandler the polling thread is the event `polled`.
-- Except in Race and in the shutdown, handlers run one at a time; each object's own steps may interleave
-- in any order (RoomManager/Invariant).
pub mod Common
pub mod Text
pub mod Map
pub mod Int32
pub mod Exec
pub mod External
pub mod RoomManager
pub mod BattleEngine
pub mod RedisClient
pub mod GameService
pub mod SignalHandler
pub mod GameServer
pub mod Metrics
pub mod Schedule
pub mod Program
pub mod Examples
