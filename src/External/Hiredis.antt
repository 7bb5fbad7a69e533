-- ===== src/External/Hiredis.antt =====
-- hiredis: connections, commands and replies.
use pokemon_cpp_server.Common.{ℕ, Option, List}
use pokemon_cpp_server.Text.{Text}

-- redisReply by its type field, with `str` where the program reads it (a pointer, so optional), and
-- an integer as a 64-bit pattern. The elements of an array are pointers: `missing` is a null one.
mutual
  pub data Reply : Type 0 where
    status : Option Text → Reply
    error : Option Text → Reply
    integer : ℕ → Reply
    string : Text → Reply
    nil : Reply
    array : Replies → Reply

  pub data Replies : Type 0 where
    end : Replies
    missing : Replies → Replies
    element : Reply → Replies → Replies

-- The result of redisConnectWithTimeout: null, a context with `err` set, or an open context.
pub data Connection (Conn : Type 0) : Type 0 where
  null : Connection Conn
  failed : Text → Connection Conn
  opened : Conn → Connection Conn

-- `Conn` is an open context together with the server behind it. `command` is redisCommand or
-- redisCommandArgv on the arguments of the formatted command; no reply is a null pointer.
pub record Hiredis : Type 1 where
  pub Conn : Type 0
  -- host, port, seconds and microseconds of the timeout
  pub connect : Text → ℕ → ℕ → ℕ → Connection Conn
  pub command : Conn → List Text → Option Reply × Conn
