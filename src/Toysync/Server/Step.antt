-- ===== src/Toysync/Server/Step.antt =====
-- What the server may do next, and what it can reach.
use benchmark_reverse_proxie.Common.{ℕ, ◌≡◌, List, Option, some}
use benchmark_reverse_proxie.Common.Bytes.{Bytes}
use benchmark_reverse_proxie.Toysync.Date.{SystemTime}
use benchmark_reverse_proxie.Toysync.Connection.{TcpStream}
use benchmark_reverse_proxie.Toysync.Pool.{ThreadPool, execute}
use benchmark_reverse_proxie.Toysync.Server.{Server, start_server, turn_server}

module _ (http_date : SystemTime → Option (List Bytes)) where
  -- The listener gives a connection, or a thread moves. `main` keeps the pool as long as it goes on.
  pub data ServerStep (s : Server) (s' : Server) : Type 0 where
    accepts :
        (stream : TcpStream) (pool : ThreadPool TcpStream)
        → execute s.pool stream ≡ some pool
        → s' ≡ record s { pool = pool }
        → ServerStep s s'
    turns : (i : ℕ) (now : SystemTime) → turn_server http_date s i now ≡ some s' → ServerStep s s'

  pub data ServerReach (size : ℕ) : Server → Type 0 where
    starts : {s : Server} → start_server size ≡ some s → ServerReach size s
    goes_on : {s s' : Server} → ServerReach size s → ServerStep s s' → ServerReach size s'
