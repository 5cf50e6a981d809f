-- ===== src/Toysync/Server.antt =====
-- `main` of origin-toysync/src/main.rs: the pool runs `handle_connection` on the connections that
-- are accepted. Each thread has its own cache of the date.
pub mod Step
pub mod Jobs
pub mod Turns
pub mod Keeps
pub mod Serves
mod Tests
use benchmark_reverse_proxie.Common.{
  ℕ, Bool, true, false, List, [], ◌∷◌, ◌++◌, Option, none, some, get_elem?, set, replicate,
}
use benchmark_reverse_proxie.Common.Bytes.{Bytes}
use benchmark_reverse_proxie.Common.Exec.{Outcome, done, panicked}
use benchmark_reverse_proxie.Toysync.Date.{SystemTime, LastRenderedNow, last}
use benchmark_reverse_proxie.Toysync.Connection.{TcpStream, Thread, handle_connection}
use benchmark_reverse_proxie.Toysync.Pool.{
  Worker, waiting, receiving, running, dead, ThreadPool, new, execute, turn,
}

-- A connection whose job has ended: the clock when its date was formatted, and what its client was
-- sent.
pub record Handled : Type 0 where
  pub client : TcpStream
  pub clock : SystemTime
  pub got : Bytes

-- The pool, the cache of each of its threads, and the connections whose jobs have ended, in order.
pub record Server : Type 0 where
  pub pool : ThreadPool TcpStream
  pub caches : List LastRenderedNow
  pub handled : List Handled

abbrev pub returned : Outcome (Unit {0}) → Bool
returned (done a) = true
returned panicked = false

with_threads : ℕ → Option (ThreadPool TcpStream) → Option Server
with_threads size none = none
with_threads size (some pool) =
    some (record { pool = pool; caches = replicate size last; handled = [] })

-- `ThreadPool::new(count)`
unfoldable pub start_server : ℕ → Option Server
unfolding with_threads
start_server size = with_threads size (new size)

module _ (http_date : SystemTime → Option (List Bytes)) where
  -- The job of a connection, on a thread with this cache, with the clock at `now`.
  abbrev pub run_job : LastRenderedNow → SystemTime → TcpStream → Outcome (Unit {0}) × Thread
  run_job cache now stream =
      handle_connection http_date stream now (record { cache = cache; sent = [] })

  -- A thread's cache after its turn, from what it stood at before.
  abbrev pub cache_after :
      LastRenderedNow → SystemTime → Option (Worker TcpStream) → LastRenderedNow
  cache_after cache now (some (running stream)) = (run_job cache now stream).1.cache
  cache_after cache now (some waiting) = cache
  cache_after cache now (some receiving) = cache
  cache_after cache now (some dead) = cache
  cache_after cache now none = cache

  abbrev pub handled_after :
      LastRenderedNow → SystemTime → Option (Worker TcpStream) → List Handled → List Handled
  handled_after cache now (some (running stream)) handled =
      handled
      ++ record { client = stream; clock = now; got = (run_job cache now stream).1.sent } ∷ []
  handled_after cache now (some waiting) handled = handled
  handled_after cache now (some receiving) handled = handled
  handled_after cache now (some dead) handled = handled
  handled_after cache now none handled = handled

  moved : Server → ℕ → SystemTime → LastRenderedNow → Option (ThreadPool TcpStream) → Option Server
  moved s i now cache none = none
  moved s i now cache (some pool) =
      let worker = get_elem? s.pool.workers i in
      some (record {
        pool = pool;
        caches = set s.caches i (cache_after cache now worker);
        handled = handled_after cache now worker s.handled;
      })

  on_thread : Server → ℕ → SystemTime → Option LastRenderedNow → Option Server
  unfolding moved
  on_thread s i now none = none
  on_thread s i now (some cache) =
      moved s i now cache (turn (λ stream. returned (run_job cache now stream).0) s.pool i)

  -- The turn of thread `i`, with the clock at `now`, if it can move. The turn of a thread that runs
  -- is its whole job: as long as the client sends nothing, the thread is in its first read, and this
  -- turn does not come.
  unfoldable pub turn_server : Server → ℕ → SystemTime → Option Server
  unfolding on_thread
  turn_server s i now = on_thread s i now (get_elem? s.caches i)
