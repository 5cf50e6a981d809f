-- ===== src/Toysync/Server/Tests.antt =====
-- A server of two threads at second three of the clock of ten seconds.
use mathlib.Core.List.{Perm}
use benchmark_reverse_proxie.Common.{
  ◌++◌, ℕ, zero, suc, ◌≡◌, ◌≢◌, ◌↔◌, refl, true, [], ◌∷◌, none, some, arith, flatten, All, Option,
  List,
}
use benchmark_reverse_proxie.Common.Bytes.{bytes}
use benchmark_reverse_proxie.Common.Bytes.Utf8.{is_utf8}
use benchmark_reverse_proxie.Toysync.Date.{last, fmt, update, write_pieces, write_str, buffer}
use benchmark_reverse_proxie.Toysync.Date.Clock.{http_date, render, rendering, second_three}
use benchmark_reverse_proxie.Toysync.Connection.{TcpStream, handle_connection, write_all}
use benchmark_reverse_proxie.Toysync.Pool.{waiting, free, ThreadPool, new, execute, turn}
use benchmark_reverse_proxie.Toysync.Server.{Server, start_server, turn_server}
use benchmark_reverse_proxie.Toysync.Server.Step.{accepts, turns, ServerReach, starts, goes_on}
use benchmark_reverse_proxie.Toysync.Pool.Counts.{running_jobs}
use benchmark_reverse_proxie.Toysync.Server.Keeps.{clients, IsServed, IsGoodTime, failures}
use benchmark_reverse_proxie.Toysync.Server.Serves.{server-serves, server-completes}

-- Its first read fails.
abbrev broken_client : TcpStream
broken_client = record { filled = none; broken_at = none }

abbrev good_client : TcpStream
good_client = record { filled = some (bytes "GET / HTTP/1.1\r\n\r\n"); broken_at = none }

abbrev jobs : List TcpStream
jobs = broken_client ∷ good_client ∷ []

abbrev idle_pool : ThreadPool TcpStream
idle_pool = record {
  workers = waiting ∷ waiting ∷ [];
  lock = free;
  channel = [];
  sender = true;
  sent = [];
  received = [];
  returned = [];
  crashed = [];
}

abbrev fresh : Server
fresh = record { pool = idle_pool; caches = last ∷ last ∷ []; handled = [] }

abbrev asked : Server
asked = record fresh { pool = record idle_pool { channel = jobs; sent = jobs } }

abbrev from_step : Option Server → Server
from_step none = fresh
from_step (some s) = s

-- Each thread takes the lock and a connection, and ends its job.
abbrev after : ℕ → Server → Server
after i s = from_step (turn_server http_date s i second_three)

asked-reached : ServerReach http_date 2 asked
unfolding start_server new execute
asked-reached =
    goes_on (goes_on (starts {s = fresh} refl) (accepts broken_client _ refl refl))
      (accepts good_client _ refl refl)

-- The first connection kills its thread; the other thread serves the second, and waits.
abbrev wounded : Server
wounded = after 0 (after 0 (after 0 asked))

abbrev resting : Server
resting = after 1 (after 1 (after 1 (after 1 wounded)))

wounded-reached : ServerReach http_date 2 wounded
unfolding turn_server turn handle_connection
wounded-reached =
    goes_on
      (goes_on (goes_on asked-reached (turns 0 second_three refl)) (turns 0 second_three refl))
      (turns 0 second_three refl)

resting-reached : ServerReach http_date 2 resting
unfolding turn_server turn handle_connection fmt update write_pieces write_str buffer is_utf8
    write_all flatten
resting-reached =
    goes_on
      (goes_on
        (goes_on (goes_on wounded-reached (turns 1 second_three refl)) (turns 1 second_three refl))
        (turns 1 second_three refl))
      (turns 1 second_three refl)

resting_times : All (IsGoodTime http_date 10 render rendering) resting.handled
unfolding turn_server turn handle_connection fmt update write_pieces write_str buffer is_utf8
    write_all flatten
resting_times = ((omega arith, omega arith), ((omega arith, omega arith), tt))

resting_stuck : (i : ℕ) (s : Server) → turn_server http_date resting i second_three ≢ some s
unfolding turn_server turn handle_connection fmt update write_pieces write_str buffer is_utf8
    write_all flatten
resting_stuck zero s h = cc
resting_stuck (suc zero) s h = cc
resting_stuck (suc (suc i)) s h = cc

server-serves_example :
    All (IsServed http_date 10 render rendering) resting.handled
    × ((execute resting.pool good_client ≡ none) ↔ (failures resting.handled ≡ 2))
server-serves_example =
    server-serves http_date 10 render rendering 2 resting resting-reached resting_times good_client

server-completes_example :
    Perm resting.pool.sent (clients resting.handled ++ running_jobs resting.pool.workers)
unfolding turn_server turn handle_connection fmt update write_pieces write_str buffer is_utf8
    write_all flatten
server-completes_example =
    server-completes http_date 10 render rendering 2 resting resting-reached resting_times 1
      second_three refl (resting_stuck 1)
