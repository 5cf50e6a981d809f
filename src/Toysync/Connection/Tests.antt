-- ===== src/Toysync/Connection/Tests.antt =====
-- A connection at second three of the clock of ten seconds.
use benchmark_reverse_proxie.Common.{◌≡◌, ◌≢◌, ◌↔◌, ◌⊎◌, [], none, some, arith}
use benchmark_reverse_proxie.Common.Bytes.{bytes}
use benchmark_reverse_proxie.Common.Exec.{panicked}
use benchmark_reverse_proxie.Toysync.Date.{last}
use benchmark_reverse_proxie.Toysync.Date.Cache.{last-IsCoherent}
use benchmark_reverse_proxie.Toysync.Date.Clock.{http_date, render, rendering, second_three}
use benchmark_reverse_proxie.Toysync.Connection.{TcpStream, Thread, handle_connection}
use benchmark_reverse_proxie.Toysync.Connection.Response.{handle_connection_panics_iff}

abbrev good_client : TcpStream
good_client = record { filled = some (bytes "GET / HTTP/1.1\r\n\r\n"); broken_at = none }

abbrev hasty_client : TcpStream
hasty_client = record { filled = some []; broken_at = some 17 }

abbrev worker : Thread
worker = record { cache = last; sent = [] }

handle_connection_panics_iff_example :
    ((handle_connection http_date hasty_client second_three worker).0 ≡ panicked)
    ↔ ((hasty_client.filled ≡ none) ⊎ (hasty_client.broken_at ≢ none))
handle_connection_panics_iff_example =
    handle_connection_panics_iff http_date 10 render rendering hasty_client second_three worker
      (omega arith) (last-IsCoherent render)
