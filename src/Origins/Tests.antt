-- ===== src/Origins/Tests.antt =====
-- One connection of each of the servers that write their responses themselves.
use benchmark_reverse_proxie.Common.{◌≡◌, refl, true, [], ◌++◌, Option, none, some, arith, flatten}
use benchmark_reverse_proxie.Common.Bytes.{Bytes, bytes}
use benchmark_reverse_proxie.Common.Exec.{done}
use benchmark_reverse_proxie.Http.{read_response}
use benchmark_reverse_proxie.Toysync.Date.{since_epoch, last}
use benchmark_reverse_proxie.Toysync.Date.Cache.{last-IsCoherent}
use benchmark_reverse_proxie.Toysync.Date.Clock.{http_date, render, rendering}
use benchmark_reverse_proxie.Toysync.Connection.{TcpStream, handle_connection}
use benchmark_reverse_proxie.Tokio.Encode.{encode}
use benchmark_reverse_proxie.Tokio.Decode.{Request}
use benchmark_reverse_proxie.Tokio.Process.Sample
use benchmark_reverse_proxie.Tokio.Process.Answers.{page, respond-page}
use benchmark_reverse_proxie.Origins.Alike.{Greeted, origins-Greeted}
use benchmark_reverse_proxie.Origins.Pingora.{Int64, Stream, process_new}
use benchmark_reverse_proxie.Origins.Pingora.Sends.{hello, process_new-read}

abbrev second_three : Bytes
second_three = bytes "Thu, 01 Jan 1970 00:00:03 GMT"

abbrev format : Int64 → Option Bytes
format secs = some second_three

process_new-read_example :
    let run = process_new format (record { room = none; flushes = true }) (since_epoch 3 0) [] in
    (run.0 ≡ done none)
    × (text : Bytes) × (run.1 ≡ text)
    × ((rest : Bytes) → read_response (text ++ rest) ≡ some (hello second_three, rest))
process_new-read_example =
    process_new-read format 3 0 second_three [] (omega arith) refl (omega arith)

abbrev small : Stream
small = record { room = some 20; flushes = true }

abbrev client : TcpStream
client = record { filled = some (bytes "GET / HTTP/1.1\r\n\r\n"); broken_at = none }

abbrev get_root : Request
get_root = record { method = bytes "GET"; uri = bytes "/"; headers = [] }

origins-Greeted_example :
    Greeted
      (bytes "toysync")
      second_three
      (bytes "Hello, world!\n")
      (handle_connection http_date client
        (since_epoch 3 0)
        (record { cache = last; sent = [] })).1.sent
    × Greeted
        (bytes "tokio")
        second_three
        (bytes "Hello, World!\n")
        (encode http_date page (since_epoch 3 0) (record { dst = []; cache = last })).1.dst
    × Greeted
        (bytes "pingora")
        second_three
        (bytes "Hello, world!\n")
        (process_new format (record { room = none; flushes = true }) (since_epoch 3 0) []).1
unfolding flatten
origins-Greeted_example =
    origins-Greeted http_date 10 render rendering format Sample.api Sample.api-IsBuilder 3 0 client
      (bytes "GET / HTTP/1.1\r\n\r\n") last last get_root page (omega arith) (omega arith)
      (omega arith) refl (last-IsCoherent render) (last-IsCoherent render) refl refl
      (respond-page Sample.api Sample.api-IsBuilder get_root)
