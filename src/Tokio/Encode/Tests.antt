-- ===== src/Tokio/Encode/Tests.antt =====
-- Two responses on one connection, at seconds three and four.
use benchmark_reverse_proxie.Common.{◌≡◌, List, [], ◌∷◌, ◌++◌, flatten, some, arith}
use benchmark_reverse_proxie.Common.Bytes.{Bytes, bytes}
use benchmark_reverse_proxie.Common.Exec.{done}
use benchmark_reverse_proxie.Http.{read_all}
use benchmark_reverse_proxie.Toysync.Date.{SystemTime, since_epoch, last}
use benchmark_reverse_proxie.Toysync.Date.Cache.{last-IsCoherent}
use benchmark_reverse_proxie.Toysync.Date.Clock.{http_date, render, rendering, second_three}
use benchmark_reverse_proxie.Tokio.Encode.{Item, Sink, encode_all}
use benchmark_reverse_proxie.Tokio.Encode.Read.{IsItem, response_of, encode_all-read}

abbrev hello : Item
hello = record {
  status = bytes "200 OK";
  headers = (bytes "content-type", bytes "text/plain") ∷ [];
  body = bytes "Hello, World!\n";
}

hello-IsItem : IsItem hello
hello-IsItem = record { status = omega arith; headers = omega arith }

abbrev empty : Sink
empty = record { dst = []; cache = last }

abbrev two : List (Item × SystemTime)
two = (hello, second_three) ∷ (hello, since_epoch 4 0) ∷ []

encode_all-read_example :
    (text : Bytes) × ((encode_all http_date two empty).0 ≡ done tt)
    × ((encode_all http_date two empty).1.dst ≡ text)
    × ((rest : Bytes)
        → read_all 2 (text ++ rest)
          ≡ some (
            response_of hello (bytes "Thu, 01 Jan 1970 00:00:03 GMT")
                ∷ response_of hello (bytes "Thu, 01 Jan 1970 00:00:04 GMT")
                ∷ [],
            rest,
          ))
unfolding flatten
encode_all-read_example =
    encode_all-read http_date 10 render rendering two empty
      ((hello-IsItem, omega arith, omega arith), ((hello-IsItem, omega arith, omega arith), tt))
      (last-IsCoherent render)
