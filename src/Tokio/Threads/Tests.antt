-- ===== src/Tokio/Threads/Tests.antt =====
-- Two threads, at the seconds three and four and three again.
use benchmark_reverse_proxie.Common.{◌≡◌, List, [], ◌∷◌, map, replicate, arith}
use benchmark_reverse_proxie.Toysync.Date.{since_epoch}
use benchmark_reverse_proxie.Toysync.Date.Clock.{http_date, render, rendering, second_three}
use benchmark_reverse_proxie.Tokio.Date.{last}
use benchmark_reverse_proxie.Tokio.Process.Answers.{page}
use benchmark_reverse_proxie.Tokio.Threads.{Encoding, encode_on, printed, encode_on-printed}

abbrev three : List Encoding
three =
    record { thread = 1; item = page; now = second_three }
    ∷ record { thread = 0; item = page; now = since_epoch 4 0 }
    ∷ record { thread = 1; item = page; now = second_three }
    ∷ []

encode_on-printed_example :
    encode_on http_date three (replicate 2 last)
    ≡ map (λ e. printed http_date 10 render rendering e) three
encode_on-printed_example =
    encode_on-printed http_date 10 render rendering 2 three
      ((omega arith, omega arith), ((omega arith, omega arith), ((omega arith, omega arith), tt)))
