-- ===== src/Tokio/Process/Tests.antt =====
-- Two requests on one connection.
use benchmark_reverse_proxie.Common.{All, ◌≡◌, refl, [], ◌++◌, some, length, arith, replicate}
use benchmark_reverse_proxie.Http.{bodiless}
use benchmark_reverse_proxie.Toysync.Date.Clock.{http_date, render, rendering}
use benchmark_reverse_proxie.Tokio.Decode.{decode, toslice, header_slices, slice, all_names}
use benchmark_reverse_proxie.Tokio.Decode.Sample.{
  get_root, crates, crates-IsStable, crates-IsParser,
}
use benchmark_reverse_proxie.Tokio.Process.{Outcome, process}
use benchmark_reverse_proxie.Tokio.Process.Sample.{
  api, api-IsBuilder, Connection, transport, laws, tick, ticks-IsGoodTick,
}
use benchmark_reverse_proxie.Tokio.Process.Requests.{requests}
use benchmark_reverse_proxie.Tokio.Process.Ends.{process-ends}
use benchmark_reverse_proxie.Tokio.Process.Client.{HasBody, IsAnswered, process-IsAnswered}

abbrev opened : Connection
opened = (get_root ++ get_root, [])

-- The second request is found behind the first.
two_found : length (requests crates 4096 60 (get_root ++ get_root)) ≡ 2
unfolding requests decode toslice header_slices slice all_names
two_found = refl

process-ends_example :
    (end : Outcome × Connection) × (process api transport (replicate 60 tick) opened ≡ some end)
process-ends_example =
    process-ends api crates http_date transport laws (replicate 60 tick) opened crates-IsParser
      (omega arith)

two_bodies : All HasBody (requests crates 4096 60 (get_root ++ get_root))
unfolding requests decode toslice header_slices slice all_names bodiless
two_bodies = (refl, (refl, tt))

process-IsAnswered_example :
    (end : Outcome × Connection) × (process api transport (replicate 60 tick) opened ≡ some end)
    × IsAnswered api api-IsBuilder crates crates-IsStable http_date 10 render rendering transport
        laws
        (requests crates 4096 60 (get_root ++ get_root))
        (replicate 60 tick)
        []
        end
process-IsAnswered_example =
    process-IsAnswered api api-IsBuilder crates crates-IsStable http_date 10 render rendering
      transport laws 4096 60 (replicate 60 tick) opened (omega arith) (omega arith) (omega arith)
      (ticks-IsGoodTick 60) two_bodies
