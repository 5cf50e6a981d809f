-- ===== src/Chain/Tests.antt =====
-- One request through proxy-actix to origin-tokio.
use benchmark_reverse_proxie.Common.{
  false, ℕ, ◌≡◌, ◌≢◌, refl, sym, ap, ◌∙◌, replicate, true, [], ◌∷◌, take, drop, Option, none, some,
  arith, flatten,
}
use benchmark_reverse_proxie.Common.Bytes.{Bytes, bytes}
use benchmark_reverse_proxie.Common.Bytes.Decimal.{read_decimal}
use benchmark_reverse_proxie.Http.{Response, read_response, bodiless}
use benchmark_reverse_proxie.Http.Headers.Sample.{api, api-IsHeaders}
use benchmark_reverse_proxie.Toysync.Date.Clock.{http_date, render, rendering}
use benchmark_reverse_proxie.Proxies.Actix
use benchmark_reverse_proxie.Proxies.Actix.{Upstream, Incoming, Outgoing, response, forward}
use benchmark_reverse_proxie.Proxies.Actix.Relay.{typed}
use benchmark_reverse_proxie.Chain.{upstream_of, ReadsHttp, GetsPage}
use benchmark_reverse_proxie.Chain.Serves.{answer_of, forward-process}
use benchmark_reverse_proxie.Tokio.Decode.{
  Request, decode, toslice, header_slices, slice, all_names,
}
use benchmark_reverse_proxie.Tokio.Decode.Sample.{get_root, crates, crates-IsStable}
use benchmark_reverse_proxie.Tokio.Process.{Outcome, finished, broken, process, respond}
use benchmark_reverse_proxie.Tokio.Process.Requests.{requests}
use benchmark_reverse_proxie.Tokio.Process.Sample
use benchmark_reverse_proxie.Tokio.Process.Sample.{Connection}

-- awc writes the same request for each of the requests that it is given.
abbrev connect : Outgoing api Bytes → Bytes → Connection
connect out payload = (get_root, [])

abbrev answer : Outgoing api Bytes → Bytes → Bytes
answer =
    answer_of Sample.api crates http_date Sample.transport Sample.laws connect
      (replicate 60 Sample.tick)

abbrev with_status : Response → Option ℕ → Option Upstream
with_status r none = none
with_status r (some status) = some (upstream_of status r)

abbrev upstream : Option (Response × Bytes) → Option Upstream
upstream none = none
upstream (some (r, rest)) = with_status r (read_decimal (take 3 (drop 9 r.status)))

abbrev awc : Actix.Crates api
awc = record {
  Url = Bytes;
  set_path = λ url path. path;
  set_query = λ url query. url;
  request_from = λ url req. record {
    url = url;
    method = req.method;
    headers = req.headers;
    decompress = true;
  };
  send_stream = λ out payload. upstream (read_response (answer out payload));
  streaming = λ h name. typed name (h name);
}

awc-ReadsHttp : ReadsHttp api awc answer
awc-ReadsHttp out payload r status m read digits = rw (read, digits)

abbrev incoming : Incoming api
incoming = record { path = bytes "/"; query = none; method = bytes "GET"; headers = λ name. [] }

-- The request is answered, and then the stream ends.
outcome : {A : Type 0} → Option (Outcome × A) → Option Outcome
outcome none = none
outcome (some end) = some end.0

ends_well :
    outcome (process Sample.api Sample.transport (replicate 60 Sample.tick) (get_root, []))
    ≡ some finished
unfolding outcome process respond decode toslice header_slices slice all_names
ends_well = refl

found : Request
found = record { method = bytes "GET"; uri = bytes "/"; headers = (bytes "Host", bytes "a") ∷ [] }

one_found : requests crates 4096 60 get_root ≡ found ∷ []
unfolding requests decode toslice header_slices slice all_names found
one_found = refl

never_broken :
    (s : Connection)
    → process Sample.api Sample.transport (replicate 60 Sample.tick) (get_root, [])
      ≢ some (broken, s)
unfolding outcome
never_broken s e = let wrong : some finished ≡ some broken = sym ends_well ∙ ap outcome e in cc

get_body : bodiless (bytes "GET") ≡ false
unfolding bodiless
get_body = refl

forward-process_example :
    GetsPage api api-IsHeaders awc answer
      (bytes "/")
      incoming
      []
      none
      (bytes "Thu, 01 Jan 1970 00:00:03 GMT")
unfolding flatten found Actix.forwarded_req
forward-process_example =
    forward-process api api-IsHeaders awc Sample.api Sample.api-IsBuilder crates crates-IsStable
      http_date 10 render rendering Sample.transport Sample.laws connect (bytes "/") incoming []
      none 4096 60 found Sample.tick (replicate 59 Sample.tick) awc-ReadsHttp refl one_found
      get_body get_body (λ h name. refl) (omega arith) (omega arith) (omega arith)
      (Sample.ticks-IsGoodTick 60) never_broken
