-- ===== src/Chain.antt =====
-- proxy-actix before origin-tokio: what the client of the one reads of the answer of the other. The
-- code of the two is in Proxies/Actix and in Tokio.
pub mod Serves
mod Tests
use benchmark_reverse_proxie.Common.{
  ℕ, ◌≡◌, refl, ap, ◌∙◌, List, [], ◌∷◌, ◌++◌, append-nil, map, take, drop, Option, none, some,
  arith, subst, sym, false,
}
use benchmark_reverse_proxie.Common.Bytes.{Bytes, bytes}
use benchmark_reverse_proxie.Common.Bytes.Decimal.{decimal, read_decimal}
use benchmark_reverse_proxie.Http.{Field, Response, lower, eq_bytes, read_response, bodiless}
use benchmark_reverse_proxie.Http.RoundTrip.{IsLine}
use benchmark_reverse_proxie.Http.Headers.{HeadersApi, IsHeaders, values_of, latest}
use benchmark_reverse_proxie.Toysync.Date.{SystemTime, LastRenderedNow}
use benchmark_reverse_proxie.Toysync.Date.Cache.{IsRendering, IsCoherent, InRange}
use benchmark_reverse_proxie.Tokio.Encode.{encode}
use benchmark_reverse_proxie.Tokio.Encode.Read.{response_of, date_of, encode-read}
use benchmark_reverse_proxie.Tokio.Process.Answers.{page, page-IsItem}
use benchmark_reverse_proxie.Proxies.Actix.{
  Upstream, Incoming, Outgoing, Crates, response, is_hop, forwarded_req, forward,
}
use benchmark_reverse_proxie.Proxies.Actix.Relay.{IsStreaming, forward-relayed}

-- What awc makes of a response: the three digits of the status line, the names of the fields in
-- lower case.
abbrev pub upstream_of : (status : ℕ) → Response → Upstream
upstream_of status r = record {
  status = status;
  headers = map (λ (f : Field). (lower f.0, f.1)) r.fields;
  body = r.body;
}

-- awc reads what is answered as HTTP, to a request whose answer has a body. `answer` is what the
-- upstream server writes for a request.
abbrev pub ReadsHttp :
    (api : HeadersApi) (crates : Crates api) → (Outgoing api crates.Url → Bytes → Bytes) → Type 0
ReadsHttp api crates answer =
    (out : Outgoing api crates.Url) (payload : Bytes) (r : Response) (status : ℕ)
    → bodiless out.method ≡ false
    → read_response (answer out payload) ≡ some (r, [])
    → read_decimal (take 3 (drop 9 r.status)) ≡ some status
    → crates.send_stream out payload ≡ some (upstream_of status r)

module _ (api : HeadersApi) (laws : IsHeaders api) (crates : Crates api)
    (answer : Outgoing api crates.Url → Bytes → Bytes) where
  -- The client of the proxy gets the page of origin-tokio with this date: the status 200, the body,
  -- and of the four fields the one value.
  abbrev pub GetsPage :
      (url : crates.Url) (req : Incoming api) (payload : Bytes) (peer_addr : Option Bytes)
      (date : Bytes)
      → Type 0
  GetsPage url req payload peer_addr date =
      (headers : api.Headers) × (forward api crates url req payload peer_addr
        ≡ response 200 headers (bytes "Hello, World!\n"))
      × (api.values headers (bytes "server") ≡ bytes "tokio" ∷ [])
      × (api.values headers (bytes "date") ≡ date ∷ [])
      × (api.values headers (bytes "content-type") ≡ bytes "text/plain" ∷ [])
      × (api.values headers (bytes "content-length") ≡ bytes "14" ∷ [])

  pub read-GetsPage :
      (url : crates.Url) (req : Incoming api) (payload : Bytes) (peer_addr : Option Bytes)
      (date : Bytes)
      → ReadsHttp api crates answer
      → IsStreaming api crates
      → bodiless (forwarded_req api crates url req peer_addr).method ≡ false
      → read_response (answer (forwarded_req api crates url req peer_addr) payload)
        ≡ some (response_of page date, [])
      → GetsPage url req payload peer_addr date
  unfolding read_decimal decimal lower values_of latest is_hop eq_bytes
  read-GetsPage url req payload peer_addr date reads streams m whole =
      let sent = reads (forwarded_req api crates url req peer_addr) payload _ 200 m whole refl in
      let (headers, answered, shown) =
        forward-relayed api laws crates url req payload peer_addr _ streams sent in
      (
        headers,
        answered,
        shown (bytes "server"),
        shown (bytes "date"),
        shown (bytes "content-type"),
        shown (bytes "content-length"),
      )

  -- The server behind proxy-actix writes what origin-tokio encodes.
  module _ (http_date : SystemTime → Option (List Bytes)) (limit : ℕ) (render : ℕ → List Bytes)
      (r : IsRendering http_date limit render) where
    forward-encode :
        (url : crates.Url) (req : Incoming api) (payload : Bytes) (peer_addr : Option Bytes)
        (now : SystemTime) (cache : LastRenderedNow)
        → ReadsHttp api crates answer
        → IsStreaming api crates
        → bodiless (forwarded_req api crates url req peer_addr).method ≡ false
        → InRange limit now
        → IsLine (date_of render now)
        → IsCoherent render cache
        → answer (forwarded_req api crates url req peer_addr) payload
          ≡ (encode http_date page now (record { dst = []; cache = cache })).1.dst
        → GetsPage url req payload peer_addr (date_of render now)
    forward-encode url req payload peer_addr now cache reads streams m h line c wrote =
        let (text, finished, written, read) =
          encode-read http_date limit render r page now (record { dst = []; cache = cache }) h line
            c page-IsItem in
        read-GetsPage url req payload peer_addr (date_of render now) reads streams m
          (ap read_response (wrote ∙ written ∙ sym (append-nil text)) ∙ read [])
