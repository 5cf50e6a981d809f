-- ===== src/Chain/Serves.antt =====
-- A request through proxy-actix to the connection loop of origin-tokio, and the answer back.
use benchmark_reverse_proxie.Common.{
  ℕ, ◌+◌, ◌^◌, ◌<◌, ◌≡◌, ◌≢◌, false, sym, ap, ◌∙◌, List, [], ◌∷◌, ◌++◌, append-nil, Option, none,
  some, length, All,
}
use benchmark_reverse_proxie.Common.Bytes.{Bytes}
use benchmark_reverse_proxie.Http.{◌>>=◌, Response, read_response, bodiless, read_answers}
use benchmark_reverse_proxie.Http.Headers.{HeadersApi, IsHeaders}
use benchmark_reverse_proxie.Toysync.Date.{SystemTime}
use benchmark_reverse_proxie.Toysync.Date.Cache.{IsRendering}
use benchmark_reverse_proxie.Tokio.Decode
use benchmark_reverse_proxie.Tokio.Decode.{Request}
use benchmark_reverse_proxie.Tokio.Decode.Stream.{IsStable}
use benchmark_reverse_proxie.Tokio.Encode.Read.{response_of, date_of}
use benchmark_reverse_proxie.Tokio.Process.{
  ResponseApi, Tick, TransportApi, Outcome, finished, refused, broken, no_response, process,
}
use benchmark_reverse_proxie.Tokio.Process.Transport.{IsBuilder, IsTransport}
use benchmark_reverse_proxie.Tokio.Process.Requests.{requests}
use benchmark_reverse_proxie.Tokio.Process.Answers.{page, IsGoodTick}
use benchmark_reverse_proxie.Tokio.Process.Client.{IsAnswered, HasBody, process-IsAnswered}
use benchmark_reverse_proxie.Proxies.Actix.{Incoming, Outgoing, Crates, forwarded_req}
use benchmark_reverse_proxie.Proxies.Actix.Relay.{IsStreaming}
use benchmark_reverse_proxie.Chain.{ReadsHttp, GetsPage, read-GetsPage}

one_read :
    (a : Option (Response × Bytes)) (x : Response) (rest : Bytes)
    → ◌>>=◌ {B = List Response × Bytes} a (λ r. some (r.0 ∷ [], r.1)) ≡ some (x ∷ [], rest)
    → a ≡ some (x, rest)
one_read none x rest h = cc
one_read (some (r, later)) x rest h = cc

read_answers-read_response :
    (method text : Bytes) (x : Response) (rest : Bytes)
    → bodiless method ≡ false
    → read_answers (method ∷ []) text ≡ some (x ∷ [], rest)
    → read_response text ≡ some (x, rest)
unfolding read_answers
read_answers-read_response method text x rest m h = one_read (read_response text) x rest (rw m at h)

module _ (api : ResponseApi) (crates : Decode.Crates) (http_date : SystemTime → Option (List Bytes))
    (tr : TransportApi) (laws : IsTransport crates http_date tr) where
  open tr use {Transport}

  abbrev pub written_by : Option (Outcome × Transport) → Bytes
  written_by none = []
  written_by (some end) = laws.written end.1

  -- What origin-tokio writes on the connection that a request opens, with so many ticks.
  abbrev pub answer_of :
      {Out : Type 0} → (Out → Bytes → Transport) → List Tick → Out → Bytes → Bytes
  answer_of connect ticks out payload = written_by (process api tr ticks (connect out payload))

module _ (proxy_headers : HeadersApi) (headers_laws : IsHeaders proxy_headers)
    (awc : Crates proxy_headers) (api : ResponseApi) (b : IsBuilder api) (crates : Decode.Crates)
    (st : IsStable crates) (http_date : SystemTime → Option (List Bytes)) (limit : ℕ)
    (render : ℕ → List Bytes) (r : IsRendering http_date limit render) (tr : TransportApi)
    (laws : IsTransport crates http_date tr) where
  open tr use {Transport}

  abbrev pub Good : Tick → Type 0
  Good tick = IsGoodTick api b crates st http_date limit render r tr laws tick

  one_reply :
      (q : Request) (tick : Tick) (ticks : List Tick) (o : Option (Outcome × Transport))
      (end : Outcome × Transport)
      → HasBody q
      → o ≡ some end
      → ((t : Transport) → o ≢ some (broken, t))
      → IsAnswered api b crates st http_date limit render r tr laws (q ∷ []) (tick ∷ ticks) [] end
      → read_response (written_by api crates http_date tr laws o)
        ≡ some (response_of page (date_of render tick.now), [])
  one_reply q tick ticks o (finished, t) m e whole (text, reads, w) =
      rw (e, w)
        (ap read_response (sym (append-nil text))
          ∙ read_answers-read_response q.method (text ++ []) _ [] m (reads []))
  one_reply q tick ticks o (refused x, t) m e whole (text, reads, w) =
      rw (e, w)
        (ap read_response (sym (append-nil text))
          ∙ read_answers-read_response q.method (text ++ []) _ [] m (reads []))
  one_reply q tick ticks o (broken, t) m e whole a = absurd (whole t e)
  one_reply q tick ticks o (no_response, t) m e whole a = elim a [ ]

  -- Where the crates keep their contracts, the forwarded request is no HEAD and no CONNECT, and awc
  -- opens a connection to origin-tokio for it, on which the decoder finds one request, no HEAD and
  -- no CONNECT either, in the address space, and which does not break; and every round of `process`
  -- has a coherent cache and a date that can be rendered as a line: the client of proxy-actix gets
  -- the status 200 and the body of origin-tokio, and of its fields server, date, content-type and
  -- content-length the one value that origin-tokio gave, the date being that of the first round.
  pub forward-process :
      (connect : Outgoing proxy_headers awc.Url → Bytes → Transport) (url : awc.Url)
      (req : Incoming proxy_headers) (payload : Bytes) (peer_addr : Option Bytes) (base n : ℕ)
      (q : Request) (tick : Tick) (ticks : List Tick)
      → let t = connect (forwarded_req proxy_headers awc url req peer_addr) payload in
        ReadsHttp proxy_headers awc (answer_of api crates http_date tr laws connect (tick ∷ ticks))
        → laws.written t ≡ []
        → requests crates base n (laws.unread t) ≡ q ∷ []
        → HasBody q
        → bodiless (forwarded_req proxy_headers awc url req peer_addr).method ≡ false
        → IsStreaming proxy_headers awc
        → length (laws.unread t) < n
        → base + length (laws.unread t) < 2 ^ 64
        → length (laws.unread t) < length (tick ∷ ticks)
        → All Good (tick ∷ ticks)
        → ((s : Transport) → process api tr (tick ∷ ticks) t ≢ some (broken, s))
        → GetsPage proxy_headers headers_laws awc
            (answer_of api crates http_date tr laws connect (tick ∷ ticks))
            url
            req
            payload
            peer_addr
            (date_of render tick.now)
  forward-process connect url req payload peer_addr base n q tick ticks reads fresh one m sent_m
        streams short room enough good whole =
      let t = connect (forwarded_req proxy_headers awc url req peer_addr) payload in
      let (end, e, answered) =
        process-IsAnswered api b crates st http_date limit render r tr laws base n (tick ∷ ticks) t
          short room enough good (rw one (m, tt)) in
      let answered_one : IsAnswered api b crates st http_date limit render r tr laws (q ∷ [])
          (tick ∷ ticks) [] end =
        rw (one, fresh) at answered in
      read-GetsPage proxy_headers headers_laws awc
        (answer_of api crates http_date tr laws connect (tick ∷ ticks)) url req payload peer_addr
        (date_of render tick.now) reads streams sent_m
        (one_reply q tick ticks (process api tr (tick ∷ ticks) t) end m e whole answered_one)
