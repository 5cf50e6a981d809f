-- ===== src/Toysync/Connection/Response.antt =====
-- What a client of origin-toysync gets.
use benchmark_reverse_proxie.Common.{
  ℕ, ◌≡◌, ◌≢◌, ◌↔◌, ◌⊎◌, refl, ap, ◌∙◌, List, [], ◌∷◌, ◌++◌, append_assoc, flatten, Option, none,
  some, arith, length,
}
use benchmark_reverse_proxie.Common.Bytes.{Bytes, bytes}
use benchmark_reverse_proxie.Common.Bytes.Decimal.{decimal}
use benchmark_reverse_proxie.Common.Exec.{done, panicked}
use benchmark_reverse_proxie.Http.{Response, print_response, read_response, field_value}
use benchmark_reverse_proxie.Http.RoundTrip.{IsLine, IsFramed, read_response-print}
use benchmark_reverse_proxie.Toysync.Date.{SystemTime, unix_secs}
use benchmark_reverse_proxie.Toysync.Date.Cache.{IsRendering, IsCoherent, InRange, fmt-render}
use benchmark_reverse_proxie.Toysync.Connection.{
  TcpStream, Thread, content, response, write_all, handle_connection,
}

-- The response that is meant.
abbrev pub hello : Bytes → Response
hello date = record {
  status = bytes "HTTP/1.1 200 OK";
  fields =
      (bytes "Server", bytes "toysync")
      ∷ (bytes "Date", date)
      ∷ (bytes "Content-Type", bytes "text/plain")
      ∷ (bytes "Content-Length", decimal (length content))
      ∷ [];
  body = content;
}

hello-IsFramed : (date : Bytes) → IsLine date → IsFramed (hello date)
unfolding field_value decimal
hello-IsFramed date h = record {
  status = omega arith;
  fields = ((omega arith, omega arith), ((omega arith, h), (omega arith, (omega arith, tt))));
  content_length = refl;
}

response-print : (date rest : Bytes) → response date ++ rest ≡ print_response (hello date) rest
unfolding response decimal
response-print date rest = rw (append_assoc date)

-- The times at which the date is a line.
abbrev pub HasDateLine : (ℕ → List Bytes) → SystemTime → Type 0
HasDateLine render now = IsLine (flatten (render (unix_secs now)))

module _ (http_date : SystemTime → Option (List Bytes)) (limit : ℕ) (render : ℕ → List Bytes)
    (r : IsRendering http_date limit render) where
  -- From a coherent cache, at a time in range whose date is a line, a client that sends something
  -- (or nothing) and takes the whole response gets what any HTTP client reads as `200 OK` with the
  -- four header fields, the present date among them, and the text `Hello, world!`, with nothing
  -- left over; and the worker survives.
  pub handle_connection-hello :
      (stream : TcpStream) (now : SystemTime) (t : Thread) (request : Bytes)
      → InRange limit now
      → HasDateLine render now
      → IsCoherent render t.cache
      → stream.filled ≡ some request
      → stream.broken_at ≡ none
      → (text : Bytes) × ((handle_connection http_date stream now t).0 ≡ done tt)
        × ((handle_connection http_date stream now t).1.sent ≡ t.sent ++ text)
        × ((rest : Bytes)
            → read_response (text ++ rest) ≡ some (hello (flatten (render (unix_secs now))), rest))
  unfolding handle_connection write_all
  handle_connection-hello stream now t request h line c f b =
      let date : Bytes = flatten (render (unix_secs now)) in
      let (written, fresh, secs) = fmt-render http_date limit render r now t.cache h c in
      (
        response date,
        rw (f, written, b) refl,
        rw (f, written, b) refl,
        λ rest.
            ap read_response (response-print date rest)
            ∙ read_response-print (hello date) rest (hello-IsFramed date line),
      )

  -- From a coherent cache and at a time in range, the worker's thread ends by a panic exactly when
  -- the first read fails or the response is not taken whole.
  pub handle_connection_panics_iff :
      (stream : TcpStream) (now : SystemTime) (t : Thread)
      → InRange limit now
      → IsCoherent render t.cache
      → ((handle_connection http_date stream now t).0 ≡ panicked)
        ↔ ((stream.filled ≡ none) ⊎ (stream.broken_at ≢ none))
  unfolding handle_connection write_all
  handle_connection_panics_iff stream now t h c =
      let (written, fresh, secs) = fmt-render http_date limit render r now t.cache h c in
      ground (arith, written)
