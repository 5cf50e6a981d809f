-- ===== src/Origins/Alike.antt =====
-- What the origin servers that write their responses themselves send, side by side.
use mathlib.Core.List.{Perm, perm_append_comm}
use mathlib.Core.List.Perm
use mathlib.Core.Option.{some-injective}
use benchmark_reverse_proxie.Common.{
  ℕ, ◌^◌, ◌<◌, ◌≡◌, refl, sym, ap, ◌∙◌, true, List, [], ◌∷◌, append-nil, flatten, map, Option, none,
  some,
}
use benchmark_reverse_proxie.Common.Bytes.{Bytes, bytes}
use benchmark_reverse_proxie.Common.Bytes.Decimal.{decimal}
use benchmark_reverse_proxie.Http.{Field, Response, lower, read_response}
use benchmark_reverse_proxie.Http.RoundTrip.{IsLine}
use benchmark_reverse_proxie.Toysync.Date.{SystemTime, since_epoch, LastRenderedNow}
use benchmark_reverse_proxie.Toysync.Date.Cache.{IsRendering, IsCoherent, InRange}
use benchmark_reverse_proxie.Toysync.Connection.{TcpStream, handle_connection}
use benchmark_reverse_proxie.Toysync.Connection.Response.{handle_connection-hello}
use benchmark_reverse_proxie.Toysync.Connection.Response
use benchmark_reverse_proxie.Tokio.Decode.{Request}
use benchmark_reverse_proxie.Tokio.Encode.{Item, encode}
use benchmark_reverse_proxie.Tokio.Process.{ResponseApi, respond}
use benchmark_reverse_proxie.Tokio.Process.Transport.{IsBuilder}
use benchmark_reverse_proxie.Tokio.Encode.Read.{response_of, encode-read}
use benchmark_reverse_proxie.Tokio.Process.Answers.{page, page-IsItem, respond-page}
use benchmark_reverse_proxie.Origins.Pingora.{Int64, nonneg, process_new}
use benchmark_reverse_proxie.Origins.Pingora.Sends
use benchmark_reverse_proxie.Origins.Pingora.Sends.{process_new-read}

-- The fields of a greeting, in some order, and the names in lower case.
abbrev pub fields_of : (server date : Bytes) → List Field
fields_of server date =
    (bytes "server", server)
    ∷ (bytes "date", date)
    ∷ (bytes "content-type", bytes "text/plain")
    ∷ (bytes "content-length", bytes "14")
    ∷ []

pub record IsGreeting (server date body : Bytes) (r : Response) : Type 0 where
  pub status : r.status ≡ bytes "HTTP/1.1 200 OK"
  pub fields : Perm (map (λ (f : Field). (lower f.0, f.1)) r.fields) (fields_of server date)
  pub text : r.body ≡ body

-- The client reads the text as one greeting, with nothing left over.
abbrev pub Greeted : (server date body sent : Bytes) → Type 0
Greeted server date body sent =
    (r : Response) × (read_response sent ≡ some (r, [])) × IsGreeting server date body r

halves_swapped : (a b c d : Field) → Perm (a ∷ b ∷ c ∷ d ∷ []) (d ∷ c ∷ a ∷ b ∷ [])
halves_swapped a b c d =
    Perm.trans (perm_append_comm (a ∷ b ∷ []) (c ∷ d ∷ [])) (Perm.swap d c (a ∷ b ∷ []))

toysync-IsGreeting :
    (date : Bytes)
    → IsGreeting (bytes "toysync") date (bytes "Hello, world!\n") (Response.hello date)
unfolding lower decimal
toysync-IsGreeting date = record { status = refl; fields = Perm.refl _; text = refl }

pingora-IsGreeting :
    (date : Bytes) → IsGreeting (bytes "pingora") date (bytes "Hello, world!\n") (Sends.hello date)
unfolding lower decimal
pingora-IsGreeting date = record { status = refl; fields = halves_swapped _ _ _ _; text = refl }

tokio-IsGreeting :
    (date : Bytes)
    → IsGreeting (bytes "tokio") date (bytes "Hello, World!\n") (response_of page date)
unfolding lower decimal
tokio-IsGreeting date = record {
  status = refl;
  fields = Perm.cons _ (perm_append_comm (_ ∷ []) (_ ∷ _ ∷ []));
  text = refl;
}

module _ (http_date : SystemTime → Option (List Bytes)) (limit : ℕ) (render : ℕ → List Bytes)
    (r : IsRendering http_date limit render) (format : Int64 → Option Bytes) (api : ResponseApi)
    (builds : IsBuilder api) where
  -- In a second that httpdate and chrono render alike, and as a line, a client that takes the whole
  -- response reads from origin-toysync, origin-tokio (the response that `respond` makes with a
  -- builder that keeps its contract, encoded) and origin-pingora the same status and the same
  -- fields, whatever the coherent caches of the date held before, but for the server's name, the
  -- order and the capitals of the fields; and the same text, but that origin-tokio writes `World`
  -- with a capital. A first read of origin-toysync fills, and its writes do not fail; what
  -- origin-pingora is given takes all.
  pub origins-Greeted :
      (secs nanos : ℕ) (stream : TcpStream) (request : Bytes) (a b : LastRenderedNow)
      (req : Request) (item : Item)
      → let now = since_epoch secs nanos in
        let date = flatten (render secs) in
        secs < 2 ^ 63
        → InRange limit now
        → IsLine date
        → format (nonneg secs) ≡ some date
        → IsCoherent render a
        → IsCoherent render b
        → stream.filled ≡ some request
        → stream.broken_at ≡ none
        → respond api req ≡ some item
        → Greeted
            (bytes "toysync")
            date
            (bytes "Hello, world!\n")
            (handle_connection http_date stream now (record { cache = a; sent = [] })).1.sent
          × Greeted
              (bytes "tokio")
              date
              (bytes "Hello, World!\n")
              (encode http_date item now (record { dst = []; cache = b })).1.dst
          × Greeted
              (bytes "pingora")
              date
              (bytes "Hello, world!\n")
              (process_new format (record { room = none; flushes = true }) now []).1
  origins-Greeted secs nanos stream request a b req item small h line same ca cb filled whole made =
      let now = since_epoch secs nanos in
      let date : Bytes = flatten (render secs) in
      let (x, finished, sent, read_x) =
        handle_connection-hello http_date limit render r stream now
          (record { cache = a; sent = [] }) request h line ca filled whole in
      let (y, encoded, written, read_y) =
        encode-read http_date limit render r page now (record { dst = []; cache = b }) h line cb
          page-IsItem in
      let is_page : item ≡ page = some-injective _ _ (sym made ∙ respond-page api builds req) in
      let greeted_by_page : Greeted (bytes "tokio") date (bytes "Hello, World!\n")
          (encode http_date page now (record { dst = []; cache = b })).1.dst =
        (_, ap read_response (written ∙ sym (append-nil y)) ∙ read_y [], tokio-IsGreeting date) in
      let (given_up, z, answered, read_z) =
        process_new-read format secs nanos date [] small same line in
      (
        (_, ap read_response (sent ∙ sym (append-nil x)) ∙ read_x [], toysync-IsGreeting date),
        rw is_page greeted_by_page,
        (_, ap read_response (answered ∙ sym (append-nil z)) ∙ read_z [], pingora-IsGreeting date),
      )
