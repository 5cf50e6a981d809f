-- ===== src/Tokio/Encode.antt =====
-- `Encoder::encode` of origin-tokio/src/main.rs.
pub mod Read
mod Tests
use benchmark_reverse_proxie.Common.{ℕ, List, [], ◌∷◌, ◌++◌, Option, length}
use benchmark_reverse_proxie.Common.Bytes.{Bytes, bytes}
use benchmark_reverse_proxie.Common.Bytes.Decimal.{decimal}
use benchmark_reverse_proxie.Common.Exec.{Exec, Outcome, done, pure, ◌>>=◌, ◌>>◌}
use benchmark_reverse_proxie.Http.{Field}
use benchmark_reverse_proxie.Toysync.Date.{SystemTime, LastRenderedNow}
use benchmark_reverse_proxie.Tokio.Date.{fmt}

-- What `encode` asks of an `http::Response<String>`: what its status displays, its header fields in
-- the order of iteration, and its body.
pub record Item : Type 0 where
  pub status : Bytes
  pub headers : List Field
  pub body : Bytes

-- The buffer that is written to, and the thread's cache of the date.
pub record Sink : Type 0 where
  pub dst : Bytes
  pub cache : LastRenderedNow

-- `extend_from_slice`, which is also `write_str` of `BytesWrite`.
abbrev pub extend : Bytes → Exec Sink Unit
extend s k = (done tt, record k { dst = k.dst ++ s })

unfoldable pub put_headers : List Field → Exec Sink Unit
put_headers [] = pure tt
put_headers ((k, v) ∷ fs) =
    extend k >> (extend (bytes ": ") >> (extend v >> (extend (bytes "\r\n") >> put_headers fs)))

module _ (http_date : SystemTime → Option (List Bytes)) where
  -- The `Display` of `date::now()`.
  abbrev pub put_date : SystemTime → Exec Sink Unit
  put_date now k =
      ((λ (s : Sink).
            ((fmt http_date now s.cache).0, record s { cache = (fmt http_date now s.cache).1 }))
          >>= extend)
        k

  -- `now` is the clock when the date is formatted.
  unfoldable pub encode : Item → SystemTime → Exec Sink Unit
  encode item now = do
    extend (bytes "HTTP/1.1 ")
    extend item.status
    extend (bytes "\r\nServer: tokio\r\nContent-Length: ")
    extend (decimal (length item.body))
    extend (bytes "\r\nDate: ")
    put_date now
    extend (bytes "\r\n")
    put_headers item.headers
    extend (bytes "\r\n")
    extend item.body

  -- Responses that are sent one behind the other on one connection, each with the clock of its time.
  unfoldable pub encode_all : List (Item × SystemTime) → Exec Sink Unit
  encode_all [] = pure tt
  encode_all ((item, now) ∷ later) = encode item now >> encode_all later
