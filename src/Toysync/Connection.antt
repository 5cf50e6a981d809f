-- ===== src/Toysync/Connection.antt =====
-- `handle_connection` of origin-toysync/src/main.rs: a request is read as far as the first `read`
-- gives it, and is not looked at; the response is a text.
pub mod Response
mod Tests
use benchmark_reverse_proxie.Common.{
  ℕ, Bool, true, false, List, [], ◌∷◌, ◌++◌, ◌-◌, Option, none, some, length, take, if◌then◌else◌,
}
use benchmark_reverse_proxie.Common.Bytes.{Bytes, bytes}
use benchmark_reverse_proxie.Common.Bytes.Decimal.{decimal}
use benchmark_reverse_proxie.Common.Exec.{Exec, Outcome, done, panicked, pure, unwrap, ◌>>=◌, ◌>>◌}
use benchmark_reverse_proxie.Toysync.Date.{SystemTime, LastRenderedNow, fmt}

-- What the socket answers: what the first read gives, if it does not fail, and after how many bytes
-- the write fails, if it does: before the last byte in any case, since else it does not fail. A read
-- that has not come back has no answer here: `handle_connection` is the job once it has.
pub record TcpStream : Type 0 where
  pub filled : Option Bytes
  pub broken_at : Option ℕ

-- The thread's cache of the date, and what the client has been sent.
pub record Thread : Type 0 where
  pub cache : LastRenderedNow
  pub sent : Bytes

abbrev pub content : Bytes
content = bytes "Hello, world!\n"

-- The arguments of `format!`.
unfoldable pub response : Bytes → Bytes
response date =
    bytes "HTTP/1.1 200 OK\r\nServer: toysync\r\nDate: "
    ++ (date
        ++ (bytes "\r\nContent-Type: text/plain\r\nContent-Length: "
            ++ (decimal (length content) ++ (bytes "\r\n\r\n" ++ content))))

unfoldable pub write_all : TcpStream → Bytes → Exec Thread Unit
write_all stream text s = elim stream.broken_at [
  | none ↦ (done tt, record s { sent = s.sent ++ text })
  | some n ↦ (panicked, record s { sent = s.sent ++ take n (take (length text - 1) text) })
]

abbrev pub with_cache : {A : Type 0} → Exec LastRenderedNow A → Exec Thread A
with_cache m s = ((m s.cache).0, record s { cache = (m s.cache).1 })

module _ (http_date : SystemTime → Option (List Bytes)) where
  -- `now` is the clock when the date is formatted.
  unfoldable pub handle_connection : TcpStream → SystemTime → Exec Thread Unit
  handle_connection stream now = do
    unwrap stream.filled
    date ← with_cache (fmt http_date now)
    write_all stream (response date)
