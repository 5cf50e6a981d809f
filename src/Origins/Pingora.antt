-- ===== src/Origins/Pingora.antt =====
-- origin-pingora/src/main.rs: `process_new`, which answers a new connection and drops it. The
-- request is not read.
pub mod Sends
use benchmark_reverse_proxie.Common.{
  ℕ, ◌-◌, ◌^◌, Bool, true, false, List, [], ◌∷◌, ◌++◌, Option, none, some, length, take, drop, ltb,
  leb, if◌then◌else◌,
}
use benchmark_reverse_proxie.Common.Bytes.{Bytes, bytes}
use benchmark_reverse_proxie.Common.Bytes.Decimal.{decimal}
use benchmark_reverse_proxie.Common.Exec.{Exec, done, panicked, pure, unwrap, ◌>>=◌, ◌>>◌}
use benchmark_reverse_proxie.Toysync.Date.{SystemTime, since_epoch, before_epoch}

-- `i64`
pub data Int64 : Type 0 where
  nonneg : ℕ → Int64
  neg : ℕ → Int64

-- `secs as i64`, for a `u64`.
abbrev pub as_i64 : ℕ → Int64
as_i64 secs = if ltb secs (2 ^ 63) then nonneg secs else neg (2 ^ 64 - secs)

-- `duration_since(UNIX_EPOCH)`, in seconds, if it is no error.
abbrev pub since_unix_epoch : SystemTime → Option ℕ
since_unix_epoch (since_epoch secs nanos) = some secs
since_unix_epoch (before_epoch secs nanos) = none

-- The socket: how many bytes it takes before a write fails, if one does, and whether `flush`
-- succeeds.
pub record Stream : Type 0 where
  pub room : Option ℕ
  pub flushes : Bool

abbrev pub body : Bytes
body = bytes "Hello, world!\n"

-- `io.write_all(text).await.unwrap()`, over what was sent before.
abbrev pub write_within : Option ℕ → Bytes → Exec Bytes Unit
write_within none text out = (done tt, out ++ text)
write_within (some room) text out =
    if leb (length (out ++ text)) room
    then (done tt, out ++ text)
    else (panicked, take room (out ++ text))

abbrev pub flush : Bool → Exec Bytes Unit
flush true out = (done tt, out)
flush false out = (panicked, out)

-- The crate chrono: `DateTime::from_timestamp(epoch_sec, 0)`, if there is one, in the given format.
module _ (format : Int64 → Option Bytes) where
  unfoldable pub to_date_string : Int64 → Exec Bytes Bytes
  to_date_string epoch_sec = unwrap (format epoch_sec)

  -- The arguments of `format!`.
  unfoldable pub header : Bytes → Bytes
  header date =
      bytes "HTTP/1.1 200 OK\r\ncontent-type: text/plain\r\ncontent-length: "
      ++ (decimal (length body)
          ++ (bytes "\r\ndate: " ++ (date ++ bytes "\r\nserver: pingora\r\n\r\n")))

  -- The state is what the client has been sent. It returns `None`, by which pingora closes the
  -- connection.
  unfoldable pub process_new : Stream → SystemTime → Exec Bytes (Option Stream)
  unfolding to_date_string header
  process_new io now = do
    d ← unwrap (since_unix_epoch now)
    date ← to_date_string (as_i64 d)
    write_within io.room (header date)
    write_within io.room body
    flush io.flushes
    pure none
