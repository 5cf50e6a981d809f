-- ===== src/Tokio/Date.antt =====
-- The module `date` of origin-tokio/src/main.rs, which is a copy of origin-toysync/src/date.rs.
pub mod Copy
use benchmark_reverse_proxie.Common.{
  ℕ, ◌+◌, not, List, [], ◌∷◌, ◌++◌, Option, length, take, drop, leb, ◌==◌, if◌then◌else◌, replicate,
}
use benchmark_reverse_proxie.Common.Bytes.{Bytes}
use benchmark_reverse_proxie.Common.Bytes.Utf8.{is_utf8}
use benchmark_reverse_proxie.Common.Exec.{Exec, done, panicked, pure, unwrap, ◌>>=◌, ◌>>◌}
use benchmark_reverse_proxie.Toysync.Date.{SystemTime, since_epoch, before_epoch, LastRenderedNow}

-- The initial value of the thread local `LAST`.
abbrev pub last : LastRenderedNow
last = record { bytes = replicate 128 0; amt = 0; unix_date = 0 }

-- `LocalBuffer::write_str`
write_str : Bytes → Exec LastRenderedNow Unit
write_str s cache =
    let start = cache.amt in
    let end = start + length s in
    if leb end (length cache.bytes)
    then (
      done tt,
      record cache {
        bytes = take start cache.bytes ++ (s ++ drop end cache.bytes);
        amt = cache.amt + length s;
      },
    )
    else (panicked, cache)

-- `write!` of the pieces of a `Display`.
write_pieces : List Bytes → Exec LastRenderedNow Unit
unfolding write_str
write_pieces [] = pure tt
write_pieces (s ∷ ss) = write_str s >> write_pieces ss

buffer : Exec LastRenderedNow Bytes
buffer cache =
    if leb cache.amt (length cache.bytes)
    then (if is_utf8 (take cache.amt cache.bytes)
        then (done (take cache.amt cache.bytes), cache)
        else (panicked, cache))
    else (panicked, cache)

-- The seconds since the epoch, or 0 where the clock stands before it.
abbrev now_unix : SystemTime → ℕ
now_unix (since_epoch secs nanos) = secs
now_unix (before_epoch secs nanos) = 0

module _ (http_date : SystemTime → Option (List Bytes)) where
  update : SystemTime → ℕ → Exec LastRenderedNow Unit
  unfolding write_pieces
  update now secs cache =
      (unwrap (http_date now) >>= write_pieces) (record cache { amt = 0; unix_date = secs })

  -- `Display::fmt` of `Now`.
  unfoldable pub fmt : SystemTime → Exec LastRenderedNow Bytes
  unfolding update buffer
  fmt now cache =
      ((if not (cache.unix_date == now_unix now) then update now (now_unix now) else pure tt)
          >> buffer)
        cache
