-- ===== src/Toysync/Date.antt =====
-- origin-toysync/src/date.rs (origin-tokio/src/main.rs holds the same module `date` once more): the
-- rendered `Date` header, cached for the second in which it was rendered.
pub mod Buffer
pub mod Cache
pub mod Panics
pub mod Clock
mod Tests
use benchmark_reverse_proxie.Common.{
  ℕ, ◌+◌, Bool, not, List, [], ◌∷◌, ◌++◌, Option, length, take, drop, replicate, leb, ◌==◌,
  if◌then◌else◌,
}
use benchmark_reverse_proxie.Common.Bytes.{Bytes}
use benchmark_reverse_proxie.Common.Bytes.Utf8.{is_utf8}
use benchmark_reverse_proxie.Common.Exec.{Exec, done, panicked, pure, unwrap, ◌>>=◌, ◌>>◌}

-- `std::time::SystemTime`, by its distance from `UNIX_EPOCH`.
pub data SystemTime : Type 0 where
  since_epoch : (secs nanos : ℕ) → SystemTime
  before_epoch : (secs nanos : ℕ) → SystemTime

-- `duration_since(UNIX_EPOCH).map(|d| d.as_secs()).unwrap_or(0)`
abbrev pub unix_secs : SystemTime → ℕ
unix_secs (since_epoch secs nanos) = secs
unix_secs (before_epoch secs nanos) = 0

pub record LastRenderedNow : Type 0 where
  pub bytes : List ℕ
  pub amt : ℕ
  pub unix_date : ℕ

-- The initial value of the thread local `LAST`.
abbrev pub last : LastRenderedNow
last = record { bytes = replicate 128 0; amt = 0; unix_date = 0 }

-- `LocalBuffer::write_str`: slicing `bytes[start..end]` panics if `end` is past the array.
unfoldable pub write_str : Bytes → Exec LastRenderedNow Unit
write_str s c =
    let start = c.amt in
    let end = start + length s in
    if leb end (length c.bytes)
    then (
      done tt,
      record c { bytes = take start c.bytes ++ (s ++ drop end c.bytes); amt = start + length s },
    )
    else (panicked, c)

-- `write!` hands the pieces that a `Display` writes to the buffer, one `write_str` for each.
unfoldable pub write_pieces : List Bytes → Exec LastRenderedNow Unit
write_pieces [] = pure tt
write_pieces (s ∷ ss) = write_str s >> write_pieces ss

-- `from_utf8(&bytes[..amt]).unwrap()`
unfoldable pub buffer : Exec LastRenderedNow Bytes
buffer c =
    if leb c.amt (length c.bytes)
    then (if is_utf8 (take c.amt c.bytes) then (done (take c.amt c.bytes), c) else (panicked, c))
    else (panicked, c)

-- `HttpDate::from` and the `Display` of `HttpDate` are of the crate httpdate: the pieces that are
-- written, or `none` where `from` panics.
module _ (http_date : SystemTime → Option (List Bytes)) where
  unfoldable pub update : SystemTime → ℕ → Exec LastRenderedNow Unit
  update now now_unix c =
      (unwrap (http_date now) >>= write_pieces) (record c { amt = 0; unix_date = now_unix })

  -- `Display::fmt` of `Now`, with the clock's answer as an argument: what is written to `f`.
  unfoldable pub fmt : SystemTime → Exec LastRenderedNow Bytes
  fmt now c =
      let now_unix = unix_secs now in
      ((if not (c.unix_date == now_unix) then update now now_unix else pure tt) >> buffer) c

  -- The calls that one thread makes, in order, with the text that each wrote.
  unfoldable pub fmt_all : List SystemTime → Exec LastRenderedNow (List Bytes)
  fmt_all [] = pure []
  fmt_all (now ∷ later) = do text ← fmt now; texts ← fmt_all later; pure (text ∷ texts)
