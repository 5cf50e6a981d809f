-- ===== src/Toysync/Date/Clock.antt =====
-- A stand-in for httpdate, for tests: a clock of the first ten seconds after the epoch.
use benchmark_reverse_proxie.Common.{
  ℕ, ◌+◌, ◌%◌, ◌≡◌, refl, true, List, [], ◌∷◌, flatten, Option, none, some, arith, ltb, lt→ltb,
  if◌then◌else◌,
}
use benchmark_reverse_proxie.Common.Bytes.{Bytes, bytes}
use benchmark_reverse_proxie.Common.Bytes.Utf8.{is_utf8}
use benchmark_reverse_proxie.Toysync.Date.{SystemTime, since_epoch, before_epoch}
use benchmark_reverse_proxie.Toysync.Date.Cache.{IsRendering}

abbrev digit : ℕ → Bytes
digit n = (48 + n % 10) ∷ []

abbrev pub render : ℕ → List Bytes
render secs = bytes "Thu, 01 Jan 1970 00:00:0" ∷ digit secs ∷ bytes " GMT" ∷ []

abbrev pub http_date : SystemTime → Option (List Bytes)
http_date (since_epoch secs nanos) = if ltb secs 10 then some (render secs) else none
http_date (before_epoch secs nanos) = none

digit-is_utf8 : (n : ℕ) → is_utf8 (digit n) ≡ true
unfolding is_utf8
digit-is_utf8 n = rw (lt→ltb (48 + n % 10) 0x80 (omega arith))

pub rendering : IsRendering http_date 10 render
unfolding is_utf8 flatten
rendering = record {
  renders = λ secs nanos h. rw (lt→ltb secs 10 h);
  fits = λ secs. omega arith;
  is_text = λ secs. (refl, (digit-is_utf8 secs, (refl, tt)));
}

abbrev pub second_three : SystemTime
second_three = since_epoch 3 500
