-- ===== src/Toysync/Date/Tests.antt =====
-- The theorems on the cache at a clock of ten seconds.
use benchmark_reverse_proxie.Common.{◌≡◌, refl, List, [], ◌∷◌, flatten, replicate, some, arith}
use benchmark_reverse_proxie.Common.Bytes.{Bytes, bytes}
use benchmark_reverse_proxie.Common.Bytes.Utf8.{is_utf8}
use benchmark_reverse_proxie.Common.Exec.{done, panicked}
use benchmark_reverse_proxie.Toysync.Date.{
  SystemTime, since_epoch, last, write_str, write_pieces, buffer, update, fmt, fmt_all,
}
use benchmark_reverse_proxie.Toysync.Date.Clock.{http_date, render, rendering, second_three}
use benchmark_reverse_proxie.Toysync.Date.Buffer.{IsValid}
use benchmark_reverse_proxie.Toysync.Date.Cache.{fmt_all-render}
use benchmark_reverse_proxie.Toysync.Date.Panics.{fmt-IsValid, fmt-too_long}

last-IsValid : IsValid last
last-IsValid = record { size = refl; within = omega arith }

three_shown : (fmt http_date second_three last).0 ≡ done (bytes "Thu, 01 Jan 1970 00:00:03 GMT")
unfolding fmt update buffer write_pieces write_str is_utf8
three_shown = refl

fmt_all-render_example :
    (fmt_all http_date (second_three ∷ since_epoch 3 900 ∷ since_epoch 4 0 ∷ []) last).0
    ≡ done (flatten (render 3) ∷ flatten (render 3) ∷ flatten (render 4) ∷ [])
fmt_all-render_example =
    fmt_all-render http_date 10 render rendering
      (second_three ∷ since_epoch 3 900 ∷ since_epoch 4 0 ∷ []) (omega arith)

fmt-IsValid_example : IsValid (fmt http_date second_three last).1
fmt-IsValid_example = fmt-IsValid http_date second_three last last-IsValid

abbrev too_late : SystemTime
too_late = since_epoch 12 0

abbrev long_text : List Bytes
long_text = replicate 100 65 ∷ replicate 29 66 ∷ []

fmt-too_long_example : (fmt (λ now. some long_text) second_three last).0 ≡ panicked
unfolding flatten
fmt-too_long_example =
    fmt-too_long (λ now. some long_text) second_three last long_text last-IsValid (omega arith) refl
      (omega arith)
